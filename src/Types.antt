-- ===== src/Types.antt =====
-- jamsys-daemon/src/types.rs: severities, tiers, the support of a collector, and alerts with the
-- explanation that each one carries.
pub mod Context
pub mod Metric
use jamsys.Prelude.{
  ℕ, Bool, true, false, Option, none, some, List, [], ◌∷◌, ◌++◌, ltb, ◌==◌, if◌then◌else◌, Text,
  codes, is_empty, Eq, ◌≡◌, ◌↔◌, arith,
}
use jamsys.Prelude.Int.{ℤ, pos, negsuc}
use jamsys.Util.Duration.{human_duration}

pub data Tier : Type 0 where
  fast medium slow glacial event : Tier

-- The discriminant, by which `derive(PartialEq)` compares.
abbrev tier_index : Tier → ℕ
tier_index fast = 0
tier_index medium = 1
tier_index slow = 2
tier_index glacial = 3
tier_index event = 4

abbrev pub tier_eq : Tier → Tier → Bool
tier_eq a b = tier_index a == tier_index b

unfoldable pub tier_name : Tier → Text
tier_name fast = codes "fast"
tier_name medium = codes "medium"
tier_name slow = codes "slow"
tier_name glacial = codes "glacial"
tier_name event = codes "event"

-- What works on this machine. An absent device is no error.
pub data Support : Type 0 where
  full : Support
  partial : Text → Support
  unsupported : Text → Support
  quarantined : Text → ℕ → Support
  disabled : Support

abbrev pub is_usable : Support → Bool
is_usable full = true
is_usable (partial detail) = true
is_usable _ = false

unfoldable pub label : Support → Text
label full = codes "Full"
label (partial detail) = codes "Partial"
label (unsupported reason) = codes "Unavailable"
label (quarantined reason failures) = codes "Quarantined"
label disabled = codes "Disabled"

pub data Severity : Type 0 where
  info notice warning critical : Severity

-- `severity as i64`, which also orders the severities.
abbrev pub rank : Severity → ℕ
rank info = 0
rank notice = 1
rank warning = 2
rank critical = 3

-- `a > b`.
abbrev pub severity_gt : Severity → Severity → Bool
severity_gt a b = ltb (rank b) (rank a)

abbrev pub severity_beq : Severity → Severity → Bool
severity_beq a b = rank a == rank b

pub severity_beq_iff : (a b : Severity) → (severity_beq a b ≡ true) ↔ (a ≡ b)
severity_beq_iff a b = ground arith

instance abbrev pub severity_is_eq : Eq Severity
severity_is_eq = record { beq = severity_beq; beq_iff = severity_beq_iff }

unfoldable pub from_i64 : ℤ → Severity
from_i64 (negsuc n) = critical
from_i64 (pos n) =
    if n == 0 then info else if n == 1 then notice else if n == 2 then warning else critical

unfoldable pub severity_name : Severity → Text
severity_name info = codes "INFO"
severity_name notice = codes "NOTICE"
severity_name warning = codes "WARNING"
severity_name critical = codes "CRITICAL"

-- Least seconds between two notifications for one fingerprint.
unfoldable pub cooldown_s : Severity → ℕ
cooldown_s info = 300
cooldown_s notice = 300
cooldown_s warning = 180
cooldown_s critical = 60

pub record Evidence : Type 0 where
  pub label : Text
  pub value : Text

pub record Explanation : Type 0 where
  pub what : Text
  pub expected : Option Text
  pub since_s : ℤ
  pub evidence : List Evidence
  pub likely_cause : Option Text
  pub actions : List Text

-- The start of every explanation; the builder methods then set one field each.
unfoldable pub explain : Text → Explanation
explain what = record {
  what = what;
  expected = none;
  since_s = pos 0;
  evidence = [];
  likely_cause = none;
  actions = [];
}

abbrev line_of : Text → Option Text → Text
line_of before none = []
line_of before (some t) = before ++ t

evidence_lines : List Evidence → Text
evidence_lines [] = []
evidence_lines (e ∷ es) =
    codes "\n  · " ++ (e.label ++ (codes ": " ++ (e.value ++ evidence_lines es)))

action_lines : List Text → Text
action_lines [] = []
action_lines (a ∷ rest) = codes "\n  → " ++ (a ++ action_lines rest)

since_line : ℤ → Text
since_line (negsuc n) = []
since_line (pos n) =
    if ltb 0 n then codes "\nOngoing for " ++ (human_duration (pos n) ++ codes ".") else []

suggested : List Text → Text
unfolding action_lines
suggested [] = []
suggested (a ∷ rest) = codes "\nSuggested checks:" ++ action_lines (a ∷ rest)

-- Every part that is present, each on lines of its own.
unfoldable pub render : Explanation → Text
unfolding since_line evidence_lines suggested
render e =
    e.what
    ++ (line_of (codes "\nExpected: ") e.expected
        ++ (since_line e.since_s
            ++ (evidence_lines e.evidence
                ++ (line_of (codes "\nLikely cause: ") e.likely_cause ++ suggested e.actions))))

pub record Alert : Type 0 where
  pub rule_id : Text
  pub fingerprint : Text
  pub severity : Severity
  pub title : Text
  pub explanation : Explanation

-- The fingerprint is `rule_id`, or `rule_id:instance`.
unfoldable pub new_alert : Text → Text → Severity → Text → Explanation → Alert
new_alert rule instance_name severity title explanation = record {
  rule_id = rule;
  fingerprint = if is_empty instance_name then rule else rule ++ (codes ":" ++ instance_name);
  severity = severity;
  title = title;
  explanation = explanation;
}
