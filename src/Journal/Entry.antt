-- ===== src/Journal/Entry.antt =====
-- jamsys-daemon/src/journal.rs, `parse_line`: one line of the journal. Its JSON, as the library reads it,
-- is an argument, as are `lossy`, which makes a text of bytes, and the time of the wall clock.
use jamsys.Prelude.{
  ℕ, ◌-◌, ◌/◌, ◌%◌, ◌^◌, Bool, false, not, ◌&&◌, ◌==◌, Option, none, some, List, [], ◌∷◌, leb,
  if◌then◌else◌, Text, codes, text_eq, is_empty, all, unwrap_or,
}
use jamsys.Prelude.Decimal.{read_digits, is_digit}
use jamsys.Prelude.Int.{ℤ, pos, negsuc}

-- A value of JSON: of an array, what `as_u64` says of each element; of a number, what it says of it.
pub data Value : Type 0 where
  string : Text → Value
  array : List (Option ℕ) → Value
  number : Option ℕ → Value
  other : Value

pub record RawEntry : Type 0 where
  pub realtime : Option Text
  pub priority : Option Value
  pub message : Option Value
  pub unit : Option Text
  pub unit2 : Option Text
  pub syslog_id : Option Text
  pub transport : Option Text

pub record JournalEntry : Type 0 where
  pub ts_ms : ℤ
  pub priority : ℕ
  pub message : Text
  pub unit : Text
  pub syslog_id : Text
  pub is_kernel : Bool

bytes_of : List (Option ℕ) → List ℕ
bytes_of [] = []
bytes_of (none ∷ vs) = bytes_of vs
bytes_of (some x ∷ vs) = x % 256 ∷ bytes_of vs

unfoldable pub message_to_string : (List ℕ → Text) → Value → Text
unfolding bytes_of
message_to_string lossy (string s) = s
message_to_string lossy (array vs) = lossy (bytes_of vs)
message_to_string lossy (number n) = []
message_to_string lossy other = []

-- Digits, at least one.
abbrev digits : Text → Option ℕ
digits s = if not (is_empty s) && all is_digit s then some (read_digits 0 s) else none

abbrev at_most : ℕ → Option ℕ → Option ℕ
at_most top none = none
at_most top (some v) = if leb v top then some v else none

-- `parse::<u8>`: a plus sign is allowed.
unfoldable pub parse_u8 : Text → Option ℕ
parse_u8 [] = none
parse_u8 (c ∷ s) = at_most 255 (digits (if c == b'+' then s else c ∷ s))

abbrev negated : ℕ → ℤ
negated k = if k == 0 then pos 0 else negsuc (k - 1)

-- `parse::<i64>` of microseconds, then `/ 1000`, which rounds towards zero.
unfoldable pub parse_ms : Text → Option ℤ
parse_ms [] = none
parse_ms (c ∷ s) =
    if c == b'-'
    then (elim (at_most (2 ^ 63) (digits s)) [ none ↦ none | some v ↦ some (negated (v / 1000)) ])
    else elim (at_most (2 ^ 63 - 1) (digits (if c == b'+' then s else c ∷ s))) [
      | none ↦ none
      | some v ↦ some (pos (v / 1000))
    ]

unfoldable pub priority_of : Value → Option ℕ
unfolding parse_u8
priority_of (string s) = parse_u8 s
priority_of (number none) = none
priority_of (number (some x)) = some (x % 256)
priority_of (array vs) = none
priority_of other = none

abbrev and_then {ℓ κ} : {A : Type ℓ} {B : Type κ} → Option A → (A → Option B) → Option B
and_then none f = none
and_then (some a) f = f a

abbrev or {ℓ} : {A : Type ℓ} → Option A → Option A → Option A
or none b = b
or (some a) b = some a

-- `raw` is `none` where the line is no such object.
unfoldable pub parse_line : (List ℕ → Text) → ℤ → Option RawEntry → Option JournalEntry
unfolding message_to_string parse_ms priority_of
parse_line lossy now none = none
parse_line lossy now (some raw) =
    let msg = unwrap_or [] (and_then raw.message (λ v. some (message_to_string lossy v))) in
    if is_empty msg
    then none
    else some (record {
      ts_ms = unwrap_or now (and_then raw.realtime parse_ms);
      priority = unwrap_or 6 (and_then raw.priority priority_of);
      message = msg;
      unit = unwrap_or [] (or raw.unit raw.unit2);
      syslog_id = unwrap_or [] raw.syslog_id;
      is_kernel = (elim raw.transport [ none ↦ false | some t ↦ text_eq t (codes "kernel") ]);
    })
