-- ===== src/Collectors/Registry.antt =====
-- jamsys-daemon/src/collectors/mod.rs, `Registry`: which collectors run, and how one that fails is
-- isolated, quarantined and tried again. What a collector answers in a call is an argument; a panic,
-- which `catch_unwind` stops, is one of the answers. Times are readings of the monotonic clock.
pub mod Strikes
pub mod Retry
pub mod Toggle
pub mod Reports
mod Tests
use jamsys.Prelude.{
  ℕ, ◌+◌, ◌^◌, ◌%◌, Bool, true, false, not, ◌&&◌, Option, none, some, List, [], ◌∷◌, ◌++◌, ltb, leb,
  ◌==◌, if◌then◌else◌, Text, codes, text_eq, unwrap_or, max,
}
use jamsys.Types.{
  Support, full, partial, unsupported, quarantined, disabled, is_usable, Tier, tier_eq,
}

pub data CollectorError : Type 0 where
  gone bad_data io other : Text → CollectorError

-- `Display`; the text of an `io::Error` is its own.
unfoldable pub error_text : CollectorError → Text
error_text (gone s) = codes "interface gone: " ++ s
error_text (bad_data s) = codes "bad data: " ++ s
error_text (io e) = codes "io: " ++ e
error_text (other s) = s

pub data Outcome : Type 0 where
  collected : Outcome
  failed : CollectorError → Outcome
  panicked : Outcome

-- A collector's answers during one call: to `probe` (`none` where it panics), to `collect`, to the
-- second `probe` that a lost interface asks for, and the microseconds that `collect` took.
pub record Answers : Type 0 where
  pub probe : Option Support
  pub collect : Outcome
  pub probe_again : Option Support
  pub micros : ℕ

pub record Entry : Type 0 where
  pub name : Text
  pub tier : Tier
  pub support : Support
  pub consecutive_failures : ℕ
  pub retry_after_ms : ℕ
  pub last_error : Option Text
  pub total_runs : ℕ
  pub total_us : ℕ

abbrev pub quarantine_after : ℕ
quarantine_after = 3

abbrev pub quarantine_retry_ms : ℕ
quarantine_retry_ms = 900_000

abbrev pub u32_mod : ℕ
u32_mod = 2 ^ 32

unfoldable pub add : Text → Tier → Bool → Answers → Entry
add name tier enabled ans = record {
  name = name;
  tier = tier;
  support =
      if enabled
      then unwrap_or (quarantined (codes "panicked during probe") 1) ans.probe
      else disabled;
  consecutive_failures = 0;
  retry_after_ms = 0;
  last_error = none;
  total_runs = 0;
  total_us = 0;
}

unfoldable pub maybe_quarantine : ℕ → Entry → Entry
maybe_quarantine now e =
    if leb quarantine_after e.consecutive_failures
    then record e {
      support =
          quarantined (unwrap_or (codes "repeated failures") e.last_error) e.consecutive_failures;
      retry_after_ms = now + quarantine_retry_ms;
    }
    else e

-- One strike more, with its reason.
unfoldable pub strike : ℕ → Text → Entry → Entry
unfolding maybe_quarantine
strike now reason e = maybe_quarantine now (record e {
  consecutive_failures = (e.consecutive_failures + 1) % u32_mod;
  last_error = some reason;
})

-- The interface vanished: probe at once. A source that probes usable all the same gets a strike.
unfoldable pub reprobe : ℕ → Text → Option Support → Entry → Entry
unfolding strike
reprobe now reason answer e =
    let s = unwrap_or (unsupported (codes "probe panicked")) answer in
    let found = record e { support = s; last_error = some reason } in
    if is_usable s
    then strike now reason found
    else record found { consecutive_failures = 0; retry_after_ms = now + quarantine_retry_ms }

unfoldable pub after_collect : ℕ → Answers → Entry → Entry
unfolding strike reprobe error_text
after_collect now ans e = elim ans.collect [
  | collected ↦ record e { consecutive_failures = 0; last_error = none }
  | failed err ↦ elim err [
    | gone s ↦ reprobe now (error_text (gone s)) ans.probe_again e
    | bad_data s ↦ strike now (error_text (bad_data s)) e
    | io s ↦ strike now (error_text (io s)) e
    | other s ↦ strike now (error_text (other s)) e
  ]
  | panicked ↦ strike now (codes "panicked") e
]

unfoldable pub run_collect : ℕ → Answers → Entry → Entry
unfolding after_collect
run_collect now ans e =
    after_collect now ans
      (record e { total_us = e.total_us + ans.micros; total_runs = e.total_runs + 1 })

-- The retry window is reached: probe again rather than run blindly.
unfoldable pub retry : ℕ → Answers → Entry → Entry
unfolding run_collect
retry now ans e = elim ans.probe [
  | none ↦ record e {
    support = quarantined (codes "probe panicked") (max e.consecutive_failures 1);
    retry_after_ms = now + quarantine_retry_ms;
  }
  | some s ↦
      if is_usable s
      then run_collect now ans
          (record e { support = s; consecutive_failures = 0; retry_after_ms = 0 })
      else record e { support = s; retry_after_ms = now + quarantine_retry_ms }
]

-- The body of the loop for a collector of the tier, by what is known of it.
unfoldable pub visit : ℕ → Answers → Support → Entry → Entry
unfolding run_collect retry
visit now ans disabled e = e
visit now ans (unsupported reason) e =
    if e.retry_after_ms == 0 then e else if ltb now e.retry_after_ms then e else retry now ans e
visit now ans (quarantined reason failures) e =
    if ltb now e.retry_after_ms then e else retry now ans e
visit now ans full e = run_collect now ans e
visit now ans (partial detail) e = run_collect now ans e

unfoldable pub run_entry : Tier → ℕ → Answers → Entry → Entry
unfolding visit
run_entry tier now ans e = if tier_eq e.tier tier then visit now ans e.support e else e

abbrev pub Registry : Type 0
Registry = List Entry

unfoldable pub run_tier : Tier → (Text → Answers) → ℕ → Registry → Registry
unfolding run_entry
run_tier tier ask now [] = []
run_tier tier ask now (e ∷ es) = run_entry tier now (ask e.name) e ∷ run_tier tier ask now es

-- Switching a collector off keeps a scheduled retry, and so does switching it on to a probe that finds
-- nothing usable.
unfoldable pub set_entry : Bool → Option Support → Entry → Entry
set_entry false answer e = record e { support = disabled }
set_entry true answer e =
    let s = unwrap_or (unsupported (codes "probe panicked")) answer in
    record e {
      consecutive_failures = 0;
      support = s;
      retry_after_ms = if is_usable s then 0 else e.retry_after_ms;
    }

-- The first collector of that name; the answer says whether there is one.
unfoldable pub set_enabled : Text → Bool → Option Support → Registry → Registry × Bool
unfolding set_entry
set_enabled name enabled answer [] = ([], false)
set_enabled name enabled answer (e ∷ es) =
    if text_eq e.name name
    then (set_entry enabled answer e ∷ es, true)
    else let (rest, found) = set_enabled name enabled answer es in (e ∷ rest, found)

unfoldable pub usable_count : Registry → ℕ
usable_count [] = 0
usable_count (e ∷ es) = (if is_usable e.support then 1 else 0) + usable_count es
