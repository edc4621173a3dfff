-- ===== src/Collectors/Registry/Reports.antt =====
-- jamsys-daemon/src/collectors/mod.rs: what the registry tells of its collectors, and which of them an
-- event from outside reaches.
use jamsys.Prelude.{
  ℕ, ◌/◌, Bool, true, false, Option, none, some, List, [], ◌∷◌, map, ltb, if◌then◌else◌, Text,
  text_is_eq, length,
}
use jamsys.Prelude.Dict
use jamsys.Prelude.Dict.{Dict}
use jamsys.Types.{Support, unsupported, disabled, is_usable, label, tier_name}
use jamsys.Collectors.Registry.{Entry, Registry}

-- A panic in `on_event` is stopped, and changes nothing of the registry: the collectors that are called.
unfoldable pub dispatch_event : Registry → List Text
dispatch_event [] = []
dispatch_event (e ∷ es) =
    if is_usable e.support then e.name ∷ dispatch_event es else dispatch_event es

-- Neither switched off nor absent: a quarantined collector keeps its descriptor.
abbrev watches : Support → Bool
watches disabled = false
watches (unsupported reason) = false
watches _ = true

-- `fd` is what each collector answers to `event_fd`.
unfoldable pub event_fds : (Text → Option ℕ) → Registry → List (Text × ℕ)
event_fds fd [] = []
event_fds fd (e ∷ es) =
    let rest = event_fds fd es in
    if watches e.support
    then (elim (fd e.name) [ none ↦ rest | some n ↦ (e.name, n) ∷ rest ])
    else rest

pub record Coverage : Type 0 where
  pub name : Text
  pub tier : Text
  pub support : Support
  pub label : Text
  pub last_error : Option Text
  pub runs : ℕ
  pub avg_us : ℕ

unfoldable pub coverage_of : Entry → Coverage
coverage_of e = record {
  name = e.name;
  tier = tier_name e.tier;
  support = e.support;
  label = label e.support;
  last_error = e.last_error;
  runs = e.total_runs;
  avg_us = if ltb 0 e.total_runs then e.total_us / e.total_runs else 0;
}

unfoldable pub coverage : Registry → List Coverage
unfolding coverage_of
coverage es = map coverage_of es

timings_into : Dict Text (ℕ × ℕ) → Registry → Dict Text (ℕ × ℕ)
timings_into m [] = m
timings_into m (e ∷ es) = timings_into (Dict.insert e.name (e.total_runs, e.total_us) m) es

-- Runs and microseconds under each name, the last of a name counting.
unfoldable pub timings : Registry → Dict Text (ℕ × ℕ)
unfolding timings_into
timings es = timings_into [] es

unfoldable pub len : Registry → ℕ
len es = length es

unfoldable pub is_empty : Registry → Bool
is_empty [] = true
is_empty (e ∷ es) = false
