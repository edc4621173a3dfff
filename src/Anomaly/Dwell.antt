-- ===== src/Anomaly/Dwell.antt =====
-- jamsys-daemon/src/anomaly/dwell.rs: for how long a condition has been true. Times are readings of the
-- monotonic clock, in milliseconds.
pub mod Laws
use jamsys.Prelude.{
  ℕ, ◌-◌, ◌*◌, ◌/◌, Bool, true, false, Option, none, some, List, [], ◌∷◌, ltb, leb, if◌then◌else◌,
  Text, text_is_eq, unwrap_or, length,
}
use jamsys.Prelude.Dict
use jamsys.Prelude.Dict.{Dict}

-- When the condition of a key was first seen true.
abbrev pub DwellTracker : Type 0
DwellTracker = Dict Text ℕ

abbrev pub new : DwellTracker
new = []

unfoldable pub update : Text → Bool → ℕ → ℕ → DwellTracker → DwellTracker × Option ℕ
update key false now required since = (Dict.remove key since, none)
update key true now required since =
    let start = unwrap_or now (Dict.get key since) in
    let entered = Dict.insert key start since in
    if ltb now start
    then (Dict.insert key now entered, none)
    else let held = (now - start) / 1000 in (entered, if leb required held then some held else none)

unfoldable pub held_s : Text → ℕ → DwellTracker → ℕ
held_s key now since = elim (Dict.get key since) [ none ↦ 0 | some s ↦ (now - s) / 1000 ]

unfoldable pub is_active : Text → DwellTracker → Bool
is_active key since = Dict.contains_key key since

unfoldable pub clear : Text → DwellTracker → DwellTracker
clear key since = Dict.remove key since

abbrev pub month_ms : ℕ
month_ms = 30 * 86_400_000

unfoldable pub gc : ℕ → DwellTracker → DwellTracker
gc now since = Dict.retain (λ s. ltb (now - s) month_ms) since

unfoldable pub len : DwellTracker → ℕ
len since = length since

unfoldable pub is_empty : DwellTracker → Bool
is_empty [] = true
is_empty (p ∷ m) = false
