-- ===== src/Clock.antt =====
-- jamsys-daemon/src/clock.rs, `SuspendWatch`: a suspend shows as a gap between the clock that stops
-- during it and the one that does not. Readings are milliseconds since boot.
pub mod Laws
mod Tests
use jamsys.Prelude.{ℕ, ◌+◌, ◌-◌, Bool, true, false, Option, none, some, leb, if◌then◌else◌}

pub record SuspendEvent : Type 0 where
  pub slept_ms : ℕ
  pub resumed_at_ms : ℕ

pub record SuspendWatch : Type 0 where
  pub last_mono : ℕ
  pub last_boot : ℕ
  pub threshold_ms : ℕ

abbrev pub with_state : ℕ → ℕ → ℕ → SuspendWatch
with_state mono boot threshold_ms = record {
  last_mono = mono;
  last_boot = boot;
  threshold_ms = threshold_ms;
}

abbrev pub new : ℕ → ℕ → SuspendWatch
new mono boot = with_state mono boot 5_000

-- `d_boot - d_mono >= threshold_ms`, with the differences written as sums.
unfoldable pub check : ℕ → ℕ → ℕ → SuspendWatch → SuspendWatch × Option SuspendEvent
check mono boot wall w =
    let next = record w { last_mono = mono; last_boot = boot } in
    if leb (w.threshold_ms + (mono + w.last_boot)) (boot + w.last_mono)
    then (
      next,
      some (record { slept_ms = boot + w.last_mono - (mono + w.last_boot); resumed_at_ms = wall }),
    )
    else (next, none)
