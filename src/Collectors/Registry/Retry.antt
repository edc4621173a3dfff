-- ===== src/Collectors/Registry/Retry.antt =====
-- A collector that is out is left alone until its time, and then tried again.
use jamsys.Prelude.{ℕ, ◌+◌, ◌≤◌, ◌<◌, ◌≡◌, refl, Bool, false, Option, List, [], ◌∷◌, arith}
use jamsys.Types.{Support, full, partial, unsupported, quarantined, disabled, is_usable, Tier}
use jamsys.Collectors.Registry.{Entry, Answers, quarantine_retry_ms, visit, run_entry, set_entry}

-- What happens to one collector: its tier runs, or it is switched.
pub data Event : Type 0 where
  ticks : ℕ → Answers → Event
  switched : Bool → Option Support → Event

unfoldable pub happen : Tier → Event → Entry → Entry
happen tier (ticks now ans) e = run_entry tier now ans e
happen tier (switched on answer) e = set_entry on answer e

unfoldable pub history : Tier → List Event → Entry → Entry
history tier [] e = e
history tier (v ∷ vs) e = history tier vs (happen tier v e)

-- No event lies after `now`.
abbrev pub Before : ℕ → List Event → Type 0
Before now [] = Unit {0}
Before now (ticks t ans ∷ vs) = (t ≤ now) × Before now vs
Before now (switched on answer ∷ vs) = Before now vs

-- The next attempt is at most a quarantine ahead.
abbrev pub IsDue : ℕ → Entry → Type 0
IsDue now e = e.retry_after_ms ≤ now + quarantine_retry_ms

visit_waits :
    (now : ℕ) (ans : Answers) (s : Support) (e : Entry)
    → is_usable s ≡ false
    → now < e.retry_after_ms
    → visit now ans s e ≡ e
unfolding visit
visit_waits now ans full e u early = cc
visit_waits now ans (partial detail) e u early = cc
visit_waits now ans (unsupported reason) e u early = ground arith
visit_waits now ans (quarantined reason n) e u early = ground arith
visit_waits now ans disabled e u early = refl

-- A collector that is quarantined, or absent with a retry scheduled, is neither probed nor read before
-- its time: nothing of it changes.
run_entry_waits :
    (tier : Tier) (now : ℕ) (ans : Answers) (e : Entry)
    → is_usable e.support ≡ false
    → now < e.retry_after_ms
    → run_entry tier now ans e ≡ e
unfolding run_entry
run_entry_waits tier now ans e u early = ground (arith, visit_waits now ans e.support e u early)

-- A collector that is read again, after one that was out.
abbrev pub IsBack : Support → Entry → Entry → Type 0
IsBack s e back =
    (back.support ≡ s)
    × (back.total_runs ≡ e.total_runs + 1)
    × (back.consecutive_failures ≡ 0)
    × (back.retry_after_ms ≡ 0)
