-- ===== src/Collectors/Registry/Strikes.antt =====
-- Three strikes: a collector is quarantined at the third failure in a row and not before.
use jamsys.Prelude.{
  ℕ, ◌+◌, ◌<◌, ◌≡◌, refl, Bool, true, false, not, ◌||◌, Option, none, some, [], ◌∷◌, ltb,
  if◌then◌else◌, Text, All, arith,
}
use jamsys.Types.{
  Support, full, partial, unsupported, quarantined, disabled, is_usable, Tier, tier_eq,
}
use jamsys.Collectors.Registry.{
  Entry, Answers, collected, failed, panicked, gone, quarantine_after, quarantine_retry_ms, add,
  visit, run_entry, Registry, set_entry, set_enabled,
}

-- A collector that counts as usable has had fewer than three failures in a row.
pub record IsSound (e : Entry) : Type 0 where
  pub few : (not (is_usable e.support) || ltb e.consecutive_failures quarantine_after) ≡ true

-- A new collector, whatever its probe answers, has no strikes.
pub add-IsSound :
    (name : Text) (tier : Tier) (enabled : Bool) (ans : Answers)
    → IsSound (add name tier enabled ans)
unfolding add
add-IsSound name tier enabled ans = record { few = ground arith }

set_entry-IsSound :
    (on : Bool) (answer : Option Support) (e : Entry) → IsSound (set_entry on answer e)
unfolding set_entry
set_entry-IsSound false answer e = record { few = ground arith }
set_entry-IsSound true answer e = record { few = ground arith }

-- So it stays when a collector is switched on or off.
pub set_enabled-IsSound :
    (name : Text) (on : Bool) (answer : Option Support) (es : Registry)
    → All IsSound es
    → All IsSound (set_enabled name on answer es).0
unfolding set_enabled
set_enabled-IsSound name on answer [] h = tt
set_enabled-IsSound name on answer (e ∷ es) h =
    ground (arith, set_entry-IsSound on answer e, set_enabled-IsSound name on answer es h.1, h)

-- The collector ran and failed, or its interface vanished though it probes usable.
abbrev pub probes_usable : Option Support → Bool
probes_usable none = false
probes_usable (some s) = is_usable s

abbrev pub is_failure : Answers → Bool
is_failure ans = elim ans.collect [
  | collected ↦ false
  | panicked ↦ true
  | failed err ↦ elim err [ gone s ↦ probes_usable ans.probe_again | _ ↦ true ]
]

strike_once :
    (now : ℕ) (ans : Answers) (s : Support) (e : Entry)
    → is_usable s ≡ true
    → e.support ≡ s
    → is_failure ans ≡ true
    → e.consecutive_failures < quarantine_after
    → let v = visit now ans s e in
      (v.consecutive_failures ≡ e.consecutive_failures + 1)
      × (v.tier ≡ e.tier)
      × (is_usable v.support ≡ ltb (e.consecutive_failures + 1) quarantine_after)
      × (v.retry_after_ms ≡ (
          if ltb (e.consecutive_failures + 1) quarantine_after
          then e.retry_after_ms
          else now + quarantine_retry_ms))
unfolding visit
strike_once now ans full e u same f few = ground arith
strike_once now ans (partial detail) e u same f few = ground arith
strike_once now ans (unsupported reason) e u same f few = cc
strike_once now ans (quarantined reason n) e u same f few = cc
strike_once now ans disabled e u same f few = cc

tick_once :
    (tier : Tier) (now : ℕ) (ans : Answers) (e : Entry)
    → tier_eq e.tier tier ≡ true
    → is_usable e.support ≡ true
    → is_failure ans ≡ true
    → e.consecutive_failures < quarantine_after
    → let v = run_entry tier now ans e in
      (v.consecutive_failures ≡ e.consecutive_failures + 1)
      × (v.tier ≡ e.tier)
      × (is_usable v.support ≡ ltb (e.consecutive_failures + 1) quarantine_after)
      × (v.retry_after_ms ≡ (
          if ltb (e.consecutive_failures + 1) quarantine_after
          then e.retry_after_ms
          else now + quarantine_retry_ms))
unfolding run_entry
tick_once tier now ans e t u f few = rw t (strike_once now ans e.support e u refl f few)

-- A usable collector with a clean record that fails three times in a row still counts as usable after
-- the second failure; after the third it does not, and its next attempt is a quarantine away.
three_strikes :
    (tier : Tier) (t₁ t₂ t₃ : ℕ) (a₁ a₂ a₃ : Answers) (e : Entry)
    → tier_eq e.tier tier ≡ true
    → is_usable e.support ≡ true
    → e.consecutive_failures ≡ 0
    → is_failure a₁ ≡ true
    → is_failure a₂ ≡ true
    → is_failure a₃ ≡ true
    → let second = run_entry tier t₂ a₂ (run_entry tier t₁ a₁ e) in
      let third = run_entry tier t₃ a₃ second in
      (is_usable second.support ≡ true)
      × (is_usable third.support ≡ false)
      × (third.retry_after_ms ≡ t₃ + quarantine_retry_ms)
three_strikes tier t₁ t₂ t₃ a₁ a₂ a₃ e t u none_yet f₁ f₂ f₃ =
    let e₁ = run_entry tier t₁ a₁ e in
    let e₂ = run_entry tier t₂ a₂ e₁ in
    let (n₁, s₁, u₁, r₁) = tick_once tier t₁ a₁ e t u f₁ (omega arith) in
    let ok₁ : is_usable e₁.support ≡ true = ground (arith, u₁, none_yet) in
    let tier₁ : tier_eq e₁.tier tier ≡ true = rw s₁ t in
    let (n₂, s₂, u₂, r₂) = tick_once tier t₂ a₂ e₁ tier₁ ok₁ f₂ (omega arith) in
    let ok₂ : is_usable e₂.support ≡ true = ground (arith, u₂, n₁, none_yet) in
    let tier₂ : tier_eq e₂.tier tier ≡ true = rw s₂ tier₁ in
    let (n₃, s₃, u₃, r₃) = tick_once tier t₃ a₃ e₂ tier₂ ok₂ f₃ (omega arith) in
    (ok₂, ground (arith, u₃, n₂, n₁, none_yet), ground (arith, r₃, n₂, n₁, none_yet))
