-- ===== src/Anomaly/Rules.antt =====
-- jamsys-daemon/src/anomaly/rules.rs: what every rule does with the engine. The alerts of an
-- evaluation and the engine's own fields are one state here, which the rules change in turn.
pub mod Causes
pub mod Cpu
pub mod Memory
pub mod Thermal
pub mod Storage
pub mod Nvme
pub mod Gpu
pub mod Power
pub mod Network
pub mod Services
pub mod Bluetooth
pub mod Learned
pub mod Evaluation
pub mod Gaps
pub mod Drops
pub mod Laws
use jamsys.Prelude.{
  ℕ, Bool, true, false, Option, none, some, List, [], ◌∷◌, ◌++◌, if◌then◌else◌, Text, text_is_eq,
}
use jamsys.Prelude.Dict.{Dict}
use jamsys.Prelude.Int.{pos}
use jamsys.Prelude.Real.{Real}
use jamsys.Types.{Alert, Evidence, Explanation}
use jamsys.Anomaly.Baseline.{Baselines}
use jamsys.Anomaly.Dwell.{DwellTracker, update}
use jamsys.Config.{threshold}

pub record RuleEngine {ℓ} (F : Type ℓ) : Type ℓ where
  pub dwell : DwellTracker
  pub baselines : Baselines F
  pub firing : List Text
  pub out : List Alert

-- `[thresholds]` in the settings.
abbrev pub Thresholds {ℓ} : Type ℓ → Type ℓ
Thresholds F = Dict Text F

-- `format!`.
abbrev pub format : List Text → Text
format [] = []
format (t ∷ ts) = t ++ format ts

abbrev pub evidence : Text → Text → Evidence
evidence label value = record { label = label; value = value }

-- An explanation with all that the builder methods may set.
abbrev pub explained :
    Text → Option Text → ℕ → List Evidence → Option Text → List Text → Explanation
explained what expected held evidence cause actions = record {
  what = what;
  expected = expected;
  since_s = pos held;
  evidence = evidence;
  likely_cause = cause;
  actions = actions;
}

module _ {ℓ} {F : Type ℓ} where
  unfoldable pub fire : Alert → RuleEngine F → RuleEngine F
  fire a e = record e { firing = e.firing ++ (a.fingerprint ∷ []); out = e.out ++ (a ∷ []) }

  unfoldable pub fire_if : Bool → Alert → RuleEngine F → RuleEngine F
  fire_if true a e = fire a e
  fire_if false a e = e

  -- `if let Some(held) = self.dwell.update(..) { self.fire(..) } else { .. }`.
  unfoldable pub fire_held_else :
      Text
      → Bool
      → ℕ
      → ℕ
      → (ℕ → Alert)
      → (RuleEngine F → RuleEngine F)
      → RuleEngine F
      → RuleEngine F
  unfolding fire
  fire_held_else key condition now required alert otherwise e =
      let (dwell, held) = update key condition now required e.dwell in
      let e' = record e { dwell = dwell } in
      elim held [ none ↦ otherwise e' | some s ↦ fire (alert s) e' ]

  unfoldable pub fire_held : Text → Bool → ℕ → ℕ → (ℕ → Alert) → RuleEngine F → RuleEngine F
  unfolding fire_held_else
  fire_held key condition now required alert e =
      fire_held_else key condition now required alert (λ e'. e') e

  -- A `for` loop.
  unfoldable pub each {κ} :
      {A : Type κ} → (A → RuleEngine F → RuleEngine F) → List A → RuleEngine F → RuleEngine F
  each f [] e = e
  each f (a ∷ rest) e = each f rest (f a e)

  -- A setting of a rule, as a whole number where it is built in.
  unfoldable pub limit : ⦃d : Real F⦄ → Thresholds F → Text → Text → ℕ → F
  limit ⦃d⦄ cfg rule key default = threshold cfg rule key (d.of_ℕ default)
