-- ===== src/Anomaly/Rules/Laws.antt =====
-- What holds of the engine if firing an alert keeps it, whatever the clocks and the baselines become.
pub mod Machine
pub mod Parts
pub mod Links
pub mod Learning
use jamsys.Prelude.{
  ℕ, ◌≡◌, refl, Bool, true, false, not, ◌||◌, Option, none, some, List, [], ◌∷◌, ◌++◌, leb, ◌==◌,
  ◌&&◌, codes, if◌then◌else◌, Text, is_empty, Option-cases, inl, inr,
}
use jamsys.Types.{Alert, Explanation, rank}
use jamsys.Anomaly.Baseline.{Baselines}
use jamsys.Anomaly.Dwell.{update, clear}
use jamsys.Anomaly.Rules.{RuleEngine, fire, fire_if, fire_held, fire_held_else, each}

abbrev pub is_nil {ℓ} : {A : Type ℓ} → List A → Bool
is_nil [] = true
is_nil (x ∷ xs) = false

-- An alert that tells the user something: it has a title and a measurement, evidence or an action, and
-- it is no mere information.
abbrev pub Speaks : Alert → Type 0
Speaks a =
    (is_empty a.title ≡ false)
    × (is_empty a.explanation.what ≡ false)
    × (not (is_nil a.explanation.evidence) || not (is_nil a.explanation.actions) ≡ true)
    × (leb 1 (rank a.severity) ≡ true)

abbrev pub has_prefix : Text → Text → Bool
has_prefix [] t = true
has_prefix (c ∷ p) [] = false
has_prefix (c ∷ p) (x ∷ t) = c == x && has_prefix p t

-- The rules on the temperature of the processor stand apart: one of them waits for the other.
abbrev pub is_temp : Text → Bool
is_temp rule = has_prefix (codes "cpu.temp.") rule

-- What holds of the alerts of all other rules.
abbrev pub Ordinary : Alert → Type 0
Ordinary a =
    (is_empty a.title ≡ false)
    × (is_empty a.explanation.what ≡ false)
    × (not (is_nil a.explanation.evidence) || not (is_nil a.explanation.actions) ≡ true)
    × (leb 1 (rank a.severity) ≡ true)
    × (is_temp a.rule_id ≡ false)

pub not_empty : (s t : Text) → is_empty t ≡ false → is_empty (s ++ t) ≡ false
not_empty [] t h = h
not_empty (c ∷ s) t h = refl

pub either_not_empty :
    (b : Bool) (s t : Text)
    → is_empty s ≡ false
    → is_empty t ≡ false
    → is_empty (if b then s else t) ≡ false
either_not_empty true s t h g = h
either_not_empty false s t h g = g

-- The two ways that `fire_held_else` may go.
pub fire_held_else_cases {ℓ κ} :
    {F : Type ℓ} (P : RuleEngine F → Type κ) (key : Text) (condition : Bool) (now required : ℕ)
    (alert : ℕ → Alert) (otherwise : RuleEngine F → RuleEngine F) (e : RuleEngine F)
    → ((held : ℕ)
        → (update key condition now required e.dwell).1 ≡ some held
        → P (
            fire (alert held) (record e { dwell = (update key condition now required e.dwell).0 })))
    → ((update key condition now required e.dwell).1 ≡ none
        → P (otherwise (record e { dwell = (update key condition now required e.dwell).0 })))
    → P (fire_held_else key condition now required alert otherwise e)
unfolding fire_held_else
fire_held_else_cases P key condition now required alert otherwise e fires goes =
    elim (Option-cases (update key condition now required e.dwell).1) [
      | inl q ↦ rw (q, fire_held_else) (goes q)
      | inr (held, q) ↦ rw (q, fire_held_else) (fires held q)
    ]

pub record IsKept {ℓ κ} {F : Type ℓ} (P : RuleEngine F → Type κ) : Type (ℓ ⊔ κ) where
  pub fired : (a : Alert) (e : RuleEngine F) → Ordinary a → P e → P (fire a e)
  pub dwelt :
      (key : Text) (condition : Bool) (now required : ℕ) (e : RuleEngine F)
      → is_temp key ≡ false
      → P e
      → P (record e { dwell = (update key condition now required e.dwell).0 })
  pub cleared :
      (key : Text) (e : RuleEngine F)
      → is_temp key ≡ false
      → P e
      → P (record e { dwell = clear key e.dwell })
  pub learned : (b : Baselines F) (e : RuleEngine F) → P e → P (record e { baselines = b })

module _ {ℓ κ} {F : Type ℓ} {P : RuleEngine F → Type κ} (k : IsKept P) where
  pub fire_if-kept :
      (c : Bool) (a : Alert) (e : RuleEngine F) → Ordinary a → P e → P (fire_if c a e)
  unfolding fire_if
  fire_if-kept true a e s p = k.fired a e s p
  fire_if-kept false a e s p = p

  pub fire_held-kept :
      (key : Text) (condition : Bool) (now required : ℕ) (alert : ℕ → Alert) (e : RuleEngine F)
      → is_temp key ≡ false
      → ((held : ℕ) → Ordinary (alert held))
      → P e
      → P (fire_held key condition now required alert e)
  unfolding fire_held
  fire_held-kept key condition now required alert e other speaks p =
      let (dwell, held) = update key condition now required e.dwell in
      let e' = record e { dwell = dwell } in
      let p' : P e' = k.dwelt key condition now required e other p in
      elim held as (λ h. P (elim h [ none ↦ e' | some s ↦ fire (alert s) e' ])) [
        | none ↦ p'
        | some s ↦ k.fired (alert s) e' (speaks s) p'
      ]

  pub each-kept {μ} :
      {A : Type μ} (f : A → RuleEngine F → RuleEngine F) (items : List A) (e : RuleEngine F)
      → ((a : A) (e' : RuleEngine F) → P e' → P (f a e'))
      → P e
      → P (each f items e)
  unfolding each
  each-kept f [] e keeps p = p
  each-kept f (a ∷ rest) e keeps p = each-kept f rest (f a e) keeps (keeps a e p)
