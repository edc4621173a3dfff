-- ===== src/Store/History/Laws.antt =====
-- Which table a chart is read from.
use jamsys.Prelude.{ℕ, ◌*◌, ◌/◌, ◌≤◌, ◌<◌, ◌⊎◌, inl, inr, All, arith}
use jamsys.Store.History.{step_of, first_fitting, buckets, choose_bucket}

-- The chosen table is no coarser than `b` and gives few enough points.
abbrev pub IsBetter : ℕ → ℕ → ℕ → Type 0
IsBetter span want b =
    (step_of (choose_bucket span want) ≤ step_of b)
    × (span / step_of (choose_bucket span want) ≤ want * 3)

abbrev pub IsTooFine : ℕ → ℕ → ℕ → Type 0
IsTooFine span want b = want * 3 < span / step_of b

split : (a b : ℕ) → (a < b) ⊎ (b ≤ a)
split a b = ground arith

samples : (span want : ℕ) → IsTooFine span want 0 ⊎ IsBetter span want 0
unfolding choose_bucket first_fitting step_of
samples span want = elim (split (want * 3) (span / 10_000)) [
  | inl h ↦ inl h
  | inr h ↦ inr (ground (arith, h))
]

minutes : (span want : ℕ) → IsTooFine span want 60_000 ⊎ IsBetter span want 60_000
unfolding choose_bucket first_fitting step_of
minutes span want = elim (split (want * 3) (span / 60_000)) [
  | inl h ↦ inl h
  | inr h ↦ inr (ground (arith, h))
]

five_minutes : (span want : ℕ) → IsTooFine span want 300_000 ⊎ IsBetter span want 300_000
unfolding choose_bucket first_fitting step_of
five_minutes span want = elim (split (want * 3) (span / 300_000)) [
  | inl h ↦ inl h
  | inr h ↦ inr (ground (arith, h))
]

quarters : (span want : ℕ) → IsTooFine span want 900_000 ⊎ IsBetter span want 900_000
unfolding choose_bucket first_fitting step_of
quarters span want = elim (split (want * 3) (span / 900_000)) [
  | inl h ↦ inl h
  | inr h ↦ inr (ground (arith, h))
]

-- Each of the four tables gives more than three times the points that are wanted, or the chosen table
-- is no coarser and does not: the choice is the finest table that gives at most that many.
choose_bucket_finest :
    (span want : ℕ) → All (λ b. IsTooFine span want b ⊎ IsBetter span want b) buckets
choose_bucket_finest span want =
    (samples span want, (minutes span want, (five_minutes span want, (quarters span want, tt))))
