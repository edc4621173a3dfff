-- ===== src/Prelude/Real.antt =====
-- What the statistics and the rules do with `f64`, as an interface. `of_ℕ` is a literal, `fixed n` is
-- the format `{:.n}`, `floor` and `ceil` are of a number that is not negative, `trunc` is `as i64`,
-- with what is negative taken for 0.
use jamsys.Prelude.{ℕ, ◌+◌, ◌-◌, ◌*◌, ◌/◌, Bool, true, ltb, leb, ◌==◌, if◌then◌else◌, Text}
use jamsys.Prelude.Decimal.{to_string}

pub record Real {ℓ} (F : Type ℓ) : Type ℓ where
  pub of_ℕ : ℕ → F
  pub nan : F
  pub is_finite : F → Bool
  pub add : F → F → F
  pub sub : F → F → F
  pub mul : F → F → F
  pub div : F → F → F
  pub abs : F → F
  pub larger : F → F → F
  pub lt : F → F → Bool
  pub le : F → F → Bool
  pub eq : F → F → Bool
  pub floor : F → ℕ
  pub ceil : F → ℕ
  pub trunc : F → ℕ
  pub fixed : ℕ → F → Text

-- Whole numbers, which stop at 0.
instance abbrev pub whole : Real ℕ
whole = record {
  of_ℕ = λ n. n;
  nan = 0;
  is_finite = λ n. true;
  add = λ m n. m + n;
  sub = λ m n. m - n;
  mul = λ m n. m * n;
  div = λ m n. m / n;
  abs = λ n. n;
  larger = λ m n. if leb m n then n else m;
  lt = ltb;
  le = leb;
  eq = ◌==◌;
  floor = λ n. n;
  ceil = λ n. n;
  trunc = λ n. n;
  fixed = λ k n. to_string n;
}
