-- ===== src/Prelude/Float.antt =====
-- What the code does with `f64`, as an interface: numbers from integers, four operations, `min` and
-- `<=`. The laws are facts of IEEE arithmetic on whole numbers that an `f64` holds exactly.
use jamsys.Prelude.{
  ℕ, suc, ◌+◌, ◌-◌, ◌*◌, ◌/◌, ◌^◌, ◌≤◌, ◌<◌, ◌≡◌, refl, Bool, true, leb, arith, if◌then◌else◌,
}

pub record Float {ℓ} (F : Type ℓ) : Type ℓ where
  pub of_ℕ : ℕ → F
  pub add : F → F → F
  pub sub : F → F → F
  pub mul : F → F → F
  pub div : F → F → F
  pub lower : F → F → F
  pub le : F → F → Bool

abbrev pub exact : ℕ
exact = 2 ^ 53

pub record IsFloat {ℓ} (F : Type ℓ) ⦃d : Float F⦄ : Type ℓ where
  -- `min` with a number never exceeds it, and taking 1 away goes no higher.
  pub lower_le : (x : F) (n : ℕ) → d.le (d.lower x (d.of_ℕ n)) (d.of_ℕ n) ≡ true
  pub sub_one_le :
      (x : F) (n : ℕ) → d.le x (d.of_ℕ n) ≡ true → d.le (d.sub x (d.of_ℕ 1)) (d.of_ℕ n) ≡ true
  -- Whole numbers are compared and counted down exactly.
  pub lower_exact : (k n : ℕ) → k ≤ n → n < exact → d.lower (d.of_ℕ k) (d.of_ℕ n) ≡ d.of_ℕ k
  pub sub_exact : (k : ℕ) → k < exact → d.sub (d.of_ℕ (suc k)) (d.of_ℕ 1) ≡ d.of_ℕ k
  pub le_exact : (k n : ℕ) → k < exact → n < exact → d.le (d.of_ℕ k) (d.of_ℕ n) ≡ leb k n
  -- Adding nothing changes nothing.
  pub div_zero : (n : ℕ) → 0 < n → d.div (d.of_ℕ 0) (d.of_ℕ n) ≡ d.of_ℕ 0
  pub zero_mul_one : d.mul (d.of_ℕ 0) (d.of_ℕ 1) ≡ d.of_ℕ 0
  pub zero_mul_rate : (n : ℕ) → 0 < n → d.mul (d.of_ℕ 0) (d.div (d.of_ℕ 1) (d.of_ℕ n)) ≡ d.of_ℕ 0
  pub add_zero : (k : ℕ) → k < exact → d.add (d.of_ℕ k) (d.of_ℕ 0) ≡ d.of_ℕ k

-- The laws can be met: thousandths in whole numbers.
instance abbrev pub milli : Float ℕ
milli = record {
  of_ℕ = λ n. n * 1000;
  add = λ x y. x + y;
  sub = λ x y. x - y;
  mul = λ x y. x * y / 1000;
  div = λ x y. x * 1000 / y;
  lower = λ x y. if leb x y then x else y;
  le = leb;
}

milli_div_zero : (n : ℕ) → 0 < n → 0 * 1000 * 1000 / (n * 1000) ≡ 0 * 1000
milli_div_zero n h = grind arith

milli_zero_mul : (x : ℕ) → 0 * 1000 * x / 1000 ≡ 0 * 1000
milli_zero_mul x = omega arith

pub milli-IsFloat : IsFloat ℕ
milli-IsFloat = record {
  lower_le = λ x n. ground arith;
  sub_one_le = λ x n h. ground arith;
  lower_exact = λ k n h b. ground arith;
  sub_exact = λ k h. omega arith;
  le_exact = λ k n h b. ground arith;
  div_zero = milli_div_zero;
  zero_mul_one = refl;
  zero_mul_rate = λ n h. milli_zero_mul (1 * 1000 * 1000 / (n * 1000));
  add_zero = λ k h. omega arith;
}
