-- ===== src/Prelude/Decimal.antt =====
-- Decimal printing and reading of natural numbers, as `to_string` and `parse` do them.
use Prim.Native.Nat.{ℕ, zero, suc, ◌+◌, ◌-◌, ◌*◌, ◌/◌, ◌%◌, ◌≤◌, ◌<◌}
use mathlib.Core.Path.{◌≡◌, refl}
use mathlib.Core.Bool.{Bool, true, ◌&&◌}
use mathlib.Core.Logic.{inl, inr}
use mathlib.Core.List.{[], ◌∷◌, ◌++◌}
use native.Mathlib.Omega.{arith}
use jamsys.Prelude.Tests.{ltb, leb, if◌then◌else◌, Bool-cases}
use jamsys.Prelude.Lists.{all, length, length-append}
use jamsys.Prelude.Strings.{Text}

-- `is_ascii_digit`.
abbrev pub is_digit : ℕ → Bool
is_digit c = leb b'0' c && leb c b'9'

-- A number has fewer digits than its value and one, which is the fuel.
unfoldable pub print_digits : ℕ → ℕ → Text
print_digits zero n = []
print_digits (suc f) n =
    let front = print_digits f (n / 10) in
    if ltb n 10 then (b'0' + n) ∷ [] else front ++ (b'0' + n % 10) ∷ []

unfoldable pub to_string : ℕ → Text
unfolding print_digits
to_string n = print_digits (suc n) n

unfoldable pub read_digits : ℕ → Text → ℕ
read_digits acc [] = acc
read_digits acc (c ∷ s) = read_digits (acc * 10 + (c - b'0')) s

read_digits-append :
    (acc c : ℕ) (s : Text) → read_digits acc (s ++ c ∷ []) ≡ read_digits acc s * 10 + (c - b'0')
unfolding read_digits
read_digits-append acc c [] = refl
read_digits-append acc c (d ∷ s) = read_digits-append (acc * 10 + (d - b'0')) c s

read-print : (f n : ℕ) → n < f → read_digits 0 (print_digits f n) ≡ n
unfolding print_digits
read-print zero n h = elim h [ ]
read-print (suc f) n h = elim (Bool-cases (ltb n 10)) [
  | inl e ↦ rw e (unfold read_digits in omega arith)
  | inr e ↦
      rw (e, read_digits-append 0 (b'0' + n % 10) (print_digits f (n / 10)))
        (ground (arith, read-print f (n / 10)))
]

-- Reading a printed number gives it back.
pub read_digits-to_string : (n : ℕ) → read_digits 0 (to_string n) ≡ n
unfolding to_string
read_digits-to_string n = read-print (suc n) n (omega arith)

pub all-append :
    (p : ℕ → Bool) (s t : Text) → all p s ≡ true → all p t ≡ true → all p (s ++ t) ≡ true
all-append p [] t h k = k
all-append p (c ∷ s) t h k = ground (arith, all-append p s t)

print-digits : (f n : ℕ) → all is_digit (print_digits f n) ≡ true
unfolding print_digits
print-digits zero n = refl
print-digits (suc f) n = ground (
  arith,
  all-append is_digit (print_digits f (n / 10)) ((b'0' + n % 10) ∷ []),
  print-digits f (n / 10),
)

pub all_digits-to_string : (n : ℕ) → all is_digit (to_string n) ≡ true
unfolding to_string
all_digits-to_string n = print-digits (suc n) n

pub to_string-ne-nil : (n : ℕ) → (c : ℕ) × (s : Text) × (to_string n ≡ c ∷ s)
unfolding to_string print_digits
to_string-ne-nil n = elim (Bool-cases (ltb n 10)) [
  | inl e ↦ (b'0' + n, [], rw e)
  | inr e ↦ rw e (snoc (print_digits n (n / 10)) (b'0' + n % 10))
]
  where
    snoc : (s : Text) (d : ℕ) → (c : ℕ) × (t : Text) × (s ++ d ∷ [] ≡ c ∷ t)
    snoc [] d = (d, [], refl)
    snoc (c ∷ s) d = (c, s ++ d ∷ [], refl)

-- A bound for numbers a digit longer.
length-print :
    (bound k : ℕ)
    → ((f n : ℕ) → n < bound → n < f → length (print_digits f n) ≤ k)
    → (f n : ℕ) → n < 10 * bound
    → n < f
    → length (print_digits f n) ≤ k + 1
unfolding print_digits
length-print bound k shorter zero n small fuel = omega arith
length-print bound k shorter (suc f) n small fuel = elim (Bool-cases (ltb n 10)) [
  | inl e ↦ rw e (omega arith)
  | inr e ↦
      let front : length (print_digits f (n / 10)) ≤ k = ground (arith, shorter f (n / 10)) in
      rw e (omega (arith, length-append (print_digits f (n / 10)) ((b'0' + n % 10) ∷ []), front))
]

length-print_one : (f n : ℕ) → n < 10 → n < f → length (print_digits f n) ≤ 1
unfolding print_digits
length-print_one zero n small fuel = omega arith
length-print_one (suc f) n small fuel = ground arith

-- A number below a thousand has at most three digits.
pub length-to_string : (n : ℕ) → n < 1000 → length (to_string n) ≤ 3
unfolding to_string
length-to_string n small =
    length-print 100 2 (length-print 10 1 length-print_one) (suc n) n small (omega arith)
