-- ===== src/Util/Stats.antt =====
-- jamsys-daemon/src/util.rs: robust statistics. The standard sort is by insertion here.
use jamsys.Prelude.{
  zero, suc, ◌+◌, ◌^◌, ◌++◌, not, ltb, min, ℕ, ◌-◌, ◌/◌, ◌%◌, ◌&&◌, Option, none, some, List, [],
  ◌∷◌, ◌==◌, if◌then◌else◌, length, get_elem?, unwrap_or, keep_if, map,
}
use jamsys.Prelude.Real.{Real}

module _ {ℓ} {F : Type ℓ} ⦃d : Real F⦄ where
  sort_in : F → List F → List F
  sort_in x [] = x ∷ []
  sort_in x (y ∷ ys) = if d.lt y x then y ∷ sort_in x ys else x ∷ (y ∷ ys)

  unfoldable pub sorted : List F → List F
  unfolding sort_in
  sorted [] = []
  sorted (x ∷ xs) = sort_in x (sorted xs)

  -- The numbers that count, in order.
  unfoldable pub usable : List F → List F
  unfolding sorted
  usable vals = sorted (keep_if d.is_finite vals)

  at : List F → ℕ → F
  at v i = unwrap_or d.nan (get_elem? v i)

  unfoldable pub median : List F → F
  unfolding usable at
  median vals =
      let v = usable vals in
      let n = length v in
      if n == 0
      then d.nan
      else if n % 2 == 1
      then at v (n / 2)
      else d.div (d.add (at v (n / 2 - 1)) (at v (n / 2))) (d.of_ℕ 2)

  unfoldable pub mad : List F → F → F
  unfolding median
  mad vals med = median (map (λ x. d.abs (d.sub x med)) (keep_if d.is_finite vals))

  unfoldable pub percentile : List F → F → F
  unfolding usable at
  percentile vals q =
      let v = usable vals in
      if length v == 0
      then d.nan
      else let q =
          if d.lt q (d.of_ℕ 0) then d.of_ℕ 0 else if d.lt (d.of_ℕ 1) q then d.of_ℕ 1 else q in
        let pos = d.mul q (d.of_ℕ (length v - 1)) in
        let low = d.floor pos in
        let high = d.ceil pos in
        if low == high
        then at v low
        else d.add (at v low) (d.mul (d.sub (at v high) (at v low)) (d.sub pos (d.of_ℕ low)))

  -- The slopes from one point to the later ones, `step` apart. Each round goes forward, so the number of
  -- points is fuel enough.
  slopes_from : (fuel step n i j : ℕ) → List F → List F → List F
  unfolding at
  slopes_from zero step n i j xs ys = []
  slopes_from (suc fuel) step n i j xs ys =
      let rest = slopes_from fuel step n i (j + step) xs ys in
      let dx = d.sub (at xs j) (at xs i) in
      if not (ltb j n)
      then []
      else if d.lt (d.div (d.of_ℕ 1) (d.of_ℕ (2 ^ 52))) (d.abs dx)
      then d.div (d.sub (at ys j) (at ys i)) dx ∷ rest
      else rest

  slopes : (fuel step n i : ℕ) → List F → List F → List F
  unfolding slopes_from
  slopes zero step n i xs ys = []
  slopes (suc fuel) step n i xs ys =
      let rest = slopes fuel step n (i + step) xs ys in
      if ltb i n then slopes_from n step n i (i + step) xs ys ++ rest else []

  unfoldable pub theil_sen_slope : List F → List F → F
  unfolding slopes median
  theil_sen_slope xs ys =
      let n = min (length xs) (length ys) in
      let step = if ltb 60 n then n / 60 else 1 in
      if ltb n 3 then d.nan else median (slopes n step n 0 xs ys)

  unfoldable pub robust_z : F → F → F → F → F
  robust_z x med mad_v min_mad =
      let m = if d.is_finite mad_v then d.larger mad_v min_mad else min_mad in
      if d.le m (d.of_ℕ 0)
      then d.of_ℕ 0
      else d.div (d.mul (d.div (d.of_ℕ 6745) (d.of_ℕ 10_000)) (d.sub x med)) m

  unfoldable pub sane : F → F → F → Option F
  sane v lo hi = if d.is_finite v && (d.le lo v && d.le v hi) then some v else none
