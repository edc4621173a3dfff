-- ===== src/Anomaly/Bucket/Laws.antt =====
-- A bucket never holds more than its capacity, and lets exactly its capacity through at one instant.
use jamsys.Prelude.{
  ℕ, zero, suc, ◌+◌, ◌-◌, ◌≤◌, ◌<◌, ◌≡◌, refl, Bool, true, false, if◌then◌else◌, arith, lt→ltb,
  List, [], ◌∷◌,
}
use jamsys.Prelude.Float.{Float, IsFloat, exact, milli}
use jamsys.Prelude.Int.{ℤ, pos, negsuc}
use jamsys.Anomaly.Bucket.{Bucket, refill_rate, new, refilled, take}

-- The answers at one instant: the first `n` are yes, the rest no.
abbrev pub burst : ℕ → ℕ → List Bool
burst n zero = []
burst zero (suc k) = false ∷ burst zero k
burst (suc n) (suc k) = true ∷ burst n k

abbrev pub same : ℕ → ℕ → List ℕ
same now zero = []
same now (suc k) = now ∷ same now k

module _ {ℓ} {F : Type ℓ} ⦃d : Float F⦄ where
  open d use {of_ℕ, le}

  abbrev pub IsCapped : ℕ → Bucket F → Type ℓ
  IsCapped n b = (b.capacity ≡ of_ℕ n) × (le b.tokens (of_ℕ n) ≡ true)

  -- One answer for each of a list of instants.
  pub takes : Bucket F → List ℕ → List Bool
  takes b [] = []
  takes b (now ∷ rest) = let (b', ok) = take b now in ok ∷ takes b' rest

  module _ (laws : IsFloat F) where
    open laws use {
      lower_le, sub_one_le, lower_exact, sub_exact, le_exact, div_zero, zero_mul_one, zero_mul_rate,
      add_zero,
    }

    -- After any call the tokens are within the capacity again, however long the bucket was idle, and
    -- a refusal is counted.
    take-IsCapped :
        (b : Bucket F) (n now : ℕ)
        → b.capacity ≡ of_ℕ n
        → IsCapped n (take b now).0
          × ((take b now).0.suppressed
              ≡ (if (take b now).1 then b.suppressed else b.suppressed + 1))
    unfolding take
    take-IsCapped b n now e =
        let sum =
          d.add b.tokens (d.mul (d.div (of_ℕ (now - b.last_ms)) (of_ℕ 1000)) b.refill_per_s) in
        ground (arith, e, lower_le sum n, sub_one_le (d.lower sum (of_ℕ n)) n)

    -- A bucket with `k` tokens that was last asked at this very instant.
    record Holds (k n now : ℕ) (b : Bucket F) : Type ℓ where
      tokens : b.tokens ≡ of_ℕ k
      capacity : b.capacity ≡ of_ℕ n
      last : b.last_ms ≡ now
      rate : d.mul (of_ℕ 0) b.refill_per_s ≡ of_ℕ 0

    refilled-Holds :
        (k n now : ℕ) (b : Bucket F) → k ≤ n → n < exact → Holds k n now b → refilled b now ≡ of_ℕ k
    refilled-Holds k n now b h x v =
        let e : now - b.last_ms ≡ 0 = omega (arith, v.last) in
        cc (
          e,
          v.tokens,
          v.capacity,
          div_zero 1000 (omega arith),
          v.rate,
          add_zero k (omega arith),
          lower_exact k n h x,
        )

    takes-burst :
        (m k n now : ℕ) (b : Bucket F)
        → k ≤ n
        → n < exact
        → Holds k n now b
        → takes b (same now m) ≡ burst k m
    unfolding takes take
    takes-burst zero k n now b h x v = refl
    takes-burst (suc m) zero n now b h x v =
        let full = refilled-Holds zero n now b h x v in
        ground (arith, full, le_exact 1 0, takes-burst m zero n now (take b now).0 h x (empty full))
      where
        empty : refilled b now ≡ of_ℕ 0 → Holds 0 n now (take b now).0
        empty full = ground (arith, full, le_exact 1 0, v.capacity, v.rate)
    takes-burst (suc m) (suc k) n now b h x v =
        let full = refilled-Holds (suc k) n now b h x v in
        ground (
          arith,
          full,
          le_exact 1 (suc k),
          takes-burst m k n now (take b now).0 (omega arith) x (less full),
        )
      where
        less : refilled b now ≡ of_ℕ (suc k) → Holds k n now (take b now).0
        less full = ground (arith, full, le_exact 1 (suc k), sub_exact k, v.capacity, v.rate)

    rate-zero : (r : ℤ) → d.mul (of_ℕ 0) (refill_rate r) ≡ of_ℕ 0
    rate-zero (negsuc n) = zero_mul_one
    rate-zero (pos zero) = zero_mul_one
    rate-zero (pos (suc n)) =
        rw (lt→ltb 0 (suc n) (omega arith)) (zero_mul_rate (suc n) (omega arith))

    -- At the instant of its creation a bucket of capacity `n` lets the first `n` calls through and
    -- refuses every later one.
    pub new-burst :
        (n : ℕ) (refill_s : ℤ) (now m : ℕ)
        → n < exact
        → takes (new n refill_s now) (same now m) ≡ burst n m
    unfolding new
    new-burst n refill_s now m x =
        takes-burst m n n now (new n refill_s now) (omega arith) x
          (record { tokens = refl; capacity = refl; last = refl; rate = rate-zero refill_s })
