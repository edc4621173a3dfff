-- ===== src/Anomaly/Bucket.antt =====
-- jamsys-daemon/src/anomaly/alerts.rs, `Bucket`: the token bucket that limits notifications. Times
-- are readings of the monotonic clock, in milliseconds.
pub mod Laws
mod Tests
use jamsys.Prelude.{ℕ, ◌+◌, ◌-◌, Bool, true, false, ltb, if◌then◌else◌}
use jamsys.Prelude.Float.{Float}
use jamsys.Prelude.Int.{ℤ, pos, negsuc}

pub record Bucket {ℓ} (F : Type ℓ) : Type ℓ where
  pub tokens : F
  pub capacity : F
  pub refill_per_s : F
  pub last_ms : ℕ
  pub suppressed : ℕ

module _ {ℓ} {F : Type ℓ} ⦃d : Float F⦄ where
  open d use {of_ℕ, add, sub, mul, div, lower, le}

  abbrev pub refill_rate : ℤ → F
  refill_rate (pos n) = if ltb 0 n then div (of_ℕ 1) (of_ℕ n) else of_ℕ 1
  refill_rate (negsuc n) = of_ℕ 1

  unfoldable pub new : ℕ → ℤ → ℕ → Bucket F
  new capacity refill_s now = record {
    tokens = of_ℕ capacity;
    capacity = of_ℕ capacity;
    refill_per_s = refill_rate refill_s;
    last_ms = now;
    suppressed = 0;
  }

  -- `(now - last_ms).max(0)` seconds of refill, up to the capacity.
  abbrev pub refilled : Bucket F → ℕ → F
  refilled b now =
      lower (add b.tokens (mul (div (of_ℕ (now - b.last_ms)) (of_ℕ 1000)) b.refill_per_s))
        b.capacity

  unfoldable pub take : Bucket F → ℕ → Bucket F × Bool
  take b now =
      let t = refilled b now in
      if le (of_ℕ 1) t
      then (record b { tokens = sub t (of_ℕ 1); last_ms = now }, true)
      else (record b { tokens = t; last_ms = now; suppressed = b.suppressed + 1 }, false)
