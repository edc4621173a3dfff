-- ===== src/Journal/Dedup.antt =====
-- jamsys-daemon/src/journal.rs, `Deduper`: a message that repeats within a window is counted, and the
-- count is handed over with the next one that is let through.
pub mod Laws
use jamsys.Prelude.{
  ℕ, ◌+◌, ◌*◌, ◌%◌, ◌^◌, Bool, true, false, Option, none, some, List, [], ◌∷◌, ltb, if◌then◌else◌,
  Text, text_is_eq, length,
}
use jamsys.Prelude.Dict
use jamsys.Prelude.Dict.{Dict}

-- For each key, when it was last let through, and how often it was held back since.
pub record Deduper : Type 0 where
  pub seen : Dict Text (ℕ × ℕ)
  pub window_ms : ℕ

abbrev pub u32_mod : ℕ
u32_mod = 2 ^ 32

unfoldable pub new : ℕ → Deduper
new window = record { seen = []; window_ms = window }

unfoldable pub admit : Text → ℕ → Deduper → Deduper × Option ℕ
admit key now d = elim (Dict.get key d.seen) [
  | none ↦ (record d { seen = Dict.insert key (now, 0) d.seen }, some 0)
  | some (last, n) ↦
      if ltb now (last + d.window_ms)
      then (record d { seen = Dict.insert key (last, (n + 1) % u32_mod) d.seen }, none)
      else (record d { seen = Dict.insert key (now, 0) d.seen }, some n)
]

unfoldable pub gc : ℕ → Deduper → Deduper
gc now d = record d { seen = Dict.retain (λ s. ltb now (s.0 + d.window_ms * 10)) d.seen }

unfoldable pub len : Deduper → ℕ
len d = length d.seen
