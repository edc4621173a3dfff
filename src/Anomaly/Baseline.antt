-- ===== src/Anomaly/Baseline.antt =====
-- jamsys-daemon/src/anomaly/baseline.rs: what is normal for a metric in a context, learned from a
-- bounded sample of its values, and the verdict on a new value.
pub mod Laws
mod Tests
use jamsys.Prelude.{
  ℕ, ◌+◌, ◌-◌, ◌*◌, ◌/◌, ◌%◌, ◌^◌, Bool, true, false, not, ◌&&◌, ◌||◌, Option, none, some, List, [],
  ◌∷◌, ◌++◌, ltb, leb, ◌==◌, if◌then◌else◌, Text, codes, text_eq, text_is_eq, unwrap_or, length,
  is_some, min, Eq, bit_xor, set, ◌≡◌, ◌↔◌, text_eq_iff, arith,
}
use jamsys.Prelude.Dict
use jamsys.Prelude.Dict.{Dict}
use jamsys.Prelude.Real.{Real}
use jamsys.Util.Stats.{median, mad, percentile, robust_z}
use jamsys.Types.Context.{Context, key, import_context}

pub record MetricTuning {ℓ} (F : Type ℓ) : Type ℓ where
  pub min_mad : F
  pub min_abs_delta : F
  pub dwell_s : ℕ

pub record Series {ℓ} (F : Type ℓ) : Type ℓ where
  pub samples : List F
  pub n : ℕ
  pub median : F
  pub mad : F
  pub p05 : F
  pub p95 : F
  pub dirty : ℕ

abbrev pub u32_max : ℕ
u32_max = 2 ^ 32 - 1

-- SplitMix64's last steps, on 64 bits.
unfoldable pub pseudo_random : ℕ → ℕ
pseudo_random n =
    let a = (n * 0x9E37_79B9_7F4A_7C15 + 0x1234_5678_9ABC_DEF0) % 2 ^ 64 in
    let b = bit_xor a (a / 2 ^ 30) * 0xBF58_476D_1CE4_E5B9 % 2 ^ 64 in
    let c = bit_xor b (b / 2 ^ 27) * 0x94D0_49BB_1331_11EB % 2 ^ 64 in bit_xor c (c / 2 ^ 31)

pub data Verdict {ℓ} (F : Type ℓ) : Type ℓ where
  no_baseline : Verdict F
  learning : (have need : ℕ) → Verdict F
  normal : (z med p05 p95 : F) → Verdict F
  deviating : (z delta med p05 p95 : F) (n : ℕ) → Verdict F

-- A series is known by its metric and the key of its context.
abbrev pub Key : Type 0
Key = Text × Text

abbrev pub key_beq : Key → Key → Bool
key_beq a b = text_eq a.0 b.0 && text_eq a.1 b.1

-- The names of a series: its metric with the bracket that names an instance, or without.
unfoldable pub before_bracket : Text → Text
before_bracket [] = []
before_bracket (c ∷ s) = let rest = c ∷ before_bracket s in if c == b'[' then [] else rest

abbrev pub reservoir_default : ℕ
reservoir_default = 512

module _ {ℓ} {F : Type ℓ} ⦃d : Real F⦄ where
  abbrev pub empty_series : Series F
  empty_series = record {
    samples = [];
    n = 0;
    median = d.of_ℕ 0;
    mad = d.of_ℕ 0;
    p05 = d.of_ℕ 0;
    p95 = d.of_ℕ 0;
    dirty = 0;
  }

  unfoldable pub recompute : Series F → Series F
  recompute s =
      let clean = record s { dirty = 0 } in
      if length s.samples == 0
      then clean
      else let med = median s.samples in
        record clean {
          median = med;
          mad = mad s.samples med;
          p05 = percentile s.samples (d.div (d.of_ℕ 5) (d.of_ℕ 100));
          p95 = percentile s.samples (d.div (d.of_ℕ 95) (d.of_ℕ 100));
        }

  -- The sample after the `n`-th value: while it is not full the value joins it, later it takes the
  -- place of one that is drawn.
  unfoldable pub keep : ℕ → ℕ → F → List F → List F
  unfolding pseudo_random
  keep n window v samples =
      if ltb (length samples) window
      then samples ++ (v ∷ [])
      else let k = pseudo_random n % n in if ltb k window then set samples k v else samples

  unfoldable pub push : F → ℕ → Series F → Series F
  unfolding keep recompute
  push v window s =
      if not (d.is_finite v)
      then s
      else let n = min (s.n + 1) u32_max in
        let dirty = s.dirty + 1 in
        let pushed = record s { n = n; samples = keep n window v s.samples; dirty = dirty } in
        if leb 16 dirty || ltb n 32 then recompute pushed else pushed

  unfoldable pub ready : ℕ → Series F → Bool
  ready warmup s = leb warmup s.n && leb 8 (length s.samples)

pub key_beq_iff : (a b : Key) → (key_beq a b ≡ true) ↔ (a ≡ b)
key_beq_iff (m, c) (m', c') = ground (arith, text_eq_iff m m', text_eq_iff c c')

instance abbrev pub key_is_eq : Eq Key
key_is_eq = record { beq = key_beq; beq_iff = key_beq_iff }

pub record Baselines {ℓ} (F : Type ℓ) : Type ℓ where
  pub series : Dict Key (Series F)
  pub tuning : Dict Text (MetricTuning F)
  pub window : ℕ
  pub warmup : ℕ
  pub z_threshold : F
  pub frozen : Dict Text (Unit {0})

module _ {ℓ} {F : Type ℓ} ⦃d : Real F⦄ where
  abbrev tuned : F → ℕ → ℕ → MetricTuning F
  tuned floor delta dwell = record {
    min_mad = floor;
    min_abs_delta = d.of_ℕ delta;
    dwell_s = dwell;
  }

  half : F
  half = d.div (d.of_ℕ 1) (d.of_ℕ 2)

  unfoldable pub new : ℕ → ℕ → F → Baselines F
  unfolding half
  new window warmup z_threshold = record {
    series = [];
    tuning =
        (codes "power.system_w", tuned half 5 600)
        ∷ (codes "power.cpu_package_w", tuned half 4 600)
        ∷ (codes "thermal.cpu_package_c", tuned (d.of_ℕ 1) 10 300)
        ∷ (codes "memory.used_bytes", tuned (d.of_ℕ 100_000_000) 2_000_000_000 600)
        ∷ (codes "cpu.usage_pct", tuned (d.of_ℕ 3) 25 300)
        ∷ (codes "gpu.power_w", tuned (d.of_ℕ 1) 5 300)
        ∷ [];
    window = if window == 0 then reservoir_default else window;
    warmup = warmup;
    z_threshold = z_threshold;
    frozen = [];
  }

  unfoldable pub tuning_for : Text → Baselines F → MetricTuning F
  unfolding before_bracket
  tuning_for metric b = elim (Dict.get metric b.tuning) [
    | some t ↦ t
    | none ↦ unwrap_or (tuned (d.of_ℕ 1) 0 300) (Dict.get (before_bracket metric) b.tuning)
  ]

  unfoldable pub freeze : Text → Baselines F → Baselines F
  freeze metric b = record b { frozen = Dict.insert metric tt b.frozen }

  unfoldable pub thaw : Text → Baselines F → Baselines F
  thaw metric b = record b { frozen = Dict.remove metric b.frozen }

  unfoldable pub get : Text → Context → Baselines F → Option (Series F)
  get metric ctx b = Dict.get (metric, key ctx) b.series

  unfoldable pub observe : Text → Context → F → Baselines F → Baselines F
  unfolding get push
  observe metric ctx v b =
      if Dict.contains_key metric b.frozen
      then b
      else let s = unwrap_or empty_series (get metric ctx b) in
        record b { series = Dict.insert (metric, key ctx) (push v b.window s) b.series }

  unfoldable pub judge : MetricTuning F → F → F → Series F → Verdict F
  judge t z_threshold v s =
      let z = robust_z v s.median s.mad t.min_mad in
      let delta = d.sub v s.median in
      if d.le z_threshold (d.abs z) && d.le t.min_abs_delta (d.abs delta)
      then deviating z delta s.median s.p05 s.p95 s.n
      else normal z s.median s.p05 s.p95

  unfoldable pub evaluate : Text → Context → F → Baselines F → Verdict F
  unfolding ready judge
  evaluate metric ctx v b = elim (get metric ctx b) [
    | none ↦ no_baseline
    | some s ↦
        if ready b.warmup s
        then judge (tuning_for metric b) b.z_threshold v s
        else learning s.n b.warmup
  ]

  unfoldable pub export : Baselines F → List (Key × Series F)
  export b = b.series

  unfoldable pub import : Text → Text → Series F → Baselines F → Baselines F
  import metric context s b = elim (import_context context) [
    | none ↦ b
    | some c ↦ record b { series = Dict.insert (metric, c) s b.series }
  ]

  abbrev pub is_deviating : Verdict F → Bool
  is_deviating (deviating z delta med p05 p95 n) = true
  is_deviating _ = false
