-- ===== src/Anomaly/Baseline/Laws.antt =====
-- What a baseline has learned.
use jamsys.Prelude.{
  ℕ, ◌+◌, ◌%◌, ◌≤◌, ◌≡◌, refl, ap, true, false, ◌||◌, some, List, [], ◌∷◌, ltb, leb, if◌then◌else◌,
  Text, text_eq, text_eq_iff, text_is_eq, length, length-append, length-set, min, keep_if,
  Bool-cases, Option-cases, inl, inr, arith, unwrap_or,
}
use jamsys.Prelude.Dict
use jamsys.Prelude.Dict.{Dict, get-insert, get-insert_self}
use jamsys.Prelude.Real.{Real}
use jamsys.Util.Stats.{robust_z}
use jamsys.Types.Context.{Context, key}
use jamsys.Anomaly.Baseline.{
  Series, Baselines, key_is_eq, u32_max, pseudo_random, empty_series, recompute, keep, push,
  tuning_for, freeze, get, observe, evaluate,
}

frozen-ne :
    (metric other : Text) (frozen : Dict Text (Unit {0}))
    → Dict.contains_key metric frozen ≡ true
    → Dict.contains_key other frozen ≡ false
    → text_eq other metric ≡ false
frozen-ne metric other frozen h q = elim (Bool-cases (text_eq other metric)) [
  | inl e ↦ let same = (text_eq_iff other metric).0 e in cc
  | inr e ↦ e
]

module _ {ℓ} {F : Type ℓ} ⦃d : Real F⦄ where
  -- What `push` counts and holds.
  pub record Holds (window count : ℕ) (s : Series F) : Type 0 where
    pub seen : s.n ≡ min count u32_max
    pub held : length s.samples ≡ min count window

  length-keep :
      (n window : ℕ) (v : F) (samples : List F)
      → length (keep n window v samples)
        ≡ (if ltb (length samples) window then length samples + 1 else length samples)
  unfolding keep
  length-keep n window v samples =
      ground (arith, length-append samples (v ∷ []), length-set samples (pseudo_random n % n) v)

  recompute_same : (s : Series F) → ((recompute s).n ≡ s.n) × ((recompute s).samples ≡ s.samples)
  unfolding recompute
  recompute_same s = ground arith

  push-fields :
      (v : F) (window : ℕ) (s : Series F)
      → d.is_finite v ≡ true
      → let n = min (s.n + 1) u32_max in
        ((push v window s).n ≡ n) × ((push v window s).samples ≡ keep n window v s.samples)
  unfolding push
  push-fields v window s fine =
      let n = min (s.n + 1) u32_max in
      let pushed = record s { n = n; samples = keep n window v s.samples; dirty = s.dirty + 1 } in
      elim (Bool-cases (leb 16 (s.dirty + 1) || ltb n 32)) [
        | inl q ↦ rw (fine, q) (recompute_same pushed)
        | inr q ↦ rw (fine, q) (refl, refl)
      ]

  push-Holds :
      (v : F) (window count : ℕ) (s : Series F)
      → d.is_finite v ≡ true
      → Holds window count s
      → Holds window (count + 1) (push v window s)
  push-Holds v window count s fine h =
      let (n, samples) = push-fields v window s fine in
      let kept = length-keep (min (s.n + 1) u32_max) window v s.samples in
      record {
        seen = ground (arith, n, h.seen);
        held = ground (arith, ap length samples, kept, h.held);
      }

  push_skips : (v : F) (window : ℕ) (s : Series F) → d.is_finite v ≡ false → push v window s ≡ s
  unfolding push
  push_skips v window s q = rw q

  unfoldable pub learn : ℕ → List F → Series F → Series F
  learn window [] s = s
  learn window (v ∷ vs) s = learn window vs (push v window s)

  learn-keeps-Holds :
      (window count : ℕ) (vs : List F) (s : Series F)
      → Holds window count s
      → Holds window (count + length (keep_if d.is_finite vs)) (learn window vs s)
  unfolding learn
  learn-keeps-Holds window count [] s h = record {
    seen = omega (arith, h.seen);
    held = omega (arith, h.held);
  }
  learn-keeps-Holds window count (v ∷ vs) s h = elim (Bool-cases (d.is_finite v)) [
    | inr q ↦ rw (q, push_skips v window s q) (learn-keeps-Holds window count vs s h)
    | inl q ↦
        let rest =
          learn-keeps-Holds window (count + 1) vs (push v window s)
            (push-Holds v window count s q h) in
        rw q (record { seen = omega (arith, rest.seen); held = omega (arith, rest.held) })
  ]

  -- However many values a metric has had, the sample holds as many of them as the window allows, and
  -- the count is theirs until it stands at 2^32 - 1. What is not finite does not count.
  learn-Holds :
      (window : ℕ) (vs : List F)
      → Holds window (length (keep_if d.is_finite vs)) (learn window vs empty_series)
  learn-Holds window vs =
      let h =
        learn-keeps-Holds window 0 vs empty_series
          (record { seen = omega arith; held = omega arith }) in
      record { seen = omega (arith, h.seen); held = omega (arith, h.held) }

  -- What a verdict on a metric depends on, and that the metric is not learned.
  record IsFrozen (metric : Text) (b b' : Baselines F) : Type ℓ where
    same : (ctx : Context) → get metric ctx b' ≡ get metric ctx b
    tuning : b'.tuning ≡ b.tuning
    warmup : b'.warmup ≡ b.warmup
    threshold : b'.z_threshold ≡ b.z_threshold
    frozen : Dict.contains_key metric b'.frozen ≡ true

  observe-IsFrozen :
      (metric other : Text) (ctx : Context) (v : F) (b b' : Baselines F)
      → IsFrozen metric b b'
      → IsFrozen metric b (observe other ctx v b')
  unfolding observe get
  observe-IsFrozen metric other ctx v b b' h =
      elim (Bool-cases (Dict.contains_key other b'.frozen)) [
        | inl q ↦ rw q h
        | inr q ↦ rw q (record {
          same = λ c.
              let s =
                push v b'.window (unwrap_or empty_series (Dict.get (other, key ctx) b'.series)) in
              rw
                (
                  get-insert (other, key ctx) (metric, key c) s b'.series,
                  frozen-ne metric other b'.frozen h.frozen q,
                )
                (h.same c);
          tuning = h.tuning;
          warmup = h.warmup;
          threshold = h.threshold;
          frozen = h.frozen;
        })
      ]

  unfoldable pub observe_all : List (Text × Context × F) → Baselines F → Baselines F
  observe_all [] b = b
  observe_all ((metric, ctx, v) ∷ os) b = observe_all os (observe metric ctx v b)

  observe_all-IsFrozen :
      (metric : Text) (os : List (Text × Context × F)) (b b' : Baselines F)
      → IsFrozen metric b b'
      → IsFrozen metric b (observe_all os b')
  unfolding observe_all
  observe_all-IsFrozen metric [] b b' h = h
  observe_all-IsFrozen metric ((other, ctx, v) ∷ os) b b' h =
      observe_all-IsFrozen metric os b (observe other ctx v b')
        (observe-IsFrozen metric other ctx v b b' h)

  freeze-IsFrozen : (metric : Text) (b : Baselines F) → IsFrozen metric b (freeze metric b)
  unfolding freeze get
  freeze-IsFrozen metric b = record {
    same = λ c. refl;
    tuning = refl;
    warmup = refl;
    threshold = refl;
    frozen = rw (get-insert_self metric tt b.frozen) refl;
  }

  tuning_for-IsFrozen :
      (metric : Text) (b b' : Baselines F)
      → IsFrozen metric b b'
      → tuning_for metric b' ≡ tuning_for metric b
  unfolding tuning_for
  tuning_for-IsFrozen metric b b' h = rw h.tuning

  evaluate-IsFrozen :
      (metric : Text) (ctx : Context) (v : F) (b b' : Baselines F)
      → IsFrozen metric b b'
      → evaluate metric ctx v b' ≡ evaluate metric ctx v b
  unfolding evaluate
  evaluate-IsFrozen metric ctx v b b' h = elim (Option-cases (get metric ctx b)) [
    | inl k ↦ ground (arith, k, h.same ctx)
    | inr (s, k) ↦
        ground (arith, k, h.same ctx, tuning_for-IsFrozen metric b b' h, h.warmup, h.threshold)
  ]

  -- While a metric is frozen, nothing that is observed, of it or of any other metric, changes the
  -- verdict on any value of it in any context: a fault does not become normal.
  pub evaluate-freeze :
      (metric : Text) (ctx : Context) (v : F) (os : List (Text × Context × F)) (b : Baselines F)
      → evaluate metric ctx v (observe_all os (freeze metric b)) ≡ evaluate metric ctx v b
  evaluate-freeze metric ctx v os b =
      evaluate-IsFrozen metric ctx v b (observe_all os (freeze metric b))
        (observe_all-IsFrozen metric os b (freeze metric b) (freeze-IsFrozen metric b))

  -- All that a deviation takes.
  pub record Guards (metric : Text) (ctx : Context) (v delta : F) (b : Baselines F) (s : Series F)
      : Type ℓ where
    pub known : get metric ctx b ≡ some s
    pub warm : b.warmup ≤ s.n
    pub sampled : 8 ≤ length s.samples
    pub by : delta ≡ d.sub v s.median
    pub significant :
        d.le b.z_threshold (d.abs (robust_z v s.median s.mad (tuning_for metric b).min_mad)) ≡ true
    pub large : d.le (tuning_for metric b).min_abs_delta (d.abs delta) ≡ true
