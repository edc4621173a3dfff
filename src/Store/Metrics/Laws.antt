-- ===== src/Store/Metrics/Laws.antt =====
-- The memory that the samples take is bounded.
use jamsys.Prelude.{
  nat_is_eq, ℕ, ◌*◌, ◌/◌, ◌≤◌, ◌<◌, ◌≡◌, false, ◌==◌, Option, none, some, [], ◌∷◌, ◌++◌, leb,
  length, length-append, length-drop, Eq, All, inl, inr, Bool-cases, Option-cases, arith,
}
use jamsys.Prelude.Dict
use jamsys.Prelude.Dict.{Dict}
use jamsys.Store.Metrics.{
  Samples, Accum, Ring, Metrics, max_pending, live_max_points, disk_bucket_ms, trim, means,
  close_bucket, metric_id, record_live, accumulate, push,
}

leb-false : (a b : ℕ) → leb a b ≡ false → b < a
leb-false a b h = ground arith

length-trim {ℓ} :
    {F : Type ℓ} (ts window : ℕ) (ring : Ring F) → length (trim ts window ring) ≤ live_max_points
unfolding trim
length-trim ts window [] = omega arith
length-trim ts window ((t, v) ∷ ring) = ground (arith, length-trim ts window ring)

abbrev pub Short {ℓ} : {F : Type ℓ} → ℕ × Ring F → Type 0
Short p = length p.1 ≤ live_max_points

All-insert {ℓ} :
    {F : Type ℓ} (id : ℕ) (ring : Ring F) (live : Dict ℕ (Ring F))
    → length ring ≤ live_max_points
    → All Short live
    → All Short (Dict.insert id ring live)
unfolding Dict.insert
All-insert id ring [] h all = (h, tt)
All-insert id ring ((j, r) ∷ live) h all = elim (Bool-cases (j == id)) [
  | inl e ↦ rw e (h, all.1)
  | inr e ↦ rw e (all.0, All-insert id ring live h all.1)
]

-- The queue for the disk and every ring are within their limits.
pub record IsBounded {ℓ κ} {M : Type κ} {F : Type ℓ} (s : Metrics M F) : Type 0 where
  pub queue : length s.pending < max_pending
  pub rings : All Short s.live

module _ {ℓ} {F : Type ℓ} ⦃d : Samples F⦄ where
  length-means : (ts : ℕ) (agg : Dict ℕ (Accum F)) → length (means ts agg) ≤ length agg
  unfolding means
  length-means ts [] = omega arith
  length-means ts ((id, a) ∷ agg) = ground (arith, length-means ts agg)

  module _ {κ} {M : Type κ} ⦃e : Eq M⦄ where
    close_bucket-IsBounded :
        (s : Metrics M F)
        → length s.agg ≤ max_pending / 4
        → IsBounded s
        → IsBounded (close_bucket s)
    unfolding close_bucket
    close_bucket-IsBounded s few h =
        let all = s.pending ++ means s.agg_bucket s.agg in
        let long = length-append s.pending (means s.agg_bucket s.agg) in
        let added = length-means s.agg_bucket s.agg in
        elim (Bool-cases (leb max_pending (length all))) [
          | inl q ↦ rw q (record {
            queue =
                rw (length-drop (max_pending / 4) all, long) (omega (arith, h.queue, few, added));
            rings = h.rings;
          })
          | inr q ↦ rw q (record { queue = omega (arith, leb-false _ _ q); rings = h.rings })
        ]

    record_live-IsBounded :
        (ts id : ℕ) (v : F) (s : Metrics M F) → IsBounded s → IsBounded (record_live ts id v s)
    unfolding record_live
    record_live-IsBounded ts id v s h = record {
      queue = h.queue;
      rings = All-insert id _ s.live (length-trim ts s.live_window_ms _) h.rings;
    }

    accumulate-IsBounded :
        (ts id : ℕ) (v : F) (s : Metrics M F)
        → length s.agg ≤ max_pending / 4
        → IsBounded s
        → IsBounded (accumulate ts id v s)
    unfolding accumulate
    accumulate-IsBounded ts id v s few h =
        elim (Bool-cases (ts / disk_bucket_ms * disk_bucket_ms == s.agg_bucket)) [
          | inl q ↦ rw q (record { queue = h.queue; rings = h.rings })
          | inr q ↦
              let closed = close_bucket-IsBounded s few h in
              rw q (record { queue = closed.queue; rings = closed.rings })
        ]

    known-IsBounded :
        (id ts : ℕ) (v : F) (s : Metrics M F)
        → length s.agg ≤ max_pending / 4
        → IsBounded s
        → IsBounded (accumulate ts id v (record_live ts id v s))
    unfolding record_live
    known-IsBounded id ts v s few h =
        accumulate-IsBounded ts id v (record_live ts id v s) few (record_live-IsBounded ts id v s h)

    metric_id-IsBounded :
        (row : Option ℕ) (m : M) (s : Metrics M F)
        → length s.agg ≤ max_pending / 4
        → IsBounded s
        → (length (metric_id row m s).0.agg ≤ max_pending / 4) × IsBounded (metric_id row m s).0
    unfolding metric_id
    metric_id-IsBounded none m s few h = elim (Option-cases (Dict.get m s.ids)) [
      | inr (id, k) ↦ rw (k, metric_id, length) (few, h)
      | inl k ↦ rw (k, metric_id, length) (few, h)
    ]
    metric_id-IsBounded (some new) m s few h = elim (Option-cases (Dict.get m s.ids)) [
      | inr (id, k) ↦ rw (k, metric_id, length) (few, h)
      | inl k ↦ rw (k, metric_id, length) (few, record { queue = h.queue; rings = h.rings })
    ]

    -- Whatever sample comes at whatever time, while no more than five thousand metrics have one in the
    -- running bucket the queue for the disk stays below twenty thousand, even if the disk never takes
    -- any of it, and every ring within twelve hundred points.
    pub push-IsBounded :
        (row : Option ℕ) (ts : ℕ) (m : M) (v : F) (s : Metrics M F)
        → length s.agg ≤ max_pending / 4
        → IsBounded s
        → IsBounded (push row ts m v s)
    unfolding push
    push-IsBounded row ts m v s few h = elim (Bool-cases (d.is_finite v)) [
      | inr q ↦ rw q h
      | inl q ↦
          let fine = metric_id-IsBounded row m s few h in
          elim (Option-cases (metric_id row m s).1) [
            | inr (id, k) ↦ rw (q, k) (known-IsBounded id ts v (metric_id row m s).0 fine.0 fine.1)
            | inl k ↦ rw (q, k) fine.1
          ]
    ]
