-- ===== src/Store/Metrics.antt =====
-- jamsys-daemon/src/store.rs: the samples in memory. The live ring of each metric keeps full
-- resolution; the running bucket of ten seconds collects means, which wait in `pending` for the disk.
-- Times are wall-clock milliseconds. What SQLite answers is an argument. A `HashMap` is drained in the
-- order of its association list.
pub mod Laws
mod Tests
use jamsys.Prelude.{
  nat_is_eq, ℕ, ◌+◌, ◌*◌, ◌/◌, ◌%◌, ◌^◌, ◌-◌, max, min, Bool, true, false, not, ◌&&◌, ◌||◌, ◌==◌,
  Option, none, some, List, [], ◌∷◌, ◌++◌, ltb, leb, if◌then◌else◌, length, drop, unwrap_or, Eq,
  keep_if, map, ==_iff,
}
use jamsys.Prelude.Dict
use jamsys.Prelude.Dict.{Dict}

-- What the code does with `f64`; `narrow` is `as f32`, `widen` is `as f64`.
pub record Samples {ℓ} (F : Type ℓ) : Type ℓ where
  pub is_finite : F → Bool
  pub narrow : F → F
  pub widen : F → F
  pub zero : F
  pub nan : F
  pub add : F → F → F
  pub div : F → ℕ → F
  pub lt : F → F → Bool

abbrev pub max_pending : ℕ
max_pending = 20_000

abbrev pub disk_bucket_ms : ℕ
disk_bucket_ms = 10_000

abbrev pub live_max_points : ℕ
live_max_points = 1_200

pub record Accum {ℓ} (F : Type ℓ) : Type ℓ where
  pub sum : F
  pub n : ℕ
  pub low : F
  pub high : F

abbrev pub Ring {ℓ} : Type ℓ → Type ℓ
Ring F = List (ℕ × F)

-- The fields of `Store` but for the connection; rows of metrics are known by their ids.
pub record Metrics {ℓ κ} (M : Type κ) (F : Type ℓ) : Type (ℓ ⊔ κ) where
  pub ids : Dict M ℕ
  pub pending : List (ℕ × (ℕ × F))
  pub last_flush_ms : ℕ
  pub live : Dict ℕ (Ring F)
  pub agg : Dict ℕ (Accum F)
  pub agg_bucket : ℕ
  pub live_window_ms : ℕ

-- From the front, what lies before the window or is too much.
unfoldable pub trim {ℓ} : {F : Type ℓ} → ℕ → ℕ → Ring F → Ring F
trim ts window [] = []
trim ts window ((t, v) ∷ ring) =
    if ltb (t + window) ts || ltb live_max_points (length ((t, v) ∷ ring))
    then trim ts window ring
    else (t, v) ∷ ring

module _ {ℓ} {F : Type ℓ} ⦃d : Samples F⦄ where
  abbrev pub empty_accum : Accum F
  empty_accum = record { sum = d.zero; n = 0; low = d.zero; high = d.zero }

  unfoldable pub accum_add : F → Accum F → Accum F
  accum_add v a =
      let first = a.n == 0 in
      record {
        sum = d.add a.sum v;
        n = (a.n + 1) % 2 ^ 32;
        low = if first || d.lt v a.low then v else a.low;
        high = if first || d.lt a.high v then v else a.high;
      }

  unfoldable pub accum_mean : Accum F → F
  accum_mean a = if a.n == 0 then d.nan else d.div a.sum a.n

  unfoldable pub means : ℕ → Dict ℕ (Accum F) → List (ℕ × (ℕ × F))
  unfolding accum_mean
  means ts [] = []
  means ts ((id, a) ∷ agg) =
      let rest = means ts agg in
      if d.is_finite (accum_mean a) then (id, (ts, accum_mean a)) ∷ rest else rest

  module _ {κ} {M : Type κ} ⦃e : Eq M⦄ where
    -- The bucket that is over; a queue that is full loses its oldest quarter.
    unfoldable pub close_bucket : Metrics M F → Metrics M F
    unfolding means
    close_bucket s =
        let all = s.pending ++ means s.agg_bucket s.agg in
        record s {
          agg = [];
          pending = if leb max_pending (length all) then drop (max_pending / 4) all else all;
        }

    -- `row` is what the database answers for a metric that has no id yet.
    unfoldable pub metric_id : Option ℕ → M → Metrics M F → Metrics M F × Option ℕ
    metric_id row m s = elim (Dict.get m s.ids) [
      | some id ↦ (s, some id)
      | none ↦ elim row [
        | none ↦ (s, none)
        | some id ↦ (record s { ids = Dict.insert m id s.ids }, some id)
      ]
    ]

    unfoldable pub record_live : ℕ → ℕ → F → Metrics M F → Metrics M F
    unfolding trim
    record_live ts id v s =
        let ring = unwrap_or [] (Dict.get id s.live) ++ ((ts, d.narrow v) ∷ []) in
        record s { live = Dict.insert id (trim ts s.live_window_ms ring) s.live }

    unfoldable pub accumulate : ℕ → ℕ → F → Metrics M F → Metrics M F
    unfolding close_bucket accum_add
    accumulate ts id v s =
        let bucket = ts / disk_bucket_ms * disk_bucket_ms in
        let now =
          if bucket == s.agg_bucket then s else record (close_bucket s) { agg_bucket = bucket } in
        let a = unwrap_or empty_accum (Dict.get id now.agg) in
        record now { agg = Dict.insert id (accum_add v a) now.agg }

    unfoldable pub push : Option ℕ → ℕ → M → F → Metrics M F → Metrics M F
    unfolding metric_id record_live accumulate
    push row ts m v s =
        if not (d.is_finite v)
        then s
        else let (known, id) = metric_id row m s in
          elim id [ none ↦ known | some i ↦ accumulate ts i v (record_live ts i v known) ]

    -- The rows that are written, if the transaction goes through.
    unfoldable pub flush : ℕ → Bool → Metrics M F → Metrics M F × Option (List (ℕ × (ℕ × F)))
    unfolding close_bucket
    flush now db_ok s =
        let bucket = now / disk_bucket_ms * disk_bucket_ms in
        let ready =
          if not (bucket == s.agg_bucket) && not (length s.agg == 0)
          then record (close_bucket s) { agg_bucket = bucket }
          else s in
        if length ready.pending == 0
        then (record ready { last_flush_ms = now }, some [])
        else if db_ok
        then (record ready { pending = []; last_flush_ms = now }, some ready.pending)
        else (ready, none)

    unfoldable pub flush_final : ℕ → Bool → Metrics M F → Metrics M F × Option (List (ℕ × (ℕ × F)))
    unfolding close_bucket flush
    flush_final now db_ok s =
        if length s.agg == 0 then flush now db_ok s else flush now db_ok (close_bucket s)

    unfoldable pub live_series : M → ℕ → Metrics M F → Ring F
    live_series m since s = elim (Dict.get m s.ids) [
      | none ↦ []
      | some id ↦
          map (λ p. (p.0, d.widen p.1))
            (keep_if (λ p. leb since p.0) (unwrap_or [] (Dict.get id s.live)))
    ]

    unfoldable pub set_live_window_ms : ℕ → Metrics M F → Metrics M F
    set_live_window_ms ms s = record s { live_window_ms = min (max ms 60_000) (2 * 3_600_000) }

    unfoldable pub due_for_flush : ℕ → ℕ → Metrics M F → Bool
    due_for_flush now flush_ms s =
        not (length s.pending == 0) && leb (s.last_flush_ms + flush_ms) now
