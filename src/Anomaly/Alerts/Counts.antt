-- ===== src/Anomaly/Alerts/Counts.antt =====
-- How many notifications were held back, as `suppressed_counts` reports it.
use jamsys.Prelude.{
  ℕ, ◌+◌, ◌≡◌, ◌∙◌, inl, inr, false, not, ◌||◌, some, [], ◌∷◌, text_is_eq, arith, Option-cases,
}
use jamsys.Prelude.Dict
use jamsys.Prelude.Dict.{Dict}
use jamsys.Prelude.Float.{Float}
use jamsys.Types.{Severity, severity_is_eq, Alert, severity_gt}
use jamsys.Config.{AlertsConfig, min_notify}
use jamsys.Anomaly.Bucket
use jamsys.Anomaly.Bucket.{Bucket}
use jamsys.Anomaly.Alerts.{AlertManager, World, Env}
use jamsys.Anomaly.Alerts.Raise.{
  is_suppressed, is_quiet, limit, announce, raise, stop_clearing, fired,
}
use jamsys.Anomaly.Alerts.Restart.{suppressed_counts, sum_suppressed}
use jamsys.Anomaly.Alerts.Lifecycle.{raise_cases}
use jamsys.Anomaly.Alerts.Toasts.{fired-keeps, limit-buckets}

module _ {ℓ} {F : Type ℓ} where
  sum-insert :
      (s : Severity) (b b' : Bucket F) (m : Dict Severity (Bucket F))
      → Dict.get s m ≡ some b
      → sum_suppressed (Dict.insert s b' m) + b.suppressed ≡ sum_suppressed m + b'.suppressed
  unfolding sum_suppressed Dict.get Dict.insert
  sum-insert s b b' [] e = cc
  sum-insert s b b' ((q, c) ∷ m) e = ground (arith, sum-insert s b b' m)

module _ {ℓ} {F : Type ℓ} ⦃d : Float F⦄ where
  take-refused :
      (b : Bucket F) (now : ℕ)
      → (Bucket.take b now).1 ≡ false
      → (Bucket.take b now).0.suppressed ≡ b.suppressed + 1
  unfolding Bucket.take
  take-refused b now h = ground arith

  limit-sum :
      (env : Env) (s : Severity) (m : AlertManager F)
      → (limit env s m).1 ≡ false
      → sum_suppressed (limit env s m).0.buckets ≡ sum_suppressed m.buckets + 1
  unfolding limit
  limit-sum env s m h = elim (Option-cases (Dict.get s m.buckets)) [
    | inl e ↦ absurd (ground (arith, h, e))
    | inr (b, e) ↦
        let refused : (Bucket.take b env.mono_ms).1 ≡ false = ground (arith, h, e) in
        let b' = (Bucket.take b env.mono_ms).0 in
        ground (arith, e, take-refused b env.mono_ms refused, sum-insert s b b' m.buckets e)
  ]

  announce-counts :
      (env : Env) (cfg : AlertsConfig) (a : Alert) (w : World F)
      → (not cfg.desktop_notifications || severity_gt (min_notify cfg) a.severity) ≡ false
      → (limit env a.severity w.manager).1 ≡ false
      → suppressed_counts (announce env cfg a w).0.manager
        ≡ sum_suppressed w.manager.buckets
          + 1
          + ((limit env a.severity w.manager).0.total_suppressed + 1)
  unfolding announce suppressed_counts
  announce-counts env cfg a w wanted full =
      rw (wanted, full) (ground (arith, limit-sum env a.severity w.manager full))

  limit-total :
      (env : Env) (s : Severity) (m : AlertManager F)
      → (limit env s m).0.total_suppressed ≡ m.total_suppressed
  unfolding limit
  limit-total env s m = ground arith

  -- A notification that the rate limit holds back, and nothing else does, counts twice among those
  -- reported: once by its bucket and once by the manager.
  pub raise_counts_twice :
      (env : Env) (cfg : AlertsConfig) (a : Alert) (w : World F)
      → is_suppressed w.manager a env.now_ms ≡ false
      → is_quiet
          (Dict.get a.fingerprint w.manager.notified)
          a.severity
          env.mono_ms
          (fired env a (stop_clearing a w)).1
        ≡ false
      → (not cfg.desktop_notifications || severity_gt (min_notify cfg) a.severity) ≡ false
      → (limit env a.severity w.manager).1 ≡ false
      → suppressed_counts (raise env cfg a w).0.manager ≡ suppressed_counts w.manager + 2
  unfolding suppressed_counts
  raise_counts_twice env cfg a w unmuted loud wanted full =
      let v = stop_clearing a w in
      let on = (fired env a v).0 in
      let (b, n, c, k, t) = fired-keeps env a v in
      let full' = limit-buckets env a.severity on.manager w.manager k ∙ full in
      raise_cases (λ r. suppressed_counts r.0.manager ≡ suppressed_counts w.manager + 2) env cfg a w
        (λ e. absurd (ground (arith, unmuted, e))) (λ e q. absurd (ground (arith, loud, q)))
        (λ e q. ground (
          arith,
          announce-counts env cfg a on wanted full',
          limit-total env a.severity on.manager,
          k,
          t,
        ))
