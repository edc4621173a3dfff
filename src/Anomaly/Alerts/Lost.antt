-- ===== src/Anomaly/Alerts/Lost.antt =====
-- A notification that the manager loses sight of.
use jamsys.Prelude.{ℕ, ◌<◌, ◌≡◌, ◌∙◌, Bool, true, false, some, text_is_eq, arith}
use jamsys.Prelude.Dict
use jamsys.Prelude.Dict.{get-insert, get-remove, get-insert_self, get-remove_self}
use jamsys.Prelude.Float.{Float}
use jamsys.Types.{Severity, severity_is_eq, Alert, rank}
use jamsys.Config.{AlertsConfig}
use jamsys.Anomaly.Alerts.{World, Env}
use jamsys.Anomaly.Alerts.Raise.{
  is_suppressed, is_quiet, shown_id, limit, announce, raise, stop_clearing, fired,
}
use jamsys.Anomaly.Alerts.Resolve.{clear_now}
use jamsys.Anomaly.Alerts.Lifecycle.{raise_cases}
use jamsys.Anomaly.Alerts.Toasts.{fired-keeps, limit-buckets, clear_now-bus}

module _ {ℓ} {F : Type ℓ} ⦃d : Float F⦄ where
  announce-full :
      (env : Env) (cfg : AlertsConfig) (a : Alert) (w : World F)
      → (limit env a.severity w.manager).1 ≡ false
      → ((announce env cfg a w).1 ≡ false)
        × ((announce env cfg a w).0.bus ≡ w.bus)
        × (Dict.get a.fingerprint (announce env cfg a w).0.manager.notified
            ≡ some (env.mono_ms, 0, a.severity))
  unfolding announce
  announce-full env cfg a w full =
      let m = (limit env a.severity w.manager).0 in
      ground (
        arith,
        full,
        get-insert_self a.fingerprint (env.mono_ms, 0, a.severity) w.manager.notified,
        get-insert_self a.fingerprint (env.mono_ms, 0, a.severity) m.notified,
      )

  loud_if_worse :
      (env : Env) (a : Alert) (w : World F) (last id : ℕ) (shown : Severity) (is_new : Bool)
      → Dict.get a.fingerprint w.manager.notified ≡ some (last, id, shown)
      → rank shown < rank a.severity
      → is_quiet (Dict.get a.fingerprint w.manager.notified) a.severity env.mono_ms is_new ≡ true
      → ⊥
  unfolding is_quiet
  loud_if_worse env a w last id shown is_new h worse q = ground arith

  forgot :
      (env : Env) (cfg : AlertsConfig) (a : Alert) (on w : World F)
      → on.bus ≡ w.bus
      → (limit env a.severity on.manager).1 ≡ false
      → ((announce env cfg a on).0.bus ≡ w.bus)
        × (shown_id a.fingerprint (announce env cfg a on).0 ≡ 0)
  unfolding shown_id
  forgot env cfg a on w b full = ground (arith, announce-full env cfg a on full)

  -- An alert that got worse but meets an empty bucket loses the id of the notification it has on the
  -- desktop: resolving it later sends no `CloseNotification`, whatever the session bus would do, so
  -- that notification stays.
  pub raise_loses_toast :
      (env later : Env) (cfg : AlertsConfig) (a : Alert) (w : World F) (last id : ℕ)
      (shown : Severity)
      → is_suppressed w.manager a env.now_ms ≡ false
      → Dict.get a.fingerprint w.manager.notified ≡ some (last, id, shown)
      → rank shown < rank a.severity
      → (limit env a.severity w.manager).1 ≡ false
      → (clear_now later a.fingerprint (raise env cfg a w).0).bus ≡ w.bus
  raise_loses_toast env later cfg a w last id shown loud h worse full =
      ground (arith, clear_now-bus later a.fingerprint (raise env cfg a w).0, lost)
    where
      lost :
          ((raise env cfg a w).0.bus ≡ w.bus) × (shown_id a.fingerprint (raise env cfg a w).0 ≡ 0)
      lost =
          let v = stop_clearing a w in
          let on = (fired env a v).0 in
          let (b, n, c, k, t) = fired-keeps env a v in
          raise_cases (λ r. (r.0.bus ≡ w.bus) × (shown_id a.fingerprint r.0 ≡ 0)) env cfg a w
            (λ e. absurd (ground (arith, loud, e)))
            (λ e q. absurd (loud_if_worse env a w last id shown (fired env a v).1 h worse q))
            (λ e q.
              forgot env cfg a on w b (limit-buckets env a.severity on.manager w.manager k ∙ full))
