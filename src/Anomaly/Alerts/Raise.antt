-- ===== src/Anomaly/Alerts/Raise.antt =====
-- jamsys-daemon/src/anomaly/alerts.rs, `raise`: suppression, persistence, cooldown, rate limit and
-- delivery, in the order of the code.
use jamsys.Prelude.{
  ℕ, ◌+◌, ◌*◌, Bool, true, false, not, ◌&&◌, ◌||◌, Option, none, some, [], ◌++◌, ltb, if◌then◌else◌,
  Text, codes, any, unwrap_or, strip_prefix, text_is_eq,
}
use jamsys.Prelude.Dict
use jamsys.Prelude.Dict.{Dict}
use jamsys.Prelude.Float.{Float}
use jamsys.Types.{Severity, severity_is_eq, severity_gt, cooldown_s, Alert}
use jamsys.Config.{AlertsConfig, min_notify}
use jamsys.Store.Suppressions.{active, covers}
use jamsys.Store.Alerts.{upsert_alert, set_notify_id}
use jamsys.Anomaly.Bucket
use jamsys.Anomaly.Bucket.{Bucket}
use jamsys.Anomaly.Alerts.{Notified, AlertManager, World, Env}
use jamsys.Anomaly.Alerts.Desktop.{send_notification}

-- The part of the fingerprint behind `rule_id:`.
unfoldable pub instance_of : Alert → Text
instance_of a = unwrap_or [] (strip_prefix (a.rule_id ++ codes ":") a.fingerprint)

-- The two early returns: a firing that is no worse than the one shown is quiet within the
-- cooldown, and later too unless the alert is new.
unfoldable pub is_quiet : Option Notified → Severity → ℕ → Bool → Bool
is_quiet none severity now is_new = false
is_quiet (some (last, id, shown)) severity now is_new =
    not (severity_gt severity shown) && (ltb now (last + cooldown_s severity * 1000) || not is_new)

module _ {ℓ} {F : Type ℓ} where
  unfoldable pub is_suppressed : AlertManager F → Alert → ℕ → Bool
  is_suppressed m a now =
      any (λ s. active s now && covers s a.rule_id (instance_of a) a.fingerprint) m.suppressions

  -- `store.upsert_alert`, with its failure logged and taken for "not new".
  unfoldable pub persist : Env → Alert → World F → World F × Bool
  persist env a w =
      let (rows, id, is_new) = upsert_alert env.now_ms a w.table in
      if env.db_ok then (record w { table = rows }, is_new) else (w, false)

  abbrev pub set_notified : Text → Notified → World F → World F
  set_notified fp n w = record w {
    manager = record (w.manager) { notified = Dict.insert fp n w.manager.notified };
  }

  -- The id of the notification that the alert has on the desktop, or 0.
  unfoldable pub shown_id : Text → World F → ℕ
  shown_id fp w = elim (Dict.get fp w.manager.notified) [ none ↦ 0 | some (at, id, shown) ↦ id ]

  unfoldable pub note : Env → Alert → ℕ → World F → World F
  note env a id w =
      let noted = set_notified a.fingerprint (env.mono_ms, id, a.severity) w in
      if env.db_ok then record noted { table = set_notify_id a.fingerprint id w.table } else noted

  unfoldable pub deliver : Env → Alert → World F → World F
  deliver env a w =
      let (sent, id) = send_notification env a (shown_id a.fingerprint w) w in note env a id sent

  abbrev pub stop_clearing : Alert → World F → World F
  stop_clearing a w = record w {
    manager = record (w.manager) { clearing = Dict.remove a.fingerprint w.manager.clearing };
  }

  -- A suppressed alert is stored and counts as firing, but says nothing.
  unfoldable pub muted : Env → Alert → World F → World F
  muted env a w =
      let kept = (persist env a w).0 in
      record kept {
        manager = record (kept.manager) {
          total_suppressed = kept.manager.total_suppressed + 1;
          firing = Dict.insert a.fingerprint a.severity kept.manager.firing;
        };
      }

  unfoldable pub fired : Env → Alert → World F → World F × Bool
  fired env a w =
      let (kept, is_new) = persist env a w in
      let raised = kept.manager.total_raised in
      (
        record kept {
          manager = record (kept.manager) {
            firing = Dict.insert a.fingerprint a.severity kept.manager.firing;
            total_raised = if is_new then raised + 1 else raised;
          };
        },
        is_new,
      )

module _ {ℓ} {F : Type ℓ} ⦃d : Float F⦄ where
  -- The rate limit comes last. A severity without a bucket is not limited.
  unfoldable pub limit : Env → Severity → AlertManager F → AlertManager F × Bool
  limit env severity m = elim (Dict.get severity m.buckets) [
    | none ↦ (m, true)
    | some b ↦
        let (b', allowed) = Bucket.take b env.mono_ms in
        (record m { buckets = Dict.insert severity b' m.buckets }, allowed)
  ]

  unfoldable pub announce : Env → AlertsConfig → Alert → World F → World F × Bool
  announce env cfg a w =
      let silent = set_notified a.fingerprint (env.mono_ms, 0, a.severity) in
      if not cfg.desktop_notifications || severity_gt (min_notify cfg) a.severity
      then (silent w, false)
      else let (m, allowed) = limit env a.severity w.manager in
        if allowed then (deliver env a (record w { manager = m }), true) else (
          silent (record w { manager = record m { total_suppressed = m.total_suppressed + 1 } }),
          false,
        )

  -- An alert fires. The answer says whether a notification was sent.
  unfoldable pub raise : Env → AlertsConfig → Alert → World F → World F × Bool
  raise env cfg a w =
      let v = stop_clearing a w in
      let (on, is_new) = fired env a v in
      if is_suppressed v.manager a env.now_ms
      then (muted env a v, false)
      else if is_quiet (Dict.get a.fingerprint v.manager.notified) a.severity env.mono_ms is_new
      then (on, false)
      else announce env cfg a on
