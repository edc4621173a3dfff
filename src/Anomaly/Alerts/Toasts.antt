-- ===== src/Anomaly/Alerts/Toasts.antt =====
-- What reaches the desktop: when a notification is sent, and when it is taken down.
use jamsys.Prelude.{
  ℕ, ◌+◌, ◌*◌, ◌<◌, ◌≤◌, ◌≡◌, refl, ◌∙◌, false, not, ◌&&◌, none, some, ◌∷◌, ◌==◌, if◌then◌else◌,
  Text, text_is_eq, arith,
}
use jamsys.Prelude.Dict
use jamsys.Prelude.Dict.{get-insert, get-remove, get-insert_self, get-remove_self}
use jamsys.Prelude.Float.{Float}
use jamsys.Types.{Severity, severity_is_eq, Alert, rank, cooldown_s}
use jamsys.Config.{AlertsConfig}
use jamsys.Anomaly.Alerts.{AlertManager, World, Env, is_open, BusCall, notify, close_notification}
use jamsys.Anomaly.Alerts.Desktop.{
  send_notification, withdraw, reach, icon_of, body_of, urgency_of, timeout_of,
}
use jamsys.Anomaly.Alerts.Raise.{
  is_quiet, shown_id, note, deliver, limit, announce, raise, stop_clearing, muted, fired,
}
use jamsys.Anomaly.Alerts.Resolve.{resolve, clear_now}
use jamsys.Anomaly.Alerts.Lifecycle.{raise_cases, persist-keeps, limit-keeps}

abbrev pub call_for : Alert → ℕ → BusCall
call_for a replaces =
    notify replaces (icon_of a.severity) a.title (body_of a.explanation) (urgency_of a.severity)
      (timeout_of a.severity)

module _ {ℓ} {F : Type ℓ} where
  note-keeps :
      (env : Env) (a : Alert) (id : ℕ) (w : World F)
      → ((note env a id w).bus ≡ w.bus)
        × ((note env a id w).manager.notified
            ≡ Dict.insert a.fingerprint (env.mono_ms, id, a.severity) w.manager.notified)
  unfolding note
  note-keeps env a id w = ground arith

  send-bus :
      (env : Env) (a : Alert) (replaces : ℕ) (w : World F)
      → (send_notification env a replaces w).0.bus
        ≡ (if reach env w.manager then call_for a replaces ∷ w.bus else w.bus)
  unfolding send_notification
  send-bus env a replaces w = ground arith

  deliver-bus :
      (env : Env) (a : Alert) (w : World F)
      → (deliver env a w).bus
        ≡ (if reach env w.manager then call_for a (shown_id a.fingerprint w) ∷ w.bus else w.bus)
  unfolding deliver
  deliver-bus env a w =
      let (sent, id) = send_notification env a (shown_id a.fingerprint w) w in
      (note-keeps env a id sent).0 ∙ send-bus env a (shown_id a.fingerprint w) w

  pub fired-keeps :
      (env : Env) (a : Alert) (w : World F)
      → let v = (fired env a w).0 in
        (v.bus ≡ w.bus)
        × (v.manager.notified ≡ w.manager.notified)
        × (v.manager.connected ≡ w.manager.connected)
        × (v.manager.buckets ≡ w.manager.buckets)
        × (v.manager.total_suppressed ≡ w.manager.total_suppressed)
  unfolding fired
  fired-keeps env a w = ground (arith, persist-keeps env a w)

  muted-keeps :
      (env : Env) (a : Alert) (w : World F)
      → ((muted env a w).bus ≡ w.bus) × ((muted env a w).manager.notified ≡ w.manager.notified)
  unfolding muted
  muted-keeps env a w = ground (arith, persist-keeps env a w)

  withdraw-bus :
      (env : Env) (fp : Text) (w : World F)
      → (withdraw env fp w).bus ≡ (
          if not (shown_id fp w == 0) && reach env w.manager
          then close_notification (shown_id fp w) ∷ w.bus
          else w.bus)
  unfolding withdraw shown_id
  withdraw-bus env fp w = ground arith

  withdraw-notified :
      (env : Env) (fp : Text) (w : World F)
      → Dict.get fp (withdraw env fp w).manager.notified ≡ none
  unfolding withdraw
  withdraw-notified env fp w = ground (arith, get-remove_self fp w.manager.notified)

  resolve-bus :
      (env : Env) (fp : Text) (w : World F)
      → ((resolve env fp w).bus ≡ (
          if not (shown_id fp w == 0) && reach env w.manager
          then close_notification (shown_id fp w) ∷ w.bus
          else w.bus))
        × (Dict.get fp (resolve env fp w).manager.notified ≡ none)
  unfolding resolve shown_id
  resolve-bus env fp w =
      let v = record w {
        manager = record (w.manager) {
          firing = Dict.remove fp w.manager.firing;
          clearing = Dict.remove fp w.manager.clearing;
        };
      } in
      ground (arith, withdraw-bus env fp v, withdraw-notified env fp v)

  -- Resolving an alert that fires forgets its notification, and closes it on the desktop exactly if
  -- it has an id there and the session bus can be reached. For any other alert nothing happens.
  pub clear_now-bus :
      (env : Env) (fp : Text) (w : World F)
      → ((clear_now env fp w).bus ≡ (
          if is_open fp w.manager && (not (shown_id fp w == 0) && reach env w.manager)
          then close_notification (shown_id fp w) ∷ w.bus
          else w.bus))
        × (Dict.get fp (clear_now env fp w).manager.notified
            ≡ (if is_open fp w.manager then none else Dict.get fp w.manager.notified))
  unfolding clear_now
  clear_now-bus env fp w = ground (arith, resolve-bus env fp w)

module _ {ℓ} {F : Type ℓ} ⦃d : Float F⦄ where
  pub limit-buckets :
      (env : Env) (s : Severity) (m n : AlertManager F)
      → m.buckets ≡ n.buckets
      → (limit env s m).1 ≡ (limit env s n).1
  unfolding limit
  limit-buckets env s m n e = ground arith

  announce-bus :
      (env : Env) (cfg : AlertsConfig) (a : Alert) (w : World F)
      → let (v, sent) = announce env cfg a w in
        v.bus ≡ (
          if sent && reach env w.manager
          then call_for a (shown_id a.fingerprint w) ∷ w.bus
          else w.bus)
  unfolding announce shown_id
  announce-bus env cfg a w =
      let (m, allowed) = limit env a.severity w.manager in
      ground
        (arith, deliver-bus env a (record w { manager = m }), limit-keeps env a.severity w.manager)

  -- A raise puts at most one `Notify` on the session bus: exactly when it answers that a notification
  -- was sent and the bus can be reached. It replaces the one that the alert has on the desktop.
  pub raise-bus :
      (env : Env) (cfg : AlertsConfig) (a : Alert) (w : World F)
      → (raise env cfg a w).0.bus ≡ (
          if (raise env cfg a w).1 && reach env w.manager
          then call_for a (shown_id a.fingerprint w) ∷ w.bus
          else w.bus)
  unfolding shown_id
  raise-bus env cfg a w =
      let v = stop_clearing a w in
      let on = (fired env a v).0 in
      let (b, n, c, k, t) = fired-keeps env a v in
      raise_cases
        (λ r. r.0.bus ≡ (
          if r.1 && reach env w.manager
          then call_for a (shown_id a.fingerprint w) ∷ w.bus
          else w.bus))
        env cfg a w (λ e. (muted-keeps env a v).0) (λ e q. b)
        (λ e q. ground (arith, announce-bus env cfg a on, b, n, c))

  -- An alert that was shown at the same severity or a worse one, and fires again within its cooldown,
  -- sends nothing and leaves the record of its notification as it is.
  pub raise_cooldown :
      (env : Env) (cfg : AlertsConfig) (a : Alert) (w : World F) (last id : ℕ) (shown : Severity)
      → Dict.get a.fingerprint w.manager.notified ≡ some (last, id, shown)
      → rank a.severity ≤ rank shown
      → env.mono_ms < last + cooldown_s a.severity * 1000
      → ((raise env cfg a w).1 ≡ false)
        × ((raise env cfg a w).0.bus ≡ w.bus)
        × ((raise env cfg a w).0.manager.notified ≡ w.manager.notified)
  unfolding is_quiet
  raise_cooldown env cfg a w last id shown h le soon =
      let v = stop_clearing a w in
      let (b, n, c, k, t) = fired-keeps env a v in
      raise_cases
        (λ r. (r.1 ≡ false) × (r.0.bus ≡ w.bus) × (r.0.manager.notified ≡ w.manager.notified)) env
        cfg a w (λ e. (refl, (muted-keeps env a v).0, (muted-keeps env a v).1))
        (λ e q. (refl, b, n)) (λ e q. absurd (ground (arith, h, q)))
