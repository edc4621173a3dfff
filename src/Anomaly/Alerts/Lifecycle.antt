-- ===== src/Anomaly/Alerts/Lifecycle.antt =====
-- Which alerts fire, and how long one whose condition has gone is held before it is resolved.
use jamsys.Prelude.{
  ℕ, ◌≡◌, inl, inr, refl, ap, ◌∙◌, Bool, true, false, not, ◌||◌, none, some, if◌then◌else◌, Text,
  text_eq, text_is_eq, arith, Bool-cases,
}
use jamsys.Prelude.Dict
use jamsys.Prelude.Dict.{get-insert, get-remove, get-insert_self, get-remove_self}
use jamsys.Prelude.Float.{Float}
use jamsys.Types.{Severity, Alert, severity_gt}
use jamsys.Config.{AlertsConfig, min_notify}
use jamsys.Store.Alerts.{upsert_alert}
use jamsys.Store.Alerts.Laws.{count_open, set_notify_id-count_open}
use jamsys.Anomaly.Alerts.{AlertManager, World, Env}
use jamsys.Anomaly.Alerts.Desktop.{send_notification, withdraw}
use jamsys.Anomaly.Alerts.Raise.{
  is_suppressed, persist, is_quiet, shown_id, note, deliver, limit, announce, raise, stop_clearing,
  muted, fired,
}

module _ {ℓ} {F : Type ℓ} where
  -- What the part of the manager that faces the desktop leaves alone.
  pub record Kept (v w : World F) : Type ℓ where
    pub firing : w.manager.firing ≡ v.manager.firing
    pub clearing : w.manager.clearing ≡ v.manager.clearing
    pub rows : (fp : Text) → count_open fp w.table ≡ count_open fp v.table

  pub send_notification-keeps :
      (env : Env) (a : Alert) (replaces : ℕ) (w : World F)
      → let v = (send_notification env a replaces w).0 in
        (v.manager.firing ≡ w.manager.firing)
        × (v.manager.clearing ≡ w.manager.clearing)
        × (v.table ≡ w.table)
  unfolding send_notification
  send_notification-keeps env a replaces w = ground arith

  pub withdraw-keeps :
      (env : Env) (fp : Text) (w : World F)
      → let v = withdraw env fp w in
        (v.manager.firing ≡ w.manager.firing)
        × (v.manager.clearing ≡ w.manager.clearing)
        × (v.table ≡ w.table)
  unfolding withdraw
  withdraw-keeps env fp w = ground arith

  note-Kept : (env : Env) (a : Alert) (id : ℕ) (w : World F) → Kept w (note env a id w)
  unfolding note
  note-Kept env a id w = elim (Bool-cases env.db_ok) [
    | inl e ↦ rw e (record {
      firing = refl;
      clearing = refl;
      rows = λ fp. set_notify_id-count_open a.fingerprint id w.table fp;
    })
    | inr e ↦ rw e (record { firing = refl; clearing = refl; rows = λ fp. refl })
  ]

  deliver-Kept : (env : Env) (a : Alert) (w : World F) → Kept w (deliver env a w)
  unfolding deliver
  deliver-Kept env a w =
      let (sent, id) = send_notification env a (shown_id a.fingerprint w) w in
      let (f, c, t) = send_notification-keeps env a (shown_id a.fingerprint w) w in
      let k = note-Kept env a id sent in
      record {
        firing = k.firing ∙ f;
        clearing = k.clearing ∙ c;
        rows = λ fp. k.rows fp ∙ ap (count_open fp) t;
      }

  pub persist-keeps :
      (env : Env) (a : Alert) (w : World F)
      → ((persist env a w).0.manager ≡ w.manager)
        × ((persist env a w).0.bus ≡ w.bus)
        × ((persist env a w).0.table
            ≡ (if env.db_ok then (upsert_alert env.now_ms a w.table).0 else w.table))
  unfolding persist
  persist-keeps env a w = ground arith

module _ {ℓ} {F : Type ℓ} ⦃d : Float F⦄ where
  pub limit-keeps :
      (env : Env) (s : Severity) (m : AlertManager F)
      → let n = (limit env s m).0 in
        (n.firing ≡ m.firing)
        × (n.clearing ≡ m.clearing)
        × (n.notified ≡ m.notified)
        × (n.connected ≡ m.connected)
  unfolding limit
  limit-keeps env s m = ground arith

  pub announce-Kept :
      (env : Env) (cfg : AlertsConfig) (a : Alert) (w : World F) → Kept w (announce env cfg a w).0
  unfolding announce
  announce-Kept env cfg a w =
      let (m, allowed) = limit env a.severity w.manager in
      let (f, c, n, _) = limit-keeps env a.severity w.manager in
      let k = deliver-Kept env a (record w { manager = m }) in
      elim (Bool-cases (not cfg.desktop_notifications || severity_gt (min_notify cfg) a.severity)) [
        | inl e ↦ rw e (record { firing = refl; clearing = refl; rows = λ fp. refl })
        | inr e ↦ rw e (elim (Bool-cases (limit env a.severity w.manager).1) [
          | inl ok ↦
              rw ok (record { firing = k.firing ∙ f; clearing = k.clearing ∙ c; rows = k.rows })
          | inr full ↦ rw full (record { firing = f; clearing = c; rows = λ fp. refl })
        ])
      ]

  -- The three ways through `raise`.
  pub raise_cases {κ} :
      (P : World F × Bool → Type κ) (env : Env) (cfg : AlertsConfig) (a : Alert) (w : World F)
      → (is_suppressed w.manager a env.now_ms ≡ true → P (muted env a (stop_clearing a w), false))
      → (is_suppressed w.manager a env.now_ms ≡ false
          → is_quiet
              (Dict.get a.fingerprint w.manager.notified)
              a.severity
              env.mono_ms
              (fired env a (stop_clearing a w)).1
            ≡ true
          → P ((fired env a (stop_clearing a w)).0, false))
      → (is_suppressed w.manager a env.now_ms ≡ false
          → is_quiet
              (Dict.get a.fingerprint w.manager.notified)
              a.severity
              env.mono_ms
              (fired env a (stop_clearing a w)).1
            ≡ false
          → P (announce env cfg a (fired env a (stop_clearing a w)).0))
      → P (raise env cfg a w)
  unfolding raise is_suppressed
  raise_cases P env cfg a w mute quiet loud =
      elim (Bool-cases (is_suppressed w.manager a env.now_ms)) [
        | inl e ↦ rw e (mute e)
        | inr e ↦
            rw e
              (elim (Bool-cases (
                is_quiet (Dict.get a.fingerprint w.manager.notified) a.severity env.mono_ms
                  (fired env a (stop_clearing a w)).1)) [
                    | inl q ↦ rw q (quiet e q)
                    | inr q ↦ rw q (loud e q)
                  ])
      ]

  muted-firing :
      (env : Env) (a : Alert) (w : World F)
      → ((muted env a w).manager.firing ≡ Dict.insert a.fingerprint a.severity w.manager.firing)
        × ((muted env a w).manager.clearing ≡ w.manager.clearing)
  unfolding muted
  muted-firing env a w = ground (arith, persist-keeps env a w)

  fired-firing :
      (env : Env) (a : Alert) (w : World F)
      → ((fired env a w).0.manager.firing ≡ Dict.insert a.fingerprint a.severity w.manager.firing)
        × ((fired env a w).0.manager.clearing ≡ w.manager.clearing)
  unfolding fired
  fired-firing env a w = ground (arith, persist-keeps env a w)

  abbrev Fires : Alert → World F → World F × Bool → Type 0
  Fires a w r =
      (r.0.manager.firing ≡ Dict.insert a.fingerprint a.severity w.manager.firing)
      × (r.0.manager.clearing ≡ Dict.remove a.fingerprint w.manager.clearing)

  raise-Fires :
      (env : Env) (cfg : AlertsConfig) (a : Alert) (w : World F) → Fires a w (raise env cfg a w)
  raise-Fires env cfg a w =
      let v = stop_clearing a w in
      let on = fired-firing env a v in
      let k = announce-Kept env cfg a (fired env a v).0 in
      raise_cases (Fires a w) env cfg a w (λ e. muted-firing env a v) (λ e q. on)
        (λ e q. (k.firing ∙ on.0, k.clearing ∙ on.1))

  -- Whatever becomes of the notification, an alert that is raised fires under its severity from then
  -- on, every other alert fires as before, and the hold of its resolution starts anew.
  pub raise-firing :
      (env : Env) (cfg : AlertsConfig) (a : Alert) (w : World F) (fp : Text)
      → let m = (raise env cfg a w).0.manager in
        (Dict.get fp m.firing
          ≡ (if text_eq a.fingerprint fp then some a.severity else Dict.get fp w.manager.firing))
        × (Dict.get fp m.clearing
            ≡ (if text_eq a.fingerprint fp then none else Dict.get fp w.manager.clearing))
  raise-firing env cfg a w fp =
      let (f, c) = raise-Fires env cfg a w in
      rw (f, c)
        (
          get-insert a.fingerprint fp a.severity w.manager.firing,
          get-remove a.fingerprint fp w.manager.clearing,
        )
