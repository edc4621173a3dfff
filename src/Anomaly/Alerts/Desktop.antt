-- ===== src/Anomaly/Alerts/Desktop.antt =====
-- jamsys-daemon/src/anomaly/alerts.rs: what the manager puts on the session bus.
use jamsys.Prelude.{
  ℕ, ◌+◌, Bool, true, false, ◌||◌, Option, none, some, [], ◌∷◌, ◌++◌, ◌==◌, if◌then◌else◌, Text,
  codes, text_is_eq,
}
use jamsys.Prelude.Dict
use jamsys.Prelude.Dict.{Dict}
use jamsys.Types.{Severity, severity_is_eq, warning, critical, Alert, Explanation}
use jamsys.Anomaly.Alerts.{AlertManager, notify, close_notification, World, Env}

abbrev pub urgency_of : Severity → ℕ
urgency_of critical = 2
urgency_of warning = 1
urgency_of _ = 0

-- 0 never expires.
abbrev pub timeout_of : Severity → ℕ
timeout_of critical = 0
timeout_of warning = 20_000
timeout_of _ = 10_000

abbrev pub icon_of : Severity → Text
icon_of critical = codes "dialog-error"
icon_of warning = codes "dialog-warning"
icon_of _ = codes "dialog-information"

-- The expected range if there is one, or else the likely cause.
abbrev pub second_line : Option Text → Option Text → Text
second_line (some x) c = codes "\nExpected: " ++ x
second_line none (some c) = codes "\n" ++ c
second_line none none = []

abbrev pub body_of : Explanation → Text
body_of e = e.what ++ second_line e.expected e.likely_cause

module _ {ℓ} {F : Type ℓ} where
  -- A new connection where there is none.
  abbrev pub reach : Env → AlertManager F → Bool
  reach env m = m.connected || env.session_ok

  -- The state, and the id of the notification or 0.
  unfoldable pub send_notification : Env → Alert → ℕ → World F → World F × ℕ
  send_notification env a replaces w =
      let m = w.manager in
      let call =
        notify replaces (icon_of a.severity) a.title (body_of a.explanation) (urgency_of a.severity)
          (timeout_of a.severity) in
      if reach env m
      then (elim env.reply [
        | some id ↦ (record w { manager = record m { connected = true }; bus = call ∷ w.bus }, id)
        | none ↦ (
          record w {
            manager = record m { connected = false; notify_failures = m.notify_failures + 1 };
            bus = call ∷ w.bus;
          },
          0,
        )
      ])
      else (
        record w {
          manager = record m { connected = false; notify_failures = m.notify_failures + 1 };
        },
        0,
      )

  -- Forget the notification, and take it off the desktop if it has an id.
  unfoldable pub withdraw : Env → Text → World F → World F
  withdraw env fp w = elim (Dict.get fp w.manager.notified) [
    | none ↦ w
    | some (at, id, sev) ↦
        let m = record (w.manager) { notified = Dict.remove fp w.manager.notified } in
        if id == 0
        then record w { manager = m }
        else if reach env m
        then record w {
          manager = record m { connected = env.close_ok };
          bus = close_notification id ∷ w.bus;
        }
        else record w { manager = m }
  ]
