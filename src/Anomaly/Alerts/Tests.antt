-- ===== src/Anomaly/Alerts/Tests.antt =====
-- Runs of the alert manager on concrete alerts.
use jamsys.Prelude.{
  ℕ, ◌+◌, ◌≡◌, refl, true, false, ◌&&◌, some, List, [], ◌∷◌, if◌then◌else◌, Text, codes, text_eq,
  text_is_eq, arith,
}
use jamsys.Prelude.Dict
use jamsys.Prelude.Float.{milli}
use jamsys.Prelude.Int.{pos}
use jamsys.Types.{
  Severity, severity_is_eq, info, warning, critical, Alert, new_alert, explain, cooldown_s,
}
use jamsys.Util.Glob.{to_ascii_lowercase, ascii_lower}
use jamsys.Config.{AlertsConfig, min_notify}
use jamsys.Store.Alerts.Laws.{count_open}
use jamsys.Anomaly.Bucket
use jamsys.Anomaly.Alerts.{World, Env, is_open}
use jamsys.Anomaly.Alerts.Desktop.{reach}
use jamsys.Anomaly.Alerts.Raise.{raise, shown_id, is_suppressed, is_quiet, limit, fired}
use jamsys.Anomaly.Alerts.Resolve.{clear_now}
use jamsys.Anomaly.Alerts.Restart.{suppressed_counts}
use jamsys.Anomaly.Alerts.Agreement.{Op, raises, clears, run, run-Agrees}
use jamsys.Anomaly.Alerts.Toasts.{call_for, raise-bus, raise_cooldown}
use jamsys.Anomaly.Alerts.Lost.{raise_loses_toast}
use jamsys.Anomaly.Alerts.Counts.{raise_counts_twice}

abbrev at : ℕ → Env
at ms = record {
  mono_ms = ms;
  now_ms = 1_000_000 + ms;
  db_ok = true;
  session_ok = true;
  reply = some 7;
  close_ok = true;
}

abbrev config : AlertsConfig
config = record {
  desktop_notifications = true;
  min_notify_severity = codes "info";
  burst = 1;
  refill_s = pos 60;
}

abbrev hot : Severity → Alert
hot s = new_alert (codes "temp") (codes "cpu") s (codes "Hot") (explain (codes "The CPU is hot."))

abbrev fp : Text
fp = codes "temp:cpu"

-- Nothing fires yet. The bucket of critical alerts is empty.
abbrev quiet : World ℕ
quiet = record {
  manager = record {
    buckets =
        (warning, Bucket.new 1 (pos 60) 0)
        ∷ (critical, record (Bucket.new 1 (pos 60) 0) { tokens = 0 })
        ∷ [];
    notified = [];
    firing = [];
    clearing = [];
    suppressions = [];
    connected = false;
    notify_failures = 0;
    total_raised = 0;
    total_suppressed = 0;
  };
  table = [];
  bus = [];
}

-- The alert fires, and has the notification 5 on the desktop.
abbrev shown : World ℕ
shown = record quiet {
  manager = record (quiet.manager) {
    notified = (fp, (1_000, 5, warning)) ∷ [];
    firing = (fp, warning) ∷ [];
  };
}

abbrev calls : List (Env × Op)
calls =
    (at 1_000, raises config (hot warning))
    ∷ (at 2_000, clears fp)
    ∷ (at 130_000, clears fp)
    ∷ (at 140_000, raises config (hot critical))
    ∷ []

run-Agrees_example :
    count_open fp (run quiet calls).table ≡ (if is_open fp (run quiet calls).manager then 1 else 0)
unfolding count_open Dict.get
run-Agrees_example = run-Agrees calls quiet fp (refl, (refl, (refl, (refl, tt)))) (λ f. refl)

raise-bus_example : (raise (at 0) config (hot warning) quiet).0.bus ≡ (
    if (raise (at 0) config (hot warning) quiet).1 && reach (at 0) quiet.manager
    then call_for (hot warning) (shown_id (hot warning).fingerprint quiet) ∷ []
    else [])
raise-bus_example = raise-bus (at 0) config (hot warning) quiet

raise_cooldown_example :
    let r = raise (at 9_000) config (hot info) shown in
    (r.1 ≡ false) × (r.0.bus ≡ []) × (r.0.manager.notified ≡ shown.manager.notified)
unfolding new_alert Dict.get text_eq cooldown_s
raise_cooldown_example =
    raise_cooldown (at 9_000) config (hot info) shown 1_000 5 warning refl (omega arith)
      (omega arith)

raise_loses_toast_example :
    (clear_now
      (at 9_000)
      (hot critical).fingerprint
      (raise (at 1_000) config (hot critical) shown).0).bus
    ≡ []
unfolding is_suppressed new_alert Dict.get text_eq limit Bucket.take Bucket.new
raise_loses_toast_example =
    raise_loses_toast (at 1_000) (at 9_000) config (hot critical) shown 1_000 5 warning refl refl
      (omega arith) refl

raise_counts_twice_example :
    suppressed_counts (raise (at 1_000) config (hot critical) quiet).0.manager
    ≡ suppressed_counts quiet.manager + 2
unfolding is_suppressed is_quiet new_alert Dict.get text_eq limit Bucket.take Bucket.new min_notify
    to_ascii_lowercase ascii_lower fired
raise_counts_twice_example =
    raise_counts_twice (at 1_000) config (hot critical) quiet refl refl refl refl
