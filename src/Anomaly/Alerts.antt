-- ===== src/Anomaly/Alerts.antt =====
-- jamsys-daemon/src/anomaly/alerts.rs, `AlertManager`: what fires, what is shown on the desktop, and
-- when it is taken down. The manager, the alert table and the traffic on the session bus make up one
-- state; what the surroundings answer during a call is an argument.
pub mod Desktop
pub mod Raise
pub mod Resolve
pub mod Restart
pub mod Lifecycle
pub mod Hold
pub mod Toasts
pub mod Lost
pub mod Counts
pub mod Agreement
pub mod Names
mod Tests
use jamsys.Prelude.{
  ℕ, suc, ◌+◌, ◌*◌, ◌<◌, Bool, true, false, not, ◌&&◌, ◌||◌, Option, none, some, List, [], ◌∷◌,
  ◌++◌, ltb, leb, ◌==◌, if◌then◌else◌, Text, codes, any, is_some, unwrap_or, strip_prefix, length,
  min, text_is_eq,
}
use jamsys.Prelude.Dict
use jamsys.Prelude.Dict.{Dict}
use jamsys.Prelude.Float.{Float}
use jamsys.Prelude.Int.{pos}
use jamsys.Types.{
  Severity, severity_is_eq, info, notice, warning, critical, rank, severity_gt, cooldown_s,
  from_i64, Alert, Explanation,
}
use jamsys.Config.{AlertsConfig, min_notify}
use jamsys.Store.Suppressions.{Suppression, active, covers}
use jamsys.Store.Alerts.{Row, Table, upsert_alert, resolve_alert, set_notify_id, open_alerts}
use jamsys.Anomaly.Bucket
use jamsys.Anomaly.Bucket.{Bucket}

abbrev pub min_resolve_hold_s : ℕ
min_resolve_hold_s = 120

-- When the notification was sent (monotonic), its id on the desktop or 0, and the severity shown.
abbrev pub Notified : Type 0
Notified = ℕ × ℕ × Severity

pub record AlertManager {ℓ} (F : Type ℓ) : Type ℓ where
  pub buckets : Dict Severity (Bucket F)
  pub notified : Dict Text Notified
  pub firing : Dict Text Severity  -- the field `open`
  pub clearing : Dict Text ℕ
  pub suppressions : List Suppression
  pub connected : Bool  -- `notifier.is_some()`
  pub notify_failures : ℕ
  pub total_raised : ℕ
  pub total_suppressed : ℕ

-- What is put on the session bus.
pub data BusCall : Type 0 where
  notify : (replaces : ℕ) (icon title body : Text) (urgency timeout : ℕ) → BusCall
  close_notification : ℕ → BusCall

pub record World {ℓ} (F : Type ℓ) : Type ℓ where
  pub manager : AlertManager F
  pub table : Table
  pub bus : List BusCall  -- the latest first

-- One call's surroundings: the two clocks, whether SQLite takes the statements, whether the session
-- bus can be reached, the id that `Notify` answers with, and whether closing succeeds.
pub record Env : Type 0 where
  pub mono_ms : ℕ
  pub now_ms : ℕ
  pub db_ok : Bool
  pub session_ok : Bool
  pub reply : Option ℕ
  pub close_ok : Bool

module _ {ℓ} {F : Type ℓ} where
  abbrev pub is_open : Text → AlertManager F → Bool
  is_open fp m = Dict.contains_key fp m.firing
