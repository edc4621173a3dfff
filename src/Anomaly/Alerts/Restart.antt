-- ===== src/Anomaly/Alerts/Restart.antt =====
-- jamsys-daemon/src/anomaly/alerts.rs: `new`, which takes up the open alerts of the last run, and
-- the counters.
use jamsys.Prelude.{ℕ, ◌+◌, false, List, [], ◌∷◌, if◌then◌else◌, min, text_is_eq, length, map, Text}
use jamsys.Prelude.Dict
use jamsys.Prelude.Dict.{Dict}
use jamsys.Prelude.Float.{Float}
use jamsys.Prelude.Int.{pos}
use jamsys.Types.{Severity, severity_is_eq, info, notice, warning, critical, from_i64}
use jamsys.Config.{AlertsConfig}
use jamsys.Store.Suppressions.{Suppression}
use jamsys.Store.Alerts.{Table, open_alerts}
use jamsys.Anomaly.Bucket
use jamsys.Anomaly.Bucket.{Bucket}
use jamsys.Anomaly.Alerts.{AlertManager, Env}

module _ {ℓ} {F : Type ℓ} where
  unfoldable pub sum_suppressed : Dict Severity (Bucket F) → ℕ
  sum_suppressed [] = 0
  sum_suppressed ((s, b) ∷ rest) = b.suppressed + sum_suppressed rest

  unfoldable pub suppressed_counts : AlertManager F → ℕ
  unfolding sum_suppressed
  suppressed_counts m = sum_suppressed m.buckets + m.total_suppressed

abbrev u32_max : ℕ
u32_max = 4294967295

module _ {ℓ} {F : Type ℓ} ⦃d : Float F⦄ where
  -- An alert that was open when the daemon stopped counts as shown, under its old id.
  reload : ℕ → Table → AlertManager F → AlertManager F
  reload now [] m = m
  reload now (r ∷ rows) m =
      let sev = from_i64 (pos r.severity) in
      reload now rows (record m {
        firing = Dict.insert r.fingerprint sev m.firing;
        notified = Dict.insert r.fingerprint (now, min r.notify_id u32_max, sev) m.notified;
      })

  new_buckets : AlertsConfig → ℕ → Dict Severity (Bucket F)
  new_buckets cfg now =
      let b = Bucket.new cfg.burst cfg.refill_s now in
      (info, b) ∷ (notice, b) ∷ (warning, b) ∷ (critical, b) ∷ []

  -- Reading the table may fail, as may the suppressions; either is then empty.
  unfoldable pub new : Env → AlertsConfig → List Suppression → Table → AlertManager F
  unfolding reload new_buckets
  new env cfg suppressions rows =
      reload env.mono_ms (if env.db_ok then open_alerts 500 rows else []) (record {
        buckets = new_buckets cfg env.mono_ms;
        notified = [];
        firing = [];
        clearing = [];
        suppressions = if env.db_ok then suppressions else [];
        connected = false;
        notify_failures = 0;
        total_raised = 0;
        total_suppressed = 0;
      })

module _ {ℓ} {F : Type ℓ} where
  unfoldable pub reload_suppressions : Env → List Suppression → AlertManager F → AlertManager F
  reload_suppressions env suppressions m = record m {
    suppressions = if env.db_ok then suppressions else [];
  }

  unfoldable pub open_count : AlertManager F → ℕ
  open_count m = length m.firing

  unfoldable pub open_fingerprints : AlertManager F → List Text
  open_fingerprints m = map (λ p. p.0) m.firing
