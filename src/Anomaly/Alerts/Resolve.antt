-- ===== src/Anomaly/Alerts/Resolve.antt =====
-- jamsys-daemon/src/anomaly/alerts.rs, `clear`, `clear_now`: how an alert ends.
use jamsys.Prelude.{◌+◌, ◌*◌, not, ltb, if◌then◌else◌, Text, unwrap_or, text_is_eq}
use jamsys.Prelude.Dict
use jamsys.Prelude.Dict.{Dict}
use jamsys.Types.{severity_is_eq}
use jamsys.Store.Alerts.{resolve_alert}
use jamsys.Anomaly.Alerts.{min_resolve_hold_s, World, Env, is_open}
use jamsys.Anomaly.Alerts.Desktop.{withdraw}

module _ {ℓ} {F : Type ℓ} where
  -- `let _ = store.resolve_alert(fingerprint)`.
  abbrev pub resolve_row : Env → Text → World F → World F
  resolve_row env fp w =
      if env.db_ok then record w { table = (resolve_alert env.now_ms fp w.table).0 } else w

  -- The common end of both ways to resolve.
  unfoldable pub resolve : Env → Text → World F → World F
  resolve env fp w =
      let m = w.manager in
      resolve_row env fp (
        withdraw env fp (record w {
          manager = record m {
            firing = Dict.remove fp m.firing;
            clearing = Dict.remove fp m.clearing;
          };
        }))

  -- The condition is gone. It is resolved once it has been gone for the whole hold.
  unfoldable pub clear : Env → Text → World F → World F
  clear env fp w =
      let m = w.manager in
      let since = unwrap_or env.mono_ms (Dict.get fp m.clearing) in
      if not (is_open fp m)
      then w
      else if ltb env.mono_ms (since + min_resolve_hold_s * 1000)
      then record w { manager = record m { clearing = Dict.insert fp since m.clearing } }
      else resolve env fp w

  -- For conditions that end at an edge: no hold.
  unfoldable pub clear_now : Env → Text → World F → World F
  clear_now env fp w = if is_open fp w.manager then resolve env fp w else w
