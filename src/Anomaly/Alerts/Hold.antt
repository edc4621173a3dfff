-- ===== src/Anomaly/Alerts/Hold.antt =====
-- How an alert whose condition has gone ends: the hold, and what resolving does.
use jamsys.Prelude.{
  ◌+◌, ◌*◌, ◌≡◌, true, ◌&&◌, none, some, ltb, if◌then◌else◌, Text, text_eq, text_eq_iff, text_is_eq,
  text_eq_refl, unwrap_or, arith, lt→ltb,
}
use jamsys.Prelude.Dict
use jamsys.Prelude.Dict.{get-insert, get-remove, get-insert_self, get-remove_self}
use jamsys.Store.Alerts.{resolve_alert}
use jamsys.Anomaly.Alerts.{World, Env, is_open, min_resolve_hold_s}
use jamsys.Anomaly.Alerts.Resolve.{resolve, clear}
use jamsys.Anomaly.Alerts.Lifecycle.{withdraw-keeps}

module _ {ℓ} {F : Type ℓ} where
  abbrev forget : Text → World F → World F
  forget fp w = record w {
    manager = record (w.manager) {
      firing = Dict.remove fp w.manager.firing;
      clearing = Dict.remove fp w.manager.clearing;
    };
  }

  pub resolve-keeps :
      (env : Env) (fp : Text) (w : World F)
      → let v = resolve env fp w in
        (v.manager.firing ≡ Dict.remove fp w.manager.firing)
        × (v.manager.clearing ≡ Dict.remove fp w.manager.clearing)
        × (v.table ≡ (if env.db_ok then (resolve_alert env.now_ms fp w.table).0 else w.table))
  unfolding resolve
  resolve-keeps env fp w = ground (arith, withdraw-keeps env fp (forget fp w))

  pub clear-is_open :
      (env : Env) (fp : Text) (w : World F) (other : Text)
      → let since = unwrap_or env.mono_ms (Dict.get fp w.manager.clearing) in
        is_open other (clear env fp w).manager ≡ (
          if text_eq fp other
          then is_open fp w.manager && ltb env.mono_ms (since + min_resolve_hold_s * 1000)
          else is_open other w.manager)
  unfolding clear
  clear-is_open env fp w other =
      let (f, c, t) = resolve-keeps env fp w in
      ground (arith, f, get-remove fp other w.manager.firing, text_eq_iff fp other)

  clear_starts :
      (env : Env) (fp : Text) (w : World F)
      → is_open fp w.manager ≡ true
      → Dict.get fp w.manager.clearing ≡ none
      → (Dict.get fp (clear env fp w).manager.clearing ≡ some env.mono_ms)
        × (is_open fp (clear env fp w).manager ≡ true)
  unfolding clear
  clear_starts env fp w live idle =
      let early = lt→ltb env.mono_ms (env.mono_ms + min_resolve_hold_s * 1000) (omega arith) in
      ground (arith, early, get-insert_self fp env.mono_ms w.manager.clearing)

  -- A first `clear` starts the hold; the next one resolves the alert exactly if it comes at least two
  -- minutes after.
  clear_twice :
      (first second : Env) (fp : Text) (w : World F)
      → is_open fp w.manager ≡ true
      → Dict.get fp w.manager.clearing ≡ none
      → is_open fp (clear second fp (clear first fp w)).manager
        ≡ ltb second.mono_ms (first.mono_ms + min_resolve_hold_s * 1000)
  clear_twice first second fp w live idle =
      let v = clear first fp w in
      let (since, still) = clear_starts first fp w live idle in
      ground (arith, clear-is_open second fp v fp, text_eq_refl fp, since, still)
