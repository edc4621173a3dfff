-- ===== src/Anomaly/Alerts/Agreement.antt =====
-- The manager's memory against the table: which alerts fire, and which rows are open.
use jamsys.Prelude.{
  ℕ, ◌≡◌, refl, ap, ◌∙◌, true, not, ◌||◌, List, [], ◌∷◌, if◌then◌else◌, Text, text_eq, text_eq_iff,
  text_is_eq, arith, max, unwrap_or, All,
}
use jamsys.Prelude.Dict
use jamsys.Prelude.Dict.{get-insert, get-remove}
use jamsys.Prelude.Float.{Float}
use jamsys.Types.{Alert}
use jamsys.Config.{AlertsConfig}
use jamsys.Store.Alerts.{Table}
use jamsys.Store.Alerts.Laws.{count_open, upsert_alert-count_open, resolve_alert-count_open}
use jamsys.Anomaly.Alerts.{World, Env, is_open}
use jamsys.Anomaly.Alerts.Raise.{raise, persist, muted, fired, stop_clearing}
use jamsys.Anomaly.Alerts.Resolve.{resolve, clear, clear_now}
use jamsys.Anomaly.Alerts.Lifecycle.{raise_cases, raise-firing, announce-Kept, persist-keeps}
use jamsys.Anomaly.Alerts.Hold.{resolve-keeps}

-- The calls that the rule engine makes.
pub data Op : Type 0 where
  raises : AlertsConfig → Alert → Op
  clears : Text → Op
  clears_now : Text → Op

-- Every statement of the run reaches the database.
abbrev pub Stored : List (Env × Op) → Type 0
Stored = All (λ o. o.0.db_ok ≡ true)

rows_after : Env → Alert → Table → Text → ℕ
rows_after env a rows fp =
    if env.db_ok
    then (if text_eq a.fingerprint fp then max 1 (count_open fp rows) else count_open fp rows)
    else count_open fp rows

module _ {ℓ} {F : Type ℓ} ⦃d : Float F⦄ where
  unfoldable pub step : World F → Env × Op → World F
  step w (env, raises cfg a) = (raise env cfg a w).0
  step w (env, clears fp) = clear env fp w
  step w (env, clears_now fp) = clear_now env fp w

  unfoldable pub run : World F → List (Env × Op) → World F
  run w [] = w
  run w (o ∷ os) = run (step w o) os

  -- Memory and table name the same alerts, and each has one row.
  abbrev pub Agrees : World F → Type 0
  Agrees w = (fp : Text) → count_open fp w.table ≡ (if is_open fp w.manager then 1 else 0)

  -- Only an alert that fires can be on hold.
  abbrev pub HoldsOpen : World F → Type 0
  HoldsOpen w =
      (fp : Text) → (not (Dict.contains_key fp w.manager.clearing) || is_open fp w.manager) ≡ true

  persist-rows :
      (env : Env) (a : Alert) (w : World F) (fp : Text)
      → count_open fp (persist env a w).0.table ≡ rows_after env a w.table fp
  unfolding rows_after
  persist-rows env a w fp =
      let (m, b, t) = persist-keeps env a w in
      rw t (ground (arith, upsert_alert-count_open env.now_ms a w.table fp))

  muted-rows :
      (env : Env) (a : Alert) (w : World F) → (muted env a w).table ≡ (persist env a w).0.table
  unfolding muted
  muted-rows env a w = refl

  fired-rows :
      (env : Env) (a : Alert) (w : World F) → (fired env a w).0.table ≡ (persist env a w).0.table
  unfolding fired
  fired-rows env a w = refl

  raise-rows :
      (env : Env) (cfg : AlertsConfig) (a : Alert) (w : World F) (fp : Text)
      → count_open fp (raise env cfg a w).0.table ≡ rows_after env a w.table fp
  raise-rows env cfg a w fp =
      let v = stop_clearing a w in
      let stored = persist-rows env a v fp in
      let on = ap (count_open fp) (fired-rows env a v) ∙ stored in
      raise_cases (λ r. count_open fp r.0.table ≡ rows_after env a w.table fp) env cfg a w
        (λ e. ap (count_open fp) (muted-rows env a v) ∙ stored) (λ e q. on)
        (λ e q. (announce-Kept env cfg a (fired env a v).0).rows fp ∙ on)

  pub raise-Agrees :
      (env : Env) (cfg : AlertsConfig) (a : Alert) (w : World F)
      → env.db_ok ≡ true
      → Agrees w
      → Agrees (raise env cfg a w).0
  unfolding rows_after
  raise-Agrees env cfg a w ok h fp =
      ground (arith, raise-rows env cfg a w fp, (raise-firing env cfg a w fp).0, h fp)

  resolve-Agrees :
      (env : Env) (fp : Text) (w : World F)
      → env.db_ok ≡ true
      → Agrees w
      → Agrees (resolve env fp w)
  resolve-Agrees env fp w ok h other =
      let (f, c, t) = resolve-keeps env fp w in
      ground (
        arith,
        f,
        t,
        get-remove fp other w.manager.firing,
        (resolve_alert-count_open env.now_ms fp w.table other).0,
        h other,
      )

  pub clear-Agrees :
      (env : Env) (fp : Text) (w : World F) → env.db_ok ≡ true → Agrees w → Agrees (clear env fp w)
  unfolding clear
  clear-Agrees env fp w ok h other = ground (arith, resolve-Agrees env fp w ok h other, h other)

  step-Agrees : (w : World F) (o : Env × Op) → o.0.db_ok ≡ true → Agrees w → Agrees (step w o)
  unfolding step clear_now
  step-Agrees w (env, raises cfg a) ok h = raise-Agrees env cfg a w ok h
  step-Agrees w (env, clears fp) ok h = clear-Agrees env fp w ok h
  step-Agrees w (env, clears_now fp) ok h =
      λ other. ground (arith, resolve-Agrees env fp w ok h other, h other)

  -- Through any sequence of raises and clears whose statements reach the database, the alerts that
  -- the manager holds for firing are those with an open row, and each has exactly one.
  pub run-Agrees :
      (os : List (Env × Op)) (w : World F) (fp : Text)
      → Stored os
      → Agrees w
      → count_open fp (run w os).table ≡ (if is_open fp (run w os).manager then 1 else 0)
  unfolding run
  run-Agrees [] w fp s h = h fp
  run-Agrees (o ∷ os) w fp s h = run-Agrees os (step w o) fp s.1 (step-Agrees w o s.0 h)

  raise-HoldsOpen :
      (env : Env) (cfg : AlertsConfig) (a : Alert) (w : World F)
      → HoldsOpen w
      → HoldsOpen (raise env cfg a w).0
  raise-HoldsOpen env cfg a w h fp =
      let (f, c) = raise-firing env cfg a w fp in rw (f, c) (ground (arith, h fp))

  resolve-HoldsOpen :
      (env : Env) (fp : Text) (w : World F) → HoldsOpen w → HoldsOpen (resolve env fp w)
  resolve-HoldsOpen env fp w h other =
      let (f, c, t) = resolve-keeps env fp w in
      rw (f, c, get-remove fp other w.manager.firing, get-remove fp other w.manager.clearing)
        (ground (arith, h other))

  clear-HoldsOpen : (env : Env) (fp : Text) (w : World F) → HoldsOpen w → HoldsOpen (clear env fp w)
  unfolding clear
  clear-HoldsOpen env fp w h other = ground (
    arith,
    resolve-HoldsOpen env fp w h other,
    h other,
    text_eq_iff fp other,
    get-insert fp other (unwrap_or env.mono_ms (Dict.get fp w.manager.clearing)) w.manager.clearing,
  )

  step-HoldsOpen : (w : World F) (o : Env × Op) → HoldsOpen w → HoldsOpen (step w o)
  unfolding step clear_now
  step-HoldsOpen w (env, raises cfg a) h = raise-HoldsOpen env cfg a w h
  step-HoldsOpen w (env, clears fp) h = clear-HoldsOpen env fp w h
  step-HoldsOpen w (env, clears_now fp) h =
      λ other. ground (arith, resolve-HoldsOpen env fp w h other, h other)

  -- Through any sequence of raises and clears, whatever fails in it, only an alert that fires has a
  -- hold running.
  run-HoldsOpen :
      (os : List (Env × Op)) (w : World F) (fp : Text)
      → HoldsOpen w
      → (not (Dict.contains_key fp (run w os).manager.clearing) || is_open fp (run w os).manager)
        ≡ true
  unfolding run
  run-HoldsOpen [] w fp h = h fp
  run-HoldsOpen (o ∷ os) w fp h = run-HoldsOpen os (step w o) fp (step-HoldsOpen w o h)
