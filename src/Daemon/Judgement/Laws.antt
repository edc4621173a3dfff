-- ===== src/Daemon/Judgement/Laws.antt =====
-- Which alerts are open after a tick.
use jamsys.Prelude.{
  ℕ, ◌+◌, ◌*◌, ◌≡◌, refl, sym, ap, subst, ◌∙◌, Bool, true, false, not, ◌&&◌, ◌||◌, none, List, [],
  ◌∷◌, ltb, if◌then◌else◌, Text, text_eq, text_eq_iff, text_eq_refl, text_is_eq, unwrap_or, map,
  inl, inr, Bool-cases, arith,
}
use jamsys.Prelude.Dict
use jamsys.Prelude.Dict.{Dict, get-insert, get-remove}
use jamsys.Prelude.Float.{Float}
use jamsys.Prelude.Real.{Real}
use jamsys.Types.{Alert}
use jamsys.Types.Context.{Context}
use jamsys.Config.{AlertsConfig}
use jamsys.Collectors.Snapshot.{Snapshot}
use jamsys.Anomaly.Rules.{RuleEngine, Thresholds}
use jamsys.Anomaly.Rules.Evaluation.{evaluate}
use jamsys.Anomaly.Rules.Evaluation.Laws.{fingerprints, evaluate-IsSound}
use jamsys.Anomaly.Alerts.{World, Env, is_open, min_resolve_hold_s}
use jamsys.Anomaly.Alerts.Raise.{raise}
use jamsys.Anomaly.Alerts.Resolve.{clear}
use jamsys.Anomaly.Alerts.Restart.{open_fingerprints}
use jamsys.Anomaly.Alerts.Lifecycle.{raise-firing}
use jamsys.Anomaly.Alerts.Agreement.{Agrees, raise-Agrees, clear-Agrees}
use jamsys.Store.Alerts.Laws.{count_open}
use jamsys.Anomaly.Alerts.Hold.{clear-is_open, resolve-keeps}
use jamsys.Daemon.Judgement.{contains, raise_all, clear_all, judge}

choose : (c h h' o o' : Bool) → h ≡ h' → o ≡ o' → (if c then h else o) ≡ (if c then h' else o')
choose true h h' o o' p q = p
choose false h h' o o' p q = q

contains-keys {ℓ} :
    {V : Type ℓ} (fp : Text) (m : Dict Text V)
    → contains fp (map (λ (p : Text × V). p.0) m) ≡ Dict.contains_key fp m
unfolding Dict.get
contains-keys fp [] = refl
contains-keys fp ((k, v) ∷ m) = ground (arith, contains-keys fp m)

module _ {ℓ} {F : Type ℓ} where
  -- Since when the condition of an alert has been gone, if this is a call that clears it.
  abbrev pub gone_since : Env → Text → World F → ℕ
  gone_since env fp w = unwrap_or env.mono_ms (Dict.get fp w.manager.clearing)

  -- Is the alert on hold, so that clearing leaves it open?
  abbrev pub is_held : Env → Text → World F → Bool
  is_held env fp w =
      is_open fp w.manager && ltb env.mono_ms (gone_since env fp w + min_resolve_hold_s * 1000)

  clear-is_held :
      (env : Env) (fp : Text) (w : World F) → is_held env fp (clear env fp w) ≡ is_held env fp w
  unfolding clear
  clear-is_held env fp w =
      let since = gone_since env fp w in
      let (f, c, t) = resolve-keeps env fp w in
      ground (
        arith,
        f,
        c,
        get-remove fp fp w.manager.firing,
        text_eq_refl fp,
        get-insert fp fp since w.manager.clearing,
      )

  clear-clearing :
      (env : Env) (fp other : Text) (w : World F)
      → text_eq other fp ≡ false
      → Dict.get fp (clear env other w).manager.clearing ≡ Dict.get fp w.manager.clearing
  unfolding clear
  clear-clearing env fp other w apart =
      let since = gone_since env other w in
      let (f, c, t) = resolve-keeps env other w in
      ground (
        arith,
        c,
        apart,
        get-remove other fp w.manager.clearing,
        get-insert other fp since w.manager.clearing,
      )

  still_firing :
      (envs : Text → Env) (firing : List Text) (x : Text) (fps : List Text) (w : World F)
      (fp : Text)
      → contains x firing ≡ true
      → (if contains fp fps && not (contains fp firing)
          then is_held (envs fp) fp w
          else is_open fp w.manager)
        ≡ (if contains fp (x ∷ fps) && not (contains fp firing)
            then is_held (envs fp) fp w
            else is_open fp w.manager)
  still_firing envs firing x fps w fp q = elim (Bool-cases (text_eq x fp)) [
    | inr e ↦ rw e refl
    | inl e ↦
        let same = (text_eq_iff x fp).0 e in
        let fires : contains fp firing ≡ true = subst (λ t. contains t firing ≡ true) same q in
        rw (e, fires) (ground arith)
  ]

  clear-elsewhere :
      (env other_env : Env) (x fp : Text) (w : World F)
      → text_eq x fp ≡ false
      → (is_open fp (clear env x w).manager ≡ is_open fp w.manager)
        × (is_held other_env fp (clear env x w) ≡ is_held other_env fp w)
  clear-elsewhere env other_env x fp w apart =
      let kept = clear-clearing env fp x w apart in
      let live = clear-is_open env x w fp in
      (ground (arith, live, apart), ground (arith, live, apart, kept))

  clear-here :
      (env : Env) (fp : Text) (w : World F) → is_open fp (clear env fp w).manager ≡ is_held env fp w
  clear-here env fp w = ground (arith, clear-is_open env fp w fp, text_eq_refl fp)

  cleared :
      (envs : Text → Env) (firing : List Text) (x : Text) (fps : List Text) (w : World F)
      (fp : Text)
      → contains x firing ≡ false
      → let w' = clear (envs x) x w in
        (if contains fp fps && not (contains fp firing)
          then is_held (envs fp) fp w'
          else is_open fp w'.manager)
        ≡ (if contains fp (x ∷ fps) && not (contains fp firing)
            then is_held (envs fp) fp w
            else is_open fp w.manager)
  cleared envs firing x fps w fp q = elim (Bool-cases (text_eq x fp)) [
    | inr e ↦
        let (live, held) = clear-elsewhere (envs x) (envs fp) x fp w e in
        rw e (choose (contains fp fps && not (contains fp firing)) _ _ _ _ held live)
    | inl e ↦
        let same = (text_eq_iff x fp).0 e in
        let gone : contains fp firing ≡ false = subst (λ t. contains t firing ≡ false) same q in
        let live : is_open fp (clear (envs x) x w).manager ≡ is_held (envs fp) fp w =
          subst (λ t. is_open fp (clear (envs t) t w).manager ≡ is_held (envs fp) fp w) (sym same)
            (clear-here (envs fp) fp w) in
        let held : is_held (envs fp) fp (clear (envs x) x w) ≡ is_held (envs fp) fp w =
          subst (λ t. is_held (envs fp) fp (clear (envs t) t w) ≡ is_held (envs fp) fp w) (sym same)
            (clear-is_held (envs fp) fp w) in
        rw (e, gone) (ground (arith, live, held))
  ]

  clear_all-is_open :
      (envs : Text → Env) (firing fps : List Text) (w : World F) (fp : Text)
      → is_open fp (clear_all envs firing fps w).manager ≡ (
          if contains fp fps && not (contains fp firing)
          then is_held (envs fp) fp w
          else is_open fp w.manager)
  unfolding clear_all
  clear_all-is_open envs firing [] w fp = refl
  clear_all-is_open envs firing (x ∷ fps) w fp = elim (Bool-cases (contains x firing)) [
    | inl q ↦
        rw (q, clear_all)
          (clear_all-is_open envs firing fps w fp ∙ still_firing envs firing x fps w fp q)
    | inr q ↦
        let w' = clear (envs x) x w in
        rw (q, clear_all)
          (clear_all-is_open envs firing fps w' fp ∙ cleared envs firing x fps w fp q)
  ]

  contains-open :
      (fp : Text) (w : World F) → contains fp (open_fingerprints w.manager) ≡ is_open fp w.manager
  unfolding open_fingerprints
  contains-open fp w = contains-keys fp w.manager.firing

  raise_all-firing :
      ⦃d : Float F⦄ (envs : Text → Env) (cfg : AlertsConfig) (alerts : List Alert) (w : World F)
      (fp : Text)
      → let m = (raise_all envs cfg alerts w).0.manager in
        (is_open fp m ≡ contains fp (fingerprints alerts) || is_open fp w.manager)
        × (Dict.get fp m.clearing
            ≡ (if contains fp (fingerprints alerts) then none else Dict.get fp w.manager.clearing))
  unfolding raise_all
  raise_all-firing envs cfg [] w fp = (refl, refl)
  raise_all-firing envs cfg (a ∷ alerts) w fp =
      let w' = (raise (envs a.fingerprint) cfg a w).0 in
      let (live, gone) = raise_all-firing envs cfg alerts w' fp in
      let (f, c) = raise-firing (envs a.fingerprint) cfg a w fp in
      (ground (arith, live, f), ground (arith, gone, c))

  settled :
      (env : Env) (fp : Text) (firing named : List Text) (raised w : World F)
      → contains fp firing ≡ contains fp named
      → is_open fp raised.manager ≡ contains fp named || is_open fp w.manager
      → Dict.get fp raised.manager.clearing
        ≡ (if contains fp named then none else Dict.get fp w.manager.clearing)
      → (if contains fp (open_fingerprints raised.manager) && not (contains fp firing)
          then is_held env fp raised
          else is_open fp raised.manager)
        ≡ contains fp named || is_held env fp w
  settled env fp firing named raised w same live gone =
      let listed = contains-open fp raised in
      elim (Bool-cases (contains fp named)) [
        | inl q ↦ ground (arith, q, same, live, listed)
        | inr q ↦ ground (arith, q, same, live, gone, listed)
      ]

  pub judge-is_open :
      ⦃d : Float F⦄ ⦃r : Real F⦄ (envs : Text → Env) (cfg : AlertsConfig)
      (thresholds : Thresholds F) (s : Snapshot F) (ctx : Context) (now : ℕ) (e : RuleEngine F)
      (w : World F) (fp : Text)
      → let (e', w', told) = judge envs cfg thresholds s ctx now e w in
        is_open fp w'.manager ≡ contains fp (fingerprints e'.out) || is_held (envs fp) fp w
  unfolding judge
  judge-is_open envs cfg thresholds s ctx now e w fp =
      let e' = evaluate s thresholds ctx now e in
      let raised = (raise_all envs cfg e'.out w).0 in
      let (live, gone) = raise_all-firing envs cfg e'.out w fp in
      let named = (evaluate-IsSound s thresholds ctx now e).named in
      clear_all-is_open envs e'.firing (open_fingerprints raised.manager) raised fp
      ∙ settled (envs fp) fp e'.firing (fingerprints e'.out) raised w (ap (contains fp) named) live
          gone

  raise_all-Agrees :
      ⦃d : Float F⦄ (envs : Text → Env) (cfg : AlertsConfig) (alerts : List Alert) (w : World F)
      → ((fp : Text) → (envs fp).db_ok ≡ true)
      → Agrees w
      → Agrees (raise_all envs cfg alerts w).0
  unfolding raise_all
  raise_all-Agrees envs cfg [] w ok h = h
  raise_all-Agrees envs cfg (a ∷ alerts) w ok h =
      raise_all-Agrees envs cfg alerts (raise (envs a.fingerprint) cfg a w).0 ok
        (raise-Agrees (envs a.fingerprint) cfg a w (ok a.fingerprint) h)

  clear_all-Agrees :
      ⦃d : Float F⦄ (envs : Text → Env) (firing fps : List Text) (w : World F)
      → ((fp : Text) → (envs fp).db_ok ≡ true)
      → Agrees w
      → Agrees (clear_all envs firing fps w)
  unfolding clear_all
  clear_all-Agrees envs firing [] w ok h = h
  clear_all-Agrees envs firing (fp ∷ fps) w ok h = elim (Bool-cases (contains fp firing)) [
    | inl q ↦ rw (q, clear_all) (clear_all-Agrees envs firing fps w ok h)
    | inr q ↦
        rw (q, clear_all)
          (clear_all-Agrees envs firing fps (clear (envs fp) fp w) ok
            (clear-Agrees (envs fp) fp w (ok fp) h))
  ]

  judge-Agrees :
      ⦃d : Float F⦄ ⦃r : Real F⦄ (envs : Text → Env) (cfg : AlertsConfig)
      (thresholds : Thresholds F) (s : Snapshot F) (ctx : Context) (now : ℕ) (e : RuleEngine F)
      (w : World F)
      → ((fp : Text) → (envs fp).db_ok ≡ true)
      → Agrees w
      → Agrees (judge envs cfg thresholds s ctx now e w).1
  unfolding judge
  judge-Agrees envs cfg thresholds s ctx now e w ok h =
      let e' = evaluate s thresholds ctx now e in
      let raised = (raise_all envs cfg e'.out w).0 in
      clear_all-Agrees envs e'.firing (open_fingerprints raised.manager) raised ok
        (raise_all-Agrees envs cfg e'.out w ok h)

  -- While the database takes the statements of a tick, the table has one open row for each alert that
  -- the evaluation names or that is held, and none for any other.
  pub judge-rows :
      ⦃d : Float F⦄ ⦃r : Real F⦄ (envs : Text → Env) (cfg : AlertsConfig)
      (thresholds : Thresholds F) (s : Snapshot F) (ctx : Context) (now : ℕ) (e : RuleEngine F)
      (w : World F) (fp : Text)
      → ((fp' : Text) → (envs fp').db_ok ≡ true)
      → Agrees w
      → let (e', w', told) = judge envs cfg thresholds s ctx now e w in
        count_open fp w'.table
        ≡ (if contains fp (fingerprints e'.out) || is_held (envs fp) fp w then 1 else 0)
  judge-rows envs cfg thresholds s ctx now e w fp ok h =
      judge-Agrees envs cfg thresholds s ctx now e w ok h fp
      ∙ ap (λ (b : Bool). if b then 1 else 0) (judge-is_open envs cfg thresholds s ctx now e w fp)
