-- ===== src/Daemon/Judgement.antt =====
-- jamsys-daemon/src/daemon.rs, `tick`: the rules are evaluated, their alerts are raised, and those that
-- no longer fire are cleared. `envs` gives the surroundings of the calls for a fingerprint.
pub mod Laws
mod Tests
use jamsys.Prelude.{
  ℕ, Bool, true, false, List, [], ◌∷◌, if◌then◌else◌, Text, text_eq, text_is_eq, any,
}
use jamsys.Prelude.Float.{Float}
use jamsys.Prelude.Real.{Real}
use jamsys.Types.{Alert}
use jamsys.Types.Context.{Context}
use jamsys.Config.{AlertsConfig}
use jamsys.Collectors.Snapshot.{Snapshot}
use jamsys.Anomaly.Rules.{RuleEngine, Thresholds}
use jamsys.Anomaly.Rules.Evaluation.{evaluate}
use jamsys.Anomaly.Alerts.{World, Env}
use jamsys.Anomaly.Alerts.Raise.{raise}
use jamsys.Anomaly.Alerts.Resolve.{clear}
use jamsys.Anomaly.Alerts.Restart.{open_fingerprints}

abbrev pub contains : Text → List Text → Bool
contains fp fps = any (λ t. text_eq t fp) fps

module _ {ℓ} {F : Type ℓ} where
  -- The alerts that the clients are told of are those that `raise` answers `true` to.
  unfoldable pub raise_all :
      ⦃d : Float F⦄ → (Text → Env) → AlertsConfig → List Alert → World F → World F × List Alert
  raise_all envs cfg [] w = (w, [])
  raise_all envs cfg (a ∷ alerts) w =
      let (w', notified) = raise (envs a.fingerprint) cfg a w in
      let (last, told) = raise_all envs cfg alerts w' in (last, if notified then a ∷ told else told)

  unfoldable pub clear_all : (Text → Env) → List Text → List Text → World F → World F
  clear_all envs firing [] w = w
  clear_all envs firing (fp ∷ fps) w =
      clear_all envs firing fps (if contains fp firing then w else clear (envs fp) fp w)

  unfoldable pub judge :
      ⦃d : Float F⦄ ⦃r : Real F⦄
      → (Text → Env)
      → AlertsConfig
      → Thresholds F
      → Snapshot F
      → Context
      → ℕ
      → RuleEngine F
      → World F
      → RuleEngine F × World F × List Alert
  unfolding raise_all clear_all
  judge envs cfg thresholds s ctx now e w =
      let e' = evaluate s thresholds ctx now e in
      let (raised, told) = raise_all envs cfg e'.out w in
      let open_now = open_fingerprints raised.manager in
      (e', clear_all envs e'.firing open_now raised, told)
