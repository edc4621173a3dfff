-- ===== src/Anomaly/Rules/Thermal.antt =====
-- jamsys-daemon/src/anomaly/rules.rs: `thermal_rules`.
use jamsys.Prelude.{ℕ, none, some, [], ◌∷◌, ◌++◌, if◌then◌else◌, codes}
use jamsys.Prelude.Real.{Real}
use jamsys.Types.{Alert, new_alert, critical, warning}
use jamsys.Collectors.Snapshot.{Snapshot, Reading}
use jamsys.Anomaly.Rules.{
  RuleEngine, Thresholds, format, evidence, explained, fire_held, each, limit,
}
use jamsys.Anomaly.Rules.Causes.{fan_summary, or_zero}

module _ {ℓ} {F : Type ℓ} ⦃d : Real F⦄ where
  unfoldable pub fan_stalled : Snapshot F → Reading F → F → F → ℕ → Alert
  fan_stalled s f hottest hot held =
      new_alert (codes "thermal.fan_stalled") f.key critical
        (f.label ++ codes " is not spinning while the system is hot")
        (explained
          (format (
            f.label
            ∷ codes " reads 0 rpm while the hottest sensor is "
            ∷ d.fixed 1 hottest
            ∷ codes " °C."
            ∷ []))
          (some (format (codes "a fan should spin above " ∷ d.fixed 0 hot ∷ codes " °C" ∷ []))) held
          (evidence (codes "Hottest sensor") s.thermal.max_temp_label
            ∷ evidence (codes "Other fans") (fan_summary s)
            ∷ [])
          none
          (codes
              "Some laptops stop fans below a firmware threshold; check whether it spins under load"
            ∷ codes "If it never spins, the fan or its header may have failed"
            ∷ []))

  unfoldable pub fan_rule : Snapshot F → Thresholds F → ℕ → Reading F → RuleEngine F → RuleEngine F
  unfolding fan_stalled
  fan_rule s cfg now f e =
      let hot = limit cfg (codes "thermal.fan_stalled") (codes "celsius") 70 in
      let hottest = or_zero s.thermal.max_temp_c in
      if d.lt (d.of_ℕ 0) f.value
      then e
      else fire_held (codes "thermal.fan_stalled:" ++ f.key) (d.le hot hottest) now 60
          (fan_stalled s f hottest hot) e

  unfoldable pub near_crit : Snapshot F → Reading F → F → ℕ → Alert
  near_crit s t crit held =
      new_alert (codes "thermal.near_crit") t.key warning
        (t.label ++ codes " is close to its critical temperature")
        (explained (format (t.label ∷ codes " is " ∷ d.fixed 1 t.value ∷ codes " °C." ∷ []))
          (some
            (format (codes "the driver's critical point is " ∷ d.fixed 0 crit ∷ codes " °C" ∷ [])))
          held (evidence (codes "Fans") (fan_summary s) ∷ []) none
          (codes "Reduce load or improve airflow" ∷ []))

  unfoldable pub crit_rule : Snapshot F → ℕ → Reading F → RuleEngine F → RuleEngine F
  unfolding near_crit
  crit_rule s now t e = elim t.crit [
    | none ↦ e
    | some crit ↦
        if d.le crit (d.of_ℕ 0)
        then e
        else fire_held (codes "thermal.near_crit:" ++ t.key) (d.le (d.sub crit (d.of_ℕ 5)) t.value)
            now 60 (near_crit s t crit) e
  ]

  unfoldable pub thermal_rules : Snapshot F → Thresholds F → ℕ → RuleEngine F → RuleEngine F
  unfolding fan_rule crit_rule each
  thermal_rules s cfg now e =
      each (crit_rule s now) s.thermal.temps (each (fan_rule s cfg now) s.thermal.fans e)
