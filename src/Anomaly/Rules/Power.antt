-- ===== src/Anomaly/Rules/Power.antt =====
-- jamsys-daemon/src/anomaly/rules.rs: `power_rules`.
use jamsys.Prelude.{not, ◌&&◌, none, some, [], ◌∷◌, if◌then◌else◌, codes}
use jamsys.Prelude.Decimal.{to_string}
use jamsys.Prelude.Real.{Real}
use jamsys.Util.Duration.{human_duration}
use jamsys.Types.{Alert, new_alert, critical, warning}
use jamsys.Collectors.Snapshot.{Snapshot, PowerState}
use jamsys.Anomaly.Rules.{RuleEngine, Thresholds, format, evidence, explained, fire_if, limit}
use jamsys.Anomaly.Rules.Causes.{unknown}

module _ {ℓ} {F : Type ℓ} ⦃d : Real F⦄ where
  unfoldable pub degraded : PowerState F → F → Alert
  degraded p health =
      new_alert (codes "battery.health") [] warning (codes "Battery capacity has degraded") (
        explained
          (format (
            codes "The battery now holds "
            ∷ d.fixed 1 p.energy_full_wh
            ∷ codes " Wh of its "
            ∷ d.fixed 1 p.energy_design_wh
            ∷ codes " Wh design capacity ("
            ∷ d.fixed 0 p.health_pct
            ∷ codes "% health)."
            ∷ []))
          (some (format (codes "above " ∷ d.fixed 0 health ∷ codes "% of design capacity" ∷ []))) 0
          (evidence (codes "Charge cycles") (to_string p.cycle_count) ∷ []) none
          (codes "This is normal wear, not a fault. Expect proportionally shorter runtime." ∷ []))

  unfoldable pub battery_low : PowerState F → Alert
  battery_low p =
      new_alert (codes "battery.critical") [] critical (codes "Battery is critically low") (
        explained
          (format (
            codes "The battery is at "
            ∷ d.fixed 0 p.percent
            ∷ codes "% and discharging at "
            ∷ d.fixed 1 p.power_w
            ∷ codes " W."
            ∷ []))
          (some (codes "above 5%")) 0
          (evidence (codes "Estimated remaining")
              (elim p.runtime_s [ none ↦ unknown | some left ↦ human_duration left ])
            ∷ [])
          none (codes "Connect the charger" ∷ []))

  unfoldable pub power_rules : Snapshot F → Thresholds F → RuleEngine F → RuleEngine F
  unfolding degraded battery_low
  power_rules s cfg e =
      let p = s.power in
      let health = limit cfg (codes "battery.health") (codes "pct") 70 in
      let least = limit cfg (codes "battery.critical") (codes "pct") 5 in
      if not p.has_battery
      then e
      else let e =
          fire_if (d.lt (d.of_ℕ 0) p.health_pct && d.lt p.health_pct health) (degraded p health)
            e in
        fire_if (p.on_battery && d.le p.percent least) (battery_low p) e
