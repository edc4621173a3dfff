-- ===== src/Anomaly/Rules/Cpu.antt =====
-- jamsys-daemon/src/anomaly/rules.rs: `cpu_rules`.
use jamsys.Prelude.{ℕ, Option, none, some, [], ◌∷◌, ◌++◌, Text, codes, take}
use jamsys.Prelude.Decimal.{to_string}
use jamsys.Prelude.Real.{Real}
use jamsys.Util.Sizes.{human_bytes}
use jamsys.Types.{Alert, new_alert, critical, warning, notice}
use jamsys.Collectors.Snapshot.{Snapshot, ProcInfo}
use jamsys.Anomaly.Rules.{
  RuleEngine, Thresholds, format, evidence, explained, fire_if, fire_held, fire_held_else, limit,
}
use jamsys.Anomaly.Rules.Causes.{unknown, first, fan_summary, hot_cpu_cause}

module _ {ℓ} {F : Type ℓ} ⦃d : Real F⦄ where
  package_what : F → Text
  package_what t = format (codes "CPU package temperature is " ∷ d.fixed 1 t ∷ codes " °C." ∷ [])

  below : F → Text
  below limit = format (codes "below " ∷ d.fixed 0 limit ∷ codes " °C" ∷ [])

  load_text : Snapshot F → Text
  load_text s = d.fixed 0 s.cpu.usage_pct ++ codes "%"

  unfoldable pub temp_critical : Snapshot F → F → F → ℕ → Alert
  unfolding package_what below load_text
  temp_critical s t crit held =
      new_alert (codes "cpu.temp.critical") [] critical (codes "CPU is running critically hot") (
        explained (package_what t) (some (below crit)) held
          (evidence (codes "Fans") (fan_summary s) ∷ evidence (codes "CPU load") (load_text s) ∷ [])
          (some (hot_cpu_cause s))
          (codes "Check for a runaway process on the Processes page"
            ∷ codes "Make sure the vents are not blocked"
            ∷ []))

  unfoldable pub temp_high : Snapshot F → F → F → ℕ → Alert
  unfolding package_what below load_text
  temp_high s t high held =
      new_alert (codes "cpu.temp.high") [] warning (codes "CPU temperature is high") (
        explained (package_what t) (some (below high)) held
          (evidence (codes "Fans") (fan_summary s) ∷ evidence (codes "CPU load") (load_text s) ∷ [])
          (some (hot_cpu_cause s))
          (codes "Open the Processes page to see what is using the CPU" ∷ []))

  -- `c.package_temp_c.or(s.thermal.cpu_package_c)`.
  unfoldable pub package_temp : Snapshot F → Option F
  package_temp s = elim s.cpu.package_temp_c [ none ↦ s.thermal.cpu_package_c | some t ↦ some t ]

  unfoldable pub temp_rules : Snapshot F → Thresholds F → ℕ → RuleEngine F → RuleEngine F
  unfolding temp_critical temp_high
  temp_rules s cfg now e = elim (package_temp s) [
    | none ↦ e
    | some t ↦
        let crit = limit cfg (codes "cpu.temp.critical") (codes "celsius") 95 in
        let high = limit cfg (codes "cpu.temp.high") (codes "celsius") 90 in
        fire_held_else (codes "cpu.temp.critical") (d.le crit t) now 60 (temp_critical s t crit)
          (fire_held (codes "cpu.temp.high") (d.le high t) now 120 (temp_high s t high)) e
  ]

  celsius : Option F → Text
  celsius none = unknown
  celsius (some t) = d.fixed 1 t ++ codes " °C"

  unfoldable pub throttling : Snapshot F → Alert
  unfolding celsius
  throttling s =
      new_alert (codes "cpu.throttling") [] warning (codes "CPU is thermally throttling") (
        explained
          (format (
            codes "The kernel package-throttle counter advanced (now "
            ∷ to_string s.cpu.package_throttle_count
            ∷ codes ")."
            ∷ []))
          (some (codes "no new throttle events")) 0
          (evidence (codes "CPU temperature") (celsius s.thermal.cpu_package_c)
            ∷ evidence (codes "Current frequency") (
                format (
                  d.fixed 0 s.cpu.freq_mhz
                  ∷ codes " MHz of "
                  ∷ d.fixed 0 s.cpu.freq_max_mhz
                  ∷ codes " MHz"
                  ∷ []))
            ∷ [])
          none
          (codes
              "Sustained throttling under load is normal on a thin laptop; investigate if it happens at idle"
            ∷ []))

  busiest : Option (ProcInfo F) → Text
  busiest none = unknown
  busiest (some p) = format (
      p.name
      ∷ codes " (pid "
      ∷ to_string p.pid
      ∷ codes ") at "
      ∷ d.fixed 0 p.cpu_pct
      ∷ codes "%"
      ∷ [])

  unfoldable pub sustained_load : Snapshot F → F → ℕ → Alert
  unfolding busiest
  sustained_load s sustained held =
      new_alert (codes "cpu.sustained_load") [] notice (codes "CPU has been busy for a while") (
        explained
          (format (codes "Total CPU usage is " ∷ d.fixed 0 s.cpu.usage_pct ∷ codes "%." ∷ []))
          (some (format (codes "below " ∷ d.fixed 0 sustained ∷ codes "% sustained" ∷ []))) held
          (evidence (codes "Load average")
              (format (d.fixed 2 s.cpu.load1 ∷ codes " / " ∷ d.fixed 2 s.cpu.load5 ∷ []))
            ∷ evidence (codes "Busiest process") (busiest (first s.process.top_cpu))
            ∷ [])
          none (codes "This is only a problem if you did not expect it" ∷ []))

  unfoldable pub runaway : ProcInfo F → F → ℕ → Alert
  runaway p thresh held =
      new_alert (codes "cpu.runaway_process") p.name notice
        (p.name ++ codes " is using a lot of CPU")
        (explained
          (format (
            p.name
            ∷ codes " (pid "
            ∷ to_string p.pid
            ∷ codes ") has used "
            ∷ d.fixed 0 p.cpu_pct
            ∷ codes "% of a CPU core."
            ∷ []))
          (some (format (codes "below " ∷ d.fixed 0 thresh ∷ codes "% sustained" ∷ []))) held
          (evidence (codes "Memory") (human_bytes (d.of_ℕ p.rss_bytes))
            ∷ evidence (codes "Threads") (to_string p.threads)
            ∷ evidence (codes "Command") (take 120 p.cmd)
            ∷ [])
          none
          (format (
              codes "Inspect it with:  ps -p "
              ∷ to_string p.pid
              ∷ codes " -o pid,comm,%cpu,%mem,etime"
              ∷ [])
            ∷ []))

  unfoldable pub runaway_key : ProcInfo F → Text
  runaway_key p = codes "cpu.runaway_process:" ++ to_string p.pid

  unfoldable pub runaway_rule : Snapshot F → Thresholds F → ℕ → RuleEngine F → RuleEngine F
  unfolding runaway runaway_key
  runaway_rule s cfg now e = elim (first s.process.top_cpu) [
    | none ↦ e
    | some p ↦
        let thresh = limit cfg (codes "cpu.runaway_process") (codes "pct") 85 in
        fire_held (runaway_key p) (d.le thresh p.cpu_pct) now 300 (runaway p thresh) e
  ]

  unfoldable pub cpu_rules : Snapshot F → Thresholds F → ℕ → RuleEngine F → RuleEngine F
  unfolding temp_rules throttling sustained_load runaway_rule
  cpu_rules s cfg now e =
      let e = temp_rules s cfg now e in
      let e = fire_if s.cpu.throttling_now (throttling s) e in
      let sustained = limit cfg (codes "cpu.sustained_load") (codes "pct") 90 in
      let e =
        fire_held (codes "cpu.sustained_load") (d.le sustained s.cpu.usage_pct) now 300
          (sustained_load s sustained) e in
      runaway_rule s cfg now e
