-- ===== src/Anomaly/Rules/Learned.antt =====
-- jamsys-daemon/src/anomaly/rules.rs: `learned_rules`. `ctx` is what `context_at` gives, which the code asks for at each use.
use jamsys.Prelude.{
  ℕ, true, not, ◌&&◌, ◌||◌, Option, none, some, [], ◌∷◌, ◌++◌, if◌then◌else◌, Text, codes, text_eq,
  nat_is_eq,
}
use jamsys.Prelude.Decimal.{to_string}
use jamsys.Prelude.Real.{Real}
use jamsys.Prelude.Dict
use jamsys.Prelude.Int.{pos}
use jamsys.Util.Duration.{human_duration}
use jamsys.Types.Context.{Context}
use jamsys.Anomaly.Baseline.{Verdict, deviating, evaluate, tuning_for, freeze, thaw}
use jamsys.Anomaly.Dwell.{update, clear}
use jamsys.Util.Sizes.{human_bytes, human_bps}
use jamsys.Types.{Alert, new_alert, notice}
use jamsys.Collectors.Snapshot.{Snapshot, ProcInfo, Iface}
use jamsys.Anomaly.Rules.{
  RuleEngine, Thresholds, format, evidence, explained, fire, fire_held, each, limit,
}
use jamsys.Anomaly.Rules.Causes.{idle_power_cause, fan_summary}

module _ {ℓ} {F : Type ℓ} ⦃d : Real F⦄ where
  unfoldable pub idle_high : Snapshot F → F → F → F → F → ℕ → ℕ → Alert
  idle_high s delta med p05 p95 n held =
      new_alert (codes "power.idle_high") [] notice (codes "Unusually high power draw while idle") (
        explained
          (format (codes "Battery discharge is " ∷ d.fixed 1 s.power.power_w ∷ codes " W." ∷ []))
          (some (
            format (
              codes "your learned idle range on battery is "
              ∷ d.fixed 1 p05
              ∷ codes "–"
              ∷ d.fixed 1 p95
              ∷ codes " W (median "
              ∷ d.fixed 1 med
              ∷ codes " W, from "
              ∷ to_string n
              ∷ codes " samples)"
              ∷ [])))
          held
          (evidence (codes "CPU usage") (d.fixed 0 s.cpu.usage_pct ++ codes "%")
            ∷ evidence (codes "Above baseline by") (d.fixed 1 delta ++ codes " W")
            ∷ [])
          (idle_power_cause s)
          (codes "Compare the Power page history against the shaded normal band"
            ∷ codes "Check the GPU page for a discrete GPU that is awake"
            ∷ []))

  -- Once the alert is out, the metric is no longer learned.
  unfoldable pub idle_held : Snapshot F → F → F → F → F → ℕ → Option ℕ → RuleEngine F → RuleEngine F
  unfolding idle_high
  idle_held s delta med p05 p95 n none e = e
  idle_held s delta med p05 p95 n (some held) e =
      let e = fire (idle_high s delta med p05 p95 n held) e in
      record e { baselines = freeze (codes "power.system_w") e.baselines }

  unfoldable pub idle_verdict : Snapshot F → ℕ → Verdict F → RuleEngine F → RuleEngine F
  unfolding idle_held
  idle_verdict s now (deviating z delta med p05 p95 n) e =
      let dwell_s = (tuning_for (codes "power.system_w") e.baselines).dwell_s in
      let (dwell, held) = update (codes "power.idle_high") true now dwell_s e.dwell in
      if d.lt (d.of_ℕ 0) delta
      then idle_held s delta med p05 p95 n held (record e { dwell = dwell })
      else e
  idle_verdict s now _ e = record e {
    dwell = clear (codes "power.idle_high") e.dwell;
    baselines = thaw (codes "power.system_w") e.baselines;
  }

  unfoldable pub idle_rule : Snapshot F → Context → ℕ → RuleEngine F → RuleEngine F
  unfolding idle_verdict
  idle_rule s ctx now e =
      let v = evaluate (codes "power.system_w") ctx s.power.power_w e.baselines in
      if s.power.has_battery && (s.idle && d.lt (d.of_ℕ 0) s.power.power_w)
      then idle_verdict s now v e
      else e

  unfoldable pub leak : Snapshot F → ProcInfo F → F → ℕ → Alert
  leak s p slope held =
      new_alert (codes "mem.leak") p.name notice (p.name ++ codes " may be leaking memory") (
        explained
          (format (
            p.name
            ∷ codes " (pid "
            ∷ to_string p.pid
            ∷ codes ") is using "
            ∷ human_bytes (d.of_ℕ p.rss_bytes)
            ∷ codes " and has grown by about "
            ∷ human_bytes slope
            ∷ codes "/hour over the last "
            ∷ human_duration (pos held)
            ∷ codes "."
            ∷ []))
          (some (codes "stable memory use once an application has settled")) held
          (evidence (codes "Growth rate") (human_bytes slope ++ codes "/hour")
            ∷ evidence (codes "System memory available")
                (d.fixed 0 s.memory.available_pct ++ codes "%")
            ∷ [])
          (some (
            codes
              "Steady, monotonic growth over half an hour is the signature of a leak rather than a working set that has grown"))
          (format (
              codes "Watch it with:  ps -p "
              ∷ to_string p.pid
              ∷ codes " -o pid,comm,rss,etime"
              ∷ [])
            ∷ codes "Restarting the application reclaims the memory"
            ∷ []))

  unfoldable pub leak_rule :
      Snapshot F → Thresholds F → ℕ → ProcInfo F → RuleEngine F → RuleEngine F
  unfolding leak
  leak_rule s cfg now p e = elim (Dict.get p.pid s.process.growth_bph) [
    | none ↦ e
    | some slope ↦
        let slope_thresh = limit cfg (codes "mem.leak") (codes "bytes_per_hour") 100_000_000 in
        let grew_enough = d.lt (d.of_ℕ 1_000_000_000) (d.of_ℕ p.rss_bytes) in
        fire_held (codes "mem.leak:" ++ to_string p.pid) (d.le slope_thresh slope && grew_enough)
          now 1800 (leak s p slope) e
  ]

  unfoldable pub unusual : Snapshot F → F → F → F → F → ℕ → ℕ → Alert
  unusual s t med p05 p95 n held =
      new_alert (codes "thermal.unusual") [] notice
        (codes "CPU is hotter than usual for this workload")
        (explained (format (codes "CPU package temperature is " ∷ d.fixed 1 t ∷ codes " °C." ∷ []))
          (some (
            format (
              codes "normally "
              ∷ d.fixed 0 p05
              ∷ codes "–"
              ∷ d.fixed 0 p95
              ∷ codes " °C in this state (median "
              ∷ d.fixed 0 med
              ∷ codes " °C, "
              ∷ to_string n
              ∷ codes " samples)"
              ∷ [])))
          held
          (evidence (codes "CPU usage") (d.fixed 0 s.cpu.usage_pct ++ codes "%")
            ∷ evidence (codes "Fans") (fan_summary s)
            ∷ evidence (codes "Power source")
                (if s.power.on_battery then codes "battery" else codes "AC")
            ∷ [])
          none (codes "Dust in the vents is the usual cause of a gradual shift" ∷ []))

  unfoldable pub unusual_verdict : Snapshot F → F → ℕ → Verdict F → RuleEngine F → RuleEngine F
  unfolding unusual
  unusual_verdict s t now (deviating z delta med p05 p95 n) e =
      let dwell_s = (tuning_for (codes "thermal.cpu_package_c") e.baselines).dwell_s in
      if d.lt (d.of_ℕ 0) delta
      then fire_held (codes "thermal.unusual") true now dwell_s (unusual s t med p05 p95 n) e
      else e
  unusual_verdict s t now _ e = record e { dwell = clear (codes "thermal.unusual") e.dwell }

  unfoldable pub unusual_rule : Snapshot F → Context → ℕ → RuleEngine F → RuleEngine F
  unfolding unusual_verdict
  unusual_rule s ctx now e = elim s.thermal.cpu_package_c [
    | none ↦ e
    | some t ↦
        unusual_verdict s t now (evaluate (codes "thermal.cpu_package_c") ctx t e.baselines) e
  ]

  unfoldable pub spike : Snapshot F → Iface F → Text → F → F → F → ℕ → Alert
  spike s i dir bps med p95 held =
      let what = if text_eq dir (codes "rx") then codes "download" else codes "upload" in
      new_alert (codes "net.traffic_spike") (i.name ++ (codes ":" ++ dir)) notice
        (format (codes "Unusually heavy " ∷ what ∷ codes " traffic on " ∷ i.name ∷ []))
        (explained (format (i.name ∷ codes " is at " ∷ human_bps bps ∷ codes "." ∷ []))
          (some (
            format (
              codes "normally around "
              ∷ human_bps med
              ∷ codes " (95th percentile "
              ∷ human_bps p95
              ∷ codes ")"
              ∷ [])))
          held (evidence (codes "Open TCP connections") (to_string s.network.tcp_connections) ∷ [])
          none (codes "If you are not downloading or backing up, check the Processes page" ∷ []))

  unfoldable pub spike_key : Iface F → Text → Text
  spike_key i dir = codes "net.traffic_spike:" ++ (i.name ++ (codes ":" ++ dir))

  unfoldable pub spike_verdict :
      Snapshot F → Iface F → Text → F → ℕ → Verdict F → RuleEngine F → RuleEngine F
  unfolding spike
  spike_verdict s i dir bps now (deviating z delta med p05 p95 n) e =
      if d.lt (d.larger (d.mul p95 (d.of_ℕ 4)) (d.of_ℕ 5_000_000)) bps
      then fire_held (spike_key i dir) true now 120 (spike s i dir bps med p95) e
      else e
  spike_verdict s i dir bps now _ e = e

  unfoldable pub spike_rule :
      Snapshot F → Context → ℕ → Iface F → Text → F → RuleEngine F → RuleEngine F
  unfolding spike_verdict
  spike_rule s ctx now i dir bps e =
      let metric = format (codes "network." ∷ dir ∷ codes "_bps[" ∷ i.name ∷ codes "]" ∷ []) in
      spike_verdict s i dir bps now (evaluate metric ctx bps e.baselines) e

  unfoldable pub traffic_rule : Snapshot F → Context → ℕ → Iface F → RuleEngine F → RuleEngine F
  unfolding spike_rule
  traffic_rule s ctx now i e =
      if text_eq i.kind (codes "loopback") || not i.up
      then e
      else spike_rule s ctx now i (codes "tx") i.tx_bps
          (spike_rule s ctx now i (codes "rx") i.rx_bps e)

  unfoldable pub learned_rules :
      Snapshot F → Thresholds F → Context → ℕ → RuleEngine F → RuleEngine F
  unfolding idle_rule leak_rule unusual_rule traffic_rule each
  learned_rules s cfg ctx now e =
      let e = each (leak_rule s cfg now) s.process.top_mem (idle_rule s ctx now e) in
      each (traffic_rule s ctx now) s.network.ifaces (unusual_rule s ctx now e)
