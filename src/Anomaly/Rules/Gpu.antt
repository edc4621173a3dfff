-- ===== src/Anomaly/Rules/Gpu.antt =====
-- jamsys-daemon/src/anomaly/rules.rs: `gpu_rules`.
use jamsys.Prelude.{
  ℕ, not, ◌&&◌, Option, none, some, List, [], ◌∷◌, ◌++◌, if◌then◌else◌, Text, codes, contains,
}
use jamsys.Prelude.Decimal.{to_string}
use jamsys.Prelude.Real.{Real}
use jamsys.Prelude.Int.{pos}
use jamsys.Util.Duration.{human_duration}
use jamsys.Types.{Alert, new_alert, warning, notice}
use jamsys.Collectors.Snapshot.{Snapshot, NvidiaGpu, Reading}
use jamsys.Anomaly.Rules.{RuleEngine, Thresholds, format, evidence, explained, fire_held, limit}
use jamsys.Anomaly.Rules.Causes.{unknown, or_zero}

module _ {ℓ} {F : Type ℓ} ⦃d : Real F⦄ where
  -- A number that the card may not report.
  value_or : Text → ℕ → Option F → Text → Text
  value_or missing digits none unit = missing
  value_or missing digits (some v) unit = d.fixed digits v ++ unit

  unfoldable pub gpu_fan : List (Reading F) → Text
  unfolding contains
  gpu_fan [] = unknown
  gpu_fan (f ∷ fs) =
      let rest = gpu_fan fs in
      if contains (codes "gpu") f.label then d.fixed 0 f.value ++ codes " rpm" else rest

  unfoldable pub running_hot : Snapshot F → F → F → ℕ → Alert
  unfolding value_or gpu_fan
  running_hot s t gt held =
      let n = s.gpu.nvidia in
      new_alert (codes "gpu.nvidia.temp") [] warning (codes "The graphics card is running hot") (
        explained (format (codes "GPU temperature is " ∷ d.fixed 1 t ∷ codes " °C." ∷ []))
          (some (format (codes "below " ∷ d.fixed 0 gt ∷ codes " °C" ∷ []))) held
          (evidence (codes "GPU utilisation") (value_or [] 0 n.util_pct (codes "%"))
            ∷ evidence (codes "GPU power") (value_or [] 1 n.power_w (codes " W"))
            ∷ evidence (codes "GPU fan") (gpu_fan s.thermal.fans)
            ∷ [])
          none (codes "Check that the GPU fan is spinning on the Thermals page" ∷ []))

  unfoldable pub vram_full : NvidiaGpu F → F → F → F → F → ℕ → Alert
  vram_full n pct used total vt held =
      new_alert (codes "gpu.nvidia.vram") [] warning (codes "Graphics memory is nearly full") (
        explained
          (format (
            codes "VRAM is "
            ∷ d.fixed 0 pct
            ∷ codes "% used ("
            ∷ d.fixed 0 used
            ∷ codes " MB of "
            ∷ d.fixed 0 total
            ∷ codes " MB)."
            ∷ []))
          (some (format (codes "below " ∷ d.fixed 0 vt ∷ codes "%" ∷ []))) held
          (evidence (codes "GPU processes") (to_string n.process_count) ∷ []) none
          (codes "Applications may crash or fall back to slow system memory" ∷ []))

  unfoldable pub idle_awake : Snapshot F → ℕ → Alert
  idle_awake s held =
      let n = s.gpu.nvidia in
      new_alert (codes "gpu.idle_awake") [] notice (codes "The discrete GPU is awake but idle") (
        explained
          (format (
            codes "The NVIDIA GPU is powered on at "
            ∷ d.fixed 1 (or_zero n.power_w)
            ∷ codes " W although its utilisation is 0% and no process is using it."
            ∷ []))
          (some (codes "suspended (0 W) when nothing is using it")) held
          (evidence (codes "Runtime power state") n.runtime_status
            ∷ evidence (codes "Awake this boot") (human_duration (pos (d.trunc n.active_time_s)))
            ∷ evidence (codes "System draw") (d.fixed 1 s.power.power_w ++ codes " W")
            ∷ [])
          (some (
            codes
              "Something is holding the device open — commonly a browser with hardware acceleration, an application launched with the dGPU, or a monitoring tool polling it"))
          (codes "Check:  cat /sys/class/drm/card2/device/power/runtime_status"
            ∷ codes "Look for GPU clients on the GPU page"
            ∷ []))

  unfoldable pub gpu_temp_rule : Snapshot F → Thresholds F → ℕ → RuleEngine F → RuleEngine F
  unfolding running_hot
  gpu_temp_rule s cfg now e = elim s.gpu.nvidia.temp_c [
    | none ↦ e
    | some t ↦
        let gt = limit cfg (codes "gpu.nvidia.temp") (codes "celsius") 87 in
        fire_held (codes "gpu.nvidia.temp") (d.le gt t) now 60 (running_hot s t gt) e
  ]

  unfoldable pub vram_of :
      NvidiaGpu F → Thresholds F → ℕ → Option F → Option F → RuleEngine F → RuleEngine F
  unfolding vram_full
  vram_of n cfg now none total e = e
  vram_of n cfg now (some used) none e = e
  vram_of n cfg now (some used) (some total) e =
      let pct = d.div (d.mul (d.of_ℕ 100) used) total in
      let vt = limit cfg (codes "gpu.nvidia.vram") (codes "pct") 95 in
      if d.lt (d.of_ℕ 0) total
      then fire_held (codes "gpu.nvidia.vram") (d.le vt pct) now 60 (vram_full n pct used total vt)
          e
      else e

  unfoldable pub vram_rule : Snapshot F → Thresholds F → ℕ → RuleEngine F → RuleEngine F
  unfolding vram_of
  vram_rule s cfg now e = let n = s.gpu.nvidia in vram_of n cfg now n.vram_used_mb n.vram_total_mb e

  unfoldable pub gpu_rules : Snapshot F → Thresholds F → ℕ → RuleEngine F → RuleEngine F
  unfolding gpu_temp_rule vram_rule idle_awake
  gpu_rules s cfg now e =
      if not s.gpu.nvidia.present
      then e
      else let e = vram_rule s cfg now (gpu_temp_rule s cfg now e) in
        fire_held (codes "gpu.idle_awake") (s.gpu.dgpu_awake_idle && s.power.on_battery) now 300
          (idle_awake s) e
