-- ===== src/Anomaly/Rules/Evaluation.antt =====
-- jamsys-daemon/src/anomaly/rules.rs: one pass over all rules, and what the engine learns from a tick.
pub mod Laws
pub mod Heat
mod Tests
use jamsys.Prelude.{ℕ, Bool, List, [], ◌∷◌, Text, if◌then◌else◌}
use jamsys.Prelude.Int.{ℤ}
use jamsys.Prelude.Real.{Real}
use jamsys.Types.Context.{Context}
use jamsys.Types.Metric.{Sample, key}
use jamsys.Collectors.Snapshot.{Snapshot, context_at}
use jamsys.Anomaly.Dwell
use jamsys.Anomaly.Baseline
use jamsys.Anomaly.Baseline.{Baselines, observe}
use jamsys.Anomaly.Rules.{RuleEngine, Thresholds}
use jamsys.Anomaly.Rules.Causes.{is_learnable}
use jamsys.Anomaly.Rules.Cpu.{cpu_rules}
use jamsys.Anomaly.Rules.Memory.{memory_rules}
use jamsys.Anomaly.Rules.Thermal.{thermal_rules}
use jamsys.Anomaly.Rules.Nvme.{storage_rules}
use jamsys.Anomaly.Rules.Gpu.{gpu_rules}
use jamsys.Anomaly.Rules.Power.{power_rules}
use jamsys.Anomaly.Rules.Network.{network_rules}
use jamsys.Anomaly.Rules.Services.{service_rules, device_rules}
use jamsys.Anomaly.Rules.Bluetooth.{bluetooth_rules}
use jamsys.Anomaly.Rules.Learned.{learned_rules}

module _ {ℓ} {F : Type ℓ} ⦃d : Real F⦄ where
  unfoldable pub new : ℕ → ℕ → F → RuleEngine F
  new window warmup z_threshold = record {
    dwell = Dwell.new;
    baselines = Baseline.new window warmup z_threshold;
    firing = [];
    out = [];
  }

  learn_samples : Context → List (Sample F) → Baselines F → Baselines F
  learn_samples ctx [] b = b
  learn_samples ctx (s ∷ samples) b =
      learn_samples ctx samples
        (if is_learnable s.id.subsystem s.id.name then observe (key s.id) ctx s.value b else b)

  -- `seconds` is the local time.
  unfoldable pub learn_with : ℤ → Bool → Snapshot F → List (Sample F) → RuleEngine F → RuleEngine F
  unfolding learn_samples
  learn_with seconds time_of_day s samples e = record e {
    baselines = learn_samples (context_at seconds time_of_day s) samples e.baselines;
  }

  -- The alerts stand in `out`, their fingerprints in `firing`.
  unfoldable pub evaluate : Snapshot F → Thresholds F → Context → ℕ → RuleEngine F → RuleEngine F
  evaluate s cfg ctx now e =
      let e = record e { firing = []; out = [] } in
      let e = cpu_rules s cfg now e in
      let e = memory_rules s cfg now e in
      let e = thermal_rules s cfg now e in
      let e = storage_rules s cfg now e in
      let e = gpu_rules s cfg now e in
      let e = power_rules s cfg e in
      let e = network_rules s cfg now e in
      let e = service_rules s e in
      let e = device_rules s e in
      let e = bluetooth_rules s.bluetooth cfg now e in learned_rules s cfg ctx now e
