-- ===== src/Anomaly/Rules/Nvme.antt =====
-- jamsys-daemon/src/anomaly/rules.rs: the NVMe drives in `storage_rules`, and the rule as a whole.
use jamsys.Prelude.{ℕ, not, Option, none, some, [], ◌∷◌, ◌++◌, ltb, ◌==◌, Text, codes}
use jamsys.Prelude.Decimal.{to_string}
use jamsys.Prelude.Real.{Real}
use jamsys.Util.Sizes.{human_bytes, human_bps}
use jamsys.Types.{Alert, new_alert, critical, warning}
use jamsys.Collectors.Snapshot.{Snapshot, NvmeHealth}
use jamsys.Anomaly.Rules.{
  RuleEngine, Thresholds, format, evidence, explained, fire_if, fire_held, each, limit,
}
use jamsys.Anomaly.Rules.Storage.{fs_rules}
use jamsys.Anomaly.Rules.Causes.{unknown, smart_warning_text, hex_byte}

-- A number that the drive may not report.
number_or : Text → Option ℕ → Text → Text
number_or missing none after = missing
number_or missing (some n) after = to_string n ++ after

module _ {ℓ} {F : Type ℓ} ⦃d : Real F⦄ where
  unfoldable pub smart : NvmeHealth F → ℕ → Alert
  unfolding number_or
  smart n cw =
      new_alert (codes "nvme.smart") n.device critical
        (n.device ++ codes " reports a SMART critical warning")
        (explained
          (format (
            codes "SMART critical_warning is 0x"
            ∷ hex_byte cw
            ∷ codes ": "
            ∷ smart_warning_text cw
            ∷ codes "."
            ∷ []))
          (some (codes "0x00")) 0
          (evidence (codes "Model") n.model
            ∷ evidence (codes "Media errors") (number_or unknown n.media_errors [])
            ∷ evidence (codes "Wear") (number_or unknown n.percentage_used (codes "%"))
            ∷ [])
          none
          (codes "Back up important data now"
            ∷ format (codes "Full report:  sudo smartctl -a /dev/" ∷ n.device ∷ [])
            ∷ []))

  unfoldable pub no_spare : NvmeHealth F → ℕ → ℕ → Alert
  unfolding number_or
  no_spare n sp th =
      new_alert (codes "nvme.spare") n.device critical
        (n.device ++ codes " has exhausted its spare blocks")
        (explained
          (format (
            codes "Available spare is "
            ∷ to_string sp
            ∷ codes "%, below the drive's own threshold of "
            ∷ to_string th
            ∷ codes "%."
            ∷ []))
          (some (format (codes "at or above " ∷ to_string th ∷ codes "%" ∷ []))) 0
          (evidence (codes "Wear") (number_or [] n.percentage_used (codes "%")) ∷ []) none
          (codes "The drive is near end of life. Back up and plan a replacement." ∷ []))

  unfoldable pub media_failed : NvmeHealth F → ℕ → Alert
  unfolding number_or
  media_failed n m =
      new_alert (codes "nvme.media_errors") n.device critical
        (n.device ++ codes " reports media errors")
        (explained
          (format (
            codes "The drive has logged "
            ∷ to_string m
            ∷ codes " media and data-integrity error(s)."
            ∷ []))
          (some (codes "0")) 0
          (evidence (codes "Model") n.model
            ∷ evidence (codes "Power-on hours") (number_or [] n.power_on_hours [])
            ∷ [])
          none
          (codes "Verify your backups"
            ∷ codes "Check the kernel log for I/O errors on this device"
            ∷ []))

  unfoldable pub worn : NvmeHealth F → ℕ → F → Alert
  worn n w wear =
      new_alert (codes "nvme.wear") n.device warning
        (n.device ++ codes " is near its rated write endurance")
        (explained
          (format (
            codes "The drive reports " ∷ to_string w ∷ codes "% of its rated endurance used." ∷ []))
          (some (format (codes "below " ∷ d.fixed 0 wear ∷ codes "%" ∷ []))) 0
          (evidence (codes "Data written") (elim n.data_units_written [
            | none ↦ []
            | some u ↦ human_bytes (d.mul (d.of_ℕ u) (d.of_ℕ 512_000))
          ])
            ∷ [])
          none
          (codes "This is a wear indicator, not a failure; plan a replacement in due course" ∷ []))

  unfoldable pub running_hot : Snapshot F → NvmeHealth F → F → F → ℕ → Alert
  running_hot s n t nt held =
      new_alert (codes "nvme.temp") n.device warning (n.device ++ codes " is running hot") (
        explained
          (format (codes "NVMe composite temperature is " ∷ d.fixed 1 t ∷ codes " °C." ∷ []))
          (some (format (codes "below " ∷ d.fixed 0 nt ∷ codes " °C" ∷ []))) held
          (evidence (codes "Write throughput") (human_bps s.storage.total_write_bps) ∷ []) none
          (codes
              "Sustained heavy writes heat NVMe drives; they throttle themselves to protect the flash"
            ∷ []))

  unfoldable pub smart_rule : NvmeHealth F → RuleEngine F → RuleEngine F
  unfolding smart
  smart_rule n e = elim n.critical_warning [
    | none ↦ e
    | some cw ↦ fire_if (not (cw == 0)) (smart n cw) e
  ]

  unfoldable pub spare_of : NvmeHealth F → Option ℕ → Option ℕ → RuleEngine F → RuleEngine F
  unfolding no_spare
  spare_of n none th e = e
  spare_of n (some sp) none e = e
  spare_of n (some sp) (some th) e = fire_if (ltb sp th) (no_spare n sp th) e

  unfoldable pub spare_rule : NvmeHealth F → RuleEngine F → RuleEngine F
  unfolding spare_of
  spare_rule n e = spare_of n n.available_spare n.available_spare_threshold e

  unfoldable pub media_rule : NvmeHealth F → RuleEngine F → RuleEngine F
  unfolding media_failed
  media_rule n e = elim n.media_errors [
    | none ↦ e
    | some m ↦ fire_if (ltb 0 m) (media_failed n m) e
  ]

  unfoldable pub wear_rule : Thresholds F → NvmeHealth F → RuleEngine F → RuleEngine F
  unfolding worn
  wear_rule cfg n e = elim n.percentage_used [
    | none ↦ e
    | some w ↦
        let wear = limit cfg (codes "nvme.wear") (codes "pct") 90 in
        fire_if (d.le wear (d.of_ℕ w)) (worn n w wear) e
  ]

  unfoldable pub nvme_temp_rule :
      Snapshot F → Thresholds F → ℕ → NvmeHealth F → RuleEngine F → RuleEngine F
  unfolding running_hot
  nvme_temp_rule s cfg now n e = elim n.temp_c [
    | none ↦ e
    | some t ↦
        let nt = limit cfg (codes "nvme.temp") (codes "celsius") 70 in
        fire_held (codes "nvme.temp:" ++ n.device) (d.le nt t) now 120 (running_hot s n t nt) e
  ]

  unfoldable pub nvme_rules :
      Snapshot F → Thresholds F → ℕ → NvmeHealth F → RuleEngine F → RuleEngine F
  unfolding smart_rule spare_rule media_rule wear_rule nvme_temp_rule
  nvme_rules s cfg now n e =
      nvme_temp_rule s cfg now n (wear_rule cfg n (media_rule n (spare_rule n (smart_rule n e))))

  unfoldable pub storage_rules : Snapshot F → Thresholds F → ℕ → RuleEngine F → RuleEngine F
  unfolding fs_rules nvme_rules each
  storage_rules s cfg now e =
      each (nvme_rules s cfg now) s.storage.nvme (each (fs_rules cfg) s.storage.filesystems e)
