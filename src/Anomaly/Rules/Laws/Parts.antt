-- ===== src/Anomaly/Rules/Laws/Parts.antt =====
-- What firing an alert keeps, the rules on disks, graphics and power keep.
use jamsys.Prelude.{
  ℕ, ◌≡◌, refl, false, not, Option, none, some, ltb, ◌==◌, Text, codes, is_empty, inl, inr,
  Bool-cases, Option-cases, nat_is_eq,
}
use jamsys.Prelude.Real.{Real}
use jamsys.Types.{new_alert}
use jamsys.Collectors.Snapshot.{Snapshot, FsInfo, NvmeHealth, NvidiaGpu}
use jamsys.Anomaly.Rules.{RuleEngine, Thresholds, limit}
use jamsys.Anomaly.Rules.Laws.{IsKept, not_empty, fire_if-kept, fire_held-kept, each-kept}
use jamsys.Anomaly.Rules.Storage.{almost_full, filling_up, out_of_inodes, fs_rules}
use jamsys.Anomaly.Rules.Nvme.{
  smart, no_spare, media_failed, worn, running_hot, smart_rule, spare_of, spare_rule, media_rule,
  wear_rule, nvme_temp_rule, nvme_rules, storage_rules,
}
use jamsys.Anomaly.Rules.Gpu
use jamsys.Anomaly.Rules.Gpu.{gpu_temp_rule, vram_full, vram_of, vram_rule, idle_awake, gpu_rules}
use jamsys.Anomaly.Rules.Power.{degraded, battery_low, power_rules}

module _ {ℓ κ} {F : Type ℓ} ⦃d : Real F⦄ {P : RuleEngine F → Type κ} (k : IsKept P) where
  fs_rules-kept :
      (cfg : Thresholds F) (f : FsInfo F) (e : RuleEngine F) → P e → P (fs_rules cfg f e)
  unfolding fs_rules almost_full filling_up out_of_inodes new_alert
  fs_rules-kept cfg f e p =
      let full = limit cfg (codes "disk.full") (codes "pct") 95 in
      let filling = limit cfg (codes "disk.filling") (codes "pct") 90 in
      let inodes = limit cfg (codes "disk.inodes") (codes "pct") 90 in
      let starts = λ (t : Text) (h : is_empty t ≡ false). not_empty f.mount t h in
      elim (Bool-cases (d.le full f.used_pct)) [
        | inl q ↦ rw q (
            fire_if-kept k (d.le inodes f.inode_used_pct) (out_of_inodes f inodes) _
              (starts _ refl, starts _ refl, refl, refl, refl)
              (k.fired (almost_full f full) e (starts _ refl, starts _ refl, refl, refl, refl) p))
        | inr q ↦ rw q (
            fire_if-kept k (d.le inodes f.inode_used_pct) (out_of_inodes f inodes) _
              (starts _ refl, starts _ refl, refl, refl, refl)
              (fire_if-kept k (d.le filling f.used_pct) (filling_up f filling) e
                (starts _ refl, starts _ refl, refl, refl, refl) p))
      ]

  smart_rule-kept : (n : NvmeHealth F) (e : RuleEngine F) → P e → P (smart_rule n e)
  unfolding smart_rule smart new_alert
  smart_rule-kept n e p = elim (Option-cases n.critical_warning) [
    | inl q ↦ rw q p
    | inr (cw, q) ↦ rw q (
        fire_if-kept k (not (cw == 0)) (smart n cw) e
          (not_empty n.device _ refl, refl, refl, refl, refl) p)
  ]

  spare_of-kept :
      (n : NvmeHealth F) (sp th : Option ℕ) (e : RuleEngine F) → P e → P (spare_of n sp th e)
  unfolding spare_of no_spare new_alert
  spare_of-kept n none th e p = p
  spare_of-kept n (some sp) none e p = p
  spare_of-kept n (some sp) (some th) e p =
      fire_if-kept k (ltb sp th) (no_spare n sp th) e
        (not_empty n.device _ refl, refl, refl, refl, refl) p

  media_rule-kept : (n : NvmeHealth F) (e : RuleEngine F) → P e → P (media_rule n e)
  unfolding media_rule media_failed new_alert
  media_rule-kept n e p = elim (Option-cases n.media_errors) [
    | inl q ↦ rw q p
    | inr (m, q) ↦ rw q (
        fire_if-kept k (ltb 0 m) (media_failed n m) e
          (not_empty n.device _ refl, refl, refl, refl, refl) p)
  ]

  wear_rule-kept :
      (cfg : Thresholds F) (n : NvmeHealth F) (e : RuleEngine F) → P e → P (wear_rule cfg n e)
  unfolding wear_rule worn new_alert
  wear_rule-kept cfg n e p = elim (Option-cases n.percentage_used) [
    | inl q ↦ rw q p
    | inr (w, q) ↦
        rw q (fire_if-kept k _ (worn n w _) e (not_empty n.device _ refl, refl, refl, refl, refl) p)
  ]

  nvme_temp_rule-kept :
      (s : Snapshot F) (cfg : Thresholds F) (now : ℕ) (n : NvmeHealth F) (e : RuleEngine F)
      → P e
      → P (nvme_temp_rule s cfg now n e)
  unfolding nvme_temp_rule running_hot new_alert
  nvme_temp_rule-kept s cfg now n e p = elim (Option-cases n.temp_c) [
    | inl q ↦ rw q p
    | inr (t, q) ↦ rw q (
        fire_held-kept k _ _ now 120 _ e refl
          (λ held. (not_empty n.device _ refl, refl, refl, refl, refl)) p)
  ]

  nvme_rules-kept :
      (s : Snapshot F) (cfg : Thresholds F) (now : ℕ) (n : NvmeHealth F) (e : RuleEngine F)
      → P e
      → P (nvme_rules s cfg now n e)
  unfolding nvme_rules spare_rule
  nvme_rules-kept s cfg now n e p =
      let p1 = smart_rule-kept n e p in
      let p2 = spare_of-kept n n.available_spare n.available_spare_threshold _ p1 in
      let p3 = wear_rule-kept cfg n _ (media_rule-kept n _ p2) in
      nvme_temp_rule-kept s cfg now n _ p3

  pub storage_rules-kept :
      (s : Snapshot F) (cfg : Thresholds F) (now : ℕ) (e : RuleEngine F)
      → P e
      → P (storage_rules s cfg now e)
  unfolding storage_rules
  storage_rules-kept s cfg now e p =
      each-kept k _ s.storage.nvme _ (nvme_rules-kept s cfg now)
        (each-kept k _ s.storage.filesystems e (fs_rules-kept cfg) p)

  gpu_temp_rule-kept :
      (s : Snapshot F) (cfg : Thresholds F) (now : ℕ) (e : RuleEngine F)
      → P e
      → P (gpu_temp_rule s cfg now e)
  unfolding gpu_temp_rule Gpu.running_hot new_alert
  gpu_temp_rule-kept s cfg now e p = elim (Option-cases s.gpu.nvidia.temp_c) [
    | inl q ↦ rw q p
    | inr (t, q) ↦
        rw q (fire_held-kept k _ _ now 60 _ e refl (λ held. (refl, refl, refl, refl, refl)) p)
  ]

  vram_of-kept :
      (n : NvidiaGpu F) (cfg : Thresholds F) (now : ℕ) (used total : Option F) (e : RuleEngine F)
      → P e
      → P (vram_of n cfg now used total e)
  unfolding vram_of vram_full new_alert
  vram_of-kept n cfg now none total e p = p
  vram_of-kept n cfg now (some used) none e p = p
  vram_of-kept n cfg now (some used) (some total) e p = elim (Bool-cases (d.lt (d.of_ℕ 0) total)) [
    | inl q ↦ rw q (fire_held-kept k _ _ now 60 _ e refl (λ held. (refl, refl, refl, refl, refl)) p)
    | inr q ↦ rw q p
  ]

  pub gpu_rules-kept :
      (s : Snapshot F) (cfg : Thresholds F) (now : ℕ) (e : RuleEngine F)
      → P e
      → P (gpu_rules s cfg now e)
  unfolding gpu_rules vram_rule idle_awake new_alert
  gpu_rules-kept s cfg now e p = elim (Bool-cases s.gpu.nvidia.present) [
    | inr q ↦ rw q p
    | inl q ↦
        let n = s.gpu.nvidia in
        let p1 = gpu_temp_rule-kept s cfg now e p in
        let p2 = vram_of-kept n cfg now n.vram_used_mb n.vram_total_mb _ p1 in
        rw q (fire_held-kept k _ _ now 300 _ _ refl (λ held. (refl, refl, refl, refl, refl)) p2)
  ]

  pub power_rules-kept :
      (s : Snapshot F) (cfg : Thresholds F) (e : RuleEngine F) → P e → P (power_rules s cfg e)
  unfolding power_rules degraded battery_low new_alert
  power_rules-kept s cfg e p = elim (Bool-cases s.power.has_battery) [
    | inr q ↦ rw q p
    | inl q ↦
        let p1 = fire_if-kept k _ (degraded s.power _) e (refl, refl, refl, refl, refl) p in
        rw q (fire_if-kept k _ (battery_low s.power) _ (refl, refl, refl, refl, refl) p1)
  ]
