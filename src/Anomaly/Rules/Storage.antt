-- ===== src/Anomaly/Rules/Storage.antt =====
-- jamsys-daemon/src/anomaly/rules.rs: the file systems in `storage_rules`.
use jamsys.Prelude.{none, some, [], ◌∷◌, ◌++◌, if◌then◌else◌, codes}
use jamsys.Prelude.Real.{Real}
use jamsys.Util.Sizes.{human_bytes}
use jamsys.Types.{Alert, new_alert, critical, warning}
use jamsys.Collectors.Snapshot.{FsInfo}
use jamsys.Anomaly.Rules.{RuleEngine, Thresholds, format, evidence, explained, fire, fire_if, limit}

module _ {ℓ} {F : Type ℓ} ⦃d : Real F⦄ where
  unfoldable pub almost_full : FsInfo F → F → Alert
  almost_full f full =
      new_alert (codes "disk.full") f.mount critical (f.mount ++ codes " is almost full") (
        explained
          (format (
            f.mount
            ∷ codes " is "
            ∷ d.fixed 1 f.used_pct
            ∷ codes "% full — "
            ∷ human_bytes (d.of_ℕ f.free_bytes)
            ∷ codes " free of "
            ∷ human_bytes (d.of_ℕ f.total_bytes)
            ∷ codes "."
            ∷ []))
          (some (format (codes "below " ∷ d.fixed 0 full ∷ codes "% used" ∷ []))) 0
          (evidence (codes "Filesystem") (format (f.fstype ∷ codes " on " ∷ f.device ∷ [])) ∷ [])
          none
          (format (
              codes "Find the biggest directories:  du -xh --max-depth=1 "
              ∷ f.mount
              ∷ codes " | sort -h | tail"
              ∷ [])
            ∷ []))

  unfoldable pub filling_up : FsInfo F → F → Alert
  filling_up f filling =
      new_alert (codes "disk.filling") f.mount warning (f.mount ++ codes " is filling up") (
        explained
          (format (
            f.mount
            ∷ codes " is "
            ∷ d.fixed 1 f.used_pct
            ∷ codes "% full — "
            ∷ human_bytes (d.of_ℕ f.free_bytes)
            ∷ codes " free."
            ∷ []))
          (some (format (codes "below " ∷ d.fixed 0 filling ∷ codes "% used" ∷ []))) 0
          (evidence (codes "Total size") (human_bytes (d.of_ℕ f.total_bytes)) ∷ []) none
          (format (codes "du -xh --max-depth=1 " ∷ f.mount ∷ codes " | sort -h | tail" ∷ []) ∷ []))

  unfoldable pub out_of_inodes : FsInfo F → F → Alert
  out_of_inodes f inodes =
      new_alert (codes "disk.inodes") f.mount warning (f.mount ++ codes " is running out of inodes")
        (explained
          (format (
            f.mount
            ∷ codes " has used "
            ∷ d.fixed 1 f.inode_used_pct
            ∷ codes "% of its inodes."
            ∷ []))
          (some (format (codes "below " ∷ d.fixed 0 inodes ∷ codes "%" ∷ []))) 0
          (evidence (codes "Space used") (d.fixed 1 f.used_pct ++ codes "%") ∷ []) none
          (codes
              "A filesystem can run out of inodes while it still has free space — usually many tiny files"
            ∷ []))

  unfoldable pub fs_rules : Thresholds F → FsInfo F → RuleEngine F → RuleEngine F
  unfolding almost_full filling_up out_of_inodes
  fs_rules cfg f e =
      let full = limit cfg (codes "disk.full") (codes "pct") 95 in
      let filling = limit cfg (codes "disk.filling") (codes "pct") 90 in
      let inodes = limit cfg (codes "disk.inodes") (codes "pct") 90 in
      let e =
        if d.le full f.used_pct
        then fire (almost_full f full) e
        else fire_if (d.le filling f.used_pct) (filling_up f filling) e in
      fire_if (d.le inodes f.inode_used_pct) (out_of_inodes f inodes) e
