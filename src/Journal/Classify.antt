-- ===== src/Journal/Classify.antt =====
-- jamsys-daemon/src/journal.rs: what a line of the journal means.
pub mod Laws
use jamsys.Prelude.{
  ℕ, ◌^◌, Bool, true, false, ◌||◌, ◌==◌, Option, none, some, List, [], ◌∷◌, if◌then◌else◌, leb, ltb,
  Text, codes, strip_prefix, is_some, drop,
}
use jamsys.Prelude.Decimal.{read_digits, is_digit}
use jamsys.Types.{Severity, info, notice, warning, critical}
use jamsys.Util.Glob.{glob_match}

pub record Classification : Type 0 where
  pub kind : Text
  pub severity : Severity
  pub alertable : Bool

-- A row of the table, with its glob.
abbrev pub Pattern : Type 0
Pattern = Text × Classification

abbrev row : (glob kind : Text) → Severity → Bool → Pattern
row glob kind severity alertable =
    (glob, record { kind = kind; severity = severity; alertable = alertable })

-- The first match wins.
abbrev pub patterns : List Pattern
patterns =
    row (codes "*NVRM: Xid*") (codes "gpu_xid") warning true
    ∷ row (codes "*GPU has fallen off the bus*") (codes "gpu_off_bus") critical true
    ∷ row (codes "*nvidia*: GPU at PCI*has fallen*") (codes "gpu_off_bus") critical true
    ∷ row (codes "*GPU reset*") (codes "gpu_reset") warning true
    ∷ row (codes "*[drm]*ERROR*reset*") (codes "gpu_reset") warning true
    ∷ row (codes "*i915*GPU HANG*") (codes "gpu_hang") warning true
    ∷ row (codes "*amdgpu*ring*timeout*") (codes "gpu_hang") warning true
    ∷ row (codes "*Out of memory: Killed process*") (codes "oom") critical true
    ∷ row (codes "*oom-kill:*") (codes "oom") critical true
    ∷ row (codes "*invoked oom-killer*") (codes "oom") critical true
    ∷ row (codes "*nvme*: I/O*QID*timeout*") (codes "nvme_timeout") critical true
    ∷ row (codes "*nvme*: Removing after probe failure*") (codes "nvme_fail") critical true
    ∷ row (codes "*Buffer I/O error on*") (codes "io_error") critical true
    ∷ row (codes "*critical medium error*") (codes "media_error") critical true
    ∷ row (codes "*EXT4-fs error*") (codes "fs_error") critical true
    ∷ row (codes "*EXT4-fs*: Remounting filesystem read-only*") (codes "fs_readonly") critical true
    ∷ row (codes "*BTRFS error*") (codes "fs_error") critical true
    ∷ row (codes "*XFS*Corruption*") (codes "fs_error") critical true
    ∷ row (codes "*I/O error, dev *") (codes "io_error") warning true
    ∷ row (codes "*CPU*above threshold, cpu clock throttled*") (codes "thermal_throttle") warning
        true
    ∷ row (codes "*Package temperature above threshold*") (codes "thermal_throttle") warning true
    ∷ row (codes "*critical temperature reached*") (codes "thermal_critical") critical true
    ∷ row (codes "*thermal zone*: critical temperature*") (codes "thermal_critical") critical true
    ∷ row (codes "*Machine check events logged*") (codes "mce") critical true
    ∷ row (codes "*Hardware Error*") (codes "hw_error") critical true
    ∷ row (codes "*PCIe Bus Error*") (codes "pcie_error") warning true
    ∷ row (codes "*AER:*severity=Uncorrected*") (codes "pcie_error") critical true
    ∷ row (codes "*rtw89*: firmware*fail*") (codes "wifi_fw_error") warning true
    ∷ row (codes "*iwlwifi*: Microcode SW error*") (codes "wifi_fw_error") warning true
    ∷ row (codes "*: Firmware error*") (codes "wifi_fw_error") warning true
    ∷ row (codes "*deauthenticating from*") (codes "wifi_deauth") info false
    ∷ row (codes "*: Link is Down*") (codes "link_down") info false
    ∷ row (codes "*r8169*: rtl_*_cond == 1*") (codes "net_driver_error") warning true
    ∷ row (codes "*Bluetooth: hci*: hardware error*") (codes "bt_hw_error") warning true
    ∷ row (codes "*Bluetooth: hci*: command*tx timeout*") (codes "bt_timeout") notice false
    ∷ row (codes "*PM: suspend entry*") (codes "suspend_entry") info false
    ∷ row (codes "*PM: suspend exit*") (codes "suspend_exit") info false
    ∷ row (codes "*PM: Some devices failed to suspend*") (codes "suspend_failed") warning true
    ∷ row (codes "*PM: dpm_run_callback(): *returns -*") (codes "resume_device_error") warning true
    ∷ row (codes "*Freezing of tasks failed*") (codes "suspend_failed") warning true
    ∷ row (codes "*snd_hda_intel*: azx_get_response timeout*") (codes "audio_error") warning true
    ∷ row (codes "*pipewire*: *: error*") (codes "audio_error") notice false
    ∷ row (codes "*usb*: device descriptor read/64, error*") (codes "usb_error") notice false
    ∷ row (codes "*usb*: device not accepting address*") (codes "usb_error") warning true
    ∷ []

unfoldable pub classify_by : List Pattern → Text → Option Classification
classify_by [] msg = none
classify_by ((glob, c) ∷ rest) msg = if glob_match glob msg then some c else classify_by rest msg

unfoldable pub classify : Text → Option Classification
unfolding classify_by
classify msg = classify_by patterns msg

-- `str::find`, which answers with the text from the first occurrence on.
unfoldable pub find : Text → Text → Option Text
find needle [] = if is_some (strip_prefix needle []) then some [] else none
find needle (c ∷ s) = if is_some (strip_prefix needle (c ∷ s)) then some (c ∷ s) else find needle s

unfoldable pub take_digits : Text → Text
take_digits [] = []
take_digits (c ∷ s) = if is_digit c then c ∷ take_digits s else []

-- `parse::<u32>` on digits: it fails on none, and on a value past the largest.
unfoldable pub parse_u32 : Text → Option ℕ
parse_u32 [] = none
parse_u32 (c ∷ s) = let v = read_digits 0 (c ∷ s) in if ltb v (2 ^ 32) then some v else none

unfoldable pub xid_severity : ℕ → Severity
xid_severity code =
    if code == 45
    then info
    else if code == 43
    then notice
    else if code == 13 || (code == 31)
    then warning
    else if code == 119 || (code == 120)
    then warning
    else if code == 92
    then warning
    else if code == 48 || (code == 63) || (code == 64) || (code == 94) || (code == 95)
    then critical
    else if code == 79
    then critical
    else warning

unfoldable pub xid_of : Text → Option ℕ × Severity
unfolding take_digits parse_u32 xid_severity
xid_of rest = elim (parse_u32 (take_digits (drop 3 rest))) [
  | none ↦ (none, warning)
  | some code ↦ (some code, xid_severity code)
]

unfoldable pub classify_xid : Text → Option ℕ × Severity
unfolding find xid_of
classify_xid msg = elim (find (codes "Xid") msg) [
  | none ↦ (none, warning)
  | some tail ↦ elim (find (codes "): ") tail) [ none ↦ (none, warning) | some rest ↦ xid_of rest ]
]
