-- ===== src/Collectors/Bluetooth.antt =====
-- jamsys-daemon/src/collectors/bluetooth.rs: the causes that a disconnect is put down to.
pub mod Watch
use jamsys.Prelude.{
  Bool, true, false, not, ◌&&◌, ◌||◌, Option, none, some, List, [], ◌∷◌, ◌++◌, if◌then◌else◌, Text,
  codes, text_eq, contains,
}
use jamsys.Util.Glob.{to_ascii_lowercase}
use jamsys.Collectors.Snapshot.{BtContext}

-- `== Some(true)`.
abbrev pub is_yes : Option Bool → Bool
is_yes none = false
is_yes (some b) = b

-- By confidence: facts first, then a correlation, then a hypothesis that is worded as one.
unfoldable pub attribute : BtContext → Option Text
attribute c =
    if c.rfkill_hard
    then some (codes "the Bluetooth radio is hard-blocked (airplane mode or the radio switch)")
    else if c.rfkill_soft
    then some (codes "the Bluetooth radio is soft-blocked (turned off in software)")
    else if not c.adapter_powered
    then some (codes "the adapter was powered down")
    else if c.just_resumed
    then some (codes "the machine had just resumed from suspend")
    else if c.bluetoothd_restarted
    then some (codes "the Bluetooth service restarted")
    else if c.radio_suspended_recently || text_eq c.radio_runtime_status (codes "suspended")
    then some (
        codes
          "the radio was USB-autosuspended around the drop — a known cause of dropouts on Realtek combo adapters")
    else if text_eq c.radio_power_control (codes "auto") && is_yes c.wifi_runtime_pm
    then some (
        codes
          "possibly Wi-Fi/Bluetooth coexistence: both radios are allowed to power-manage themselves. Not confirmed — the kernel does not expose a disconnect reason to an unprivileged process")
    else none

unfoldable pub risk_notes : BtContext → List Text
risk_notes c =
    (if text_eq c.radio_power_control (codes "auto")
      then codes
          "USB autosuspend is enabled on the Bluetooth radio (power/control = auto). This is a common cause of audio dropouts."
        ∷ []
      else [])
    ++ (if is_yes c.wifi_runtime_pm
        then codes
            "The wireless device is allowed to runtime-suspend. On a combo Wi-Fi/Bluetooth chip this adds coexistence pressure and can interrupt audio. Check 802.11 power save too: iw dev <iface> get power_save"
          ∷ []
        else [])

-- The first of these that the line says.
abbrev has_any : List Text → Text → Bool
has_any [] m = false
has_any (p ∷ ps) m = contains p m || has_any ps m

unfoldable pub translate_stack_error : Text → Option Text
unfolding to_ascii_lowercase contains
translate_stack_error msg =
    let m = to_ascii_lowercase msg in
    if not (has_any (codes "avdtp" ∷ codes "a2dp" ∷ codes "connect" ∷ codes "bluetooth" ∷ []) m)
    then none
    else if contains (codes "host is down") m
    then some
        (codes "the device is not responding — it is probably switched off, asleep or out of range")
    else if has_any (codes "page-timeout" ∷ codes "page timeout" ∷ []) m
    then some (
        codes
          "the device did not answer the connection attempt (page timeout) — switch it off and on again to wake its radio")
    else if contains (codes "connection refused") m
    then some (codes "the device refused the connection — it may be connected to something else")
    else if has_any (codes "connection timeout" ∷ codes "timed out" ∷ []) m
    then some (codes "the connection timed out")
    else if has_any (codes "protocol not available" ∷ codes "unable to get" ∷ []) m
    then some (codes "the device did not offer the audio profile BlueZ expected")
    else none
