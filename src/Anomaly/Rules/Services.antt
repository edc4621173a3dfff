-- ===== src/Anomaly/Rules/Services.antt =====
-- jamsys-daemon/src/anomaly/rules.rs: `service_rules` and `device_rules`.
use jamsys.Prelude.{
  Bool, not, ◌&&◌, ◌||◌, none, some, List, [], ◌∷◌, ◌++◌, if◌then◌else◌, Text, codes, text_eq,
  is_empty, any, length,
}
use jamsys.Prelude.Decimal.{to_string}
use jamsys.Types.{Alert, new_alert, warning, notice}
use jamsys.Collectors.Snapshot.{Snapshot, SystemdUnit, AudioState}
use jamsys.Anomaly.Rules.{RuleEngine, format, evidence, explained, fire, fire_if, each}

unfoldable pub orphaned : Text → SystemdUnit → Alert
orphaned scope u =
    new_alert (codes "service.orphaned") u.name notice
      (u.name ++ codes " is gone but still listed as failed")
      (explained
        (format (
          codes "The unit "
          ∷ u.name
          ∷ codes
              " no longer exists — its unit file has been removed — but systemd is still holding its last failed result."
          ∷ []))
        (some (codes "removed units to disappear from the failed list")) 0
        (evidence (codes "Load state") u.load_state
          ∷ evidence (codes "Last result") u.sub_state
          ∷ [])
        (some (
          codes
            "the package that provided it was uninstalled while the unit was in a failed state"))
        (format (codes "sudo systemctl " ∷ scope ∷ codes "reset-failed " ∷ u.name ∷ [])
          ∷ codes "Nothing is broken; this only clears the leftover record"
          ∷ []))

unfoldable pub failed : SystemdUnit → Alert
failed u = new_alert (codes "service.failed") u.name warning (u.name ++ codes " has failed") (
    explained (format (codes "The systemd unit " ∷ u.name ∷ codes " is in a failed state." ∷ []))
      (some (codes "active or inactive, not failed")) 0
      (evidence (codes "Description") u.description ∷ evidence (codes "Sub-state") u.sub_state ∷ [])
      none
      (format (codes "systemctl status " ∷ u.name ∷ [])
        ∷ codes "If this unit does not matter to you, use \"Ignore this service\""
        ∷ []))

unfoldable pub audio_down : AudioState → Alert
audio_down a =
    new_alert (codes "audio.service_down") [] warning (codes "Audio services are not running") (
      explained
        (format (
          codes "PipeWire is "
          ∷ a.pipewire
          ∷ codes ", WirePlumber is "
          ∷ a.wireplumber
          ∷ codes ", pipewire-pulse is "
          ∷ a.pipewire_pulse
          ∷ codes "."
          ∷ []))
        (some (codes "both active")) 0
        (evidence (codes "Sound cards detected") (to_string (length a.cards))
          ∷ evidence (codes "Restarts seen") (to_string a.restarts_seen)
          ∷ [])
        none (codes "systemctl --user status pipewire wireplumber" ∷ []))

unfoldable pub missing : Text → Alert
missing device =
    new_alert (codes "device.missing") device warning
      (codes "A device that is normally present has disappeared: " ++ device)
      (explained
        (format
          (device ∷ codes " has been present every time JamSys checked, and is now absent." ∷ []))
        (some (codes "present")) 0 [] none
        (codes "If you removed it deliberately, this will clear itself"
          ∷ codes "If not, a reboot usually re-enumerates internal devices"
          ∷ []))

unfoldable pub blocked : Alert
blocked =
    new_alert (codes "bt.blocked") [] notice (codes "Bluetooth is blocked by a hardware switch") (
      explained (codes "The Bluetooth adapter is hard-blocked via rfkill.")
        (some (codes "unblocked")) 0 [] none
        (codes "Use the hardware switch or function key to re-enable it" ∷ []))

-- An empty answer means that nothing has been observed yet.
unfoldable pub is_down : AudioState → Bool
is_down a =
    (not (is_empty a.pipewire) && not (is_empty a.wireplumber))
    && (not (text_eq a.pipewire (codes "active")) || not (text_eq a.wireplumber (codes "active")))

module _ {ℓ} {F : Type ℓ} where
  unfoldable pub unit_rule : List SystemdUnit → SystemdUnit → RuleEngine F → RuleEngine F
  unfolding orphaned failed
  unit_rule failed_user u e =
      let user = any (λ (x : SystemdUnit). text_eq x.name u.name) failed_user in
      if text_eq u.load_state (codes "not-found")
      then fire (orphaned (if user then codes "--user " else []) u) e
      else fire (failed u) e

  unfoldable pub service_rules : Snapshot F → RuleEngine F → RuleEngine F
  unfolding unit_rule is_down audio_down each
  service_rules s e =
      let units = s.services.failed ++ s.services.failed_user in
      let e = each (unit_rule s.services.failed_user) units e in
      fire_if (is_down s.devices.audio) (audio_down s.devices.audio) e

  unfoldable pub device_rules : Snapshot F → RuleEngine F → RuleEngine F
  unfolding missing blocked each
  device_rules s e =
      let e = each (λ device e'. fire (missing device) e') s.devices.missing_expected e in
      let bt = s.devices.bluetooth in fire_if (bt.present && bt.hard_blocked) blocked e
