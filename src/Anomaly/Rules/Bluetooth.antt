-- ===== src/Anomaly/Rules/Bluetooth.antt =====
-- jamsys-daemon/src/anomaly/rules.rs: `bluetooth_rules`. The map of disconnects is read in the order of its list.
use jamsys.Prelude.{
  ℕ, ◌+◌, ◌-◌, ◌*◌, ◌/◌, Bool, true, false, not, ◌&&◌, ◌||◌, Option, none, some, List, [], ◌∷◌,
  ◌++◌, ltb, leb, if◌then◌else◌, Text, codes, text_eq, unwrap_or, reverse, text_is_eq,
}
use jamsys.Prelude.Decimal.{to_string}
use jamsys.Prelude.Real.{Real}
use jamsys.Prelude.Dict
use jamsys.Types.{Explanation, Alert, new_alert, warning, notice}
use jamsys.Collectors.Bluetooth.Watch.{flap_window_ms}
use jamsys.Collectors.Snapshot.{BtState, BtEvent, connected, disconnected, BtDevice}
use jamsys.Anomaly.Rules.{RuleEngine, Thresholds, format, evidence, explained, fire_if, each, limit}
use jamsys.Anomaly.Rules.Causes.{radio_phrase}

-- `kind == Disconnected`.
abbrev pub is_drop : BtEvent → Bool
is_drop e = elim e.kind [ connected ↦ false | disconnected ↦ true ]

-- `last_stack_error.or(e.likely_cause)`: what the stack itself said comes first.
unfoldable pub cause_of : BtState → BtEvent → Option Text
cause_of bt e = elim bt.last_stack_error [ none ↦ e.likely_cause | some c ↦ some c ]

unfoldable pub last_drop : Text → List BtEvent → Option BtEvent
last_drop name [] = none
last_drop name (e ∷ earlier) =
    let rest = last_drop name earlier in if text_eq e.name name && is_drop e then some e else rest

unfoldable pub flap_explained : BtState → Text → ℕ → Option BtEvent → Explanation
unfolding cause_of
flap_explained bt name count last =
    let mins = to_string (flap_window_ms / 60_000) in
    let times = format (to_string count ∷ codes " in " ∷ mins ∷ codes " min" ∷ []) in
    explained
      (format (
        name
        ∷ codes " has disconnected "
        ∷ to_string count
        ∷ codes " times in the last "
        ∷ mins
        ∷ codes " minutes."
        ∷ []))
      (some (codes "a stable link stays connected")) 0
      (evidence (codes "Disconnects") times ∷ (elim last [
        | none ↦ []
        | some e ↦ evidence (codes "Radio power state") (radio_phrase e.context) ∷ []
      ]))
      (elim last [ none ↦ none | some e ↦ cause_of bt e ]) bt.risk_notes

unfoldable pub flapping : BtState → Text → ℕ → Alert
unfolding flap_explained last_drop
flapping bt name count =
    new_alert (codes "bluetooth.flapping") name warning (name ++ codes " keeps disconnecting")
      (flap_explained bt name count (last_drop name (reverse bt.events)))

-- A device that is not listed is gone.
unfoldable pub is_gone : Text → List BtDevice → Bool
is_gone address [] = true
is_gone address (v ∷ vs) =
    let rest = is_gone address vs in if text_eq v.address address then not v.connected else rest

no_reason : Text
no_reason =
    codes
      "not observable — the kernel does not expose an HCI disconnect reason to an unprivileged process"

-- A drop in the future counts as one now.
unfoldable pub drop_explained : BtState → ℕ → BtEvent → Explanation
unfolding is_gone cause_of no_reason
drop_explained bt now e =
    let what =
      if is_gone e.address bt.devices
      then codes " disconnected and has not come back."
      else codes " disconnected, then reconnected." in
    let cause = cause_of bt e in
    explained (e.name ++ what) none ((now - e.at_mono_ms) / 1000)
      (evidence (codes "Device") (format (e.name ∷ codes " (" ∷ e.address ∷ codes ")" ∷ []))
        ∷ evidence (codes "Radio power state") (radio_phrase e.context)
        ∷ (elim cause [ none ↦ evidence (codes "Reason") no_reason ∷ [] | some c ↦ [] ]))
      cause bt.risk_notes

unfoldable pub dropped : BtState → ℕ → BtEvent → Alert
unfolding drop_explained
dropped bt now e =
    new_alert (codes "bluetooth.disconnected") e.name notice (e.name ++ codes " disconnected")
      (drop_explained bt now e)

-- Is the drop to be reported: it is recent, and its device is not flapping.
unfoldable pub is_single : BtState → ℕ → ℕ → ℕ → BtEvent → Bool
is_single bt hold_ms flap_min now ev =
    not (not (is_drop ev) || ltb (ev.at_mono_ms + hold_ms) now)
    && not (leb flap_min (unwrap_or 0 (Dict.get ev.name bt.recent_disconnects)))

module _ {ℓ} {F : Type ℓ} where
  unfoldable pub flap_rule : BtState → ℕ → Text × ℕ → RuleEngine F → RuleEngine F
  unfolding flapping
  flap_rule bt flap_min (name, count) e =
      fire_if (not (ltb count flap_min)) (flapping bt name count) e

  unfoldable pub drop_rule : BtState → ℕ → ℕ → ℕ → BtEvent → RuleEngine F → RuleEngine F
  unfolding is_single dropped
  drop_rule bt hold_ms flap_min now ev e =
      fire_if (is_single bt hold_ms flap_min now ev) (dropped bt now ev) e

  unfoldable pub bluetooth_rules :
      ⦃d : Real F⦄ → BtState → Thresholds F → ℕ → RuleEngine F → RuleEngine F
  unfolding flap_rule drop_rule each
  bluetooth_rules ⦃d⦄ bt cfg now e =
      let hold_ms =
        d.trunc (limit cfg (codes "bluetooth.disconnect.hold") (codes "seconds") 120) * 1000 in
      let flap_min = d.trunc (limit cfg (codes "bluetooth.flap.count") (codes "disconnects") 3) in
      if not bt.bluez_available
      then e
      else let e = each (flap_rule bt flap_min) bt.recent_disconnects e in
        each (drop_rule bt hold_ms flap_min now) (reverse bt.events) e
