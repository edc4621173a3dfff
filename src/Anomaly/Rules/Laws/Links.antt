-- ===== src/Anomaly/Rules/Laws/Links.antt =====
-- What firing an alert keeps, the rules on networks, services, devices and Bluetooth keep.
use jamsys.Prelude.{
  ℕ, refl, List, ◌++◌, Text, codes, inl, inr, Bool-cases, reverse, text_eq, nat_is_eq,
}
use jamsys.Prelude.Real.{Real}
use jamsys.Types.{new_alert}
use jamsys.Collectors.Snapshot.{Snapshot, Iface, Reachability, SystemdUnit, BtState, BtEvent}
use jamsys.Anomaly.Rules.{RuleEngine, Thresholds}
use jamsys.Anomaly.Rules.Laws.{
  IsKept, not_empty, either_not_empty, fire_if-kept, fire_held-kept, each-kept,
}
use jamsys.Anomaly.Rules.Network.{
  dropping, iface_rule, no_internet, dns_fail, reach_rules, network_rules,
}
use jamsys.Anomaly.Rules.Services.{
  orphaned, failed, audio_down, missing, blocked, unit_rule, service_rules, device_rules,
}
use jamsys.Anomaly.Rules.Bluetooth.{
  is_gone, flapping, dropped, flap_rule, drop_rule, bluetooth_rules,
}

module _ {ℓ κ} {F : Type ℓ} ⦃d : Real F⦄ {P : RuleEngine F → Type κ} (k : IsKept P) where
  iface_rule-kept :
      (cfg : Thresholds F) (now : ℕ) (i : Iface F) (e : RuleEngine F)
      → P e
      → P (iface_rule cfg now i e)
  unfolding iface_rule dropping new_alert
  iface_rule-kept cfg now i e p = elim (Bool-cases (text_eq i.kind (codes "loopback"))) [
    | inl q ↦ rw q p
    | inr q ↦ rw q (
        fire_held-kept k _ _ now 60 _ e refl
          (λ held. (not_empty i.name _ refl, not_empty i.name _ refl, refl, refl, refl)) p)
  ]

  reach_rules-kept : (r : Reachability) (now : ℕ) (e : RuleEngine F) → P e → P (reach_rules r now e)
  unfolding reach_rules no_internet dns_fail new_alert
  reach_rules-kept r now e p =
      let p1 = fire_held-kept k _ _ now 120 _ e refl (λ held. (refl, refl, refl, refl, refl)) p in
      fire_held-kept k _ _ now 120 _ _ refl (λ held. (refl, refl, refl, refl, refl)) p1

  pub network_rules-kept :
      (s : Snapshot F) (cfg : Thresholds F) (now : ℕ) (e : RuleEngine F)
      → P e
      → P (network_rules s cfg now e)
  unfolding network_rules
  network_rules-kept s cfg now e p =
      reach_rules-kept s.network.reach now _
        (each-kept k _ s.network.ifaces e (iface_rule-kept cfg now) p)

  unit_rule-kept :
      (users : List SystemdUnit) (u : SystemdUnit) (e : RuleEngine F)
      → P e
      → P (unit_rule users u e)
  unfolding unit_rule orphaned failed new_alert
  unit_rule-kept users u e p = elim (Bool-cases (text_eq u.load_state (codes "not-found"))) [
    | inl q ↦ rw q (k.fired _ e (not_empty u.name _ refl, refl, refl, refl, refl) p)
    | inr q ↦ rw q (k.fired _ e (not_empty u.name _ refl, refl, refl, refl, refl) p)
  ]

  pub service_rules-kept : (s : Snapshot F) (e : RuleEngine F) → P e → P (service_rules s e)
  unfolding service_rules audio_down new_alert
  service_rules-kept s e p =
      fire_if-kept k _ (audio_down s.devices.audio) _ (refl, refl, refl, refl, refl)
        (each-kept k _ (s.services.failed ++ s.services.failed_user) e
          (unit_rule-kept s.services.failed_user) p)

  pub device_rules-kept : (s : Snapshot F) (e : RuleEngine F) → P e → P (device_rules s e)
  unfolding device_rules missing blocked new_alert
  device_rules-kept s e p =
      fire_if-kept k _ blocked _ (refl, refl, refl, refl, refl)
        (each-kept k _ s.devices.missing_expected e
          (λ name e' p'.
            k.fired (missing name) e' (refl, not_empty name _ refl, refl, refl, refl) p')
          p)

  flap_rule-kept :
      (bt : BtState) (flap_min : ℕ) (entry : Text × ℕ) (e : RuleEngine F)
      → P e
      → P (flap_rule bt flap_min entry e)
  unfolding flap_rule flapping new_alert
  flap_rule-kept bt flap_min (name, count) e p =
      fire_if-kept k _ (flapping bt name count) e
        (not_empty name _ refl, not_empty name _ refl, refl, refl, refl) p

  drop_rule-kept :
      (bt : BtState) (hold_ms flap_min now : ℕ) (ev : BtEvent) (e : RuleEngine F)
      → P e
      → P (drop_rule bt hold_ms flap_min now ev e)
  unfolding drop_rule dropped new_alert
  drop_rule-kept bt hold_ms flap_min now ev e p =
      fire_if-kept k _ (dropped bt now ev) e
        (
          not_empty ev.name _ refl,
          not_empty ev.name _ (either_not_empty (is_gone ev.address bt.devices) _ _ refl refl),
          refl,
          refl,
          refl,
        )
        p

  pub bluetooth_rules-kept :
      (bt : BtState) (cfg : Thresholds F) (now : ℕ) (e : RuleEngine F)
      → P e
      → P (bluetooth_rules bt cfg now e)
  unfolding bluetooth_rules
  bluetooth_rules-kept bt cfg now e p = elim (Bool-cases bt.bluez_available) [
    | inr q ↦ rw q p
    | inl q ↦ rw q (
        each-kept k _ (reverse bt.events) _ (drop_rule-kept bt _ _ now)
          (each-kept k _ bt.recent_disconnects e (flap_rule-kept bt _) p))
  ]
