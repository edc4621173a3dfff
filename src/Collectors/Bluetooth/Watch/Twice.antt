-- ===== src/Collectors/Bluetooth/Watch/Twice.antt =====
-- A device that BlueZ lists under two adapters.
use jamsys.Prelude.{
  ◌≡◌, refl, sym, subst, Bool, true, false, [], ◌∷◌, text_eq, text_eq_refl, text_is_eq, arith,
}
use jamsys.Prelude.Dict.{get, insert}
use jamsys.Collectors.Snapshot.{BtDevice, BtContext, disconnected}
use jamsys.Collectors.Bluetooth.{attribute}
use jamsys.Collectors.Bluetooth.Watch.{
  Pass, BluetoothCollector, event_of, change_of, changes, forgotten, by_address, noticed,
  enumerated,
}

by_address_twice :
    (idle live : BtDevice)
    → live.address ≡ idle.address
    → by_address (idle ∷ live ∷ []) [] ≡ (live.address, live) ∷ []
unfolding by_address insert
by_address_twice idle live same =
    rw (subst (λ x. text_eq idle.address x ≡ true) (sym same) (text_eq_refl idle.address)) refl

-- Two adapters know a device and the second one is connected to it: then every pass but the first notes a
-- disconnect, though nothing changes.
pub enumerated_twice :
    (p₁ p₂ : Pass) (c : BtContext) (idle live : BtDevice) (powered : Bool) (s : BluetoothCollector)
    → live.address ≡ idle.address
    → idle.connected ≡ false
    → live.connected ≡ true
    → let s' = (enumerated p₁ (idle ∷ live ∷ []) powered s).0 in
      noticed p₂ c (idle ∷ live ∷ []) s' ≡ event_of p₂ c idle disconnected (attribute c) ∷ []
unfolding enumerated noticed changes change_of forgotten get
enumerated_twice p₁ p₂ c idle live powered s same off on =
    let e₁ = subst (λ x. text_eq x idle.address ≡ true) (sym same) (text_eq_refl idle.address) in
    let e₂ = subst (λ x. text_eq idle.address x ≡ true) (sym same) (text_eq_refl idle.address) in
    rw (by_address_twice idle live same)
      (ground (arith, e₁, e₂, text_eq_refl live.address, off, on))
