-- ===== src/Collectors/Bluetooth/Watch/Tests.antt =====
-- Headphones that drop.
use jamsys.Prelude.{
  ◌≤◌, ◌≡◌, refl, true, false, List, [], ◌∷◌, length, keep_if, unwrap_or, codes, text_eq,
  text_is_eq,
}
use jamsys.Prelude.Dict.{get, insert}
use jamsys.Collectors.Snapshot.{BtContext, disconnected}
use jamsys.Collectors.Bluetooth.{attribute}
use jamsys.Collectors.Bluetooth.Watch.{
  Pass, Reply, managed, no_bus, BluetoothCollector, new, event_of, noticed, enumerated, context_of,
  max_events, collect, by_address,
}
use jamsys.Collectors.Bluetooth.Watch.Samples.{mac, phones, pass}
use jamsys.Collectors.Bluetooth.Watch.Latest.{latest, tells, IsUnique}
use jamsys.Collectors.Bluetooth.Watch.Truth.{watch, IsSingle, watch-tells}
use jamsys.Collectors.Bluetooth.Watch.Flaps.{counts, enumerated-counts}
use jamsys.Collectors.Bluetooth.Watch.Twice.{enumerated_twice}

abbrev passes : List Pass
passes =
    pass 1_000 (managed (phones true ∷ []) true)
    ∷ pass 2_000 no_bus
    ∷ pass 3_000 (managed (phones false ∷ []) true)
    ∷ []

watch-tells_example : tells (latest mac (watch passes new).events) false ≡ true
unfolding IsSingle IsUnique watch collect enumerated get insert text_eq new by_address
watch-tells_example = watch-tells passes mac ((refl, tt), (tt, ((refl, tt), tt)))

abbrev dropped : BluetoothCollector
dropped = (watch passes new)

enumerated-counts_example :
    (length (enumerated (pass 4_000 no_bus) (phones true ∷ []) true dropped).1.events ≤ max_events)
    × (unwrap_or 0 (
          get
            (codes "AXR100")
            (enumerated (pass 4_000 no_bus) (phones true ∷ []) true dropped).1.recent_disconnects)
        ≡ length (
            keep_if
              (counts 4_000 (codes "AXR100"))
              (enumerated (pass 4_000 no_bus) (phones true ∷ []) true dropped).1.events))
enumerated-counts_example =
    enumerated-counts (pass 4_000 no_bus) (phones true ∷ []) true dropped (codes "AXR100")

abbrev twice : Reply
twice = managed (phones false ∷ phones true ∷ []) true

abbrev ctx : BtContext
ctx = context_of (pass 2_000 twice) true new

enumerated_twice_example :
    noticed
      (pass 2_000 twice)
      ctx
      (phones false ∷ phones true ∷ [])
      (enumerated (pass 1_000 twice) (phones false ∷ phones true ∷ []) true new).0
    ≡ event_of (pass 2_000 twice) ctx (phones false) disconnected (attribute ctx) ∷ []
enumerated_twice_example =
    enumerated_twice (pass 1_000 twice) (pass 2_000 twice) ctx (phones false) (phones true) true new
      refl refl refl
