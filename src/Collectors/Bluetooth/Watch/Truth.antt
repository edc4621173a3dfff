-- ===== src/Collectors/Bluetooth/Watch/Truth.antt =====
-- The newest event of a device tells whether it is connected.
use jamsys.Prelude.{
  ◌-◌, ◌≡◌, refl, subst, Bool, true, false, List, [], ◌∷◌, ◌++◌, length, All, inl, inr, Bool-cases,
  Option-cases, Text, text_is_eq,
}
use jamsys.Collectors.Snapshot.{BtDevice, BtContext, BtEvent}
use jamsys.Collectors.Bluetooth.Watch.{
  Pass, Reply, no_bus, failed, nothing, managed, BluetoothCollector, new, max_events, trimmed,
  was_connected, changes, forgotten, by_address, noticed, enumerated, context_of, collect,
}
use jamsys.Collectors.Bluetooth.Watch.Changes.{Says, latest_of_pass}
use jamsys.Collectors.Bluetooth.Watch.Latest.{latest, tells, IsUnique, latest-append, tells-drop}

said :
    (a : Text) (es fs : List BtEvent) (now was : Bool)
    → Says (latest a fs) now was
    → tells (latest a es) was ≡ true
    → tells (latest a (es ++ fs)) now ≡ true
said a es fs now was (so, same) before = elim (Option-cases (latest a fs)) [
  | inl n ↦ rw (latest-append a es fs, n, same n) before
  | inr (k, q) ↦ rw (latest-append a es fs, q) (subst (λ x. tells x now ≡ true) q so)
]

-- The newest event of every device says whether it is connected, and nothing is noted before the first
-- pass.
record IsTrue (s : BluetoothCollector) : Type 0 where
  fresh : s.primed ≡ false → s.events ≡ []
  told : (a : Text) → tells (latest a s.events) (was_connected a s.last) ≡ true

noticed_told :
    (p : Pass) (c : BtContext) (ds : List BtDevice) (s : BluetoothCollector) (a : Text)
    → IsUnique ds
    → IsTrue s
    → tells (latest a (trimmed (s.events ++ noticed p c ds s))) (was_connected a (by_address ds []))
      ≡ true
unfolding trimmed noticed tells latest
noticed_told p c ds s a u h =
    tells-drop a (length (s.events ++ noticed p c ds s) - max_events)
      (was_connected a (by_address ds [])) (s.events ++ noticed p c ds s)
      (elim (Bool-cases s.primed) [
        | inr q ↦ rw (q, h.fresh q) refl
        | inl q ↦ rw q (
            said a s.events (changes p c s.last ds ++ forgotten p c ds s.last)
              (was_connected a (by_address ds [])) (was_connected a s.last)
              (latest_of_pass p c a s.last ds u) (h.told a))
      ])

enumerated-IsTrue :
    (p : Pass) (ds : List BtDevice) (powered : Bool) (s : BluetoothCollector)
    → IsUnique ds
    → IsTrue s
    → IsTrue (enumerated p ds powered s).0
unfolding enumerated
enumerated-IsTrue p ds powered s u h = record {
  fresh = λ q. cc;
  told = λ a. noticed_told p (context_of p powered s) ds s a u h;
}

-- BlueZ lists every address once, where it answers.
unfoldable pub IsSingle : Reply → Type 0
IsSingle no_bus = Unit
IsSingle (failed e) = Unit
IsSingle nothing = Unit
IsSingle (managed ds powered) = IsUnique ds

collect-IsTrue :
    (p : Pass) (r : Reply) (s : BluetoothCollector)
    → p.reply ≡ r
    → IsSingle r
    → IsTrue s
    → IsTrue (collect p s).0
unfolding collect IsSingle
collect-IsTrue p no_bus s q u h = rw q h
collect-IsTrue p (failed e) s q u h = rw q h
collect-IsTrue p nothing s q u h = rw q h
collect-IsTrue p (managed ds powered) s q u h = rw q (enumerated-IsTrue p ds powered s u h)

unfoldable pub watch : List Pass → BluetoothCollector → BluetoothCollector
watch [] s = s
watch (p ∷ ps) s = watch ps (collect p s).0

watch-IsTrue :
    (ps : List Pass) (s : BluetoothCollector)
    → All (λ p. IsSingle p.reply) ps
    → IsTrue s
    → IsTrue (watch ps s)
unfolding watch
watch-IsTrue [] s u h = h
watch-IsTrue (p ∷ ps) s (here, u) h =
    watch-IsTrue ps (collect p s).0 u (collect-IsTrue p p.reply s refl here h)

-- Whatever BlueZ answers over time, failures included, as long as it lists every address once: the newest
-- event that is kept of a device is a connection if it is connected, and a disconnect if it is not.
pub watch-tells :
    (ps : List Pass) (a : Text)
    → All (λ p. IsSingle p.reply) ps
    → tells (latest a (watch ps new).events) (was_connected a (watch ps new).last) ≡ true
unfolding new latest tells
watch-tells ps a u = (watch-IsTrue ps new u (record { fresh = λ q. refl; told = λ b. refl })).told a
