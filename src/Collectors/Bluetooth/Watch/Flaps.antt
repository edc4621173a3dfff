-- ===== src/Collectors/Bluetooth/Watch/Flaps.antt =====
-- How many disconnects are remembered and counted.
use jamsys.Prelude.{
  ℕ, ◌+◌, ◌-◌, ◌≤◌, ◌≡◌, Bool, ◌&&◌, List, [], ◌∷◌, ◌++◌, leb, length, length-drop, keep_if,
  unwrap_or, inl, inr, Bool-cases, arith, Text, text_eq, text_eq_iff, text_is_eq,
}
use jamsys.Prelude.Dict.{Dict, get, insert, get-insert}
use jamsys.Collectors.Snapshot.{BtDevice, BtEvent}
use jamsys.Collectors.Bluetooth.Watch.{
  Pass, BluetoothCollector, max_events, flap_window_ms, trimmed, is_drop, tally, enumerated,
  noticed, context_of,
}

-- A disconnect of this name in the last fifteen minutes.
abbrev pub counts : ℕ → Text → BtEvent → Bool
counts now name e = leb now (e.at_mono_ms + flap_window_ms) && is_drop e && text_eq e.name name

tally-get :
    (now : ℕ) (name : Text) (es : List BtEvent) (m : Dict Text ℕ)
    → unwrap_or 0 (get name (tally now es m))
      ≡ unwrap_or 0 (get name m) + length (keep_if (counts now name) es)
unfolding tally
tally-get now name [] m = ground arith
tally-get now name (e ∷ es) m =
    elim (Bool-cases (leb now (e.at_mono_ms + flap_window_ms) && is_drop e)) [
      | inr q ↦ ground (arith, q, tally-get now name es m)
      | inl q ↦ ground (
        arith,
        q,
        tally-get now name es (insert e.name (unwrap_or 0 (get e.name m) + 1) m),
        get-insert e.name name (unwrap_or 0 (get e.name m) + 1) m,
        text_eq_iff e.name name,
      )
    ]

tally_all :
    (now : ℕ) (name : Text) (es : List BtEvent)
    → unwrap_or 0 (get name (tally now es [])) ≡ length (keep_if (counts now name) es)
unfolding get
tally_all now name es = ground (arith, tally-get now name es [])

length-trimmed : (es : List BtEvent) → length (trimmed es) ≤ max_events
unfolding trimmed
length-trimmed es = omega (arith, length-drop (length es - max_events) es)

-- A pass leaves at most 32 events, and each name stands with the number of its disconnects among them in
-- the last fifteen minutes.
pub enumerated-counts :
    (p : Pass) (ds : List BtDevice) (powered : Bool) (s : BluetoothCollector) (name : Text)
    → let bt = (enumerated p ds powered s).1 in
      (length bt.events ≤ max_events)
      × (unwrap_or 0 (get name bt.recent_disconnects)
          ≡ length (keep_if (counts p.now name) bt.events))
unfolding enumerated
enumerated-counts p ds powered s name =
    let events = s.events ++ noticed p (context_of p powered s) ds s in
    (length-trimmed events, tally_all p.now name (trimmed events))
