-- ===== src/Anomaly/Rules/Drops/Noticed.antt =====
-- From a device that is found disconnected to the alert.
use mathlib.Core.List.{Memᴰ}
use mathlib.Core.List.Memᴰ
use jamsys.Prelude.{
  ℕ, zero, suc, ◌+◌, ◌-◌, ◌≤◌, ◌≡◌, refl, sym, ap, subst, Bool, true, false, List, [], ◌∷◌, ◌++◌,
  length, length-append, drop, is_empty, arith, Text, text_is_eq,
}
use jamsys.Prelude.Dict.{Dict}
use jamsys.Prelude.Real.{Real}
use jamsys.Types.Context.{Context}
use jamsys.Collectors.Snapshot.{Snapshot, BtDevice, BtContext, BtEvent, disconnected}
use jamsys.Collectors.Bluetooth.{attribute}
use jamsys.Collectors.Bluetooth.Watch.{
  Pass, BluetoothCollector, label, max_events, was_connected, event_of, change_of, changes,
  forgotten, noticed, trimmed, context_of, enumerated,
}
use jamsys.Anomaly.Rules.{RuleEngine, Thresholds}
use jamsys.Anomaly.Rules.Evaluation.{evaluate}
use jamsys.Anomaly.Rules.Drops.{IsReported, evaluate-drop, hold_ms, flap_min}

drop-Memᴰ {ℓ} :
    {A : Type ℓ} (a : A) (n : ℕ) (xs ys : List A)
    → n ≤ length xs
    → Memᴰ a ys
    → Memᴰ a (drop n (xs ++ ys))
drop-Memᴰ a zero xs ys le m = Memᴰ.append_right xs m
drop-Memᴰ a (suc n) [] ys le m = absurd (omega (arith, le))
drop-Memᴰ a (suc n) (x ∷ xs) ys le m = drop-Memᴰ a n xs ys (omega (arith, le)) m

trimmed-Memᴰ :
    (e : BtEvent) (es fs : List BtEvent)
    → length fs ≤ max_events
    → Memᴰ e fs
    → Memᴰ e (trimmed (es ++ fs))
unfolding trimmed
trimmed-Memᴰ e es fs few m =
    drop-Memᴰ e (length (es ++ fs) - max_events) es fs (omega (arith, few, length-append es fs)) m

change_of-drop :
    (p : Pass) (c : BtContext) (last : Dict Text BtDevice) (v : BtDevice)
    → v.connected ≡ false
    → was_connected v.address last ≡ true
    → change_of p c last v ≡ event_of p c v disconnected (attribute c) ∷ []
unfolding change_of
change_of-drop p c last v off was = rw (off, was) refl

changes-drop :
    (p : Pass) (c : BtContext) (last : Dict Text BtDevice) (v : BtDevice) (ds : List BtDevice)
    → Memᴰ v ds
    → v.connected ≡ false
    → was_connected v.address last ≡ true
    → Memᴰ (event_of p c v disconnected (attribute c)) (changes p c last ds)
unfolding changes
changes-drop p c last v [] m off was = elim m [ ]
changes-drop p c last v (x ∷ ds) (Memᴰ.head q) off was =
    subst
      (λ y.
        Memᴰ (event_of p c v disconnected (attribute c))
          (change_of p c last y ++ changes p c last ds))
      q (rw (change_of-drop p c last v off was) (Memᴰ.head refl))
changes-drop p c last v (x ∷ ds) (Memᴰ.tail m) off was =
    Memᴰ.append_right (change_of p c last x) (changes-drop p c last v ds m off was)

-- A device that a pass finds disconnected, and that the one before found connected, is reported by every
-- evaluation of what the pass leaves, until the time for which a disconnect is reported is over: as one
-- disconnect or as flapping, if that takes one at least. No more than 32 devices may change at once.
pub evaluate-noticed {ℓ} :
    {F : Type ℓ} ⦃d : Real F⦄ (p : Pass) (v : BtDevice) (ds : List BtDevice) (powered : Bool)
    (w : BluetoothCollector) (s : Snapshot F) (cfg : Thresholds F) (ctx : Context) (now : ℕ)
    (e : RuleEngine F)
    → s.bluetooth ≡ (enumerated p ds powered w).1
    → w.primed ≡ true
    → Memᴰ v ds
    → v.connected ≡ false
    → was_connected v.address w.last ≡ true
    → is_empty (label v) ≡ false
    → length (noticed p (context_of p powered w) ds w) ≤ max_events
    → now ≤ p.now + hold_ms cfg
    → 1 ≤ flap_min cfg
    → IsReported (label v) (evaluate s cfg ctx now e)
unfolding enumerated noticed event_of
evaluate-noticed p v ds powered w s cfg ctx now e is primed m off was named few soon least =
    let c = context_of p powered w in
    let ev = event_of p c v disconnected (attribute c) in
    let held : Memᴰ ev s.bluetooth.events =
      subst (λ b. Memᴰ ev b.events) (sym is)
        (trimmed-Memᴰ ev w.events (noticed p c ds w) few (
          rw primed (
            Memᴰ.append_left (forgotten p c ds w.last)
              (changes-drop p c w.last v ds m off was)))) in
    evaluate-drop s cfg ctx now e ev (ap (λ b. b.bluez_available) is) held refl named soon least
