-- ===== src/Collectors/Bluetooth/Watch/Latest.antt =====
-- What the newest event of a device says, and what a pass adds to that.
use jamsys.Prelude.{
  ℕ, zero, suc, ◌≡◌, refl, sym, subst, Bool, true, false, not, ◌&&◌, Option, none, some, List, [],
  ◌∷◌, ◌++◌, if◌then◌else◌, drop, inl, inr, Bool-cases, Option-cases, arith, Text, text_eq,
  text_eq_iff, text_is_eq,
}
use jamsys.Prelude.Dict.{Dict, get, insert, get-insert}
use jamsys.Collectors.Snapshot.{BtDevice, BtEvent, BtEventKind, connected, disconnected}
use jamsys.Collectors.Bluetooth.Watch.{is_listed, by_address}

-- What the newest event of this address says.
unfoldable pub latest : Text → List BtEvent → Option BtEventKind
latest a [] = none
latest a (e ∷ es) = elim (latest a es) [
  | some k ↦ some k
  | none ↦ if text_eq e.address a then some e.kind else none
]

-- It says nothing, or what is so.
unfoldable pub tells : Option BtEventKind → Bool → Bool
tells none b = true
tells (some connected) b = b
tells (some disconnected) b = not b

-- BlueZ lists every address once.
unfoldable pub IsUnique : List BtDevice → Type 0
IsUnique [] = Unit
IsUnique (d ∷ ds) = (is_listed d.address ds ≡ false) × IsUnique ds

pub latest-append :
    (a : Text) (es fs : List BtEvent)
    → latest a (es ++ fs) ≡ elim (latest a fs) [ some k ↦ some k | none ↦ latest a es ]
unfolding latest
latest-append a [] fs = elim (Option-cases (latest a fs)) [
  | inl n ↦ rw n refl
  | inr (k, q) ↦ rw q refl
]
latest-append a (e ∷ es) fs = elim (Option-cases (latest a fs)) [
  | inl n ↦ rw (latest-append a es fs, n) refl
  | inr (k, q) ↦ rw (latest-append a es fs, q) refl
]

pub tells-drop :
    (a : Text) (n : ℕ) (b : Bool) (es : List BtEvent)
    → tells (latest a es) b ≡ true
    → tells (latest a (drop n es)) b ≡ true
unfolding latest tells
tells-drop a zero b es h = h
tells-drop a (suc n) b [] h = h
tells-drop a (suc n) b (e ∷ es) h =
    tells-drop a n b es
      (elim (Option-cases (latest a es)) [ inl q ↦ rw q refl | inr (k, q) ↦ ground (arith, h, q) ])

pub get-by_address :
    (a : Text) (ds : List BtDevice) (m : Dict Text BtDevice)
    → is_listed a ds ≡ false
    → get a (by_address ds m) ≡ get a m
unfolding by_address
get-by_address a [] m h = refl
get-by_address a (d ∷ ds) m h =
    ground (arith, h, get-by_address a ds (insert d.address d m), get-insert d.address a d m)

pub differs :
    (k a : Text) (was : Bool) (ds : List BtDevice)
    → (was && not (is_listed k ds)) ≡ true
    → is_listed a ds ≡ true
    → text_eq k a ≡ false
differs k a was ds q h = elim (Bool-cases (text_eq k a)) [
  | inr n ↦ n
  | inl e ↦
      let listed = subst (λ x. is_listed x ds ≡ true) (sym ((text_eq_iff k a).0 e)) h in
      ground (arith, q, listed)
]
