-- ===== src/Collectors/Bluetooth/Watch/Changes.antt =====
-- What a pass adds to the newest events.
use jamsys.Prelude.{
  ◌≡◌, ◌⊎◌, refl, sym, ap, subst, Bool, true, false, not, ◌&&◌, Option, none, some, List, [], ◌∷◌,
  ◌++◌, inl, inr, Bool-cases, Option-cases, arith, Text, text_eq, text_eq_iff, text_is_eq,
}
use jamsys.Prelude.Dict.{Dict, get, insert, get-insert}
use jamsys.Collectors.Snapshot.{BtDevice, BtContext, BtEventKind, disconnected}
use jamsys.Collectors.Bluetooth.Watch.{
  Pass, was_connected, event_of, change_of, changes, is_listed, forgotten, by_address,
}
use jamsys.Collectors.Bluetooth.Watch.Latest.{
  latest, tells, IsUnique, latest-append, get-by_address, differs,
}

-- What the newest event says is so now, and without one nothing has changed.
abbrev pub Says : Option BtEventKind → Bool → Bool → Type 0
Says l now was = (tells l now ≡ true) × ((l ≡ none) → now ≡ was)

gone_off :
    (a : Text) (ds : List BtDevice)
    → is_listed a ds ≡ false
    → was_connected a (by_address ds []) ≡ false
unfolding get
gone_off a ds h = ground (arith, get-by_address a ds [] h)

module _ (p : Pass) (c : BtContext) where
  latest-change_of :
      (a : Text) (last : Dict Text BtDevice) (d : BtDevice)
      → text_eq d.address a ≡ false
      → latest a (change_of p c last d) ≡ none
  unfolding latest change_of event_of
  latest-change_of a last d h = ground (arith, h)

  latest-change_of_self :
      (a : Text) (last : Dict Text BtDevice) (d : BtDevice)
      → text_eq d.address a ≡ true
      → Says (latest a (change_of p c last d)) d.connected (was_connected a last)
  unfolding latest change_of event_of tells
  latest-change_of_self a last d e =
      let same = ap (λ x. was_connected x last) ((text_eq_iff d.address a).0 e) in
      ground (arith, e, same)

  latest-changes_unlisted :
      (a : Text) (last : Dict Text BtDevice) (ds : List BtDevice)
      → is_listed a ds ≡ false
      → latest a (changes p c last ds) ≡ none
  unfolding latest changes
  latest-changes_unlisted a last [] h = refl
  latest-changes_unlisted a last (d ∷ ds) h =
      rw
        (
          latest-append a (change_of p c last d) (changes p c last ds),
          latest-changes_unlisted a last ds (ground (arith, h)),
          latest-change_of a last d (ground (arith, h)),
        )
        refl

  latest-forgotten_listed :
      (a : Text) (ds : List BtDevice) (m : Dict Text BtDevice)
      → is_listed a ds ≡ true
      → latest a (forgotten p c ds m) ≡ none
  unfolding latest forgotten
  latest-forgotten_listed a ds [] h = refl
  latest-forgotten_listed a ds ((k, prev) ∷ m) h =
      elim (Bool-cases (prev.connected && not (is_listed k ds))) [
        | inr q ↦ rw q (latest-forgotten_listed a ds m h)
        | inl q ↦ rw (q, latest-forgotten_listed a ds m h, differs k a prev.connected ds q h) refl
      ]

  -- A device that is gone and has no event was not connected.
  latest-forgotten :
      (a : Text) (ds : List BtDevice) (m : Dict Text BtDevice)
      → is_listed a ds ≡ false
      → (latest a (forgotten p c ds m) ≡ some disconnected)
        ⊎ ((latest a (forgotten p c ds m) ≡ none) × (was_connected a m ≡ false))
  unfolding latest forgotten get
  latest-forgotten a ds [] h = inr (refl, refl)
  latest-forgotten a ds ((k, prev) ∷ m) h = elim (latest-forgotten a ds m h) [
    | inl s ↦ inl (elim (Bool-cases (prev.connected && not (is_listed k ds))) [
      | inr q ↦ rw (q, s) refl
      | inl q ↦ rw (q, s) refl
    ])
    | inr (n, w) ↦ elim (Bool-cases (text_eq k a)) [
      | inr e ↦ inr (
        elim (Bool-cases (prev.connected && not (is_listed k ds))) [
          | inr q ↦ rw (q, n) refl
          | inl q ↦ rw (q, n, e) refl
        ],
        ground (arith, e, w),
      )
      | inl e ↦
          let unlisted = subst (λ x. is_listed x ds ≡ false) (sym ((text_eq_iff k a).0 e)) h in
          elim (Bool-cases prev.connected) [
            | inl up ↦ inl (rw (up, unlisted, n, e) refl)
            | inr down ↦ inr (rw (down, n) refl, ground (arith, e, down))
          ]
    ]
  ]

  -- A device that is listed has an event if its connection changed, which says what it is now.
  latest-changes :
      (a : Text) (last m : Dict Text BtDevice) (ds : List BtDevice)
      → IsUnique ds
      → is_listed a ds ≡ true
      → Says
          (latest a (changes p c last ds))
          (was_connected a (by_address ds m))
          (was_connected a last)
  unfolding changes IsUnique by_address
  latest-changes a last m [] u h = cc
  latest-changes a last m (d ∷ ds) (once, u) h = elim (Bool-cases (text_eq d.address a)) [
    | inr e ↦
        let l : latest a (changes p c last ds) ≡ latest a (changes p c last (d ∷ ds)) =
          elim (Option-cases (latest a (changes p c last ds))) [
            | inl n ↦
                rw
                  (
                    latest-append a (change_of p c last d) (changes p c last ds),
                    n,
                    latest-change_of a last d e,
                  )
                  refl
            | inr (k, q) ↦ rw (latest-append a (change_of p c last d) (changes p c last ds), q) refl
          ] in
        let ih = latest-changes a last (insert d.address d m) ds u (ground (arith, h, e)) in
        subst
          (λ x.
            Says x (was_connected a (by_address ds (insert d.address d m))) (was_connected a last))
          l ih
    | inl e ↦
        let unlisted = subst (λ x. is_listed x ds ≡ false) ((text_eq_iff d.address a).0 e) once in
        let now : d.connected ≡ was_connected a (by_address ds (insert d.address d m)) = ground (
          arith,
          get-by_address a ds (insert d.address d m) unlisted,
          get-insert d.address a d m,
          e,
        ) in
        let l : latest a (change_of p c last d) ≡ latest a (changes p c last (d ∷ ds)) =
          rw
            (
              latest-append a (change_of p c last d) (changes p c last ds),
              latest-changes_unlisted a last ds unlisted,
            )
            refl in
        subst
          (λ x.
            Says x (was_connected a (by_address ds (insert d.address d m))) (was_connected a last))
          l
          (subst (λ x. Says (latest a (change_of p c last d)) x (was_connected a last)) now
            (latest-change_of_self a last d e))
  ]

  pub latest_of_pass :
      (a : Text) (last : Dict Text BtDevice) (ds : List BtDevice)
      → IsUnique ds
      → Says
          (latest a (changes p c last ds ++ forgotten p c ds last))
          (was_connected a (by_address ds []))
          (was_connected a last)
  unfolding tells
  latest_of_pass a last ds u = elim (Bool-cases (is_listed a ds)) [
    | inl h ↦
        let same : latest a (changes p c last ds)
            ≡ latest a (changes p c last ds ++ forgotten p c ds last) =
          rw
            (
              latest-append a (changes p c last ds) (forgotten p c ds last),
              latest-forgotten_listed a ds last h,
            )
            refl in
        subst (λ x. Says x (was_connected a (by_address ds [])) (was_connected a last)) same
          (latest-changes a last [] ds u h)
    | inr h ↦
        let off : was_connected a (by_address ds []) ≡ false = gone_off a ds h in
        elim (latest-forgotten a ds last h) [
          | inl q ↦
              let is : latest a (changes p c last ds ++ forgotten p c ds last) ≡ some disconnected =
                rw (latest-append a (changes p c last ds) (forgotten p c ds last), q) refl in
              rw (is, off) (refl, λ e. cc)
          | inr (q, w) ↦
              let is : latest a (changes p c last ds ++ forgotten p c ds last) ≡ none =
                rw (latest-append a (changes p c last ds) (forgotten p c ds last), q)
                  (latest-changes_unlisted a last ds h) in
              rw (is, off, w) (refl, λ e. refl)
        ]
  ]
