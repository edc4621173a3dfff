-- ===== src/Journal/Dedup/Laws.antt =====
-- Nothing that is held back goes uncounted.
use jamsys.Prelude.{
  ℕ, ◌+◌, ◌%◌, ◌≤◌, ◌<◌, ◌≡◌, refl, Bool, true, false, not, ◌||◌, Option, none, some, List, [], ◌∷◌,
  ltb, if◌then◌else◌, Text, text_eq, text_eq_iff, text_eq_refl, text_is_eq, inl, inr, Bool-cases,
  Option-cases, All, arith,
}
use jamsys.Prelude.Dict
use jamsys.Prelude.Dict.{get-insert, get-insert_self}
use jamsys.Journal.Dedup.{Deduper, admit, u32_mod}

-- The messages that arrive, each with its key and time, and what came of those of one key.
unfoldable pub admits : Text → List (Text × ℕ) → Deduper → Deduper × List (Option ℕ)
admits key [] d = (d, [])
admits key ((k, now) ∷ os) d =
    let (next, answer) = admit k now d in
    let (end, answers) = admits key os next in
    (end, if text_eq k key then answer ∷ answers else answers)

unfoldable pub count_key : Text → List (Text × ℕ) → ℕ
count_key key [] = 0
count_key key ((k, now) ∷ os) = (if text_eq k key then 1 else 0) + count_key key os

-- What the answers account for: a message let through stands for itself and those it reports.
unfoldable pub reported : List (Option ℕ) → ℕ
reported [] = 0
reported (none ∷ rest) = reported rest
reported (some n ∷ rest) = n + 1 + reported rest

abbrev pub pending : Option (ℕ × ℕ) → ℕ
pending none = 0
pending (some (last, n)) = n

admit-other :
    (k key : Text) (now : ℕ) (d : Deduper)
    → text_eq k key ≡ false
    → Dict.get key (admit k now d).0.seen ≡ Dict.get key d.seen
unfolding admit
admit-other k key now d h = elim (Option-cases (Dict.get k d.seen)) [
  | inl e ↦ ground (arith, get-insert k key (now, 0) d.seen)
  | inr ((last, n), e) ↦
      ground
        (arith, get-insert k key (now, 0) d.seen, get-insert k key (last, (n + 1) % u32_mod) d.seen)
]

admit-pending :
    (key : Text) (now : ℕ) (d : Deduper)
    → pending (Dict.get key d.seen) + 1 < u32_mod
    → pending (Dict.get key (admit key now d).0.seen) + reported ((admit key now d).1 ∷ [])
      ≡ pending (Dict.get key d.seen) + 1
unfolding admit reported
admit-pending key now d small = elim (Option-cases (Dict.get key d.seen)) [
  | inl e ↦ ground (arith, get-insert_self key (now, 0) d.seen)
  | inr ((last, n), e) ↦ ground (
    arith,
    get-insert_self key (now, 0) d.seen,
    get-insert_self key (last, (n + 1) % u32_mod) d.seen,
  )
]

-- One message: what it moves between the pending count and the answers.
admit_moves :
    (k key : Text) (now : ℕ) (d : Deduper)
    → pending (Dict.get key d.seen) + 1 < u32_mod
    → pending (Dict.get key (admit k now d).0.seen)
        + (if text_eq k key then reported ((admit k now d).1 ∷ []) else 0)
      ≡ pending (Dict.get key d.seen) + (if text_eq k key then 1 else 0)
admit_moves k key now d small = elim (Bool-cases (text_eq k key)) [
  | inl e ↦
      let same : k ≡ key = (text_eq_iff k key).0 e in
      rw (same, text_eq_refl key) (admit-pending key now d small)
  | inr e ↦ ground (arith, admit-other k key now d e)
]

reported-cons :
    (a : Option ℕ) (rest : List (Option ℕ))
    → reported (a ∷ rest) ≡ reported (a ∷ []) + reported rest
unfolding reported
reported-cons none rest = omega arith
reported-cons (some n) rest = omega arith

-- However the messages of any keys arrive, those of one key are all accounted for: each was let
-- through, or is in a count that was reported, or is in the count that is pending. There are fewer
-- than 2^32 of them.
pub admits_account :
    (key : Text) (os : List (Text × ℕ)) (d : Deduper)
    → pending (Dict.get key d.seen) + count_key key os < u32_mod
    → reported (admits key os d).1 + pending (Dict.get key (admits key os d).0.seen)
      ≡ pending (Dict.get key d.seen) + count_key key os
unfolding admits count_key reported
admits_account key [] d small = omega arith
admits_account key ((k, now) ∷ os) d small = elim (Bool-cases (text_eq k key)) [
  | inl e ↦
      let move = admit_moves k key now d (ground arith) in
      let rest = admits_account key os (admit k now d).0 (ground (arith, move)) in
      ground
        (arith, move, rest, reported-cons (admit k now d).1 (admits key os (admit k now d).0).1)
  | inr e ↦
      let same = admit-other k key now d e in
      let rest = admits_account key os (admit k now d).0 (ground (arith, same)) in
      ground (arith, same, rest)
]

-- Every message of the key comes within the window that opened at `t`.
abbrev pub within : Text → ℕ → ℕ → Text × ℕ → Bool
within key t window o = not (text_eq o.0 key) || ltb o.1 (t + window)

admit-held :
    (k key : Text) (now t n window : ℕ) (d : Deduper)
    → d.window_ms ≡ window
    → Dict.get key d.seen ≡ some (t, n)
    → within key t window (k, now) ≡ true
    → n + 1 < u32_mod
    → (Dict.get key (admit k now d).0.seen ≡ some (t, n + (if text_eq k key then 1 else 0)))
      × ((admit k now d).0.window_ms ≡ window)
      × ((if text_eq k key then (admit k now d).1 else none) ≡ none)
unfolding admit
admit-held k key now t n window d wide h w small = elim (Bool-cases (text_eq k key)) [
  | inl e ↦
      let same : k ≡ key = (text_eq_iff k key).0 e in
      ground (arith, same, get-insert_self key (t, (n + 1) % u32_mod) d.seen)
  | inr e ↦ (ground (arith, admit-other k key now d e), ground arith, ground arith)
]

admits-held :
    (key : Text) (t n window : ℕ) (os : List (Text × ℕ)) (d : Deduper)
    → d.window_ms ≡ window
    → Dict.get key d.seen ≡ some (t, n)
    → All (λ o. within key t window o ≡ true) os
    → n + count_key key os + 1 < u32_mod
    → (Dict.get key (admits key os d).0.seen ≡ some (t, n + count_key key os))
      × ((admits key os d).0.window_ms ≡ window)
      × (reported (admits key os d).1 ≡ 0)
unfolding admits count_key reported
admits-held key t n window [] d wide h w small = (ground (arith, h), wide, refl)
admits-held key t n window ((k, now) ∷ os) d wide h w small =
    let (found, same, held) = admit-held k key now t n window d wide h w.0 (ground arith) in
    elim (Bool-cases (text_eq k key)) [
      | inl e ↦
          let (a, b, c) =
            admits-held key t (n + 1) window os (admit k now d).0 same (ground (arith, found)) w.1
              (ground arith) in
          (ground (arith, a), b, ground (arith, c, held))
      | inr e ↦
          let (a, b, c) =
            admits-held key t n window os (admit k now d).0 same (ground (arith, found)) w.1
              (ground arith) in
          (ground (arith, a), b, ground (arith, c))
    ]

admit-opens :
    (key : Text) (t n : ℕ) (d : Deduper)
    → (admit key t d).1 ≡ some n
    → (Dict.get key (admit key t d).0.seen ≡ some (t, 0))
      × ((admit key t d).0.window_ms ≡ d.window_ms)
unfolding admit
admit-opens key t n d through = ground (arith, get-insert_self key (t, 0) d.seen)

-- Once a message is let through, every further one of its key within the window is held back, among
-- any others, and the first that comes after the window is let through with their exact number. There
-- are fewer of them than 2^32 - 1.
admit_after_burst :
    (key : Text) (t later n : ℕ) (os : List (Text × ℕ)) (d : Deduper)
    → (admit key t d).1 ≡ some n
    → All (λ o. within key t d.window_ms o ≡ true) os
    → count_key key os + 1 < u32_mod
    → t + d.window_ms ≤ later
    → let burst = admits key os (admit key t d).0 in
      (reported burst.1 ≡ 0) × ((admit key later burst.0).1 ≡ some (count_key key os))
unfolding admit
admit_after_burst key t later n os d through w small late =
    let opened = admit-opens key t n d through in
    let (a, b, c) =
      admits-held key t 0 d.window_ms os (admit key t d).0 opened.1 opened.0 w
        (omega (arith, small)) in
    (c, ground (arith, a, b, late))
