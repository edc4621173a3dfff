-- ===== src/Anomaly/Dwell/Laws.antt =====
-- A condition fires once it has been true all along for the required time, and not before.
use jamsys.Prelude.{
  ℕ, ◌-◌, ◌*◌, ◌/◌, ◌≤◌, ◌≡◌, refl, Bool, true, false, not, ◌&&◌, ◌||◌, Option, none, some, List,
  [], ◌∷◌, ltb, leb, if◌then◌else◌, Text, text_eq, text_eq_iff, text_eq_refl, text_is_eq, unwrap_or,
  All, arith,
}
use jamsys.Prelude.Dict
use jamsys.Prelude.Dict.{get-insert, get-remove}
use jamsys.Anomaly.Dwell.{DwellTracker, update}

-- One call of `update`.
pub record Observation : Type 0 where
  pub key : Text
  pub condition : Bool
  pub now : ℕ
  pub required : ℕ

unfoldable pub observe : List Observation → DwellTracker → DwellTracker
observe [] since = since
observe (o ∷ os) since = observe os (update o.key o.condition o.now o.required since).0

-- What a call leaves for a key.
unfoldable pub since_after : Text → Bool → ℕ → Option ℕ → Option ℕ
since_after key false now start = none
since_after key true now start =
    if ltb now (unwrap_or now start) then some now else some (unwrap_or now start)

pub get-update :
    (key other : Text) (condition : Bool) (now required : ℕ) (since : DwellTracker)
    → Dict.get other (update key condition now required since).0 ≡ (
        if text_eq key other
        then since_after key condition now (Dict.get key since)
        else Dict.get other since)
unfolding update since_after
get-update key other false now required since = get-remove key other since
get-update key other true now required since =
    let start = unwrap_or now (Dict.get key since) in
    ground (
      arith,
      get-insert key other start since,
      get-insert key other now (Dict.insert key start since),
    )

-- Every observation of the key finds its condition true, none before `start`.
abbrev pub steady : Text → ℕ → Observation → Bool
steady key start o = not (text_eq o.key key) || (o.condition && leb start o.now)

observe-steady :
    (key : Text) (start : ℕ) (os : List Observation) (since : DwellTracker)
    → All (λ o. steady key start o ≡ true) os
    → Dict.get key since ≡ some start
    → Dict.get key (observe os since) ≡ some start
unfolding observe since_after
observe-steady key start [] since s h = h
observe-steady key start (o ∷ os) since s h =
    observe-steady key start os (update o.key o.condition o.now o.required since).0 s.1 (
      ground (
        arith,
        get-update o.key key o.condition o.now o.required since,
        s.0,
        text_eq_iff o.key key,
      ))

-- A condition that becomes true at `start` and is found true by every observation of its key until
-- `now`, among any observations of others, fires with the seconds since `start` if they reach the
-- requirement, and not otherwise.
update-steady :
    (key : Text) (start now first required : ℕ) (os : List Observation) (since : DwellTracker)
    → Dict.get key since ≡ none
    → All (λ o. steady key start o ≡ true) os
    → start ≤ now
    → let held = (now - start) / 1000 in
      (update key true now required (observe os (update key true start first since).0)).1
      ≡ (if leb required held then some held else none)
unfolding update since_after
update-steady key start now first required os since fresh s le =
    let began : Dict.get key (update key true start first since).0 ≡ some start =
      ground (arith, get-update key key true start first since, text_eq_refl key) in
    let kept = observe-steady key start os (update key true start first since).0 s began in
    rw kept (ground arith)

-- The key's start lies at or after `floor`.
abbrev from : ℕ → Option ℕ → Bool
from floor none = true
from floor (some s) = leb floor s

observe-from :
    (key : Text) (floor : ℕ) (os : List Observation) (since : DwellTracker)
    → All (λ o. floor ≤ o.now) os
    → from floor (Dict.get key since) ≡ true
    → from floor (Dict.get key (observe os since)) ≡ true
unfolding observe since_after
observe-from key floor [] since s h = h
observe-from key floor (o ∷ os) since s h =
    observe-from key floor os (update o.key o.condition o.now o.required since).0 s.1 (
      ground (
        arith,
        get-update o.key key o.condition o.now o.required since,
        s.0,
        text_eq_iff o.key key,
      ))

-- A condition found false at some time counts from there at the earliest: a later call that fires has
-- met its requirement, and the time it reports is not longer than what has gone by since.
update-false :
    (key : Text) (broken now first required held : ℕ) (os : List Observation) (since : DwellTracker)
    → All (λ o. broken ≤ o.now) os
    → broken ≤ now
    → (update key true now required (observe os (update key false broken first since).0)).1
      ≡ some held
    → (required ≤ held) × (held * 1000 ≤ now - broken)
unfolding update since_after
update-false key broken now first required held os since s le fires =
    let gone : Dict.get key (update key false broken first since).0 ≡ none =
      ground (arith, get-update key key false broken first since, text_eq_refl key) in
    let bound =
      observe-from key broken os (update key false broken first since).0 s (rw gone refl) in
    ground (arith, fires, bound)
