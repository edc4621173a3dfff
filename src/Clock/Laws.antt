-- ===== src/Clock/Laws.antt =====
-- The events together account for the time that the machine slept.
use jamsys.Prelude.{
  ℕ, ◌+◌, ◌≡◌, refl, ap, ◌∙◌, Option, none, some, List, [], ◌∷◌, leb, arith, if◌then◌else◌,
}
use jamsys.Clock.{SuspendWatch, SuspendEvent, check}

-- The time between two looks at the clocks: awake, and asleep.
abbrev pub Span : Type 0
Span = ℕ × ℕ

abbrev pub slept : Option SuspendEvent → ℕ
slept none = 0
slept (some e) = e.slept_ms

-- One look after each span, and what the events add up to.
unfoldable pub watch : List Span → SuspendWatch → ℕ
watch [] w = 0
watch ((awake, asleep) ∷ spans) w =
    let (next, e) = check (w.last_mono + awake) (w.last_boot + (awake + asleep)) 0 w in
    slept e + watch spans next

-- The sleeps that reach the threshold.
abbrev pub long_sleeps : ℕ → List Span → ℕ
long_sleeps threshold [] = 0
long_sleeps threshold ((awake, asleep) ∷ spans) =
    (if leb threshold asleep then asleep else 0) + long_sleeps threshold spans

check_span :
    (awake asleep : ℕ) (w : SuspendWatch)
    → let (next, e) = check (w.last_mono + awake) (w.last_boot + (awake + asleep)) 0 w in
      (next.threshold_ms ≡ w.threshold_ms)
      × (slept e ≡ (if leb w.threshold_ms asleep then asleep else 0))
unfolding check
check_span awake asleep w = ground arith

-- However the looks at the clocks fall, the events add up to exactly the sleeps that reach the
-- threshold: each is reported once, at its length, and time awake never is.
pub watch-long_sleeps :
    (spans : List Span) (w : SuspendWatch) → watch spans w ≡ long_sleeps w.threshold_ms spans
unfolding watch
watch-long_sleeps [] w = refl
watch-long_sleeps ((awake, asleep) ∷ spans) w =
    let (next, e) = check (w.last_mono + awake) (w.last_boot + (awake + asleep)) 0 w in
    let (same, one) = check_span awake asleep w in
    let rest : watch spans next ≡ long_sleeps w.threshold_ms spans =
      watch-long_sleeps spans next ∙ ap (λ t. long_sleeps t spans) same in
    omega (arith, one, rest)
