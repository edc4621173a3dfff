-- ===== src/Clock/Tests.antt =====
-- Eight seconds of sleep, and a second of jitter.
use jamsys.Prelude.{◌≡◌, List, [], ◌∷◌}
use jamsys.Clock.{new}
use jamsys.Clock.Laws.{Span, watch, watch-long_sleeps}

abbrev spans : List Span
spans = (2_000, 0) ∷ (3_000, 8_000) ∷ (1_000, 1_000) ∷ []

watch-long_sleeps_example : watch spans (new 100 900) ≡ 8_000
watch-long_sleeps_example = watch-long_sleeps spans (new 100 900)
