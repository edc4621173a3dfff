-- ===== src/Store/History/Tests.antt =====
-- A day of history, in six hundred points and in three hundred.
use jamsys.Prelude.{◌/◌, ◌≡◌, refl}
use jamsys.Store.History.{choose_bucket, step_of, first_fitting}

a_day : choose_bucket 86_400_000 600 ≡ 60_000
unfolding choose_bucket first_fitting step_of
a_day = refl

coarse_day :
    (choose_bucket 86_400_000 300 ≡ 300_000)
    × ((86_400_000 / 300_000 ≡ 288) × (86_400_000 / 60_000 ≡ 1_440))
unfolding choose_bucket first_fitting step_of
coarse_day = (refl, (refl, refl))
