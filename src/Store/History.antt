-- ===== src/Store/History.antt =====
-- jamsys-daemon/src/store.rs: the choice of the table that a chart is read from.
pub mod Laws
mod Tests
use jamsys.Prelude.{ℕ, ◌*◌, ◌/◌, ◌==◌, List, [], ◌∷◌, leb, if◌then◌else◌}
use jamsys.Store.Metrics.{disk_bucket_ms}

-- Bucket 0 is the table of samples, which holds means of ten seconds.
unfoldable pub step_of : ℕ → ℕ
step_of b = if b == 0 then disk_bucket_ms else b

unfoldable pub first_fitting : List ℕ → ℕ → ℕ → ℕ
unfolding step_of
first_fitting [] span want = 900_000
first_fitting (b ∷ buckets) span want =
    if leb (span / step_of b) (want * 3) then b else first_fitting buckets span want

abbrev pub buckets : List ℕ
buckets = 0 ∷ 60_000 ∷ 300_000 ∷ 900_000 ∷ []

-- `span` is in milliseconds and not negative.
unfoldable pub choose_bucket : ℕ → ℕ → ℕ
unfolding first_fitting
choose_bucket span want = first_fitting buckets span want
