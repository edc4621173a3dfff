-- ===== src/Anomaly/Bucket/Tests.antt =====
-- A bucket of three, in thousandths.
use jamsys.Prelude.{ℕ, ◌≡◌, arith}
use jamsys.Prelude.Float.{milli, milli-IsFloat}
use jamsys.Prelude.Int.{pos}
use jamsys.Anomaly.Bucket.{Bucket, new}
use jamsys.Anomaly.Bucket.Laws.{takes, same, burst, new-burst}

abbrev three : Bucket ℕ
three = new 3 (pos 60) 1_000

new-burst_example : takes {F = ℕ} (new 3 (pos 60) 1_000) (same 1_000 5) ≡ burst 3 5
new-burst_example = new-burst milli-IsFloat 3 (pos 60) 1_000 5 (omega arith)
