-- ===== src/Anomaly/Baseline/Tests.antt =====
-- Ten values of one metric, with whole numbers for `f64`.
use jamsys.Prelude.{ℕ, ◌≡◌, true, List, [], ◌∷◌, codes}
use jamsys.Prelude.Real.{whole}
use jamsys.Prelude.Dict
use jamsys.Types.Context.{Context, idle}
use jamsys.Types.Context
use jamsys.Anomaly.Baseline.{Series, Baselines, evaluate, freeze}
use jamsys.Anomaly.Baseline.Laws.{observe_all, evaluate-freeze}

abbrev here : Context
here = Context.new true idle

abbrev ten : List ℕ
ten = 11 ∷ 9 ∷ 12 ∷ 8 ∷ 13 ∷ 7 ∷ 11 ∷ 9 ∷ 12 ∷ 10 ∷ []

abbrev settled : Series ℕ
settled = record { samples = ten; n = 200; median = 10; mad = 1; p05 = 7; p95 = 13; dirty = 0 }

abbrev known : Baselines ℕ
known = record {
  series = ((codes "cpu.usage_pct", codes "bat:idle"), settled) ∷ [];
  tuning = [];
  window = 512;
  warmup = 120;
  z_threshold = 0;
  frozen = [];
}

evaluate-freeze_example :
    evaluate
      (codes "cpu.usage_pct")
      here
      90
      (observe_all ((codes "cpu.usage_pct", here, 90) ∷ []) (freeze (codes "cpu.usage_pct") known))
    ≡ evaluate (codes "cpu.usage_pct") here 90 known
evaluate-freeze_example =
    evaluate-freeze (codes "cpu.usage_pct") here 90 ((codes "cpu.usage_pct", here, 90) ∷ []) known
