-- ===== src/Anomaly/Rules/Evaluation/Tests.antt =====
-- A processor that stays at 96 degrees, on a machine that is well otherwise.
use jamsys.Prelude.{ℕ, ◌-◌, ◌/◌, ◌≡◌, refl, false, some, [], ◌∷◌, leb, arith}
use jamsys.Prelude.Real.{whole}
use jamsys.Types.Context
use jamsys.Types.Context.{Context, interactive}
use jamsys.Collectors.Snapshot.{Snapshot}
use jamsys.Collectors.Snapshot.Samples.{cpu, healthy}
use jamsys.Anomaly.Rules.{RuleEngine, limit}
use jamsys.Anomaly.Rules.Cpu.{package_temp}
use jamsys.Config.{threshold}
use jamsys.Prelude.Dict
use jamsys.Anomaly.Rules.Evaluation.{new, evaluate}
use jamsys.Anomaly.Rules.Evaluation.Laws.{IsSound, evaluate-IsSound}
use jamsys.Anomaly.Rules.Evaluation.Heat.{Tick, run, heat, reports, evaluate-lasting_heat}

abbrev hot : Snapshot ℕ
hot = record healthy { cpu = record cpu { package_temp_c = some 96 } }

abbrev here : Context
here = Context.new false interactive

abbrev tick : ℕ → Tick ℕ
tick ms = record { now = ms; snapshot = hot; ctx = here }

abbrev start : RuleEngine ℕ
start = new 512 120 3

evaluate-IsSound_example : IsSound (evaluate hot [] here 2_000 start)
evaluate-IsSound_example = evaluate-IsSound hot [] here 2_000 start

evaluate-lasting_heat_example :
    reports heat (evaluate hot [] here 63_000 (run [] (tick 2_000 ∷ tick 32_000 ∷ []) start)).out
    ≡ leb 60 ((63_000 - 2_000) / 1000)
unfolding new package_temp limit threshold Dict.get
evaluate-lasting_heat_example =
    evaluate-lasting_heat [] (tick 2_000) (tick 63_000) (tick 32_000 ∷ []) start refl refl
      ((refl, omega arith), tt) refl (omega arith)
