-- ===== src/Collectors/Memory/Tests.antt =====
-- Two processes are killed, with a pass in between that fails.
use jamsys.Prelude.{
  ℕ, ◌+◌, ◌*◌, ◌≡◌, refl, none, some, List, [], ◌∷◌, map, Text, codes, arith, text_is_eq,
}
use jamsys.Prelude.Real.{whole}
use jamsys.Prelude.Dict.{Dict}
use jamsys.Prelude.Results.{Result, ok, err}
use jamsys.Collectors.Memory.{MemCollector, Proc, oom_event}
use jamsys.Collectors.Memory.Kills.{sum, IsRising, watch, watch_kills}

abbrev pass : Result Text (Dict Text ℕ) → ℕ → Proc ℕ
pass meminfo oom = record {
  ts_ms = oom * 1000;
  meminfo = meminfo;
  psi = none;
  oom_kill = some oom;
  pgmajfault = none;
}

abbrev passes : List (Proc ℕ)
passes =
    pass (ok ((codes "MemTotal", 16) ∷ [])) 4
    ∷ pass (err (codes "busy")) 5
    ∷ pass (ok ((codes "MemTotal", 16) ∷ [])) 5
    ∷ []

abbrev seen : MemCollector
seen = record { prev_oom = some 3; prev_pgmajfault = none }

watch_kills_example :
    (ks : List ℕ) × ((watch passes seen).1 ≡ map oom_event ks)
    × ((watch passes seen).0.prev_oom ≡ some (3 + sum ks))
unfolding IsRising
watch_kills_example = watch_kills passes seen 3 refl (omega arith, (omega arith, (omega arith, tt)))
