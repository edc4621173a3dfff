-- ===== src/Collectors/Registry/Tests.antt =====
-- Collectors that fail, rest and come back.
use jamsys.Prelude.{◌≡◌, refl, true, false, none, some, [], ◌∷◌, codes}
use jamsys.Types.{full, unsupported, quarantined, fast}
use jamsys.Collectors.Registry.{Entry, Answers, collected, panicked}
use jamsys.Collectors.Registry.Retry.{ticks, switched, history}
use jamsys.Collectors.Registry.Toggle.{toggle_strands}

abbrev works : Answers
works = record { probe = some full; collect = collected; probe_again = none; micros = 10 }

abbrev fails : Answers
fails = record { probe = some full; collect = panicked; probe_again = none; micros = 10 }

abbrev cpu : Entry
cpu = record {
  name = codes "cpu";
  tier = fast;
  support = full;
  consecutive_failures = 0;
  retry_after_ms = 0;
  last_error = none;
  total_runs = 0;
  total_us = 0;
}

abbrev out : Entry
out = record cpu { support = quarantined (codes "panicked") 3; retry_after_ms = 901_000 }

toggle_strands_example :
    history fast
      (switched false none
        ∷ switched true (some (unsupported (codes "absent")))
        ∷ ticks 2_000_000 works
        ∷ [])
      cpu
    ≡ record cpu { support = unsupported (codes "absent") }
toggle_strands_example =
    toggle_strands fast (ticks 2_000_000 works ∷ []) cpu none (codes "absent") refl tt
