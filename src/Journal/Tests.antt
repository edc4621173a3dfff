-- ===== src/Journal/Tests.antt =====
-- The journal at work.
use jamsys.Prelude.{ℕ, ◌+◌, ◌≡◌, some, List, [], ◌∷◌, Text, codes, text_eq, text_is_eq, arith}
use jamsys.Prelude.Dict
use jamsys.Journal.Dedup.{new}
use jamsys.Journal.Dedup.Laws.{admits, count_key, reported, pending, admits_account}
use jamsys.Journal.Lines.{Bytes}
use jamsys.Journal.Lines.Laws.{lines, join_all, join, parse_all, calls, calls-lines}

abbrev burst : List (Text × ℕ)
burst = (codes "oom", 2_000) ∷ (codes "mce", 2_500) ∷ (codes "oom", 3_000) ∷ []

admits_account_example :
    reported (admits (codes "oom") burst (new 60_000)).1
      + pending (Dict.get (codes "oom") (admits (codes "oom") burst (new 60_000)).0.seen)
    ≡ 0 + count_key (codes "oom") burst
unfolding new Dict.get count_key text_eq
admits_account_example = admits_account (codes "oom") burst (new 60_000) (omega arith)

abbrev reads : List (List Bytes)
reads = (codes "ab" ∷ codes "c\nd" ∷ []) ∷ (codes "e\n" ∷ []) ∷ []

calls-lines_example :
    calls {E = Text} some reads []
    ≡ (parse_all some (lines (join_all reads)).0, (lines (join_all reads)).1)
unfolding lines join
calls-lines_example = calls-lines some reads (omega arith, (omega arith, tt))
