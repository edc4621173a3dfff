-- ===== src/Store/Suppressions.antt =====
-- jamsys-daemon/src/store.rs, `Suppression`: mutes, snoozes and ignores. Times are wall-clock
-- milliseconds.
use jamsys.Prelude.{
  ℕ, ◌+◌, ◌==◌, max, List, [], ◌∷◌, ◌++◌, keep_if, Bool, true, false, not, ◌&&◌, Option, none, some,
  ltb, if◌then◌else◌, Text, codes, is_empty, text_eq,
}
use jamsys.Util.Glob.{glob_match}

pub record Suppression : Type 0 where
  pub id : ℕ
  pub scope : Text
  pub pattern_text : Text
  pub until_ts : Option ℕ
  pub reason : Option Text

unfoldable pub active : Suppression → ℕ → Bool
active s now = elim s.until_ts [ none ↦ true | some u ↦ ltb now u ]

-- The three scopes; any other covers nothing.
unfoldable pub covers : Suppression → Text → Text → Text → Bool
covers s rule_id instance_name fingerprint =
    if text_eq s.scope (codes "rule")
    then glob_match s.pattern_text rule_id
    else if text_eq s.scope (codes "instance")
    then not (is_empty instance_name) && glob_match s.pattern_text instance_name
    else if text_eq s.scope (codes "fingerprint")
    then glob_match s.pattern_text fingerprint
    else false

-- The statements on the table. SQLite gives a new row the next id above all that are there.
unfoldable pub next_id : List Suppression → ℕ
next_id [] = 1
next_id (s ∷ rows) = max (s.id + 1) (next_id rows)

unfoldable pub add_suppression :
    Text → Text → Option ℕ → Option Text → List Suppression → List Suppression × ℕ
unfolding next_id
add_suppression scope glob until_ts reason rows =
    let id = next_id rows in
    (
      rows
          ++ (record {
            id = id;
            scope = scope;
            pattern_text = glob;
            until_ts = until_ts;
            reason = reason;
          }
              ∷ []),
      id,
    )

unfoldable pub remove_suppression : ℕ → List Suppression → List Suppression
remove_suppression id rows = keep_if (λ s. not (s.id == id)) rows
