-- ===== src/Store/Alerts.antt =====
-- jamsys-daemon/src/store.rs, the table `alert`, one row a record, and the statements run on it. The
-- column `evidence` holds the explanation itself, where SQLite holds its JSON.
pub mod Laws
use jamsys.Prelude.{
  ℕ, ◌+◌, ◌-◌, ◌*◌, max, Bool, true, false, ◌&&◌, Option, none, some, List, [], ◌∷◌, ◌++◌, map, ltb,
  leb, ◌==◌, if◌then◌else◌, Text, codes, text_eq, any, take, keep_if,
}
use jamsys.Types.{Severity, rank, cooldown_s, severity_gt, Explanation, Alert, render}

pub record Row : Type 0 where
  pub id : ℕ
  pub fingerprint : Text
  pub rule_id : Text
  pub severity : ℕ
  pub first_ts : ℕ
  pub last_ts : ℕ
  pub resolved_ts : Option ℕ
  pub count : ℕ
  pub title : Text
  pub explanation : Text
  pub evidence : Explanation
  pub suggestion : Option Text
  pub acked_ts : Option ℕ
  pub notify_id : ℕ

abbrev pub Table : Type 0
Table = List Row

abbrev pub max_plausible_refire_ms : ℕ
max_plausible_refire_ms = 6 * 60 * 60 * 1000

-- `resolved_ts IS NULL`.
abbrev pub is_unresolved : Row → Bool
is_unresolved r = elim r.resolved_ts [ none ↦ true | some ts ↦ false ]

-- `fingerprint=? AND resolved_ts IS NULL`.
abbrev pub is_open_row : Text → Row → Bool
is_open_row fp r = text_eq r.fingerprint fp && is_unresolved r

unfoldable pub find_open : Text → Table → Option Row
find_open fp [] = none
find_open fp (r ∷ rows) = if is_open_row fp r then some r else find_open fp rows

-- `UPDATE alert SET … WHERE …`.
unfoldable pub update_where : (Row → Bool) → (Row → Row) → Table → Table
update_where p f [] = []
update_where p f (r ∷ rows) = (if p r then f r else r) ∷ update_where p f rows

-- SQLite gives a new row the next id above all that are there.
unfoldable pub next_id : Table → ℕ
next_id [] = 1
next_id (r ∷ rows) = max (r.id + 1) (next_id rows)

pub join_actions : List Text → Text
join_actions [] = []
join_actions (a ∷ []) = a
join_actions (a ∷ b ∷ rest) = a ++ (codes " · " ++ join_actions (b ∷ rest))

abbrev pub suggestion_of : List Text → Option Text
suggestion_of [] = none
suggestion_of (a ∷ rest) = some (join_actions (a ∷ rest))

-- `ORDER BY last_ts DESC`.
insert_by_last : Row → Table → Table
insert_by_last r [] = r ∷ []
insert_by_last r (q ∷ rows) =
    if ltb r.last_ts q.last_ts then q ∷ insert_by_last r rows else r ∷ q ∷ rows

by_last : Table → Table
unfolding insert_by_last
by_last [] = []
by_last (r ∷ rows) = insert_by_last r (by_last rows)

-- `alerts(true, limit)`: the rows that are open, the latest first.
unfoldable pub open_alerts : ℕ → Table → Table
unfolding by_last
open_alerts limit rows = take limit (by_last (keep_if is_unresolved rows))

-- A firing counts as a new occurrence only a cooldown after the last one, and not after a gap so
-- long that the clock must have stepped. A step back of the clock is no occurrence.
unfoldable pub is_distinct : ℕ → ℕ → Severity → Bool
is_distinct ts last_ts severity =
    leb last_ts ts
    && leb (cooldown_s severity * 1000) (ts - last_ts)
    && ltb (ts - last_ts) max_plausible_refire_ms

abbrev pub refresh : ℕ → Alert → Bool → Row → Row
refresh ts a distinct r = record r {
  last_ts = ts;
  count = r.count + (if distinct then 1 else 0);
  severity = rank a.severity;
  title = a.title;
  explanation = render a.explanation;
  evidence = a.explanation;
  suggestion = suggestion_of a.explanation.actions;
}

abbrev pub fresh_row : ℕ → ℕ → Alert → Row
fresh_row id ts a = record {
  id = id;
  fingerprint = a.fingerprint;
  rule_id = a.rule_id;
  severity = rank a.severity;
  first_ts = ts;
  last_ts = ts;
  resolved_ts = none;
  count = 1;
  title = a.title;
  explanation = render a.explanation;
  evidence = a.explanation;
  suggestion = suggestion_of a.explanation.actions;
  acked_ts = none;
  notify_id = 0;
}

-- The new table, the row's id, and whether the alert is new or has got worse.
unfoldable pub upsert_alert : ℕ → Alert → Table → Table × ℕ × Bool
unfolding update_where
upsert_alert ts a rows = elim (find_open a.fingerprint rows) [
  | some r ↦ (
    update_where (λ q. q.id == r.id) (refresh ts a (is_distinct ts r.last_ts a.severity)) rows,
    r.id,
    ltb r.severity (rank a.severity),
  )
  | none ↦ let id = next_id rows in (rows ++ fresh_row id ts a ∷ [], id, true)
]

unfoldable pub resolve_alert : ℕ → Text → Table → Table × Bool
unfolding update_where
resolve_alert now fp rows = (
  update_where (is_open_row fp) (λ r. record r { resolved_ts = some now }) rows,
  any (is_open_row fp) rows,
)

unfoldable pub set_notify_id : Text → ℕ → Table → Table
unfolding update_where
set_notify_id fp id rows = update_where (is_open_row fp) (λ r. record r { notify_id = id }) rows

unfoldable pub ack_alert : ℕ → ℕ → Table → Table
unfolding update_where
ack_alert now id rows = update_where (λ r. r.id == id) (λ r. record r { acked_ts = some now }) rows
