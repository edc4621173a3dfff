-- ===== src/Store/Alerts/Laws.antt =====
-- The table keeps at most one open row for a fingerprint, which the partial unique index of the
-- schema demands.
use jamsys.Prelude.{
  ℕ, suc, ◌+◌, ◌≤◌, ◌≡◌, inl, inr, refl, ap, Bool, true, false, none, some, [], ◌∷◌, ◌++◌, ltb,
  ◌==◌, if◌then◌else◌, Text, text_eq, text_eq_iff, max, arith, Bool-cases, Option-cases, is_some,
  length, text_eq_refl,
}
use jamsys.Types.{Alert, rank}
use jamsys.Store.Alerts.{
  Row, Table, is_open_row, find_open, update_where, next_id, fresh_row, refresh, upsert_alert,
  resolve_alert, set_notify_id, is_distinct,
}

unfoldable pub count_open : Text → Table → ℕ
count_open fp [] = 0
count_open fp (r ∷ rows) = (if is_open_row fp r then 1 else 0) + count_open fp rows

abbrev pub OneOpen : Table → Type 0
OneOpen rows = (fp : Text) → count_open fp rows ≤ 1

-- An update that keeps the fingerprint and the resolution keeps the count.
count_open-update_where :
    (fp : Text) (p : Row → Bool) (f : Row → Row) (rows : Table)
    → ((r : Row) → is_open_row fp (f r) ≡ is_open_row fp r)
    → count_open fp (update_where p f rows) ≡ count_open fp rows
unfolding count_open update_where
count_open-update_where fp p f [] h = refl
count_open-update_where fp p f (r ∷ rows) h =
    let rest = count_open-update_where fp p f rows h in
    elim (Bool-cases (p r)) [ inl e ↦ rw (e, h r, rest) | inr e ↦ rw (e, rest) ]

count_open-append :
    (fp : Text) (rows more : Table)
    → count_open fp (rows ++ more) ≡ count_open fp rows + count_open fp more
unfolding count_open
count_open-append fp [] more = omega arith
count_open-append fp (r ∷ rows) more = omega (arith, count_open-append fp rows more)

find_open-count_open :
    (fp : Text) (rows : Table) → is_some (find_open fp rows) ≡ ltb 0 (count_open fp rows)
unfolding find_open count_open
find_open-count_open fp [] = refl
find_open-count_open fp (r ∷ rows) = ground (arith, find_open-count_open fp rows)

-- A found row is one of the open rows of that fingerprint.
pub find_open-is_open :
    (fp : Text) (rows : Table) (r : Row) → find_open fp rows ≡ some r → is_open_row fp r ≡ true
unfolding find_open
find_open-is_open fp [] r h = cc
find_open-is_open fp (q ∷ rows) r h = ground (arith, find_open-is_open fp rows r)

-- After an upsert the alert's own fingerprint has one open row where it had none or one, and every
-- other fingerprint as many as before.
pub upsert_alert-count_open :
    (ts : ℕ) (a : Alert) (rows : Table) (fp : Text)
    → count_open fp (upsert_alert ts a rows).0
      ≡ (if text_eq a.fingerprint fp then max 1 (count_open fp rows) else count_open fp rows)
unfolding upsert_alert count_open
upsert_alert-count_open ts a rows fp = elim (Option-cases (find_open a.fingerprint rows)) [
  | inl e ↦ ground (
    arith,
    count_open-append fp rows (fresh_row (next_id rows) ts a ∷ []),
    find_open-count_open a.fingerprint rows,
    text_eq_iff a.fingerprint fp,
  )
  | inr (r, e) ↦ ground (
    arith,
    count_open-update_where fp (λ q. q.id == r.id)
        (refresh ts a (is_distinct ts r.last_ts a.severity)) rows (λ q. refl),
    find_open-count_open a.fingerprint rows,
    text_eq_iff a.fingerprint fp,
  )
]

-- No firing makes a second open row for one fingerprint.
pub upsert_alert-OneOpen :
    (ts : ℕ) (a : Alert) (rows : Table) → OneOpen rows → OneOpen (upsert_alert ts a rows).0
upsert_alert-OneOpen ts a rows h fp = ground (arith, upsert_alert-count_open ts a rows fp, h fp)

-- The row that an update leaves as the open one of the fingerprint.
find_open-update_where :
    (fp : Text) (f : Row → Row) (rows : Table) (r : Row)
    → ((q : Row) → is_open_row fp (f q) ≡ is_open_row fp q)
    → find_open fp rows ≡ some r
    → find_open fp (update_where (λ q. q.id == r.id) f rows) ≡ some (f r)
unfolding find_open update_where
find_open-update_where fp f [] r h e = cc
find_open-update_where fp f (q ∷ rows) r h e =
    ground (arith, h q, h r, find_open-update_where fp f rows r h)

find_open-append :
    (fp : Text) (rows : Table) (r : Row)
    → find_open fp rows ≡ none
    → is_open_row fp r ≡ true
    → find_open fp (rows ++ r ∷ []) ≡ some r
unfolding find_open
find_open-append fp [] r e h = ground arith
find_open-append fp (q ∷ rows) r e h = ground (arith, find_open-append fp rows r)

-- After an upsert the open row of the fingerprint has the alert's severity and the time of the call.
pub find_open-upsert_alert :
    (ts : ℕ) (a : Alert) (rows : Table)
    → (r : Row) × (find_open a.fingerprint (upsert_alert ts a rows).0 ≡ some r)
      × (r.severity ≡ rank a.severity)
      × (r.last_ts ≡ ts)
unfolding upsert_alert
find_open-upsert_alert ts a rows = elim (Option-cases (find_open a.fingerprint rows)) [
  | inl e ↦
      let r = fresh_row (next_id rows) ts a in
      (
        r,
        ground (arith, find_open-append a.fingerprint rows r, text_eq_refl a.fingerprint),
        refl,
        refl,
      )
  | inr (r, e) ↦
      let f = refresh ts a (is_distinct ts r.last_ts a.severity) in
      (f r, ground (arith, find_open-update_where a.fingerprint f rows r (λ q. refl) e), refl, refl)
]

length-update_where :
    (p : Row → Bool) (f : Row → Row) (rows : Table) → length (update_where p f rows) ≡ length rows
unfolding update_where
length-update_where p f [] = refl
length-update_where p f (r ∷ rows) = ap suc (length-update_where p f rows)

upsert_alert-known :
    (ts : ℕ) (a : Alert) (rows : Table) (r : Row)
    → find_open a.fingerprint rows ≡ some r
    → r.severity ≡ rank a.severity
    → ((upsert_alert ts a rows).2 ≡ false) × (length (upsert_alert ts a rows).0 ≡ length rows)
unfolding upsert_alert
upsert_alert-known ts a rows r e h =
    let f = refresh ts a (is_distinct ts r.last_ts a.severity) in
    ground (arith, length-update_where (λ q. q.id == r.id) f rows)

-- An alert that fires again, at any time, is not new, and adds no row.
pub upsert_alert_again :
    (ts later : ℕ) (a : Alert) (rows : Table)
    → let once = (upsert_alert ts a rows).0 in
      let twice = upsert_alert later a once in (twice.2 ≡ false) × (length twice.0 ≡ length once)
upsert_alert_again ts later a rows =
    let (r, found, sev, last) = find_open-upsert_alert ts a rows in
    upsert_alert-known later a (upsert_alert ts a rows).0 r found sev

-- Resolving closes every open row of the fingerprint, touches no other, and reports whether there
-- was one.
pub resolve_alert-count_open :
    (now : ℕ) (fp : Text) (rows : Table) (other : Text)
    → (count_open other (resolve_alert now fp rows).0
        ≡ (if text_eq fp other then 0 else count_open other rows))
      × ((resolve_alert now fp rows).1 ≡ ltb 0 (count_open fp rows))
unfolding resolve_alert count_open update_where
resolve_alert-count_open now fp [] other = ground arith
resolve_alert-count_open now fp (r ∷ rows) other = ground (
  arith,
  resolve_alert-count_open now fp rows other,
  text_eq_iff fp other,
  text_eq_iff r.fingerprint fp,
  text_eq_iff r.fingerprint other,
)

pub set_notify_id-count_open :
    (fp : Text) (id : ℕ) (rows : Table) (other : Text)
    → count_open other (set_notify_id fp id rows) ≡ count_open other rows
unfolding set_notify_id
set_notify_id-count_open fp id rows other =
    count_open-update_where other (is_open_row fp) (λ r. record r { notify_id = id }) rows
      (λ r. refl)
