-- ===== src/Store/Inventory/Laws.antt =====
-- The changes tell the whole inventory.
use jamsys.Prelude.{
  ℕ, ◌≡◌, ◌⊎◌, ◌∙◌, refl, sym, ap, subst, true, Option, none, some, List, [], ◌∷◌, ◌++◌,
  if◌then◌else◌, inl, inr, Bool-cases, arith, All, Text, text_eq, text_eq_iff, text_is_eq,
}
use jamsys.Prelude.Dict.{Dict, get, insert, get-insert}
use jamsys.Store.Inventory.{
  Item, Change, Inventory, Sql, value_of, upsert, is_same, record_inventory,
}

-- The value that the changes end with, for one key.
unfoldable pub replay : Text → Option Text → List Change → Option Text
replay key v [] = v
replay key v (c ∷ cs) = replay key (if text_eq c.key key then some c.new_value else v) cs

replay-append :
    (key : Text) (v : Option Text) (cs : List Change) (c : Change)
    → replay key v (cs ++ (c ∷ []))
      ≡ (if text_eq c.key key then some c.new_value else replay key v cs)
unfolding replay
replay-append key v [] c = refl
replay-append key v (x ∷ cs) c =
    replay-append key (if text_eq x.key key then some x.new_value else v) cs c

-- The inventory holds what the changes say.
unfoldable pub IsTold : Inventory → Type 0
IsTold s = (key : Text) → value_of (get key s.items) ≡ replay key none s.changes

value_of-upsert :
    (ts : ℕ) (value : Text) (o : Option Item) → value_of (some (upsert ts value o)) ≡ some value
unfolding value_of upsert
value_of-upsert ts value none = refl
value_of-upsert ts value (some i) = refl

value_of-insert :
    (key other value : Text) (ts : ℕ) (o : Option Item) (m : Dict Text Item)
    → value_of (get other (insert key (upsert ts value o) m))
      ≡ (if text_eq key other then some value else value_of (get other m))
unfolding value_of
value_of-insert key other value ts o m = elim (Bool-cases (text_eq key other)) [
  | inl q ↦ rw (get-insert key other (upsert ts value o) m, q) (value_of-upsert ts value o)
  | inr q ↦ rw (get-insert key other (upsert ts value o) m, q) refl
]

is_same_lem : (value : Text) (o : Option Text) → is_same value o ≡ true → o ≡ some value
is_same_lem value none h = cc
is_same_lem value (some v) h = ap some ((text_eq_iff v value).0 h)

-- A value that is as it was changes none.
same_value :
    (key other value : Text) (o : Option Text) (now : Text → Option Text)
    → now key ≡ o
    → is_same value o ≡ true
    → (if text_eq key other then some value else now other) ≡ now other
same_value key other value o now q same = elim (Bool-cases (text_eq key other)) [
  | inr e ↦ rw e refl
  | inl e ↦ rw e (sym (ap now (sym ((text_eq_iff key other).0 e)) ∙ (q ∙ is_same_lem value o same)))
]

-- One call of the daemon.
pub record Call : Type 0 where
  pub sql : Sql
  pub ts : ℕ
  pub key : Text
  pub value : Text

unfoldable pub step : Inventory → Call → Inventory
step s c = (record_inventory c.sql c.ts c.key c.value s).0

unfoldable pub record_all : List Call → Inventory → Inventory
record_all [] s = s
record_all (c ∷ cs) s = record_all cs (step s c)

abbrev pub empty : Inventory
empty = record { items = []; changes = [] }

-- What a call may leave.
abbrev put : Inventory → Call → Inventory
put s c = record s { items = insert c.key (upsert c.ts c.value (get c.key s.items)) s.items }

abbrev note : Inventory → Call → Inventory
note s c = record (put s c) {
  changes =
      s.changes
      ++ (record {
        ts = c.ts;
        key = c.key;
        old_value = value_of (get c.key s.items);
        new_value = c.value;
      }
          ∷ []);
}

step_cases :
    (s : Inventory) (c : Call)
    → c.sql.logs ≡ true
    → (step s c ≡ s)
      ⊎ (((step s c ≡ put s c) × (is_same c.value (value_of (get c.key s.items)) ≡ true))
          ⊎ (step s c ≡ note s c))
unfolding step record_inventory
step_cases s c logs = elim (Bool-cases c.sql.reads) [
  | inr r ↦ inl (ground (arith, r))
  | inl r ↦ elim (Bool-cases c.sql.writes) [
    | inr w ↦ inl (ground (arith, r, w))
    | inl w ↦ elim (Bool-cases (is_same c.value (value_of (get c.key s.items)))) [
      | inl same ↦ inr (inl (ground (arith, r, w, same), same))
      | inr new ↦ inr (inr (ground (arith, r, w, new, logs)))
    ]
  ]
]

step-IsTold : (s : Inventory) (c : Call) → c.sql.logs ≡ true → IsTold s → IsTold (step s c)
unfolding IsTold
step-IsTold s c logs h = elim (step_cases s c logs) [
  | inl is ↦ subst (λ x. (k : Text) → value_of (get k x.items) ≡ replay k none x.changes) (sym is) h
  | inr (inl (is, same)) ↦
      subst (λ x. (k : Text) → value_of (get k x.items) ≡ replay k none x.changes) (sym is)
        (λ k.
          value_of-insert c.key k c.value c.ts (get c.key s.items) s.items
          ∙ (same_value c.key k c.value (value_of (get c.key s.items))
                (λ x. value_of (get x s.items)) refl same
              ∙ h k))
  | inr (inr is) ↦
      subst (λ x. (k : Text) → value_of (get k x.items) ≡ replay k none x.changes) (sym is)
        (λ k.
          value_of-insert c.key k c.value c.ts (get c.key s.items) s.items
          ∙ (ap (λ v. if text_eq c.key k then some c.value else v) (h k)
              ∙ sym (replay-append k none s.changes _)))
]

record_all-IsTold :
    (calls : List Call) (s : Inventory)
    → All (λ c. c.sql.logs ≡ true) calls
    → IsTold s
    → IsTold (record_all calls s)
unfolding record_all
record_all-IsTold [] s logs h = h
record_all-IsTold (c ∷ cs) s (here, logs) h =
    record_all-IsTold cs (step s c) logs (step-IsTold s c here h)

-- Through any calls, failed statements among them, as long as a change whose inventory was written is
-- written too: the inventory holds for every key the value that its recorded changes end with.
pub record_all-replay :
    (calls : List Call) (key : Text)
    → All (λ c. c.sql.logs ≡ true) calls
    → let s = record_all calls empty in value_of (get key s.items) ≡ replay key none s.changes
unfolding IsTold replay value_of get
record_all-replay calls key logs = record_all-IsTold calls empty logs (λ k. refl) key
