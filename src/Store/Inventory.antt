-- ===== src/Store/Inventory.antt =====
-- jamsys-daemon/src/store.rs, the tables `inventory` and `inventory_change`. Whether SQLite takes each
-- statement is an argument.
mod Laws
mod Tests
use jamsys.Prelude.{
  ℕ, Bool, true, false, Option, none, some, List, [], ◌∷◌, ◌++◌, if◌then◌else◌, Text, text_eq,
  text_is_eq,
}
use jamsys.Prelude.Dict.{Dict, get, insert}
use jamsys.Prelude.Results.{Result, ok, err}

pub record Item : Type 0 where
  pub value : Text
  pub first_ts : ℕ
  pub last_ts : ℕ

pub record Change : Type 0 where
  pub ts : ℕ
  pub key : Text
  pub old_value : Option Text
  pub new_value : Text

pub record Inventory : Type 0 where
  pub items : Dict Text Item
  pub changes : List Change

-- Which statements SQLite takes: the query, the write to the inventory, and the one to its changes.
pub record Sql : Type 0 where
  pub reads : Bool
  pub writes : Bool
  pub logs : Bool

-- A statement that failed.
pub data SqlError : Type 0 where
  sql_error : SqlError

unfoldable pub value_of : Option Item → Option Text
value_of none = none
value_of (some i) = some i.value

abbrev is_same : Text → Option Text → Bool
is_same value none = false
is_same value (some v) = text_eq v value

unfoldable pub upsert : ℕ → Text → Option Item → Item
upsert ts value none = record { value = value; first_ts = ts; last_ts = ts }
upsert ts value (some i) = record i { value = value; last_ts = ts }

-- The change, if the value differs from what is stored.
unfoldable pub record_inventory :
    Sql → ℕ → Text → Text → Inventory → Inventory × Result SqlError (Option (Option Text × Text))
unfolding value_of upsert
record_inventory sql ts key value s =
    let item = get key s.items in
    let old = value_of item in
    let written = record s { items = insert key (upsert ts value item) s.items } in
    let change : Change = record { ts = ts; key = key; old_value = old; new_value = value } in
    let logged = record written { changes = written.changes ++ (change ∷ []) } in
    if sql.reads
    then if sql.writes
      then if is_same value old
        then (written, ok none)
        else if sql.logs
        then (logged, ok (some (old, value)))
        else (written, err sql_error)
      else (s, err sql_error)
    else (s, err sql_error)
