-- ===== src/Store/Inventory/Tests.antt =====
-- A firmware that is updated, with a call in between that fails.
use jamsys.Prelude.{Bool, ◌≡◌, refl, true, false, none, List, [], ◌∷◌, Text, codes, text_is_eq}
use jamsys.Prelude.Dict.{get}
use jamsys.Store.Inventory.{value_of}
use jamsys.Store.Inventory.Laws.{Call, replay, record_all, empty, record_all-replay}

abbrev call : Bool → Text → Call
call reads value = record {
  sql = record { reads = reads; writes = true; logs = true };
  ts = 5;
  key = codes "bios";
  value = value;
}

abbrev calls : List Call
calls =
    call true (codes "1.1")
    ∷ call true (codes "1.1")
    ∷ call false (codes "1.2")
    ∷ call true (codes "1.2")
    ∷ []

record_all-replay_example :
    value_of (get (codes "bios") (record_all calls empty).items)
    ≡ replay (codes "bios") none (record_all calls empty).changes
record_all-replay_example =
    record_all-replay calls (codes "bios") (refl, (refl, (refl, (refl, tt))))
