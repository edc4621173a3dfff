-- ===== src/Ipc/Server/Tests.antt =====
-- A server with a window that has subscribed, and queries that have not.
use jamsys.Prelude.{nat_is_eq, ℕ, ◌≡◌, refl, some, List, [], ◌∷◌, arith, Text, codes, true}
use jamsys.Prelude.Dict.{get}
use jamsys.Ipc.Client.{WriteAnswer, wrote, full}
use jamsys.Ipc.Server.{Peer, IpcServer, Arrival, accept, is_abandoned}
use jamsys.Ipc.Server.Table.{IsTable, IsSound}
use jamsys.Ipc.Server.Active.{accept-get}

abbrev peer : ℕ → List Text → Peer
peer token topics = record {
  fd = token;
  token = token;
  client = record { inbuf = []; outbuf = []; last_active_mono = 5_000 };
  subscriptions = topics;
}

abbrev alert : Text
alert = codes "alert"

abbrev window : Peer
window = peer 1_000 (alert ∷ [])

abbrev two : IpcServer
two = record { clients = (1_000, window) ∷ (1_001, peer 1_001 []) ∷ []; next_token = 1_002 }

abbrev query : ℕ → Arrival
query now = record {
  fd = 30;
  uid = some 1_000;
  can_unblock = true;
  judged_at = now;
  taken_at = now;
}

two-IsSound : IsSound two
unfolding IsTable get
two-IsSound = ((refl, omega arith, refl, (refl, omega arith, refl, tt)), omega arith)

accept-get_example :
    get 1_000 (accept 1_000 (query 6_000 ∷ query 70_000 ∷ []) two).server.clients ≡ some window
unfolding get is_abandoned
accept-get_example =
    accept-get 1_000 1_000 window (query 6_000 ∷ query 70_000 ∷ []) two two-IsSound refl
      (refl, (refl, tt))

-- The socket of the window takes three bytes and is full.
abbrev slow : ℕ → List WriteAnswer
slow tok = wrote 3 ∷ full ∷ []

abbrev slowed : Peer
slowed = record window { client = record window.client { outbuf = 10 ∷ [] } }
