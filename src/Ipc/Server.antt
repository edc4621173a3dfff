-- ===== src/Ipc/Server.antt =====
-- jamsys-daemon/src/ipc.rs, `IpcServer`: the table of connections. The listening socket's answers are
-- an argument, with the user of each peer and the readings of the monotonic clock.
pub mod Table
pub mod Active
pub mod Backlog
mod Tests
use jamsys.Prelude.{
  nat_is_eq, ℕ, ◌+◌, Bool, true, false, not, ◌==◌, Option, none, some, List, [], ◌∷◌, ◌++◌, map,
  ltb, leb, if◌then◌else◌, length, Text, is_some,
}
use jamsys.Prelude.Dict.{Dict, get, insert, remove}
use jamsys.Ipc.Client.{Bytes, Client, WriteAnswer, send, wants}

abbrev pub max_clients : ℕ
max_clients = 8

abbrev pub tok_client_base : ℕ
tok_client_base = 1_000

abbrev pub idle_ms : ℕ
idle_ms = 60_000

-- A client with its descriptor, under its token.
pub record Peer : Type 0 where
  pub fd : ℕ
  pub token : ℕ
  pub client : Client
  pub subscriptions : List Text

pub record IpcServer : Type 0 where
  pub clients : Dict ℕ Peer
  pub next_token : ℕ

abbrev pub bound : IpcServer
bound = record { clients = []; next_token = tok_client_base }

unfoldable pub client_count : IpcServer → ℕ
client_count s = length s.clients

abbrev pub tokens : IpcServer → List ℕ
tokens s = map (λ e. e.0) s.clients

-- Nothing subscribed, and silent for more than a minute.
unfoldable pub is_abandoned : ℕ → Peer → Bool
is_abandoned now c = elim c.subscriptions [
  | [] ↦ ltb (c.client.last_active_mono + idle_ms) now
  | t ∷ ts ↦ false
]

-- `min_by_key`: of two that were last active together, the first.
unfoldable pub older : Peer → Option Peer → Peer
older c none = c
older c (some other) =
    if leb c.client.last_active_mono other.client.last_active_mono then c else other

unfoldable pub oldest : ℕ → Dict ℕ Peer → Option Peer
unfolding is_abandoned older
oldest now [] = none
oldest now ((tok, c) ∷ m) =
    let rest = oldest now m in if is_abandoned now c then some (older c rest) else rest

unfoldable pub idle_victim_at : ℕ → IpcServer → Option ℕ
unfolding oldest
idle_victim_at now s = elim (oldest now s.clients) [ none ↦ none | some c ↦ some c.token ]

-- The descriptor that the caller takes out of its event loop, and the table without the client.
unfoldable pub drop_client : ℕ → IpcServer → Option ℕ × IpcServer
drop_client token s = (
  elim (get token s.clients) [ none ↦ none | some c ↦ some c.fd ],
  record s { clients = remove token s.clients },
)

-- A pending connection: its descriptor, the peer's user if the kernel tells it, whether the descriptor
-- can be made non-blocking, and the clock when a victim is looked for and when the client is taken in.
pub record Arrival : Type 0 where
  pub fd : ℕ
  pub uid : Option ℕ
  pub can_unblock : Bool
  pub judged_at : ℕ
  pub taken_at : ℕ

pub record Accepted : Type 0 where
  pub server : IpcServer
  pub fresh : List (ℕ × ℕ)
  pub evicted : List ℕ

abbrev is_own : ℕ → Option ℕ → Bool
is_own own none = false
is_own own (some uid) = uid == own

-- Room for one more, made by dropping an idle client if need be; `none` where there is no room.
unfoldable pub make_room : ℕ → Accepted → Option Accepted
unfolding idle_victim_at drop_client client_count
make_room now r =
    if not (leb max_clients (client_count r.server))
    then some r
    else elim (idle_victim_at now r.server) [
      | none ↦ none
      | some v ↦
          let (fd, server) = drop_client v r.server in
          some (record r {
            server = server;
            evicted = elim fd [ none ↦ r.evicted | some n ↦ r.evicted ++ (n ∷ []) ];
          })
    ]

unfoldable pub new_peer : Arrival → ℕ → Peer
new_peer a token = record {
  fd = a.fd;
  token = token;
  client = record { inbuf = []; outbuf = []; last_active_mono = a.taken_at };
  subscriptions = [];
}

unfoldable pub admit : Arrival → Accepted → Accepted
unfolding new_peer
admit a r =
    let token = r.server.next_token in
    record r {
      server = record {
        clients = insert token (new_peer a token) r.server.clients;
        next_token = token + 1;
      };
      fresh = r.fresh ++ ((token, a.fd) ∷ []);
    }

unfoldable pub accept_one : ℕ → Arrival → Accepted → Accepted
unfolding make_room admit
accept_one own a r =
    if is_own own a.uid
    then elim (make_room a.judged_at r) [
      | none ↦ r
      | some room ↦ if a.can_unblock then admit a room else room
    ]
    else r

unfoldable pub accept_loop : ℕ → List Arrival → Accepted → Accepted
unfolding accept_one
accept_loop own [] r = r
accept_loop own (a ∷ later) r = accept_loop own later (accept_one own a r)

-- Up to the answer that nothing is pending, or a failure.
unfoldable pub accept : ℕ → List Arrival → IpcServer → Accepted
unfolding accept_loop
accept own arrivals s = accept_loop own arrivals (record { server = s; fresh = []; evicted = [] })

-- `frame` is the JSON that is pushed; `writes` are the answers of each client's socket.
unfoldable pub push_to : (ℕ → List WriteAnswer) → Text → Bytes → Dict ℕ Peer → Dict ℕ Peer × List ℕ
unfolding send wants
push_to writes topic frame [] = ([], [])
push_to writes topic frame ((tok, c) ∷ m) =
    let (after, dead) = push_to writes topic frame m in
    let (outbuf, good) = send (writes tok) frame c.client.outbuf in
    let c' : Peer = record c { client = record c.client { outbuf = outbuf } } in
    if wants topic c.subscriptions
    then ((tok, c') ∷ after, if good then dead else tok ∷ dead)
    else ((tok, c) ∷ after, dead)

unfoldable pub broadcast : (ℕ → List WriteAnswer) → Text → Bytes → IpcServer → IpcServer × List ℕ
unfolding push_to
broadcast writes topic frame s =
    let (after, dead) = push_to writes topic frame s.clients in (record s { clients = after }, dead)

unfoldable pub drop_all : List ℕ → IpcServer → IpcServer
unfolding drop_client
drop_all [] s = s
drop_all (tok ∷ toks) s = drop_all toks (drop_client tok s).1

-- What the daemon does with each push: the clients that it failed for are dropped.
unfoldable pub publish : (ℕ → List WriteAnswer) → Text → Bytes → IpcServer → IpcServer
unfolding broadcast drop_all
publish writes topic frame s =
    let (pushed, dead) = broadcast writes topic frame s in drop_all dead pushed
