-- ===== src/Ipc/Server/Active.antt =====
-- Who stays connected when others come.
use jamsys.Prelude.{
  subst, nat_is_eq, ℕ, ◌≤◌, ◌<◌, true, false, ◌≡◌, refl, ◌==◌, none, some, List, [], ◌∷◌, leb,
  length, inl, inr, Bool-cases, Option-cases, arith, All, ==_iff,
}
use jamsys.Prelude.Dict.{Dict, get, get-insert, get-remove, length-insert-le}
use jamsys.Ipc.Server.{
  Peer, IpcServer, Arrival, Accepted, max_clients, client_count, is_abandoned, oldest,
  idle_victim_at, drop_client, make_room, new_peer, admit, accept_one, accept_loop, accept, is_own,
}
use jamsys.Ipc.Server.Table.{
  IsTable, IsSound, get_below, remove-IsTable, insert-IsTable, length-remove_found, oldest_found,
}

-- What making room leaves.
record IsRoom (now : ℕ) (s room : IpcServer) : Type 0 where
  table : IsTable room.next_token room.clients
  space : length room.clients < max_clients
  kept :
      (tok : ℕ) (c : Peer)
      → get tok s.clients ≡ some c
      → is_abandoned now c ≡ false
      → get tok room.clients ≡ some c

drop_client-IsRoom :
    (now : ℕ) (c : Peer) (s : IpcServer)
    → IsSound s
    → get c.token s.clients ≡ some c
    → is_abandoned now c ≡ true
    → IsRoom now s (drop_client c.token s).1
unfolding drop_client
drop_client-IsRoom now c s (table, few) found gone = record {
  table = remove-IsTable s.next_token c.token s.clients table;
  space = omega (arith, few, length-remove_found c.token c s.clients found);
  kept = λ tok p h active. elim (Bool-cases (c.token == tok)) [
    | inl q ↦ let same = (==_iff c.token tok).0 q in cc (same, found, h, gone, active)
    | inr q ↦ rw (get-remove c.token tok s.clients, q, h) refl
  ];
}

make_room-IsRoom :
    (now : ℕ) (r room : Accepted)
    → IsSound r.server
    → make_room now r ≡ some room
    → IsRoom now r.server room.server
unfolding make_room client_count idle_victim_at drop_client
make_room-IsRoom now r room (table, few) e =
    elim (Bool-cases (leb max_clients (length r.server.clients))) [
      | inr q ↦
          let is : r ≡ room = ground (arith, e, q) in
          subst (λ x. IsRoom now r.server x.server) is
            (record { table = table; space = ground (arith, q); kept = λ tok p h active. h })
      | inl q ↦ elim (Option-cases (oldest now r.server.clients)) [
        | inl n ↦ ground (arith, n, e, q)
        | inr (c, o) ↦
            let (found, gone) = oldest_found r.server.next_token now r.server.clients c table o in
            let is : (drop_client c.token r.server).1 ≡ room.server = ground (arith, e, q, o) in
            subst (IsRoom now r.server) is
              (drop_client-IsRoom now c r.server (table, few) found gone)
      ]
    ]

admit-IsSound :
    (a : Arrival) (r : Accepted)
    → IsTable r.server.next_token r.server.clients
    → length r.server.clients < max_clients
    → IsSound (admit a r).server
unfolding admit new_peer
admit-IsSound a r table space = (
  insert-IsTable r.server.next_token (new_peer a r.server.next_token) r.server.clients refl table,
  omega (
    arith,
    space,
    length-insert-le r.server.next_token (new_peer a r.server.next_token) r.server.clients,
  ),
)

admit-keeps :
    (a : Arrival) (r : Accepted) (tok : ℕ) (c : Peer)
    → IsTable r.server.next_token r.server.clients
    → get tok r.server.clients ≡ some c
    → get tok (admit a r).server.clients ≡ some c
unfolding admit
admit-keeps a r tok c table h = elim (Bool-cases (r.server.next_token == tok)) [
  | inl q ↦
      let none_there =
        get_below r.server.next_token tok r.server.clients table (ground (arith, q)) in
      cc (none_there, h)
  | inr q ↦
      rw
        (get-insert r.server.next_token tok (new_peer a r.server.next_token) r.server.clients, q, h)
        refl
]

-- A step of the loop that goes on: the table is sound, and who is not abandoned is still in it.
record IsStep (now : ℕ) (s s' : IpcServer) : Type 0 where
  sound : IsSound s'
  kept :
      (tok : ℕ) (c : Peer)
      → get tok s.clients ≡ some c
      → is_abandoned now c ≡ false
      → get tok s'.clients ≡ some c

room-IsStep : (now : ℕ) (s room : IpcServer) → IsRoom now s room → IsStep now s room
room-IsStep now s room h = record { sound = (h.table, omega (arith, h.space)); kept = h.kept }

accept_one-IsStep :
    (own : ℕ) (a : Arrival) (r : Accepted)
    → IsSound r.server
    → IsStep a.judged_at r.server (accept_one own a r).server
unfolding accept_one
accept_one-IsStep own a r h =
    let same : IsStep a.judged_at r.server r.server = record {
      sound = h;
      kept = λ tok c f active. f;
    } in
    elim (Bool-cases (is_own own a.uid)) [
      | inr q ↦ rw q same
      | inl q ↦ elim (Option-cases (make_room a.judged_at r)) [
        | inl n ↦ rw (q, n) same
        | inr (room, m) ↦
            let is = make_room-IsRoom a.judged_at r room h m in
            elim (Bool-cases a.can_unblock) [
              | inr u ↦ rw (q, m, u) (room-IsStep a.judged_at r.server room.server is)
              | inl u ↦
                  rw (q, m, u)
                    (record {
                      sound = admit-IsSound a room is.table is.space;
                      kept = λ tok c f active.
                          admit-keeps a room tok c is.table (is.kept tok c f active);
                    })
            ]
      ]
    ]

accept_loop-keeps :
    (own tok : ℕ) (c : Peer) (arrivals : List Arrival) (r : Accepted)
    → IsSound r.server
    → get tok r.server.clients ≡ some c
    → All (λ a. is_abandoned a.judged_at c ≡ false) arrivals
    → get tok (accept_loop own arrivals r).server.clients ≡ some c
unfolding accept_loop
accept_loop-keeps own tok c [] r h f active = f
accept_loop-keeps own tok c (a ∷ later) r h f (here, active) =
    let step = accept_one-IsStep own a r h in
    accept_loop-keeps own tok c later (accept_one own a r) step.sound (step.kept tok c f here)
      active

-- A client that has subscribed to something, or was active in the last minute, whenever another one
-- comes, stays connected and as it was, however many come.
pub accept-get :
    (own tok : ℕ) (c : Peer) (arrivals : List Arrival) (s : IpcServer)
    → IsSound s
    → get tok s.clients ≡ some c
    → All (λ a. is_abandoned a.judged_at c ≡ false) arrivals
    → get tok (accept own arrivals s).server.clients ≡ some c
unfolding accept
accept-get own tok c arrivals s h f active =
    accept_loop-keeps own tok c arrivals (record { server = s; fresh = []; evicted = [] }) h f
      active

oldest-none :
    (now : ℕ) (m : Dict ℕ Peer) → All (λ e. is_abandoned now e.1 ≡ false) m → oldest now m ≡ none
unfolding oldest
oldest-none now [] h = refl
oldest-none now (e ∷ m) (here, h) = rw here (oldest-none now m h)

accept_loop_full :
    (own : ℕ) (arrivals : List Arrival) (r : Accepted)
    → max_clients ≤ length r.server.clients
    → All (λ a. All (λ e. is_abandoned a.judged_at e.1 ≡ false) r.server.clients) arrivals
    → accept_loop own arrivals r ≡ r
unfolding accept_loop accept_one make_room client_count idle_victim_at
accept_loop_full own [] r full active = refl
accept_loop_full own (a ∷ later) r full (here, active) =
    let same : accept_one own a r ≡ r =
      ground (arith, full, oldest-none a.judged_at r.server.clients here) in
    rw same (accept_loop_full own later r full active)

-- While eight clients are connected and none of them is abandoned, nobody else is let in and nobody is
-- dropped, whoever comes.
accept_full :
    (own : ℕ) (arrivals : List Arrival) (s : IpcServer)
    → max_clients ≤ client_count s
    → All (λ a. All (λ e. is_abandoned a.judged_at e.1 ≡ false) s.clients) arrivals
    → accept own arrivals s ≡ record { server = s; fresh = []; evicted = [] }
unfolding accept client_count
accept_full own arrivals s full active =
    accept_loop_full own arrivals (record { server = s; fresh = []; evicted = [] }) full active
