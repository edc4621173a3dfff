-- ===== src/Ipc/Server/Backlog.antt =====
-- What a push leaves of the connections.
use jamsys.Prelude.{
  All, sym, subst, nat_is_eq, ℕ, ◌≤◌, Bool, true, false, not, ◌&&◌, ◌≡◌, refl, ◌==◌, Option, none,
  some, List, [], ◌∷◌, ◌++◌, if◌then◌else◌, length, any, drop, inl, inr, Bool-cases, Option-cases,
  arith, ==_iff, Text,
}
use jamsys.Prelude.Dict.{Dict, get, get-remove}
use jamsys.Ipc.Client.{
  Bytes, WriteAnswer, wrote, full, retry, write_failed, max_outbuf, flush, send, wants,
}
use jamsys.Ipc.Server.{Peer, IpcServer, push_to, broadcast, drop_client, drop_all, publish}
use jamsys.Ipc.Server.Table.{IsTable, IsSound}

flush_bounded :
    (answers : List WriteAnswer) (outbuf : Bytes)
    → (flush answers outbuf).1 ≡ true
    → length (flush answers outbuf).0 ≤ max_outbuf
unfolding flush
flush_bounded [] [] h = omega arith
flush_bounded (a ∷ answers) [] h = omega arith
flush_bounded [] (b ∷ s) h = ground (arith, h)
flush_bounded (wrote n ∷ answers) (b ∷ s) h =
    ground (arith, h, flush_bounded answers (drop n (b ∷ s)))
flush_bounded (full ∷ answers) (b ∷ s) h = ground (arith, h)
flush_bounded (retry ∷ answers) (b ∷ s) h = flush_bounded answers (b ∷ s) h
flush_bounded (write_failed ∷ answers) (b ∷ s) h = ground (arith, h)

-- A token that is in a list.
abbrev named : ℕ → List ℕ → Bool
named tok toks = any (λ t. t == tok) toks

drop_all-get :
    (tok : ℕ) (toks : List ℕ) (s : IpcServer)
    → get tok (drop_all toks s).clients ≡ (if named tok toks then none else get tok s.clients)
unfolding drop_all drop_client
drop_all-get tok [] s = refl
drop_all-get tok (t ∷ toks) s =
    rw (drop_all-get tok toks (drop_client t s).1, get-remove t tok s.clients) (ground arith)

All-get :
    (tok : ℕ) (m : Dict ℕ Peer) (p : Peer)
    → All (λ e. length e.1.client.outbuf ≤ max_outbuf) m
    → get tok m ≡ some p
    → length p.client.outbuf ≤ max_outbuf
unfolding get
All-get tok [] p h f = cc
All-get tok ((k, c) ∷ m) p (here, h) f = elim (Bool-cases (k == tok)) [
  | inr q ↦ All-get tok m p h (ground (arith, f, q))
  | inl q ↦
      let is : c ≡ p = ground (arith, f, q) in
      subst (λ x. length x.client.outbuf ≤ max_outbuf) is here
]

module _ (writes : ℕ → List WriteAnswer) (topic : Text) (frame : Bytes) where
  -- A client that wants the topic has the frame added to what is left over for it.
  abbrev after : ℕ → Peer → Bytes × Bool
  after tok c = send (writes tok) frame c.client.outbuf

  abbrev touched : ℕ → Peer → Peer
  touched tok c =
      if wants topic c.subscriptions
      then record c { client = record c.client { outbuf = (after tok c).0 } }
      else c

  abbrev is_failed : ℕ → Peer → Bool
  is_failed tok c = wants topic c.subscriptions && not (after tok c).1

  -- One client after a push: gone where its socket fails or too much is left over for it.
  unfoldable pub pushed : ℕ → Peer → Option Peer
  pushed tok c = if is_failed tok c then none else some (touched tok c)

  get-push_to :
      (tok : ℕ) (m : Dict ℕ Peer)
      → get tok (push_to writes topic frame m).0
        ≡ elim (get tok m) [ none ↦ none | some c ↦ some (touched tok c) ]
  unfolding push_to get
  get-push_to tok [] = refl
  get-push_to tok ((k, c) ∷ m) = elim (Bool-cases (k == tok)) [
    | inr q ↦ elim (Bool-cases (wants topic c.subscriptions)) [
      | inl w ↦ rw (w, q) (get-push_to tok m)
      | inr w ↦ rw (w, q) (get-push_to tok m)
    ]
    | inl q ↦
        let same = (==_iff k tok).0 q in
        elim (Bool-cases (wants topic c.subscriptions)) [
          | inl w ↦ rw (w, q, sym same) (ground (arith, w))
          | inr w ↦ rw (w, q, sym same) (ground (arith, w))
        ]
  ]

  named-push_to :
      (n tok : ℕ) (m : Dict ℕ Peer)
      → IsTable n m
      → named tok (push_to writes topic frame m).1
        ≡ elim (get tok m) [ none ↦ false | some c ↦ is_failed tok c ]
  unfolding push_to get IsTable send
  named-push_to n tok [] h = refl
  named-push_to n tok ((k, c) ∷ m) (own, below, once, h) =
      let rest = named-push_to n tok m h in
      elim (Bool-cases (k == tok)) [
        | inr q ↦ rw q (ground (arith, rest, q))
        | inl q ↦
            let same = (==_iff k tok).0 q in
            let missing : get tok m ≡ none = subst (λ t. get t m ≡ none) same once in
            let unnamed : named k (push_to writes topic frame m).1 ≡ false =
              subst (λ t. named t (push_to writes topic frame m).1 ≡ false) (sym same)
                (ground (arith, rest, missing)) in
            rw (q, sym same) (ground (arith, unnamed))
      ]

  pushed_bounded :
      (tok : ℕ) (p c : Peer)
      → length p.client.outbuf ≤ max_outbuf
      → pushed tok p ≡ some c
      → length c.client.outbuf ≤ max_outbuf
  unfolding pushed send
  pushed_bounded tok p c h e = elim (Bool-cases (wants topic p.subscriptions)) [
    | inr w ↦
        let is : p ≡ c = ground (arith, e, w) in
        subst (λ x. length x.client.outbuf ≤ max_outbuf) is h
    | inl w ↦ elim (Bool-cases (after tok p).1) [
      | inr bad ↦ ground (arith, e, w, bad)
      | inl good ↦
          let sent : Peer = record p { client = record p.client { outbuf = (after tok p).0 } } in
          let is : sent ≡ c = ground (arith, e, w, good) in
          subst (λ x. length x.client.outbuf ≤ max_outbuf) is
            (flush_bounded (writes tok) (p.client.outbuf ++ (frame ++ (b'\n' ∷ []))) good)
    ]
  ]

  pub publish-get :
      (tok : ℕ) (s : IpcServer)
      → IsSound s
      → get tok (publish writes topic frame s).clients
        ≡ elim (get tok s.clients) [ none ↦ none | some c ↦ pushed tok c ]
  unfolding publish broadcast pushed
  publish-get tok s (table, few) =
      rw
        (
          drop_all-get tok (push_to writes topic frame s.clients).1
              (record s { clients = (push_to writes topic frame s.clients).0 }),
          get-push_to tok s.clients,
          named-push_to s.next_token tok s.clients table,
        )
        (elim (Option-cases (get tok s.clients)) [ inl n ↦ rw n refl | inr (c, f) ↦ rw f refl ])

  -- After a push no client has more than 4 MiB waiting for it, if none had before.
  publish_backlog :
      (tok : ℕ) (s : IpcServer) (c : Peer)
      → IsSound s
      → All (λ e. length e.1.client.outbuf ≤ max_outbuf) s.clients
      → get tok (publish writes topic frame s).clients ≡ some c
      → length c.client.outbuf ≤ max_outbuf
  publish_backlog tok s c sound h e = elim (Option-cases (get tok s.clients)) [
    | inl n ↦ ground (arith, publish-get tok s sound, n, e)
    | inr (p, f) ↦
        pushed_bounded tok p c (All-get tok s.clients p h f)
          (ground (arith, publish-get tok s sound, f, e))
  ]
