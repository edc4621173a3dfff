-- ===== src/Ipc/Server/Table.antt =====
-- The table of connections: every client once, under its own token.
use jamsys.Prelude.{
  ◌⊎◌, subst, ap, nat_is_eq, ℕ, ◌+◌, ◌≤◌, ◌<◌, true, ◌≡◌, refl, ◌==◌, Option, none, some, [], ◌∷◌,
  leb, length, inl, inr, Bool-cases, arith, ==_iff,
}
use jamsys.Prelude.Dict.{Dict, get, insert, remove, get-insert, get-remove, length-remove-le}
use jamsys.Ipc.Server.{Peer, IpcServer, max_clients, is_abandoned, older, oldest}

-- Every client stands once, under its own token, and these tokens are below `n`.
unfoldable pub IsTable : ℕ → Dict ℕ Peer → Type 0
IsTable n [] = Unit
IsTable n ((tok, c) ∷ m) = (c.token ≡ tok) × (tok < n) × (get tok m ≡ none) × IsTable n m

abbrev pub IsSound : IpcServer → Type 0
IsSound s = IsTable s.next_token s.clients × (length s.clients ≤ max_clients)

pub get_below : (n tok : ℕ) (m : Dict ℕ Peer) → IsTable n m → n ≤ tok → get tok m ≡ none
unfolding IsTable get
get_below n tok [] h le = refl
get_below n tok ((k, c) ∷ m) (own, below, once, h) le =
    ground (arith, get_below n tok m h le, ==_iff k tok)

pub remove-IsTable : (n k : ℕ) (m : Dict ℕ Peer) → IsTable n m → IsTable n (remove k m)
unfolding IsTable remove
remove-IsTable n k [] h = tt
remove-IsTable n k ((tok, c) ∷ m) (own, below, once, h) =
    let rest = remove-IsTable n k m h in
    elim (Bool-cases (tok == k)) [
      | inl q ↦ rw q rest
      | inr q ↦ rw q (own, below, ground (arith, get-remove k tok m, once), rest)
    ]

pub insert-IsTable :
    (n : ℕ) (p : Peer) (m : Dict ℕ Peer)
    → p.token ≡ n
    → IsTable n m
    → IsTable (n + 1) (insert n p m)
unfolding IsTable insert get
insert-IsTable n p [] q h = (q, omega arith, refl, tt)
insert-IsTable n p ((tok, c) ∷ m) q (own, below, once, h) = elim (Bool-cases (tok == n)) [
  | inl same ↦ absurd (omega (arith, below, (==_iff tok n).0 same))
  | inr differ ↦ rw differ (
    own,
    omega (arith, below),
    ground (arith, get-insert n tok p m, once, differ, ==_iff n tok, ==_iff tok n),
    insert-IsTable n p m q h,
  )
]

pub length-remove_found :
    (k : ℕ) (c : Peer) (m : Dict ℕ Peer) → get k m ≡ some c → length (remove k m) < length m
unfolding get remove
length-remove_found k c [] h = cc
length-remove_found k c ((tok, p) ∷ m) h = elim (Bool-cases (tok == k)) [
  | inl q ↦ rw q (omega (arith, length-remove-le k m))
  | inr q ↦ rw q (omega (arith, length-remove_found k c m (ground (arith, h, q))))
]

older_cases : (p : Peer) (o : Option Peer) → (older p o ≡ p) ⊎ (o ≡ some (older p o))
unfolding older
older_cases p none = inl refl
older_cases p (some other) =
    elim (Bool-cases (leb p.client.last_active_mono other.client.last_active_mono)) [
      | inl q ↦ inl (rw q refl)
      | inr q ↦ inr (rw q refl)
    ]

get_later :
    (tok : ℕ) (p c : Peer) (m : Dict ℕ Peer)
    → get tok m ≡ none
    → get c.token m ≡ some c
    → get c.token ((tok, p) ∷ m) ≡ some c
unfolding get
get_later tok p c m once found = elim (Bool-cases (tok == c.token)) [
  | inl q ↦ let same = (==_iff tok c.token).0 q in cc (same, once, found)
  | inr q ↦ rw q found
]

get_head :
    (tok : ℕ) (p c : Peer) (m : Dict ℕ Peer)
    → p.token ≡ tok
    → p ≡ c
    → get c.token ((tok, p) ∷ m) ≡ some c
unfolding get
get_head tok p c m own same = ground (arith, own, same, ==_iff tok c.token, ap (λ x. x.token) same)

-- The victim is one of the clients, and an abandoned one.
pub oldest_found :
    (n now : ℕ) (m : Dict ℕ Peer) (c : Peer)
    → IsTable n m
    → oldest now m ≡ some c
    → (get c.token m ≡ some c) × (is_abandoned now c ≡ true)
unfolding IsTable oldest
oldest_found n now [] c h e = cc
oldest_found n now ((tok, p) ∷ m) c (own, below, once, h) e =
    elim (Bool-cases (is_abandoned now p)) [
      | inr q ↦
          let (found, gone) = oldest_found n now m c h (ground (arith, e, q)) in
          (get_later tok p c m once found, gone)
      | inl q ↦
          let taken : some (older p (oldest now m)) ≡ some c = ground (arith, e, q) in
          elim (older_cases p (oldest now m)) [
            | inl same ↦
                let is : p ≡ c = cc (same, taken) in
                (get_head tok p c m own is, subst (λ x. is_abandoned now x ≡ true) is q)
            | inr other ↦
                let (found, gone) = oldest_found n now m c h cc (other, taken) in
                (get_later tok p c m once found, gone)
          ]
    ]
