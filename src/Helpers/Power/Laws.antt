-- ===== src/Helpers/Power/Laws.antt =====
-- What jamsys-power can write.
use jamsys.Prelude.{
  ℕ, ◌≤◌, ◌≡◌, ◌≢◌, ◌⊎◌, inl, inr, refl, sym, subst, Bool, true, some, List, [], ◌∷◌, ◌++◌, ◌==◌,
  Bool-cases, Option-cases, Text, codes, text_eq, arith,
}
use jamsys.Prelude.Decimal.{
  to_string, read_digits-to_string, all_digits-to_string, to_string-ne-nil,
}
use jamsys.Prelude.Results.{ok, Result-cases}
use jamsys.Helpers.Power.{
  parse_u8, arg_u8, parse, Machine, first_of, find_battery, batteries, attr, Exit, perform, main,
  min_limit, max_limit,
}

-- A limit between 20 and 100 is what its command line parses to.
pub parse-limit :
    (v : ℕ) → min_limit ≤ v → v ≤ max_limit → parse (codes "charge-limit" ∷ to_string v ∷ []) ≡ ok v
unfolding parse arg_u8 parse_u8 text_eq
parse-limit v low high =
    let (c, s, cons) = to_string-ne-nil v in
    ground (arith, read_digits-to_string v, all_digits-to_string v, cons)

arg_u8_accepts :
    (s : Text) (lo hi : ℕ) (name : Text) (v : ℕ) → arg_u8 s lo hi name ≡ ok v → (lo ≤ v) × (v ≤ hi)
unfolding arg_u8 parse_u8
arg_u8_accepts s lo hi name v h = ground arith

parse_range : (args : List Text) (v : ℕ) → parse args ≡ ok v → (min_limit ≤ v) × (v ≤ max_limit)
unfolding parse
parse_range [] v h = cc
parse_range (s ∷ []) v h = cc
parse_range (s ∷ a ∷ []) v h =
    ground (arith, arg_u8_accepts a min_limit max_limit (codes "limit") v)
parse_range (s ∷ a ∷ b ∷ rest) v h = cc

-- The threshold of a listed battery.
abbrev pub IsThreshold : Text → List Text → Type 0
IsThreshold path [] = ⊥
IsThreshold path (b ∷ bs) = (path ≡ b ++ b'/' ∷ attr) ⊎ IsThreshold path bs

first_of-IsThreshold :
    (exists : Text → Bool) (bs : List Text) (path : Text)
    → first_of exists bs ≡ some path
    → IsThreshold path bs × (exists path ≡ true)
unfolding first_of
first_of-IsThreshold exists [] path h = cc
first_of-IsThreshold exists (b ∷ bs) path h = elim (Bool-cases (exists (b ++ b'/' ∷ attr))) [
  | inl e ↦ let here : path ≡ b ++ b'/' ∷ attr = ground arith in (inl here, rw here e)
  | inr e ↦ let (p, q) = first_of-IsThreshold exists bs path (ground arith) in (inr p, q)
]

-- A run that writes nothing, and does not report success.
abbrev pub Refused : Exit → Type 0
Refused e = (e.writes ≡ []) × (e.code ≢ 0)

-- A run by root that writes the limit, once, into the threshold of a listed battery that is there, and
-- reports success.
abbrev pub Written : Machine → ℕ → Exit → Type 0
Written m v e =
    (path : Text) × IsThreshold path batteries
    × (m.exists path ≡ true)
    × (m.euid ≡ 0)
    × (e.code ≡ 0)
    × (e.writes ≡ (path, to_string v) ∷ [])

perform_writes : (m : Machine) (v : ℕ) → Refused (perform m v) ⊎ Written m v (perform m v)
unfolding perform find_battery
perform_writes m v = elim (Bool-cases (m.euid == 0)) [
  | inr e ↦ rw e (inl (refl, ground arith))
  | inl e ↦ elim (Option-cases (first_of m.exists batteries)) [
    | inl n ↦ rw (e, n) (inl (refl, ground arith))
    | inr (path, f) ↦
        let (p, q) = first_of-IsThreshold m.exists batteries path f in
        elim (Bool-cases (m.writable path)) [
          | inr w ↦ rw (e, f, w) (inl (refl, ground arith))
          | inl w ↦ rw (e, f, w) (inr (path, p, q, ground arith, refl, refl))
        ]
  ]
]

main-perform :
    (m : Machine) (s : Text) (args : List Text) (v : ℕ)
    → parse (s ∷ args) ≡ ok v
    → main m (s ∷ args) ≡ perform m v
unfolding main
main-perform m s args v e = rw (main, e)

-- Whatever the arguments and the machine, a run either writes nothing and reports a failure, or is
-- root's, writes the limit that the arguments spell, between 20 and 100, once, into the charge
-- threshold of one of the listed batteries that is there, and reports success.
pub power_writes :
    (m : Machine) (args : List Text)
    → Refused (main m args)
      ⊎ ((v : ℕ) × (parse args ≡ ok v)
          × (min_limit ≤ v)
          × (v ≤ max_limit)
          × Written m v (main m args))
unfolding main
power_writes m [] = inl (refl, ground arith)
power_writes m (s ∷ args) = elim (Result-cases (parse (s ∷ args))) [
  | inl (v, e) ↦
      let (low, high) = parse_range (s ∷ args) v e in
      subst
        (λ r.
          Refused r
          ⊎ ((v : ℕ) × (parse (s ∷ args) ≡ ok v)
              × (min_limit ≤ v)
              × (v ≤ max_limit)
              × Written m v r))
        (sym (main-perform m s args v e))
        (elim (perform_writes m v) [
          | inl kept ↦ inl kept
          | inr wrote ↦ inr (v, e, low, high, wrote)
        ])
  | inr (q, e) ↦ rw (main, e) (inl (refl, ground arith))
]
