-- ===== src/Ipc/Client/Laws.antt =====
-- Every complete line is taken.
use jamsys.Prelude.{
  ℕ, zero, suc, ◌≤◌, ◌<◌, ◌≡◌, refl, none, some, List, [], ◌∷◌, length, inl, inr, Option-cases,
  arith,
}
use jamsys.Prelude.Results.{ok}
use jamsys.Ipc.Client.{Bytes, Line, WriteAnswer, Client, first_line, take_line, take_lines}

pub length-first_line :
    (s line rest : Bytes) → first_line s ≡ some (line, rest) → length rest < length s
unfolding first_line
length-first_line [] line rest h = cc
length-first_line (b ∷ s) line rest h = elim (Option-cases (first_line s)) [
  | inl n ↦ ground arith
  | inr (cut, e) ↦ ground (arith, length-first_line s cut.0 cut.1 e)
]

pub first_line_nil : (s : Bytes) → length s ≤ 0 → first_line s ≡ none
unfolding first_line
first_line_nil [] h = refl
first_line_nil (b ∷ s) h = absurd (omega (arith, h))

module _ {ℓ} {R : Type ℓ} (understand : Bytes → Line R) (writes : Bytes → List WriteAnswer) where
  -- With the length of the buffer for fuel, what is left in the end holds no complete line.
  pub take_lines_done :
      (f : ℕ) (out : List R) (b : Client) (rs : List R) (after : Client)
      → length b.inbuf ≤ f
      → take_lines understand writes f out b ≡ ok (rs, after)
      → first_line after.inbuf ≡ none
  unfolding take_lines
  take_lines_done zero out b rs after h e = ground (arith, first_line_nil b.inbuf h, e)
  take_lines_done (suc f) out b rs after h e = elim (Option-cases (first_line b.inbuf)) [
    | inl n ↦ ground (arith, n, e)
    | inr (cut, c) ↦
        let less = length-first_line b.inbuf cut.0 cut.1 c in
        let taken = take_line understand writes cut.0 out b.outbuf in
        let next : Client = record b { inbuf = cut.1; outbuf = taken.1 } in
        take_lines_done f taken.0 next rs after (omega (arith, h, less)) (ground (arith, c, e))
  ]
