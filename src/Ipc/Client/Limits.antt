-- ===== src/Ipc/Client/Limits.antt =====
-- Which requests are too long, however their bytes arrive.
use jamsys.Prelude.{
  ◌∙◌, ℕ, zero, suc, ◌+◌, ◌≤◌, ◌≡◌, ◌==◌, refl, Bool, true, false, ◌&&◌, none, some, List, [], ◌∷◌,
  ◌++◌, length, inl, inr, Bool-cases, Option-cases, arith, ltb, leb, if◌then◌else◌, append_assoc,
  append-nil, length-append, subst, sym,
}
use jamsys.Prelude.Results.{Result, ok, err, Result-cases}
use jamsys.Ipc.Client.{
  Bytes, Drop, Line, ReadAnswer, chunk, closed, would_block, interrupted, read_failed, WriteAnswer,
  Client, max_line, max_inbuf, has_newline, tail_len, fill, first_line, take_line, take_lines,
  read_requests,
}
use jamsys.Ipc.Client.Laws.{length-first_line, first_line_nil}

-- No line is longer than a request may be, the last and unfinished one included; `n` bytes of the first
-- line went before.
unfoldable pub fits : ℕ → Bytes → Bool
fits n [] = leb n max_line
fits n (b ∷ s) =
    let next = fits 0 s in
    let on = fits (n + 1) s in if b == b'\n' then leb n max_line && next else on

-- What stands in the buffer when the socket has no more.
unfoldable pub received : List ReadAnswer → Bytes → Bytes
received [] s = s
received (chunk c ∷ answers) s = received answers (s ++ c)
received (closed ∷ answers) s = s
received (would_block ∷ answers) s = s
received (interrupted ∷ answers) s = received answers s
received (read_failed ∷ answers) s = s

-- The peer is still there, and the socket works.
unfoldable pub is_alive : List ReadAnswer → Bool
is_alive [] = true
is_alive (chunk c ∷ answers) = is_alive answers
is_alive (closed ∷ answers) = false
is_alive (would_block ∷ answers) = true
is_alive (interrupted ∷ answers) = is_alive answers
is_alive (read_failed ∷ answers) = false

tail_len_whole : (s : Bytes) → has_newline s ≡ false → tail_len s ≡ length s
unfolding tail_len
tail_len_whole [] h = refl
tail_len_whole (b ∷ s) h = ground (arith, h)

fits_start : (n : ℕ) (t : Bytes) → fits n t ≡ true → n ≤ max_line
unfolding fits
fits_start n [] h = ground (arith, h)
fits_start n (b ∷ t) h = ground (arith, h, fits_start (n + 1) t)

fits-append :
    (n : ℕ) (s t : Bytes)
    → fits n (s ++ t) ≡ true
    → (if has_newline s then tail_len s else n + length s) ≤ max_line
unfolding fits tail_len
fits-append n [] t h = ground (arith, fits_start n t h)
fits-append n (b ∷ s) t h = elim (Bool-cases (b == b'\n')) [
  | inl q ↦ rw q (ground (arith, h, q, fits-append 0 s t))
  | inr q ↦ rw q (ground (arith, h, q, fits-append (n + 1) s t))
]

fits-tail_len : (s t : Bytes) → fits 0 (s ++ t) ≡ true → tail_len s ≤ max_line
fits-tail_len s t h = ground (arith, fits-append 0 s t h, tail_len_whole s)

fits_no_line :
    (n : ℕ) (s : Bytes)
    → first_line s ≡ none
    → (fits n s ≡ leb (n + length s) max_line) × (has_newline s ≡ false)
unfolding fits first_line
fits_no_line n [] h = ground arith
fits_no_line n (b ∷ s) h = elim (Bool-cases (b == b'\n')) [
  | inl q ↦ ground (arith, h, q)
  | inr q ↦ elim (Option-cases (first_line s)) [
    | inl o ↦ rw q (ground (arith, fits_no_line (n + 1) s o))
    | inr (cut, o) ↦ ground (arith, h, q, o)
  ]
]

first_line_newline : (s line rest : Bytes) → first_line s ≡ some (line, rest) → has_newline s ≡ true
unfolding first_line
first_line_newline [] line rest h = cc
first_line_newline (b ∷ s) line rest h = elim (Option-cases (first_line s)) [
  | inl o ↦ ground (arith, h, o)
  | inr ((cut, left), o) ↦ ground (arith, first_line_newline s cut left o)
]

fits-first_line :
    (n : ℕ) (s line rest : Bytes)
    → first_line s ≡ some (line, rest)
    → (fits n s ≡ (leb (n + length line) max_line && fits 0 rest)) × (tail_len s ≡ tail_len rest)
unfolding fits first_line tail_len
fits-first_line n [] line rest h = cc
fits-first_line n (b ∷ s) line rest h = elim (Bool-cases (b == b'\n')) [
  | inl q ↦
      let (l, r) : (line ≡ []) × (s ≡ rest) = ground (arith, h, q) in
      rw (q, l, sym r) (ground (arith, tail_len_whole s))
  | inr q ↦ elim (Option-cases (first_line s)) [
    | inl o ↦ ground (arith, h, q, o)
    | inr ((cut, left), o) ↦
        let ih = fits-first_line (n + 1) s cut left o in
        let (l, r) : (b ∷ cut ≡ line) × (left ≡ rest) = ground (arith, h, q, o) in
        rw (q, sym l, sym r) (ground (arith, ih, first_line_newline s cut left o))
  ]
]

received_more :
    (answers : List ReadAnswer) (s : Bytes) → (t : Bytes) × (received answers s ≡ s ++ t)
unfolding received
received_more [] s = ([], sym (append-nil s))
received_more (chunk c ∷ answers) s =
    let (t, e) = received_more answers (s ++ c) in (c ++ t, e ∙ append_assoc s c t)
received_more (closed ∷ answers) s = ([], sym (append-nil s))
received_more (would_block ∷ answers) s = ([], sym (append-nil s))
received_more (interrupted ∷ answers) s = received_more answers s
received_more (read_failed ∷ answers) s = ([], sym (append-nil s))

-- A buffer that will fit fits as far as it is there, and so does its size.
fits_so_far :
    (answers : List ReadAnswer) (s : Bytes)
    → fits 0 (received answers s) ≡ true
    → tail_len s ≤ max_line
fits_so_far answers s h =
    let (t, e) = received_more answers s in fits-tail_len s t (subst (λ r. fits 0 r ≡ true) e h)

length-received : (answers : List ReadAnswer) (s : Bytes) → length s ≤ length (received answers s)
length-received answers s =
    let (t, e) = received_more answers s in rw e (ground (arith, length-append s t))

fill_fits :
    (answers : List ReadAnswer) (s : Bytes)
    → is_alive answers ≡ true
    → length (received answers s) ≤ max_inbuf
    → fits 0 (received answers s) ≡ true
    → fill answers s ≡ ok (received answers s)
unfolding fill received is_alive
fill_fits [] s a le h = refl
fill_fits (chunk c ∷ answers) s a le h = ground (
  arith,
  fits_so_far answers (s ++ c) h,
  length-received answers (s ++ c),
  le,
  fill_fits answers (s ++ c) a le h,
)
fill_fits (closed ∷ answers) s a le h = cc
fill_fits (would_block ∷ answers) s a le h = refl
fill_fits (interrupted ∷ answers) s a le h = fill_fits answers s a le h
fill_fits (read_failed ∷ answers) s a le h = cc

filled : (s t : Bytes) → tail_len s ≤ max_line → s ≡ t → (s ≡ t) × (tail_len t ≤ max_line)
filled s t h e = (e, subst (λ x. tail_len x ≤ max_line) e h)

fill_ok :
    (answers : List ReadAnswer) (s t : Bytes)
    → tail_len s ≤ max_line
    → fill answers s ≡ ok t
    → (received answers s ≡ t) × (tail_len t ≤ max_line)
unfolding fill received
fill_ok [] s t h e = filled s t h (ground (arith, e))
fill_ok (chunk c ∷ answers) s t h e = elim (Bool-cases (ltb max_line (tail_len (s ++ c)))) [
  | inl q ↦ ground (arith, e, q)
  | inr q ↦ fill_ok answers (s ++ c) t (ground (arith, q)) (ground (arith, e, q))
]
fill_ok (closed ∷ answers) s t h e = cc
fill_ok (would_block ∷ answers) s t h e = filled s t h (ground (arith, e))
fill_ok (interrupted ∷ answers) s t h e = fill_ok answers s t h e
fill_ok (read_failed ∷ answers) s t h e = cc

-- An answer, and not the end of the connection.
abbrev pub is_ok {ℓ} : {A : Type ℓ} → Result Drop A → Bool
is_ok (ok a) = true
is_ok (err e) = false

module _ {ℓ} {R : Type ℓ} (understand : Bytes → Line R) (writes : Bytes → List WriteAnswer) where
  take_lines_fits :
      (f : ℕ) (out : List R) (b : Client)
      → length b.inbuf ≤ f
      → tail_len b.inbuf ≤ max_line
      → is_ok (take_lines understand writes f out b) ≡ fits 0 b.inbuf
  unfolding take_lines
  take_lines_fits zero out b le tl =
      ground (arith, fits_no_line 0 b.inbuf (first_line_nil b.inbuf le), le)
  take_lines_fits (suc f) out b le tl = elim (Option-cases (first_line b.inbuf)) [
    | inl n ↦
        let (whole, cut) = fits_no_line 0 b.inbuf n in
        ground (arith, n, whole, tail_len_whole b.inbuf cut, tl)
    | inr ((line, rest), o) ↦
        let (cut, tail) = fits-first_line 0 b.inbuf line rest o in
        let (more, outbuf) = take_line understand writes line out b.outbuf in
        let less = length-first_line b.inbuf line rest o in
        let next =
          take_lines_fits f more (record b { inbuf = rest; outbuf = outbuf })
            (omega (arith, less, le)) (omega (arith, tail, tl)) in
        ground (arith, o, cut, next)
  ]

  -- While the peer stays and its bytes fit the buffer, a call goes well exactly if no line of them,
  -- the unfinished one included, is longer than 64 KiB, in however many pieces they arrive. Otherwise
  -- the client is dropped.
  pub read_requests-fits :
      (now : ℕ) (answers : List ReadAnswer) (b : Client)
      → tail_len b.inbuf ≤ max_line
      → is_alive answers ≡ true
      → length (received answers b.inbuf) ≤ max_inbuf
      → is_ok (read_requests understand writes now answers b) ≡ fits 0 (received answers b.inbuf)
  unfolding read_requests
  read_requests-fits now answers b tl alive le = elim (Result-cases (fill answers b.inbuf)) [
    | inr (e, f) ↦ ground (arith, f, fill_fits answers b.inbuf alive le)
    | inl (t, f) ↦
        let (all_of, tail) = fill_ok answers b.inbuf t tl f in
        let last = if length t == 0 then b.last_active_mono else now in
        let run =
          take_lines_fits (length t) [] (record b { inbuf = t; last_active_mono = last })
            (omega arith) tail in
        rw all_of (ground (arith, f, run))
  ]
