-- ===== src/Journal/Lines/Laws.antt =====
-- How the bytes are cut into reads and calls does not matter.
use jamsys.Prelude.{
  ℕ, zero, suc, ◌≤◌, ◌<◌, ◌≡◌, refl, ap, sym, ◌∙◌, ◌==◌, Option, none, some, List, [], ◌∷◌, ◌++◌,
  if◌then◌else◌, length, length-append, append_assoc, append-nil, inl, inr, Option-cases,
  Bool-cases, arith,
}
use jamsys.Journal.Lines.{
  Bytes, max_buffer, first_line, extend, extend_all, keep, drain, read_entries,
}

-- The whole input, and the lines it consists of: what ends at a newline, and the rest.
unfoldable pub lines : Bytes → List Bytes × Bytes
lines [] = ([], [])
lines (b ∷ s) =
    let (out, left) = lines s in
    if b == b'\n'
    then ([] ∷ out, left)
    else elim out [ [] ↦ ([], b ∷ left) | line ∷ more ↦ ((b ∷ line) ∷ more, left) ]

first_line-lines-none : (s : Bytes) → first_line s ≡ none → lines s ≡ ([], s)
unfolding first_line lines
first_line-lines-none [] h = refl
first_line-lines-none (b ∷ s) h = ground (arith, first_line-lines-none s)

first_line-lines-some :
    (s line rest : Bytes)
    → first_line s ≡ some (line, rest)
    → ((lines s).0 ≡ line ∷ (lines rest).0)
      × ((lines s).1 ≡ (lines rest).1)
      × (length rest < length s)
unfolding first_line lines
first_line-lines-some [] line rest h = cc
first_line-lines-some (b ∷ s) line rest h = elim (Bool-cases (b == b'\n')) [
  | inl e ↦ ground arith
  | inr e ↦ elim (Option-cases (first_line s)) [
    | inl n ↦ ground arith
    | inr ((l, r), f) ↦
        let ih = first_line-lines-some s l r f in
        let cut : (line ≡ b ∷ l) × (rest ≡ r) = ground arith in ground (arith, ih, cut)
  ]
]

-- Cutting the input anywhere: what is left of the first part begins the second.
lines-append :
    (s t : Bytes)
    → ((lines (s ++ t)).0 ≡ (lines s).0 ++ (lines ((lines s).1 ++ t)).0)
      × ((lines (s ++ t)).1 ≡ (lines ((lines s).1 ++ t)).1)
unfolding lines
lines-append [] t = (refl, refl)
lines-append (b ∷ s) t = elim (Bool-cases (b == b'\n')) [
  | inl e ↦ ground (arith, lines-append s t)
  | inr e ↦ ground (arith, lines-append s t)
]

unfoldable pub join : List Bytes → Bytes
join [] = []
join (c ∷ cs) = c ++ join cs

extend_all-join :
    (buf : Bytes) (cs : List Bytes)
    → length (buf ++ join cs) ≤ max_buffer
    → extend_all buf cs ≡ buf ++ join cs
unfolding extend_all extend join
extend_all-join buf [] h = sym (append-nil buf)
extend_all-join buf (c ∷ cs) h =
    let grown : (buf ++ c) ++ join cs ≡ buf ++ (c ++ join cs) = append_assoc buf c (join cs) in
    let small : length (buf ++ c) ≤ max_buffer =
      omega (arith, length-append (buf ++ c) (join cs), ap length grown, h) in
    let here : extend buf c ≡ buf ++ c = ground arith in
    rw here (extend_all-join (buf ++ c) cs (rw grown h) ∙ grown)

lines_none : (s : Bytes) → (lines s).0 ≡ [] → (lines s).1 ≡ s
unfolding lines
lines_none [] h = refl
lines_none (b ∷ s) h = ground (arith, lines_none s)

-- What follows the last newline has none.
lines_left : (s : Bytes) → (lines (lines s).1).0 ≡ []
unfolding lines
lines_left [] = refl
lines_left (b ∷ s) = ground (arith, lines_left s, lines_none s)

module _ {ℓ} {E : Type ℓ} (parse : Bytes → Option E) where
  unfoldable pub parse_all : List Bytes → List E
  parse_all [] = []
  parse_all (line ∷ rest) = keep parse line (parse_all rest)

  parse_all-append : (a b : List Bytes) → parse_all (a ++ b) ≡ parse_all a ++ parse_all b
  unfolding parse_all keep
  parse_all-append [] b = refl
  parse_all-append (line ∷ a) b = ground (arith, parse_all-append a b)

  drain-lines :
      (f : ℕ) (s : Bytes) → length s ≤ f → drain parse f s ≡ (parse_all (lines s).0, (lines s).1)
  unfolding drain parse_all lines
  drain-lines zero [] h = refl
  drain-lines zero (b ∷ s) h = absurd (omega arith)
  drain-lines (suc f) s h = elim (Option-cases (first_line s)) [
    | inl n ↦ ground (arith, first_line-lines-none s n)
    | inr (cut, e) ↦
        let first = first_line-lines-some s cut.0 cut.1 e in
        let rest = drain-lines f cut.1 (omega (arith, first)) in ground (arith, first, rest)
  ]

  -- One call after another, each with the parts that it reads.
  unfoldable pub calls : List (List Bytes) → Bytes → List E × Bytes
  calls [] buf = ([], buf)
  calls (chunks ∷ more) buf =
      let (out, left) = read_entries parse chunks buf in
      let (rest, end) = calls more left in (out ++ rest, end)

unfoldable pub join_all : List (List Bytes) → Bytes
join_all [] = []
join_all (chunks ∷ more) = join chunks ++ join_all more

-- No call finds more in the buffer than it holds.
abbrev pub Fits : List (List Bytes) → Bytes → Type 0
Fits [] buf = Unit {0}
Fits (chunks ∷ more) buf =
    (length (buf ++ join chunks) ≤ max_buffer) × Fits more (lines (buf ++ join chunks)).1

module _ {ℓ} {E : Type ℓ} (parse : Bytes → Option E) where
  read_entries-lines :
      (chunks : List Bytes) (buf : Bytes)
      → length (buf ++ join chunks) ≤ max_buffer
      → read_entries parse chunks buf
        ≡ (parse_all parse (lines (buf ++ join chunks)).0, (lines (buf ++ join chunks)).1)
  unfolding read_entries
  read_entries-lines chunks buf h =
      rw (extend_all-join buf chunks h) (drain-lines parse _ (buf ++ join chunks) (omega arith))

  calls-from :
      (cs : List (List Bytes)) (buf : Bytes)
      → Fits cs buf
      → (lines buf).0 ≡ []
      → calls parse cs buf
        ≡ (parse_all parse (lines (buf ++ join_all cs)).0, (lines (buf ++ join_all cs)).1)
  unfolding calls join_all parse_all
  calls-from [] buf h clean = rw (append-nil buf) (ground (arith, lines_none buf clean))
  calls-from (chunks ∷ more) buf h clean =
      let here = buf ++ join chunks in
      let first = read_entries-lines chunks buf h.0 in
      let rest = calls-from more (lines here).1 h.1 (lines_left here) in
      let cut = lines-append here (join_all more) in
      rw (← append_assoc buf (join chunks) (join_all more), first, rest, cut.0, cut.1)
        (ground (
          arith,
          parse_all-append parse (lines here).0 (lines ((lines here).1 ++ join_all more)).0,
        ))

  -- However the input is cut into reads, and the reads into calls, so long as no call finds more than
  -- a mebibyte, the calls together give the entries of its lines, in order, and keep what follows the
  -- last newline.
  pub calls-lines :
      (cs : List (List Bytes))
      → Fits cs []
      → calls parse cs [] ≡ (parse_all parse (lines (join_all cs)).0, (lines (join_all cs)).1)
  unfolding lines
  calls-lines cs h = calls-from cs [] h refl
