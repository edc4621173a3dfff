-- ===== src/Journal/Classify/Laws.antt =====
-- The first pattern that matches decides, and the number of an Xid line is read back.
use jamsys.Prelude.{
  ℕ, ◌^◌, ◌<◌, ◌≡◌, ◌⊎◌, inl, inr, refl, ap, Bool, true, false, not, none, some, List, [], ◌∷◌,
  ◌++◌, ◌==◌, Bool-cases, Text, codes, All, all, strip_prefix, arith,
}
use jamsys.Prelude.Decimal.{
  to_string, is_digit, read_digits-to_string, all_digits-to_string, to_string-ne-nil,
}
use jamsys.Util.Glob.{glob_match}
use jamsys.Journal.Classify.{
  Classification, Pattern, patterns, classify_by, classify, find, take_digits, parse_u32,
  xid_severity, xid_of, classify_xid,
}

-- A row that does not match.
abbrev pub Misses : Text → Pattern → Type 0
Misses msg p = glob_match p.0 msg ≡ false

-- The table falls into the rows before the one that decides, that row, and the rest.
abbrev pub Decides : List Pattern → Text → Classification → Type 0
Decides table msg c =
    (before : List Pattern) × (glob : Text) × (rest : List Pattern) × (table
      ≡ before ++ (glob, c) ∷ rest)
    × All (Misses msg) before
    × (glob_match glob msg ≡ true)

classify_by_first :
    (table : List Pattern) (msg : Text)
    → ((classify_by table msg ≡ none) × All (Misses msg) table)
      ⊎ ((c : Classification) × (classify_by table msg ≡ some c) × Decides table msg c)
unfolding classify_by
classify_by_first [] msg = inl (refl, tt)
classify_by_first ((glob, c) ∷ rest) msg = elim (Bool-cases (glob_match glob msg)) [
  | inl e ↦ rw e (inr (c, refl, ([], glob, rest, refl, tt, e)))
  | inr e ↦ elim (classify_by_first rest msg) [
    | inl (q, m) ↦ rw e (inl (q, (refl, m)))
    | inr (k, q, (before, g, more, split, m, found)) ↦
        rw e
          (inr (k, q, ((glob, c) ∷ before, g, more, ap (λ t. (glob, c) ∷ t) split, (e, m), found)))
  ]
]

-- A message is classified by the first row of the table whose glob matches it; where no row does, it
-- has no classification.
classify_first :
    (msg : Text)
    → ((classify msg ≡ none) × All (Misses msg) patterns)
      ⊎ ((c : Classification) × (classify msg ≡ some c) × Decides patterns msg c)
unfolding classify
classify_first msg = classify_by_first patterns msg

-- No closing parenthesis.
abbrev pub no_paren : ℕ → Bool
no_paren c = not (c == b')')

find_past :
    (s rest : Text)
    → all no_paren s ≡ true
    → find (codes "): ") (s ++ (codes "): " ++ rest)) ≡ some (codes "): " ++ rest)
unfolding find strip_prefix
find_past [] rest h = refl
find_past (c ∷ s) rest h = ground (arith, find_past s rest)

take_digits-append :
    (s t : Text) → all is_digit s ≡ true → take_digits t ≡ [] → take_digits (s ++ t) ≡ s
unfolding take_digits
take_digits-append [] t h stop = stop
take_digits-append (c ∷ s) t h stop = ground (arith, take_digits-append s t)

parse_u32-to_string : (code : ℕ) → code < 2 ^ 32 → parse_u32 (to_string code) ≡ some code
unfolding parse_u32
parse_u32-to_string code small =
    let (c, s, cons) = to_string-ne-nil code in ground (arith, cons, read_digits-to_string code)

xid_of-reads :
    (code : ℕ) (after : Text)
    → code < 2 ^ 32
    → take_digits after ≡ []
    → xid_of (codes "): " ++ (to_string code ++ after)) ≡ (some code, xid_severity code)
unfolding xid_of
xid_of-reads code after small stop = rw (
  xid_of,
  take_digits-append (to_string code) after (all_digits-to_string code) stop,
  parse_u32-to_string code small,
)

-- The number of an Xid line, in the form that the driver prints, is read back, and decides the
-- severity.
classify_xid_reads :
    (pci after : Text) (code : ℕ)
    → all no_paren pci ≡ true
    → take_digits after ≡ []
    → code < 2 ^ 32
    → classify_xid (codes "NVRM: Xid (PCI:" ++ (pci ++ (codes "): " ++ (to_string code ++ after))))
      ≡ (some code, xid_severity code)
unfolding classify_xid find strip_prefix
classify_xid_reads pci after code clean stop small = rw (
  classify_xid,
  find_past pci (to_string code ++ after) clean,
  xid_of-reads code after small stop,
)
