-- ===== src/Util/Glob/Spec.antt =====
-- What a glob means: `*` stands for any run of characters and `?` for one.
use jamsys.Prelude.{
  ℕ, ◌≡◌, ◌≢◌, ◌⊎◌, inl, inr, refl, Bool, true, false, ◌&&◌, ◌||◌, [], ◌∷◌, ◌==◌, if◌then◌else◌,
  All, Text, arith, Bool-cases,
}

pub data Matches : Text → Text → Type 0 where
  matches_end : Matches [] []
  matches_char :
      {d c : ℕ} {p t : Text} → ((d ≡ c) ⊎ (d ≡ b'?')) → Matches p t → Matches (d ∷ p) (c ∷ t)
  matches_skip : {d : ℕ} {p t : Text} → d ≡ b'*' → Matches p t → Matches (d ∷ p) t
  matches_take : {d c : ℕ} {p t : Text} → d ≡ b'*' → Matches (d ∷ p) t → Matches (d ∷ p) (c ∷ t)

-- No text of the matcher's input holds the character `*` itself.
abbrev pub NoStar : Text → Type 0
NoStar = All (λ c. c ≢ b'*')

-- The relation as a recursive test; a `*` of the pattern is never read as a plain character.
unfoldable pub matches : Text → Text → Bool
matches [] [] = true
matches [] (c ∷ t) = false
matches (d ∷ p) [] = d == b'*' && matches p []
matches (d ∷ p) (c ∷ t) =
    if d == b'*'
    then matches p (c ∷ t) || matches (d ∷ p) t
    else ((d == b'?' || d == c) && matches p t)

pub matches-Matches : (p t : Text) → matches p t ≡ true → Matches p t
unfolding matches
matches-Matches [] [] h = matches_end
matches-Matches [] (c ∷ t) h = ground arith
matches-Matches (d ∷ p) [] h = matches_skip (ground arith) (matches-Matches p [] (ground arith))
matches-Matches (d ∷ p) (c ∷ t) h = elim (Bool-cases (d == b'*')) [
  | inl e ↦ elim (Bool-cases (matches p (c ∷ t))) [
    | inl m ↦ matches_skip (ground arith) (matches-Matches p (c ∷ t) m)
    | inr m ↦ matches_take (ground arith) (matches-Matches (d ∷ p) t (ground arith))
  ]
  | inr e ↦ matches_char (ground arith) (matches-Matches p t (ground arith))
]

matches-skip : (d : ℕ) (p t : Text) → d ≡ b'*' → matches p t ≡ true → matches (d ∷ p) t ≡ true
unfolding matches
matches-skip d p [] e m = ground arith
matches-skip d p (c ∷ t) e m = ground arith

pub Matches-matches : {p t : Text} → NoStar t → Matches p t → matches p t ≡ true
unfolding matches
Matches-matches n matches_end = refl
Matches-matches n (matches_char {d = d} {c = c} {p = p} {t = t} e m) =
    ground (arith, Matches-matches n.1 m)
Matches-matches n (matches_skip {d = d} {p = p} {t = t} e m) =
    matches-skip d p t e (Matches-matches n m)
Matches-matches n (matches_take {d = d} {c = c} {p = p} {t = t} e m) =
    ground (arith, Matches-matches n.1 m)
