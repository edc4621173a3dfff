-- ===== src/Util/Glob/Laws.antt =====
-- `glob_match` decides the glob relation on every text that holds no `*`, and always ends.
use jamsys.Prelude.{
  ℕ, zero, suc, ◌+◌, ◌≤◌, ◌<◌, ◌≡◌, ◌⊎◌, ◌↔◌, inl, inr, refl, ap, ◌∙◌, Bool, true, false, ◌-◌,
  Option, none, some, [], ◌∷◌, length, drop, get_elem?, Text, arith, unwrap_or,
}
use jamsys.Util.Glob.Spec.{
  NoStar, Matches, matches_skip, matches_take, matches_end, matches, matches-Matches,
  Matches-matches,
}
use jamsys.Util.Glob.Suffix.{Mark, retry, loop, Room, loop_lem, loop_total}
use jamsys.Util.Glob.{glob_loop, glob_fuel, glob_match, ascii_lower, to_ascii_lowercase}

drop-cases :
    (i : ℕ) (xs : Text)
    → ((get_elem? xs i ≡ none) × (drop i xs ≡ []))
      ⊎ ((x : ℕ) × (get_elem? xs i ≡ some x) × (drop i xs ≡ x ∷ drop (i + 1) xs) × (i < length xs))
drop-cases zero [] = inl (refl, refl)
drop-cases (suc i) [] = inl (refl, refl)
drop-cases zero (x ∷ xs) = inr (x, refl, refl, omega arith)
drop-cases (suc i) (x ∷ xs) = elim (drop-cases i xs) [
  | inl e ↦ inl e
  | inr (y, g, e, h) ↦
      let n : suc i + 1 ≡ suc (i + 1) = omega arith in inr (y, g, rw n e, omega arith)
]

drop-suc : (i : ℕ) (xs : Text) → i < length xs → (x : ℕ) × (drop i xs ≡ x ∷ drop (i + 1) xs)
drop-suc i xs h = elim (drop-cases i xs) [
  | inr (x, g, e, _) ↦ (x, e)
  | inl (g, e) ↦ absurd (past i xs h e)
]
  where
    past : (i : ℕ) (xs : Text) → i < length xs → drop i xs ≡ [] → ⊥
    past i [] h e = omega arith
    past zero (x ∷ xs) h e = cc
    past (suc i) (x ∷ xs) h e = past i xs (omega arith) e

abbrev view : Text → Text → Option ℕ → ℕ → Mark
view p t none mark = none
view p t (some s) mark = some (drop (s + 1) p, drop mark t)

-- The indices of the code name the texts that are left.
glob_loop-loop :
    (f : ℕ) (p t : Text) (pi ti : ℕ) (star : Option ℕ) (mark : ℕ)
    → mark ≤ ti
    → glob_loop f p t pi ti star mark ≡ loop f (drop pi p) (drop ti t) (view p t star mark)
unfolding glob_loop loop
glob_loop-loop zero p t pi ti star mark h = refl
glob_loop-loop (suc f) p t pi ti star mark h = elim (drop-cases ti t) [
  | inl (g, e) ↦ ground arith
  | inr (c, g, e, lt) ↦
      let step = glob_loop-loop f p t (pi + 1) (ti + 1) star mark (omega arith) in
      let open_star = glob_loop-loop f p t (pi + 1) ti (some pi) ti (omega arith) in
      let again =
        back star (omega arith)
          (λ s. glob_loop-loop f p t (s + 1) (mark + 1) (some s) (mark + 1) (omega arith)) in
      elim (drop-cases pi p) [
        | inl (gp, ep) ↦ ground (arith, again)
        | inr (d, gp, ep, _) ↦ ground (arith, step, open_star, again)
      ]
]
  where
    back :
        (st : Option ℕ)
        → mark < length t
        → ((s : ℕ)
            → glob_loop f p t (s + 1) (mark + 1) (some s) (mark + 1)
              ≡ loop f (drop (s + 1) p) (drop (mark + 1) t) (view p t (some s) (mark + 1)))
        → (elim st [
          | none ↦ some false
          | some s ↦ glob_loop f p t (s + 1) (mark + 1) (some s) (mark + 1)
        ])
          ≡ retry (loop f) (view p t st mark)
    back none lt ih = refl
    back (some s) lt ih = let (x, e) = drop-suc mark t lt in rw e (ih s)

start : (p t : Text) → Room (glob_fuel p t) (length t) (length p + length t + 1) p t none
unfolding glob_fuel
start p t = omega arith

-- The loop of `glob_match` always ends: for every pattern and text the fuel is enough for a verdict.
pub glob_loop_total :
    (p t : Text) → (r : Bool) × (glob_loop (glob_fuel p t) p t 0 0 none 0 ≡ some r)
glob_loop_total p t =
    rw (glob_loop-loop (glob_fuel p t) p t 0 0 none 0 (omega arith))
      (loop_total (glob_fuel p t) (length t) (length p + length t + 1) p t none (start p t))

lower-NoStar : (t : Text) → NoStar t → NoStar (to_ascii_lowercase t)
unfolding to_ascii_lowercase
lower-NoStar [] n = tt
lower-NoStar (c ∷ t) n = (λ e. ground (arith, n.0), lower-NoStar t n.1)

glob_match-matches :
    (p t : Text) → NoStar t → glob_match p t ≡ matches (to_ascii_lowercase p) (to_ascii_lowercase t)
unfolding glob_match
glob_match-matches p t n =
    let p' = to_ascii_lowercase p in
    let t' = to_ascii_lowercase t in
    let e = glob_loop-loop (glob_fuel p' t') p' t' 0 0 none 0 (omega arith) in
    let v =
      loop_lem (glob_fuel p' t') (length t') (length p' + length t' + 1) p' t' none
        (lower-NoStar t n) tt (start p' t') in
    ground (arith, e, v)

-- On a text that holds no `*` of its own, `glob_match` answers `true` exactly when the pattern
-- matches the text, letter case aside.
pub glob_match_iff :
    (p t : Text)
    → NoStar t
    → (glob_match p t ≡ true) ↔ Matches (to_ascii_lowercase p) (to_ascii_lowercase t)
glob_match_iff p t n = (
  λ h. matches-Matches _ _ (rw (glob_match-matches p t n) at h),
  λ m. rw (glob_match-matches p t n) (Matches-matches (lower-NoStar t n) m),
)

Matches-any : (t : Text) → Matches (b'*' ∷ []) t
Matches-any [] = matches_skip refl matches_end
Matches-any (c ∷ t) = matches_take refl (Matches-any t)

two_rounds :
    (f x : ℕ) (y : Text)
    → glob_loop (suc (suc f)) (b'*' ∷ []) (b'*' ∷ x ∷ y) 0 0 none 0 ≡ some false
unfolding glob_loop
two_rounds f x y = refl

-- The pattern `*` is refused on every longer text that begins with `*`, though it stands for any
-- text: the `*` of the pattern is taken for a plain character.
pub glob_match_literal_star :
    (c : ℕ) (t : Text)
    → (glob_match (b'*' ∷ []) (b'*' ∷ c ∷ t) ≡ false)
      × Matches (to_ascii_lowercase (b'*' ∷ [])) (to_ascii_lowercase (b'*' ∷ c ∷ t))
unfolding glob_match
glob_match_literal_star c t =
    let t' = to_ascii_lowercase (b'*' ∷ c ∷ t) in
    let n = glob_fuel (b'*' ∷ []) t' in
    let e : n ≡ suc (suc (n - 2)) = omega arith in
    (
      ap (unwrap_or false) (
          ap (λ f. glob_loop f (b'*' ∷ []) t' 0 0 none 0) e
          ∙ two_rounds (n - 2) (ascii_lower c) (to_ascii_lowercase t)),
      Matches-any t',
    )
