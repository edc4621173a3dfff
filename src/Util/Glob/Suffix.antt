-- ===== src/Util/Glob/Suffix.antt =====
-- The matcher's loop over the texts that are left, in place of indices, and why one remembered `*`
-- is enough: a later `*` absorbs whatever an earlier one could still skip.
use jamsys.Prelude.{
  ℕ, zero, suc, ◌+◌, ◌*◌, ◌≤◌, ◌<◌, ◌≡◌, ◌≢◌, inl, inr, refl, sym, ap, ◌∙◌, Bool, true, false, ◌||◌,
  Option, none, some, [], ◌∷◌, ◌++◌, ◌==◌, if◌then◌else◌, length, drop, Text, arith, Bool-cases,
  ◌-◌, length-drop, length-append, ==_iff, append_assoc, All-append, subst,
}
use jamsys.Util.Glob.Spec.{NoStar, matches}
use jamsys.Util.Glob.{all_stars}

-- The pattern after the last `*` seen, and the text from its mark on.
abbrev pub Mark : Type 0
Mark = Option (Text × Text)

-- Back to the last `*`, which takes one character more.
unfoldable pub retry : (Text → Text → Mark → Option Bool) → Mark → Option Bool
retry rec none = some false
retry rec (some (q, [])) = some false
retry rec (some (q, x ∷ m)) = rec q m (some (q, m))

unfoldable pub loop : ℕ → Text → Text → Mark → Option Bool
unfolding retry
loop zero p t s = none
loop (suc f) p [] s = some (all_stars p)
loop (suc f) [] (c ∷ t) s = retry (loop f) s
loop (suc f) (d ∷ p) (c ∷ t) s =
    let step = loop f p t s in
    let open_star = loop f p (c ∷ t) (some (p, c ∷ t)) in
    let again = retry (loop f) s in
    if d == b'?' || d == c then step else if d == b'*' then open_star else again

-- What a retry could still find: the pattern after the `*` against a proper suffix of the mark.
abbrev pub later : Mark → Bool
later none = false
later (some (q, [])) = false
later (some (q, x ∷ m)) = matches (b'*' ∷ q) m

-- Since the `*`, the loop has consumed as many plain pattern characters as characters of the text.
abbrev pub Since : Mark → Text → Text → Type 0
Since none p t = Unit
Since (some (q, m)) p t =
    (seg : Text) × (w : Text) × (q ≡ seg ++ p)
    × (m ≡ w ++ t)
    × (length seg ≡ length w)
    × NoStar seg
    × NoStar m

matches-nil : (p : Text) → matches p [] ≡ all_stars p
unfolding matches all_stars
matches-nil [] = refl
matches-nil (d ∷ p) = ground (arith, matches-nil p)

-- Plain characters consume one character each.
matches-segment :
    (seg p t : Text)
    → NoStar seg
    → matches (seg ++ p) t ≡ true
    → (length seg ≤ length t) × (matches p (drop (length seg) t) ≡ true)
unfolding matches
matches-segment [] p t n h = (omega arith, h)
matches-segment (d ∷ seg) p [] n h = ground (arith, n.0)
matches-segment (d ∷ seg) p (c ∷ t) n h =
    let m : matches (seg ++ p) t ≡ true = ground (arith, n.0) in
    let (short, rest) = matches-segment seg p t n.1 m in (omega arith, rest)

-- A `*` matches at some suffix, and absorbs whatever stands before a match.
star-suffix :
    (q t : Text)
    → matches (b'*' ∷ q) t ≡ true
    → (k : ℕ) × (k ≤ length t) × (matches q (drop k t) ≡ true)
unfolding matches
star-suffix q [] h = (0, omega arith, h)
star-suffix q (c ∷ t) h = elim (Bool-cases (matches q (c ∷ t))) [
  | inl e ↦ (0, omega arith, e)
  | inr e ↦ let (k, short, m) = star-suffix q t (ground arith) in (suc k, omega arith, m)
]

star-absorb :
    (p t : Text) (k : ℕ) → matches (b'*' ∷ p) (drop k t) ≡ true → matches (b'*' ∷ p) t ≡ true
unfolding matches
star-absorb p t zero h = h
star-absorb p [] (suc k) h = h
star-absorb p (c ∷ t) (suc k) h = ground (arith, star-absorb p t k h)

drop-nil : (n : ℕ) → drop {A = ℕ} n [] ≡ []
drop-nil zero = refl
drop-nil (suc n) = refl

drop-drop : (k n : ℕ) (xs : Text) → drop n (drop k xs) ≡ drop (k + n) xs
drop-drop zero n xs = let e : 0 + n ≡ n = omega arith in rw e
drop-drop (suc k) n [] = drop-nil n ∙ sym (drop-nil (suc k + n))
drop-drop (suc k) n (x ∷ xs) =
    let e : suc k + n ≡ suc (k + n) = omega arith in rw e (drop-drop k n xs)

drop-append : (w t : Text) (j : ℕ) → drop (length w + j) (w ++ t) ≡ drop j t
drop-append [] t j = let e : 0 + j ≡ j = omega arith in rw e
drop-append (x ∷ w) t j =
    let e : suc (length w) + j ≡ suc (length w + j) = omega arith in rw e (drop-append w t j)

-- Whatever the mark could still find, the rest of the pattern finds further on in the rest of the text.
later-rest :
    (s : Mark) (p t : Text)
    → Since s p t
    → later s ≡ true
    → (k : ℕ) × (k < length t) × (matches p (drop (suc k) t) ≡ true)
later-rest none p t i h = cc
later-rest (some (q, [])) p t i h = cc
later-rest (some (q, x ∷ m)) p t (seg, w, eq, em, el, ns, nm) h =
    let (k, short, found) = star-suffix q m h in
    let (fits, rest) = matches-segment seg p (drop k m) ns (rw eq at found) in
    let shift : drop (length seg) (drop k m) ≡ drop (suc k) t =
      drop-drop k (length seg) m
      ∙ ap (λ i. drop i (x ∷ m)) {x = suc (k + length seg)} {y = length w + suc k} (omega arith)
      ∙ ap (drop (length w + suc k)) em
      ∙ drop-append w t (suc k) in
    (k, omega (arith, length-drop k m, ap length em, length-append w t), rw (← shift) rest)

retry-later : (q m : Text) → (matches q m || later (some (q, m))) ≡ matches (b'*' ∷ q) m
unfolding matches
retry-later q [] = ground arith
retry-later q (x ∷ m) = refl

mul-pred : (b k : ℕ) → 0 < b → b * k ≡ (b - 1) * k + k
mul-pred zero k h = absurd (omega arith)
mul-pred (suc b) k h = let e : suc b - 1 ≡ b = omega arith in rw e (omega arith)

-- Fuel enough for `b` more retries.
abbrev pub Room : ℕ → ℕ → ℕ → Text → Text → Mark → Type 0
Room f b k p t none = (b * k + length p + length t < f) × (length t ≤ b) × (length p + length t < k)
Room f b k p t (some (q, m)) =
    (b * k + length p + length t < f)
    × (length t ≤ b)
    × (length p + length t < k)
    × (length m ≤ b)
    × (length q + length m < k)

abbrev Finds : ℕ → ℕ → ℕ → Text → Text → Mark → Type 0
Finds f b k p t s =
    NoStar t → Since s p t → Room f b k p t s → loop f p t s ≡ some (matches p t || later s)

retry_lem :
    (f b k : ℕ) (p : Text) (c : ℕ) (t : Text) (s : Mark)
    → ((b' k' : ℕ) (p' t' : Text) (s' : Mark) → Finds f b' k' p' t' s')
    → Since s p (c ∷ t)
    → Room (suc f) b k p (c ∷ t) s
    → retry (loop f) s ≡ some (later s)
unfolding retry
retry_lem f b k p c t none ih i r = refl
retry_lem f b k p c t (some (q, [])) ih i r = refl
retry_lem f b k p c t (some (q, x ∷ m)) ih (seg, w, eq, em, el, ns, nm) r =
    ih (b - 1) k q m (some (q, m)) nm.1 ([], [], refl, refl, refl, tt, nm.1)
      (omega (arith, mul-pred b k (omega arith)))
    ∙ ap some (retry-later q m)

retry_total :
    (f b k : ℕ) (p : Text) (c : ℕ) (t : Text) (s : Mark)
    → ((b' k' : ℕ) (p' t' : Text) (s' : Mark)
        → Room f b' k' p' t' s'
        → (r : Bool) × (loop f p' t' s' ≡ some r))
    → Room (suc f) b k p (c ∷ t) s
    → (r : Bool) × (retry (loop f) s ≡ some r)
unfolding retry
retry_total f b k p c t none ih r = (false, refl)
retry_total f b k p c t (some (q, [])) ih r = (false, refl)
retry_total f b k p c t (some (q, x ∷ m)) ih r =
    ih (b - 1) k q m (some (q, m)) (omega (arith, mul-pred b k (omega arith)))

Since-step : (d c : ℕ) (p t : Text) (s : Mark) → d ≢ b'*' → Since s (d ∷ p) (c ∷ t) → Since s p t
Since-step d c p t none h i = i
Since-step d c p t (some (q, m)) h (seg, w, eq, em, el, ns, nm) = (
  seg ++ d ∷ [],
  w ++ c ∷ [],
  eq ∙ sym (append_assoc seg (d ∷ []) p),
  em ∙ sym (append_assoc w (c ∷ []) t),
  omega (arith, length-append seg (d ∷ []), length-append w (c ∷ [])),
  All-append (λ x. x ≢ b'*') seg (d ∷ []) ns (h, tt),
  nm,
)

Room-step :
    (f b k d c : ℕ) (p t : Text) (s : Mark) → Room (suc f) b k (d ∷ p) (c ∷ t) s → Room f b k p t s
Room-step f b k d c p t none r = omega arith
Room-step f b k d c p t (some (q, m)) r = omega arith

Room-star :
    (f b k d c : ℕ) (p t : Text) (s : Mark)
    → Room (suc f) b k (d ∷ p) (c ∷ t) s
    → Room f b k p (c ∷ t) (some (p, c ∷ t))
Room-star f b k d c p t none r = omega arith
Room-star f b k d c p t (some (q, m)) r = omega arith

matches-step :
    (d c : ℕ) (p t : Text)
    → c ≢ b'*'
    → (d == b'?' || d == c) ≡ true
    → (d ≢ b'*') × (matches (d ∷ p) (c ∷ t) ≡ matches p t)
unfolding matches
matches-step d c p t h e = (λ x. ground (arith, h), ground (arith, h))

matches-miss :
    (d c : ℕ) (p t : Text)
    → (d == b'?' || d == c) ≡ false
    → (d == b'*') ≡ false
    → matches (d ∷ p) (c ∷ t) ≡ false
unfolding matches
matches-miss d c p t h e = ground arith

matches-star :
    (p : Text) (c : ℕ) (t : Text)
    → matches (b'*' ∷ p) (c ∷ t) ≡ (matches p (c ∷ t) || later (some (p, c ∷ t)))
unfolding matches
matches-star p c t = refl

-- Where a new `*` is reached, the old one finds nothing that the new one does not.
star-covers :
    (p : Text) (c : ℕ) (t : Text) (s : Mark)
    → Since s (b'*' ∷ p) (c ∷ t)
    → (matches (b'*' ∷ p) (c ∷ t) || later s) ≡ matches (b'*' ∷ p) (c ∷ t)
star-covers p c t s i = elim (Bool-cases (later s)) [
  | inr e ↦ ground arith
  | inl e ↦
      let (k, fits, m) = later-rest s (b'*' ∷ p) (c ∷ t) i e in
      let whole = star-absorb p (c ∷ t) (suc k) m in ground arith
]

star-branch :
    (d : ℕ) (p : Text) (c : ℕ) (t : Text) (s : Mark)
    → d ≡ b'*'
    → Since s (d ∷ p) (c ∷ t)
    → (matches p (c ∷ t) || later (some (p, c ∷ t))) ≡ (matches (d ∷ p) (c ∷ t) || later s)
star-branch d p c t s e =
    subst
      (λ x.
        Since s (x ∷ p) (c ∷ t)
        → (matches p (c ∷ t) || later (some (p, c ∷ t))) ≡ (matches (x ∷ p) (c ∷ t) || later s))
      (sym e) (λ i. sym (matches-star p c t) ∙ sym (star-covers p c t s i))

-- The loop ends, and finds a match if there is one.
pub loop_lem : (f b k : ℕ) (p t : Text) (s : Mark) → Finds f b k p t s
unfolding loop
loop_lem zero b k p t none n i r = absurd (omega arith)
loop_lem zero b k p t (some (q, m)) n i r = absurd (omega arith)
loop_lem (suc f) b k p [] s n i r = elim (Bool-cases (later s)) [
  | inl e ↦ let (j, fits, m) = later-rest s p [] i e in absurd (omega arith)
  | inr e ↦ rw (matches-nil p, e) (ground arith)
]
loop_lem (suc f) b k [] (c ∷ t) s n i r =
    retry_lem f b k [] c t s (loop_lem f) i r ∙ unfold matches in refl
loop_lem (suc f) b k (d ∷ p) (c ∷ t) s n i r = elim (Bool-cases (d == b'?' || d == c)) [
  | inl e ↦
      let (h, m) = matches-step d c p t n.0 e in
      rw (e, m) (loop_lem f b k p t s n.1 (Since-step d c p t s h i) (Room-step f b k d c p t s r))
  | inr e ↦ elim (Bool-cases (d == b'*')) [
    | inl v ↦
        rw (e, v)
          (loop_lem f b k p (c ∷ t) (some (p, c ∷ t)) n ([], [], refl, refl, refl, tt, n)
              (Room-star f b k d c p t s r)
            ∙ ap some (star-branch d p c t s ((==_iff d b'*').0 v) i))
    | inr v ↦ rw (e, v, matches-miss d c p t e v) (retry_lem f b k (d ∷ p) c t s (loop_lem f) i r)
  ]
]

-- Whatever the texts hold, the fuel is enough.
pub loop_total :
    (f b k : ℕ) (p t : Text) (s : Mark) → Room f b k p t s → (r : Bool) × (loop f p t s ≡ some r)
unfolding loop
loop_total zero b k p t none r = absurd (omega arith)
loop_total zero b k p t (some (q, m)) r = absurd (omega arith)
loop_total (suc f) b k p [] s r = (all_stars p, refl)
loop_total (suc f) b k [] (c ∷ t) s r = retry_total f b k [] c t s (loop_total f) r
loop_total (suc f) b k (d ∷ p) (c ∷ t) s r = elim (Bool-cases (d == b'?' || d == c)) [
  | inl e ↦ rw e (loop_total f b k p t s (Room-step f b k d c p t s r))
  | inr e ↦ elim (Bool-cases (d == b'*')) [
    | inl v ↦ rw (e, v) (loop_total f b k p (c ∷ t) (some (p, c ∷ t)) (Room-star f b k d c p t s r))
    | inr v ↦ rw (e, v) (retry_total f b k (d ∷ p) c t s (loop_total f) r)
  ]
]
