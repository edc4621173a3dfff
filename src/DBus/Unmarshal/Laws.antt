-- ===== src/DBus/Unmarshal/Laws.antt =====
-- What is marshalled is read back.
use jamsys.Prelude.{
  ℕ, zero, suc, ◌+◌, ◌%◌, ◌^◌, ◌<◌, ◌≡◌, refl, ap, sym, ◌∙◌, Bool, true, false, some, [], ◌∷◌, ◌++◌,
  ltb, length, length-append, append_assoc, take, drop, Text, arith,
}
use jamsys.DBus.Marshal.{Bytes, zeros, padding, align, le_bytes, put_u32, put_string}
use jamsys.DBus.Unmarshal.{skip_padding, get_bytes, le_value, get_le, get_u32, get_text, get_string}

take-append : (s t : Bytes) → take (length s) (s ++ t) ≡ s
take-append [] t = refl
take-append (c ∷ s) t = ap (λ r. c ∷ r) (take-append s t)

drop-append : (s t : Bytes) → drop (length s) (s ++ t) ≡ t
drop-append [] t = refl
drop-append (c ∷ s) t = drop-append s t

length-zeros : (n : ℕ) → length (zeros n) ≡ n
length-zeros zero = refl
length-zeros (suc n) = ap suc (length-zeros n)

get_bytes-append :
    (before s more : Bytes) (n pos : ℕ)
    → n ≡ length s
    → pos ≡ length before
    → get_bytes n (before ++ (s ++ more)) pos ≡ some (s, pos + n)
unfolding get_bytes
get_bytes-append before s more n pos e h =
    let room : ltb (length (before ++ (s ++ more))) (length before + length s) ≡ false =
      ground (arith, length-append before (s ++ more), length-append s more) in
    rw (e, h, room, drop-append before (s ++ more), take-append s more) refl

le_value-le_bytes : (v : ℕ) → v < 2 ^ 32 → le_value (le_bytes v) ≡ v
le_value-le_bytes v h = omega (arith, h)

length-align : (n : ℕ) (buf : Bytes) → length (align n buf) ≡ length buf + padding n (length buf)
unfolding align
length-align n buf =
    length-append buf (zeros (padding n (length buf)))
    ∙ ap (λ k. length buf + k) (length-zeros (padding n (length buf)))

-- Padding is put and skipped alike, where something follows.
skip_padding-align :
    (n : ℕ) (buf : Bytes) (c : ℕ) (more : Bytes)
    → skip_padding n (align n buf ++ (c ∷ more)) (length buf) ≡ length (align n buf)
unfolding skip_padding
skip_padding-align n buf c more =
    ground (arith, length-align n buf, length-append (align n buf) (c ∷ more))

get_le-le_bytes :
    (v : ℕ) (before more : Bytes)
    → v < 2 ^ 32
    → get_le 4 (before ++ (le_bytes v ++ more)) (length before) ≡ some (v, length before + 4)
unfolding get_le
get_le-le_bytes v before more h =
    let value = le_value-le_bytes v h in
    let read = get_bytes-append before (le_bytes v) more 4 (length before) refl refl in
    ground (arith, read, value)

-- A number that is put is read back from where the buffer ended, with the padding before it, whatever
-- follows.
pub get_u32-put_u32 :
    (v : ℕ) (buf more : Bytes)
    → v < 2 ^ 32
    → get_u32 (put_u32 v buf ++ more) (length buf) ≡ some (v, length (put_u32 v buf))
unfolding get_u32 put_u32 align
get_u32-put_u32 v buf more h =
    let at = align 4 buf in
    let whole = append_assoc at (le_bytes v) more in
    ap (λ b. get_le 4 b (skip_padding 4 b (length buf))) whole
    ∙ ap (get_le 4 (at ++ (le_bytes v ++ more)))
        (skip_padding-align 4 buf (v % 256) (drop 1 (le_bytes v) ++ more))
    ∙ get_le-le_bytes v at more h
    ∙ ap (λ k. some (v, k)) (sym (length-append at (le_bytes v)))

get_text-append :
    (utf8 : Bytes → Bool) (before s more : Bytes)
    → utf8 s ≡ true
    → get_text utf8 (length s) (before ++ (s ++ more)) (length before)
      ≡ some (s, length before + length s + 1)
unfolding get_text
get_text-append utf8 before s more text =
    let read = get_bytes-append before s more (length s) (length before) refl refl in
    ground (arith, read, text)

-- A text is read back with its length, its padding and the NUL behind it, whatever follows.
pub get_string-put_string :
    (utf8 : Bytes → Bool) (s : Text) (buf more : Bytes)
    → length s < 2 ^ 32
    → utf8 s ≡ true
    → get_string utf8 (put_string s buf ++ more) (length buf) ≡ some (s, length (put_string s buf))
unfolding get_string put_string
get_string-put_string utf8 s buf more small text =
    let at = put_u32 (length s) buf in
    let tail = (0 ∷ []) ++ more in
    let whole : put_string s buf ++ more ≡ at ++ (s ++ tail) =
      append_assoc at (s ++ (0 ∷ [])) more ∙ ap (λ t. at ++ t) (append_assoc s (0 ∷ []) more) in
    let first = get_u32-put_u32 (length s) buf (s ++ tail) small in
    let second = get_text-append utf8 at s tail text in
    let size : length (put_string s buf) ≡ length at + length s + 1 =
      omega (arith, length-append at (s ++ (0 ∷ [])), length-append s (0 ∷ [])) in
    rw (whole, size) (ground (arith, first, second))
