-- ===== src/DBus/Marshal.antt =====
-- jamsys-daemon/src/dbus.rs, `Marshal`: each operation appends to the buffer. Texts are their bytes.
use jamsys.Prelude.{
  ℕ, ◌^◌, zero, suc, ◌+◌, ◌-◌, ◌/◌, ◌%◌, Bool, List, [], ◌∷◌, ◌++◌, if◌then◌else◌, length, take,
  drop, Text, codes,
}
use jamsys.Prelude.Int.{ℤ, pos, negsuc}

abbrev pub Bytes : Type 0
Bytes = List ℕ

abbrev pub zeros : ℕ → Bytes
zeros zero = []
zeros (suc n) = 0 ∷ zeros n

-- How far it is to the next multiple of `n`.
abbrev pub padding : ℕ → ℕ → ℕ
padding n len = (n - len % n) % n

-- The `while` of the code pushes exactly the padding.
unfoldable pub align : ℕ → Bytes → Bytes
align n buf = buf ++ zeros (padding n (length buf))

-- `to_le_bytes` of a u32, the value taken modulo 2^32.
abbrev pub le_bytes : ℕ → Bytes
le_bytes v = v % 256 ∷ v / 256 % 256 ∷ v / 65_536 % 256 ∷ v / 16_777_216 % 256 ∷ []

unfoldable pub put_u8 : ℕ → Bytes → Bytes
put_u8 v buf = buf ++ (v ∷ [])

unfoldable pub put_u32 : ℕ → Bytes → Bytes
unfolding align
put_u32 v buf = align 4 buf ++ le_bytes v

-- In two's complement.
unfoldable pub put_i32 : ℤ → Bytes → Bytes
unfolding align
put_i32 (pos v) buf = align 4 buf ++ le_bytes v
put_i32 (negsuc v) buf = align 4 buf ++ le_bytes (2 ^ 32 - 1 - v)

unfoldable pub put_string : Text → Bytes → Bytes
unfolding put_u32
put_string s buf = put_u32 (length s) buf ++ (s ++ (0 ∷ []))

unfoldable pub put_signature : Text → Bytes → Bytes
put_signature s buf = buf ++ (length s % 256 ∷ (s ++ (0 ∷ [])))

-- The length is written when the elements are there, counted from their alignment.
unfoldable pub put_array : ℕ → (Bytes → Bytes) → Bytes → Bytes
unfolding align
put_array elem_align f buf =
    let at = align 4 buf in
    let opened = align elem_align (at ++ le_bytes 0) in
    let filled = f opened in
    take (length at) filled
    ++ (le_bytes (length filled - length opened) ++ drop (length at + 4) filled)

unfoldable pub put_struct : (Bytes → Bytes) → Bytes → Bytes
unfolding align
put_struct f buf = f (align 8 buf)

unfoldable pub put_variant_str : Text → Bytes → Bytes
unfolding put_signature put_string
put_variant_str s buf = put_string s (put_signature (codes "s") buf)

unfoldable pub put_variant_u32 : ℕ → Bytes → Bytes
unfolding put_signature put_u32
put_variant_u32 v buf = put_u32 v (put_signature (codes "u") buf)

unfoldable pub put_variant_bool : Bool → Bytes → Bytes
unfolding put_signature put_u32
put_variant_bool v buf = put_u32 (if v then 1 else 0) (put_signature (codes "b") buf)
