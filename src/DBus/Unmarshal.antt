-- ===== src/DBus/Unmarshal.antt =====
-- jamsys-daemon/src/dbus.rs, `Unmarshal`: reading values at a position. A read past the end is `none`.
-- The values of floating point are kept as their bytes. `utf8` says which bytes are a text.
pub mod Laws
mod Tests
use jamsys.Prelude.{
  ℕ, zero, suc, ◌+◌, ◌-◌, ◌*◌, ◌/◌, ◌%◌, ◌^◌, Bool, true, false, not, ◌&&◌, ◌||◌, ◌==◌, Option,
  none, some, List, [], ◌∷◌, ◌++◌, ltb, leb, if◌then◌else◌, length, take, drop, get_elem?, min,
  Text,
}
use jamsys.DBus.Marshal.{Bytes, padding}

-- `pos` moves to the next multiple, but not beyond the end.
unfoldable pub skip_padding : ℕ → Bytes → ℕ → ℕ
skip_padding n b pos = if ltb pos (length b) then min (pos + padding n pos) (length b) else pos

-- What a read gives, and the new position.
abbrev pub Read {ℓ} : Type ℓ → Type ℓ
Read A = Option (A × ℕ)

unfoldable pub get_bytes : ℕ → Bytes → ℕ → Read Bytes
get_bytes n b pos = if ltb (length b) (pos + n) then none else some (take n (drop pos b), pos + n)

-- `from_le_bytes`.
abbrev pub le_value : Bytes → ℕ
le_value [] = 0
le_value (c ∷ s) = c + 256 * le_value s

unfoldable pub get_le : ℕ → Bytes → ℕ → Read ℕ
unfolding get_bytes
get_le n b pos = elim (get_bytes n b pos) [ none ↦ none | some (s, next) ↦ some (le_value s, next) ]

unfoldable pub get_u8 : Bytes → ℕ → Read ℕ
unfolding get_le
get_u8 b pos = get_le 1 b pos

unfoldable pub get_u16 : Bytes → ℕ → Read ℕ
unfolding get_le skip_padding
get_u16 b pos = get_le 2 b (skip_padding 2 b pos)

unfoldable pub get_u32 : Bytes → ℕ → Read ℕ
unfolding get_le skip_padding
get_u32 b pos = get_le 4 b (skip_padding 4 b pos)

unfoldable pub get_u64 : Bytes → ℕ → Read ℕ
unfolding get_le skip_padding
get_u64 b pos = get_le 8 b (skip_padding 8 b pos)

module _ (utf8 : Bytes → Bool) where
  -- The bytes, and the NUL behind them, which is skipped unread.
  unfoldable pub get_text : ℕ → Bytes → ℕ → Read Text
  unfolding get_bytes
  get_text n b pos = elim (get_bytes n b pos) [
    | none ↦ none
    | some (s, next) ↦ if utf8 s then some (s, next + 1) else none
  ]

  unfoldable pub get_string : Bytes → ℕ → Read Text
  unfolding get_u32 get_text
  get_string b pos = elim (get_u32 b pos) [ none ↦ none | some (n, next) ↦ get_text n b next ]

  unfoldable pub get_sigstring : Bytes → ℕ → Read Text
  unfolding get_u8 get_text
  get_sigstring b pos = elim (get_u8 b pos) [ none ↦ none | some (n, next) ↦ get_text n b next ]
