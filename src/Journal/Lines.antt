-- ===== src/Journal/Lines.antt =====
-- jamsys-daemon/src/journal.rs, `read_entries`: what the child prints, put together into lines. The
-- parts that one call reads are an argument; so is `parse`, which reads the bytes of one line
-- (`from_utf8` and `parse_line`).
pub mod Laws
use jamsys.Prelude.{
  ℕ, zero, suc, ◌^◌, Bool, true, false, ◌==◌, Option, none, some, List, [], ◌∷◌, ◌++◌, ltb,
  if◌then◌else◌, length,
}

abbrev pub Bytes : Type 0
Bytes = List ℕ

abbrev pub max_buffer : ℕ
max_buffer = 2 ^ 20

-- The bytes before the first newline, and those after it.
unfoldable pub first_line : Bytes → Option (Bytes × Bytes)
first_line [] = none
first_line (b ∷ s) =
    if b == b'\n'
    then some ([], s)
    else elim (first_line s) [ none ↦ none | some (line, rest) ↦ some (b ∷ line, rest) ]

unfoldable pub extend : Bytes → Bytes → Bytes
extend buf chunk =
    let longer = buf ++ chunk in if ltb max_buffer (length longer) then [] else longer

unfoldable pub extend_all : Bytes → List Bytes → Bytes
extend_all buf [] = buf
extend_all buf (chunk ∷ chunks) = extend_all (extend buf chunk) chunks

module _ {ℓ} {E : Type ℓ} (parse : Bytes → Option E) where
  unfoldable pub keep : Bytes → List E → List E
  keep line out = elim (parse line) [ none ↦ out | some e ↦ e ∷ out ]

  -- Every round takes a newline out, so the length of the buffer is fuel enough.
  unfoldable pub drain : ℕ → Bytes → List E × Bytes
  unfolding keep
  drain zero buf = ([], buf)
  drain (suc f) buf = elim (first_line buf) [
    | none ↦ ([], buf)
    | some (line, rest) ↦ let (out, left) = drain f rest in (keep line out, left)
  ]

  unfoldable pub read_entries : List Bytes → Bytes → List E × Bytes
  unfolding drain extend_all
  read_entries chunks buf = let filled = extend_all buf chunks in drain (length filled) filled
