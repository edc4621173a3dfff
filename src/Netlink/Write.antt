-- ===== src/Netlink/Write.antt =====
-- A datagram as the kernel writes it, read back.
use jamsys.Prelude.{ℕ, zero, suc, ◌+◌, ◌-◌, ◌/◌, ◌%◌, ◌^◌, ◌≤◌, ◌<◌, List, [], ◌∷◌, ◌++◌, length}
use jamsys.Netlink.{RouteEventKind, kind_of, keep, aligned}

-- A message: its type, and what follows the type, of which the header has ten bytes.
pub record Message : Type 0 where
  pub ty : ℕ
  pub rest : List ℕ

abbrev pub message_len : Message → ℕ
message_len m = 6 + length m.rest

pub record IsMessage (m : Message) : Type 0 where
  pub header : 16 ≤ message_len m
  pub fits : message_len m < 2 ^ 32
  pub type_fits : m.ty < 2 ^ 16

abbrev zeros : ℕ → List ℕ
zeros zero = []
zeros (suc n) = 0 ∷ zeros n

-- Little-endian length and type, the rest, and padding to four bytes.
abbrev encode : Message → List ℕ
encode m =
    let n = message_len m in
    n % 256
    ∷ n / 256 % 256
    ∷ n / 65_536 % 256
    ∷ n / 16_777_216
    ∷ m.ty % 256
    ∷ m.ty / 256
    ∷ (m.rest ++ zeros (aligned n - n))

unfoldable pub write : List Message → List ℕ
write [] = []
write (m ∷ ms) = encode m ++ write ms

unfoldable pub kinds : List Message → List RouteEventKind
kinds [] = []
kinds (m ∷ ms) = keep (kind_of m.ty) (kinds ms)
