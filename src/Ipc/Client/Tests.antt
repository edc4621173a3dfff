-- ===== src/Ipc/Client/Tests.antt =====
-- A request that arrives in two pieces.
use jamsys.Prelude.{◌≡◌, refl, List, [], ◌∷◌, ◌++◌, arith, true, codes}
use jamsys.Ipc.Client.{
  Bytes, Line, request, ReadAnswer, chunk, would_block, WriteAnswer, full, Client, tail_len,
  read_requests,
}
use jamsys.Ipc.Client.Limits.{fits, received, is_alive, is_ok, read_requests-fits}

abbrev fresh : Client
fresh = record { inbuf = codes "{"; outbuf = []; last_active_mono = 5 }

abbrev pieces : List ReadAnswer
pieces = chunk (codes "}" ++ (b'\n' ∷ [])) ∷ chunk (codes "{") ∷ would_block ∷ []

abbrev as_is : Bytes → Line Bytes
as_is s = request s

abbrev wedged : Bytes → List WriteAnswer
wedged s = full ∷ []

read_requests-fits_example : is_ok (read_requests as_is wedged 9 pieces fresh) ≡ true
unfolding fits received is_alive tail_len
read_requests-fits_example =
    read_requests-fits as_is wedged 9 pieces fresh (omega arith) refl (omega arith)
