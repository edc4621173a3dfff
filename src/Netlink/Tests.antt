-- ===== src/Netlink/Tests.antt =====
-- A datagram of two messages.
use jamsys.Prelude.{[], ◌∷◌}
use jamsys.Netlink.Write.{Message}

abbrev link : Message
link = record { ty = 16; rest = 1 ∷ 2 ∷ 3 ∷ 4 ∷ 5 ∷ 6 ∷ 7 ∷ 8 ∷ 9 ∷ 10 ∷ 11 ∷ [] }

abbrev done : Message
done = record { ty = 3; rest = 1 ∷ 2 ∷ 3 ∷ 4 ∷ 5 ∷ 6 ∷ 7 ∷ 8 ∷ 9 ∷ 10 ∷ [] }
