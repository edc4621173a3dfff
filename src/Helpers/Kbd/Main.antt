-- ===== src/Helpers/Kbd/Main.antt =====
-- jamsys-kbd/src/main.rs, `main`: the order of its refusals, and the one write.
use jamsys.Prelude.{ℕ, ◌==◌, Bool, not, List, [], ◌∷◌, if◌then◌else◌, Text}
use jamsys.Prelude.Results.{ok, err}
use jamsys.Helpers.Kbd.{Op, parse, render, attr_line}

-- What the program finds: who runs it, whether the LED directory is there, and whether the open and
-- the write of the attribute go through.
pub record Machine : Type 0 where
  pub euid : ℕ
  pub led_dir : Bool
  pub writable : Bool

-- The exit code, and the lines that the kernel took, with their attributes.
pub record Exit : Type 0 where
  pub code : ℕ
  pub writes : List (Text × Text)

abbrev refused : ℕ → Exit
refused n = record { code = n; writes = [] }

unfoldable pub perform : Machine → Op → Exit
perform m op =
    if not (m.euid == 0)
    then refused 1
    else if not m.led_dir
    then refused 3
    else if m.writable
    then record { code = 0; writes = ((render op).0, attr_line (render op).1) ∷ [] }
    else refused 4

unfoldable pub main : Machine → List Text → Exit
unfolding perform
main m [] = refused 2
main m (s ∷ args) = elim (parse (s ∷ args)) [ ok op ↦ perform m op | err e ↦ refused 2 ]
