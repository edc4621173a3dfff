-- ===== src/Helpers/Power.antt =====
-- jamsys-power/src/main.rs: sets the charge limit of the first battery that has one. Arguments and
-- files are their bytes. The parts of an error message that only quote an argument are kept as the
-- argument.
pub mod Laws
use jamsys.Prelude.{
  ℕ, ◌==◌, Bool, true, false, not, ◌||◌, Option, none, some, List, [], ◌∷◌, ◌++◌, ltb, leb,
  if◌then◌else◌, Text, codes, text_eq, length, all,
}
use jamsys.Prelude.Decimal.{to_string, read_digits, is_digit}
use jamsys.Prelude.Results.{Result, ok, err}

abbrev pub attr : Text
attr = codes "charge_control_end_threshold"

abbrev pub batteries : List Text
batteries =
    codes "/sys/class/power_supply/BAT0"
    ∷ codes "/sys/class/power_supply/BAT1"
    ∷ codes "/sys/class/power_supply/BATT"
    ∷ []

abbrev pub min_limit : ℕ
min_limit = 20

abbrev pub max_limit : ℕ
max_limit = 100

-- The messages, by what they quote.
pub data ParseError : Type 0 where
  not_plain not_u8 : Text → Text → ParseError
  outside : Text → ℕ → ParseError
  one_value no_operation : ParseError
  unknown_operation : Text → ParseError

-- `parse::<u8>` on digits: it fails on a value past 255.
unfoldable pub parse_u8 : Text → Option ℕ
parse_u8 s = let v = read_digits 0 s in if leb v 255 then some v else none

unfoldable pub arg_u8 : Text → ℕ → ℕ → Text → Result ParseError ℕ
unfolding parse_u8
arg_u8 s lo hi name =
    if length s == 0 || not (all is_digit s) then err (not_plain name s) else elim (parse_u8 s) [
      | none ↦ err (not_u8 name s)
      | some v ↦ if ltb v lo || ltb hi v then err (outside name v) else ok v
    ]

unfoldable refuse : Text → Result ParseError ℕ
refuse s = err (if text_eq s (codes "charge-limit") then one_value else unknown_operation s)

unfoldable pub parse : List Text → Result ParseError ℕ
unfolding refuse
parse [] = err no_operation
parse (s ∷ []) = refuse s
parse (s ∷ v ∷ []) =
    if text_eq s (codes "charge-limit")
    then arg_u8 v min_limit max_limit (codes "limit")
    else refuse s
parse (s ∷ v ∷ w ∷ rest) = refuse s

-- What the program finds: who runs it, which paths exist, and which of them it can write.
pub record Machine : Type 0 where
  pub euid : ℕ
  pub exists : Text → Bool
  pub writable : Text → Bool

unfoldable pub first_of : (Text → Bool) → List Text → Option Text
first_of exists [] = none
first_of exists (b ∷ bs) =
    let path = b ++ b'/' ∷ attr in if exists path then some path else first_of exists bs

unfoldable pub find_battery : Machine → Option Text
unfolding first_of
find_battery m = first_of m.exists batteries

-- The exit code, and what the kernel took, with the attribute.
pub record Exit : Type 0 where
  pub code : ℕ
  pub writes : List (Text × Text)

abbrev refused : ℕ → Exit
refused n = record { code = n; writes = [] }

unfoldable pub perform : Machine → ℕ → Exit
unfolding find_battery
perform m limit = if not (m.euid == 0) then refused 1 else elim (find_battery m) [
  | none ↦ refused 3
  | some path ↦
      if m.writable path
      then record { code = 0; writes = (path, to_string limit) ∷ [] }
      else refused 4
]

unfoldable pub main : Machine → List Text → Exit
unfolding perform
main m [] = refused 2
main m (s ∷ args) = elim (parse (s ∷ args)) [ ok limit ↦ perform m limit | err e ↦ refused 2 ]
