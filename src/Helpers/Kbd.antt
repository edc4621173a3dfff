-- ===== src/Helpers/Kbd.antt =====
-- jamsys-kbd/src/main.rs: parses its arguments into an operation, renders that into the bytes of one
-- sysfs attribute, and writes them. Arguments and files are their bytes. The parts of an error message
-- that only quote an argument are kept as the argument.
pub mod Laws
pub mod Main
pub mod Write
use jamsys.Prelude.{
  ℕ, ◌+◌, ◌%◌, Bool, true, false, not, ◌&&◌, ◌||◌, List, [], ◌∷◌, ◌++◌, ltb, ◌==◌, if◌then◌else◌,
  Text, codes, text_eq, length, all,
}
use jamsys.Prelude.Decimal.{to_string, read_digits, is_digit}
use jamsys.Prelude.Results.{Result, ok, err, ◌>>=◌}

abbrev pub p_brightness : Text
p_brightness = codes "/sys/class/leds/asus::kbd_backlight/brightness"

abbrev pub p_rgb_mode : Text
p_rgb_mode = codes "/sys/class/leds/asus::kbd_backlight/kbd_rgb_mode"

abbrev pub p_rgb_state : Text
p_rgb_state = codes "/sys/class/leds/asus::kbd_backlight/kbd_rgb_state"

abbrev pub rgb_cmd : ℕ
rgb_cmd = 1

abbrev pub state_cmd : ℕ
state_cmd = 1

abbrev pub max_brightness : ℕ
max_brightness = 3

abbrev pub max_mode : ℕ
max_mode = 3

abbrev pub max_speed : ℕ
max_speed = 2

-- The messages, by what they quote.
pub data ParseError : Type 0 where
  not_plain : Text → Text → ParseError
  outside : Text → ℕ → ℕ → ℕ → ParseError
  wrong_number_of_arguments no_operation : ParseError
  unknown_operation : Text → ParseError

-- At most three digits, so the `parse::<u32>` between the tests never fails.
unfoldable pub arg_u8 : Text → ℕ → ℕ → Text → Result ParseError ℕ
arg_u8 s lo hi name =
    if length s == 0 || ltb 3 (length s) || not (all is_digit s)
    then err (not_plain name s)
    else let v = read_digits 0 s in
      if ltb hi v || ltb v lo then err (outside name v lo hi) else ok (v % 256)

pub data Op : Type 0 where
  brightness : ℕ → Op
  rgb : (mode r g b speed : ℕ) → Op
  state : (boot awake sleep keyboard : ℕ) → Op

unfoldable pub parse_brightness : Text → Result ParseError Op
parse_brightness v = do
  level ← arg_u8 v 0 max_brightness (codes "brightness")
  ok (brightness level)

unfoldable pub parse_rgb : Text → Text → Text → Text → Text → Result ParseError Op
parse_rgb m r g b s = do
  mode ← arg_u8 m 0 max_mode (codes "mode")
  red ← arg_u8 r 0 255 (codes "red")
  green ← arg_u8 g 0 255 (codes "green")
  blue ← arg_u8 b 0 255 (codes "blue")
  speed ← arg_u8 s 0 max_speed (codes "speed")
  ok (rgb mode red green blue speed)

unfoldable pub parse_state : Text → Text → Text → Text → Result ParseError Op
parse_state b a s k = do
  boot ← arg_u8 b 0 1 (codes "boot")
  awake ← arg_u8 a 0 1 (codes "awake")
  sleep ← arg_u8 s 0 1 (codes "sleep")
  keyboard ← arg_u8 k 0 1 (codes "keyboard")
  ok (state boot awake sleep keyboard)

is_operation : Text → Bool
is_operation s =
    text_eq s (codes "brightness") || text_eq s (codes "rgb") || text_eq s (codes "state")

-- No arm of the match takes this operation with this many arguments.
unfoldable pub refuse : Text → Result ParseError Op
unfolding is_operation
refuse s = err (if is_operation s then wrong_number_of_arguments else unknown_operation s)

unfoldable pub parse : List Text → Result ParseError Op
unfolding parse_brightness parse_rgb parse_state refuse
parse [] = err no_operation
parse (s ∷ []) = refuse s
parse (s ∷ v ∷ []) = if text_eq s (codes "brightness") then parse_brightness v else refuse s
parse (s ∷ a ∷ b ∷ []) = refuse s
parse (s ∷ a ∷ b ∷ c ∷ []) = refuse s
parse (s ∷ a ∷ b ∷ c ∷ d ∷ []) = if text_eq s (codes "state") then parse_state a b c d else refuse s
parse (s ∷ a ∷ b ∷ c ∷ d ∷ e ∷ []) =
    if text_eq s (codes "rgb") then parse_rgb a b c d e else refuse s
parse (s ∷ a ∷ b ∷ c ∷ d ∷ e ∷ f ∷ rest) = refuse s

-- Numbers with a blank between each two.
unfoldable pub spaced : ℕ → List ℕ → Text
spaced n [] = to_string n
spaced n (m ∷ ms) = to_string n ++ b' ' ∷ spaced m ms

unfoldable pub render : Op → Text × Text
render (brightness v) = (p_brightness, to_string v)
render (rgb mode r g b speed) = (p_rgb_mode, spaced rgb_cmd (mode ∷ r ∷ g ∷ b ∷ speed ∷ []))
render (state boot awake sleep keyboard) =
    (p_rgb_state, spaced state_cmd (boot ∷ awake ∷ sleep ∷ keyboard ∷ []))

unfoldable pub attr_line : Text → Text
attr_line value = value ++ codes "\n"
