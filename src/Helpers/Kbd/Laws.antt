-- ===== src/Helpers/Kbd/Laws.antt =====
-- What jamsys-kbd lets through: a typed, checked operation, and one line of digits and blanks.
use jamsys.Prelude.{
  ◌≢◌, subst, ℕ, ◌≤◌, ◌≡◌, Bool, true, false, List, [], ◌∷◌, if◌then◌else◌, Text, codes, text_eq,
  all, arith,
}
use jamsys.Prelude.Decimal.{
  to_string, read_digits, is_digit, read_digits-to_string, all_digits-to_string, to_string-ne-nil,
  length-to_string,
}
use jamsys.Prelude.Results.{Result, ok, ◌>>=◌, >>=-ok}
use jamsys.Helpers.Kbd.{
  ParseError, arg_u8, Op, brightness, rgb, state, parse_brightness, parse_rgb, parse_state, refuse,
  parse, max_brightness, max_mode, max_speed,
}

abbrev pub InRange : Op → Type 0
InRange (brightness v) = v ≤ max_brightness
InRange (rgb mode r g b speed) =
    (mode ≤ max_mode) × (r ≤ 255) × (g ≤ 255) × (b ≤ 255) × (speed ≤ max_speed)
InRange (state boot awake sleep keyboard) = (boot ≤ 1) × (awake ≤ 1) × (sleep ≤ 1) × (keyboard ≤ 1)

-- A number that is let through is the one the digits spell, and lies in the range.
pub arg_u8_accepts :
    (s : Text) (lo hi : ℕ) (name : Text) (v : ℕ)
    → hi ≤ 255
    → arg_u8 s lo hi name ≡ ok v
    → (all is_digit s ≡ true) × (v ≡ read_digits 0 s) × (lo ≤ v) × (v ≤ hi)
unfolding arg_u8
arg_u8_accepts s lo hi name v top h = ground arith

arg_u8-to_string :
    (v lo hi : ℕ) (name : Text)
    → lo ≤ v
    → v ≤ hi
    → hi ≤ 255
    → arg_u8 (to_string v) lo hi name ≡ ok v
unfolding arg_u8
arg_u8-to_string v lo hi name low high top =
    let (c, s, cons) = to_string-ne-nil v in
    ground (arith, read_digits-to_string v, all_digits-to_string v, length-to_string v, cons)

-- What holds once one more argument is let through.
after :
    (s : Text) (hi : ℕ) (name : Text) (f : ℕ → Result ParseError Op) (op : Op)
    → hi ≤ 255
    → ((v : ℕ) → v ≤ hi → f v ≡ ok op → InRange op)
    → (arg_u8 s 0 hi name >>= f) ≡ ok op
    → InRange op
after s hi name f op top then_ h =
    let (v, e, rest) = >>=-ok (arg_u8 s 0 hi name) f h in
    then_ v (arg_u8_accepts s 0 hi name v top e).3 rest

made : (a op : Op) → InRange a → Path (Result ParseError Op) (ok a) (ok op) → InRange op
made a op fits h = let same : a ≡ op = cc in subst InRange same fits

parse_brightness-InRange : (v : Text) (op : Op) → parse_brightness v ≡ ok op → InRange op
unfolding parse_brightness
parse_brightness-InRange v op =
    after v max_brightness (codes "brightness") (λ l. ok (brightness l)) op (omega arith)
      (λ l fits. made (brightness l) op fits)

parse_rgb-InRange : (m r g b s : Text) (op : Op) → parse_rgb m r g b s ≡ ok op → InRange op
unfolding parse_rgb
parse_rgb-InRange m r g b s op = after m max_mode (codes "mode") _ op (omega arith) (λ mode f₁.
    after r 255 (codes "red") _ op (omega arith) (λ red f₂.
      after g 255 (codes "green") _ op (omega arith) (λ green f₃.
        after b 255 (codes "blue") _ op (omega arith) (λ blue f₄.
          after s max_speed (codes "speed") _ op (omega arith)
            (λ speed f₅. made (rgb mode red green blue speed) op (f₁, f₂, f₃, f₄, f₅))))))

parse_state-InRange : (b a s k : Text) (op : Op) → parse_state b a s k ≡ ok op → InRange op
unfolding parse_state
parse_state-InRange b a s k op = after b 1 (codes "boot") _ op (omega arith) (λ boot f₁.
    after a 1 (codes "awake") _ op (omega arith) (λ awake f₂.
      after s 1 (codes "sleep") _ op (omega arith) (λ sleep f₃.
        after k 1 (codes "keyboard") _ op (omega arith)
          (λ keyboard f₄. made (state boot awake sleep keyboard) op (f₁, f₂, f₃, f₄)))))

refuse-refuses : (s : Text) (op : Op) → refuse s ≢ ok op
unfolding refuse
refuse-refuses s op h = cc

-- An arm of the match, taken or not.
arm :
    (b : Bool) (r : Result ParseError Op) (s : Text) (op : Op)
    → (r ≡ ok op → InRange op)
    → (if b then r else refuse s) ≡ ok op
    → InRange op
arm true r s op then_ h = then_ h
arm false r s op then_ h = absurd (refuse-refuses s op h)

-- Whatever the arguments, an operation that is let through has every field in its hardware's range.
pub parse-InRange : (args : List Text) (op : Op) → parse args ≡ ok op → InRange op
unfolding parse
parse-InRange [] op h = cc
parse-InRange (s ∷ []) op h = absurd (refuse-refuses s op h)
parse-InRange (s ∷ v ∷ []) op h =
    arm (text_eq s (codes "brightness")) (parse_brightness v) s op (parse_brightness-InRange v op) h
parse-InRange (s ∷ a ∷ b ∷ []) op h = absurd (refuse-refuses s op h)
parse-InRange (s ∷ a ∷ b ∷ c ∷ []) op h = absurd (refuse-refuses s op h)
parse-InRange (s ∷ a ∷ b ∷ c ∷ d ∷ []) op h =
    arm (text_eq s (codes "state")) (parse_state a b c d) s op (parse_state-InRange a b c d op) h
parse-InRange (s ∷ a ∷ b ∷ c ∷ d ∷ e ∷ []) op h =
    arm (text_eq s (codes "rgb")) (parse_rgb a b c d e) s op (parse_rgb-InRange a b c d e op) h
parse-InRange (s ∷ a ∷ b ∷ c ∷ d ∷ e ∷ f ∷ rest) op h = absurd (refuse-refuses s op h)

-- The command line of an operation.
abbrev pub args_of : Op → List Text
args_of (brightness v) = codes "brightness" ∷ to_string v ∷ []
args_of (rgb mode r g b speed) =
    codes "rgb" ∷ to_string mode ∷ to_string r ∷ to_string g ∷ to_string b ∷ to_string speed ∷ []
args_of (state boot awake sleep keyboard) =
    codes "state" ∷ to_string boot ∷ to_string awake ∷ to_string sleep ∷ to_string keyboard ∷ []

-- Every operation in range is what its own command line parses to.
parse-args_of : (op : Op) → InRange op → parse (args_of op) ≡ ok op
unfolding parse parse_brightness parse_rgb parse_state text_eq
parse-args_of (brightness v) f =
    rw (arg_u8-to_string v 0 max_brightness (codes "brightness") (omega arith) f (omega arith))
parse-args_of (rgb mode r g b speed) (f₁, f₂, f₃, f₄, f₅) = rw (
  arg_u8-to_string mode 0 max_mode (codes "mode") (omega arith) f₁ (omega arith),
  arg_u8-to_string r 0 255 (codes "red") (omega arith) f₂ (omega arith),
  arg_u8-to_string g 0 255 (codes "green") (omega arith) f₃ (omega arith),
  arg_u8-to_string b 0 255 (codes "blue") (omega arith) f₄ (omega arith),
  arg_u8-to_string speed 0 max_speed (codes "speed") (omega arith) f₅ (omega arith),
)
parse-args_of (state boot awake sleep keyboard) (f₁, f₂, f₃, f₄) = rw (
  arg_u8-to_string boot 0 1 (codes "boot") (omega arith) f₁ (omega arith),
  arg_u8-to_string awake 0 1 (codes "awake") (omega arith) f₂ (omega arith),
  arg_u8-to_string sleep 0 1 (codes "sleep") (omega arith) f₃ (omega arith),
  arg_u8-to_string keyboard 0 1 (codes "keyboard") (omega arith) f₄ (omega arith),
)
