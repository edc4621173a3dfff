-- ===== src/Helpers/Kbd/Write.antt =====
-- What jamsys-kbd can write.
use jamsys.Prelude.{
  ℕ, ◌≡◌, ◌≢◌, ◌⊎◌, inl, inr, refl, sym, subst, Bool, true, ◌||◌, List, [], ◌∷◌, ◌++◌, ◌==◌,
  Bool-cases, Text, codes, all, arith,
}
use jamsys.Prelude.Decimal.{to_string, is_digit, all_digits-to_string, all-append}
use jamsys.Prelude.Results.{ok, Result-cases}
use jamsys.Helpers.Kbd.{
  Op, brightness, rgb, state, parse, spaced, render, attr_line, p_brightness, p_rgb_mode,
  p_rgb_state,
}
use jamsys.Helpers.Kbd.Main.{Machine, Exit, perform, main}
use jamsys.Helpers.Kbd.Laws.{InRange, parse-InRange}

abbrev pub is_plain : ℕ → Bool
is_plain c = is_digit c || (c == b' ')

digits-plain : (s : Text) → all is_digit s ≡ true → all is_plain s ≡ true
digits-plain [] h = refl
digits-plain (c ∷ s) h = ground (arith, digits-plain s)

spaced-plain : (n : ℕ) (ms : List ℕ) → all is_plain (spaced n ms) ≡ true
unfolding spaced
spaced-plain n [] = digits-plain (to_string n) (all_digits-to_string n)
spaced-plain n (m ∷ ms) =
    let head = digits-plain (to_string n) (all_digits-to_string n) in
    let tail = spaced-plain m ms in all-append is_plain (to_string n) (b' ' ∷ spaced m ms) head tail

render-plain : (op : Op) → all is_plain (render op).1 ≡ true
unfolding render
render-plain (brightness v) = digits-plain (to_string v) (all_digits-to_string v)
render-plain (rgb mode r g b speed) = spaced-plain _ _
render-plain (state boot awake sleep keyboard) = spaced-plain _ _

abbrev pub attribute : Op → Text
attribute (brightness v) = p_brightness
attribute (rgb mode r g b speed) = p_rgb_mode
attribute (state boot awake sleep keyboard) = p_rgb_state

render-attribute : (op : Op) → (render op).0 ≡ attribute op
unfolding render
render-attribute (brightness v) = refl
render-attribute (rgb mode r g b speed) = refl
render-attribute (state boot awake sleep keyboard) = refl

-- A run that writes nothing, and does not report success.
abbrev pub Refused : Exit → Type 0
Refused e = (e.writes ≡ []) × (e.code ≢ 0)

-- A run that writes the value as one line into the attribute, once, and reports success.
abbrev pub Wrote : Text → Text → Exit → Type 0
Wrote path value e = (e.writes ≡ (path, value ++ codes "\n") ∷ []) × (e.code ≡ 0)

-- Such a write: by root, for the operation that the arguments spell.
abbrev pub Written : Machine → List Text → Exit → Type 0
Written m args e =
    (op : Op) × (value : Text) × (parse args ≡ ok op)
    × InRange op
    × (m.euid ≡ 0)
    × (all is_plain value ≡ true)
    × Wrote (attribute op) value e

perform_writes :
    (m : Machine) (args : List Text) (op : Op)
    → parse args ≡ ok op
    → Refused (perform m op) ⊎ Written m args (perform m op)
unfolding perform attr_line
perform_writes m args op h = elim (Bool-cases (m.euid == 0)) [
  | inr e ↦ rw e (inl (refl, ground arith))
  | inl e ↦ elim (Bool-cases m.led_dir) [
    | inr l ↦ rw (e, l) (inl (refl, ground arith))
    | inl l ↦ elim (Bool-cases m.writable) [
      | inr w ↦ rw (e, l, w) (inl (refl, ground arith))
      | inl w ↦
          rw (e, l, w)
            (inr (
              op,
              (render op).1,
              h,
              parse-InRange args op h,
              ground arith,
              render-plain op,
              (rw (render-attribute op) refl, refl),
            ))
    ]
  ]
]

main-perform :
    (m : Machine) (s : Text) (args : List Text) (op : Op)
    → parse (s ∷ args) ≡ ok op
    → main m (s ∷ args) ≡ perform m op
unfolding main
main-perform m s args op e = rw (main, e)

-- Whatever the arguments and the machine, a run either writes nothing and reports a failure, or is
-- root's, writes one line once, of digits and blanks, into the attribute of the operation that the
-- arguments spell, whose fields are in range, and reports success.
pub main_writes :
    (m : Machine) (args : List Text) → Refused (main m args) ⊎ Written m args (main m args)
unfolding main
main_writes m [] = inl (refl, ground arith)
main_writes m (s ∷ args) = elim (Result-cases (parse (s ∷ args))) [
  | inl (op, e) ↦
      subst (λ r. Refused r ⊎ Written m (s ∷ args) r) (sym (main-perform m s args op e))
        (perform_writes m (s ∷ args) op e)
  | inr (q, e) ↦ rw (main, e) (inl (refl, ground arith))
]
