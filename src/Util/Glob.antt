-- ===== src/Util/Glob.antt =====
-- jamsys-daemon/src/util.rs, `glob_match`: the iterative matcher, over the indices it keeps.
mod Spec
mod Suffix
mod Laws
mod Tests
pub use Spec.{Matches, matches_end, matches_char, matches_skip, matches_take}
use jamsys.Prelude.{
  ℕ, zero, suc, ◌+◌, ◌*◌, Bool, true, false, ◌&&◌, ◌||◌, Option, none, some, List, [], ◌∷◌, map,
  ltb, leb, ◌==◌, if◌then◌else◌, length, get_elem?, drop, Text, unwrap_or,
}

-- `char::to_ascii_lowercase`.
unfoldable pub ascii_lower : ℕ → ℕ
ascii_lower c = if leb b'A' c && leb c b'Z' then c + 32 else c

unfoldable pub to_ascii_lowercase : Text → Text
unfolding ascii_lower
to_ascii_lowercase = map ascii_lower

-- `p[pi] == '?' || p[pi] == t[ti]`, false where `pi` is past the end.
unfoldable pub is_step : Option ℕ → ℕ → Bool
is_step none c = false
is_step (some d) c = d == b'?' || d == c

unfoldable pub is_star : Option ℕ → Bool
is_star none = false
is_star (some d) = d == b'*'

-- The second `while`, and its test `pi == p.len()`.
unfoldable pub all_stars : Text → Bool
all_stars [] = true
all_stars (d ∷ p) = d == b'*' && all_stars p

-- The first `while`. `star` is `none` for the code's `usize::MAX`; the result is `none` where the
-- fuel runs out.
unfoldable pub glob_loop : ℕ → Text → Text → ℕ → ℕ → Option ℕ → ℕ → Option Bool
unfolding is_step is_star all_stars
glob_loop zero p t pi ti star mark = none
glob_loop (suc f) p t pi ti star mark =
    let step = glob_loop f p t (pi + 1) (ti + 1) star mark in
    let open_star = glob_loop f p t (pi + 1) ti (some pi) ti in
    let retry = λ (s : ℕ). glob_loop f p t (s + 1) (mark + 1) (some s) (mark + 1) in
    elim (get_elem? t ti) [
      | none ↦ some (all_stars (drop pi p))
      | some c ↦
          if is_step (get_elem? p pi) c
          then step
          else if is_star (get_elem? p pi)
          then open_star
          else elim star [ none ↦ some false | some s ↦ retry s ]
    ]

-- Each retry moves `mark` forward, and between two retries `pi` and `ti` only rise.
unfoldable pub glob_fuel : Text → Text → ℕ
glob_fuel p t = length t * (length p + length t + 1) + length p + length t + 1

unfoldable pub glob_match : Text → Text → Bool
unfolding to_ascii_lowercase glob_loop glob_fuel
glob_match pattern text =
    let p = to_ascii_lowercase pattern in
    let t = to_ascii_lowercase text in unwrap_or false (glob_loop (glob_fuel p t) p t 0 0 none 0)
