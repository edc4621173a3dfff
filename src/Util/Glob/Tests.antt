-- ===== src/Util/Glob/Tests.antt =====
-- Globs at work.
use jamsys.Prelude.{
  ◌≡◌, ◌↔◌, refl, Bool, true, false, not, all, ◌==◌, some, none, [], ◌∷◌, Text, codes, arith,
}
use jamsys.Util.Glob.{glob_loop, glob_fuel, glob_match, to_ascii_lowercase}
use jamsys.Util.Glob.Spec.{Matches, NoStar}
use jamsys.Util.Glob.Laws.{glob_loop_total, glob_match_iff, glob_match_literal_star}

no_star : (t : Text) → all (λ c. not (c == b'*')) t ≡ true → NoStar t
no_star [] h = tt
no_star (c ∷ t) h = ((λ e. ground (arith, h)), no_star t (ground (arith, h)))

glob_match_iff_example :
    (glob_match (codes "t*:C?u") (codes "temp:cpu") ≡ true)
    ↔ Matches (to_ascii_lowercase (codes "t*:C?u")) (to_ascii_lowercase (codes "temp:cpu"))
glob_match_iff_example =
    glob_match_iff (codes "t*:C?u") (codes "temp:cpu") (no_star (codes "temp:cpu") refl)

glob_loop_total_example :
    (r : Bool) × (glob_loop
        (glob_fuel (codes "a*b") (codes "acb"))
        (codes "a*b")
        (codes "acb")
        0
        0
        none
        0
      ≡ some r)
glob_loop_total_example = glob_loop_total (codes "a*b") (codes "acb")

glob_match_literal_star_example :
    (glob_match (codes "*") (codes "*ERROR*") ≡ false)
    × Matches (to_ascii_lowercase (codes "*")) (to_ascii_lowercase (codes "*ERROR*"))
glob_match_literal_star_example = glob_match_literal_star b'E' (codes "RROR*")
