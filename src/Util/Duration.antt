-- ===== src/Util/Duration.antt =====
-- jamsys-daemon/src/util.rs, `human_duration`.
use jamsys.Prelude.{ℕ, ◌/◌, ◌%◌, ◌++◌, ltb, ◌==◌, if◌then◌else◌, Text, codes}
use jamsys.Prelude.Decimal.{to_string}
use jamsys.Prelude.Int.{ℤ, pos, negsuc}

-- `secs.max(0)`.
abbrev clamped : ℤ → ℕ
clamped (pos n) = n
clamped (negsuc n) = 0

-- The larger unit `a`, and the smaller one `b` where it is not zero.
two_units : ℕ → Text → ℕ → Text → Text
two_units a u b v =
    if b == 0 then to_string a ++ u else to_string a ++ (u ++ (codes " " ++ (to_string b ++ v)))

unfoldable pub human_duration : ℤ → Text
unfolding two_units
human_duration secs =
    let s = clamped secs in
    if ltb s 60
    then to_string s ++ codes "s"
    else if ltb s 3600
    then two_units (s / 60) (codes "m") (s % 60) (codes "s")
    else if ltb s 86400
    then two_units (s / 3600) (codes "h") (s % 3600 / 60) (codes "m")
    else two_units (s / 86400) (codes "d") (s % 86400 / 3600) (codes "h")
