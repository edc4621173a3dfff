-- ===== src/DBus/Unmarshal/Tests.antt =====
-- A text behind one byte.
use jamsys.Prelude.{◌≡◌, refl, true, some, [], ◌∷◌, ◌++◌, length, codes, arith}
use jamsys.DBus.Marshal.{put_string}
use jamsys.DBus.Unmarshal.{get_string}
use jamsys.DBus.Unmarshal.Laws.{get_string-put_string}

get_string-put_string_example :
    get_string (λ s. true) (put_string (codes "jam") (1 ∷ []) ++ (7 ∷ [])) 1
    ≡ some (codes "jam", length (put_string (codes "jam") (1 ∷ [])))
get_string-put_string_example =
    get_string-put_string (λ s. true) (codes "jam") (1 ∷ []) (7 ∷ []) (omega arith) refl
