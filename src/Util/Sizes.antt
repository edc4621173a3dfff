-- ===== src/Util/Sizes.antt =====
-- jamsys-daemon/src/util.rs: sizes and rates in words.
use jamsys.Prelude.{
  ℕ, zero, suc, ◌+◌, List, [], ◌∷◌, ◌++◌, ◌==◌, if◌then◌else◌, Text, codes, get_elem?, unwrap_or,
}
use jamsys.Prelude.Real.{Real}

abbrev units : List Text
units = codes "B" ∷ codes "kB" ∷ codes "MB" ∷ codes "GB" ∷ codes "TB" ∷ codes "PB" ∷ []

module _ {ℓ} {F : Type ℓ} ⦃d : Real F⦄ where
  -- The number that is left, and the index of its unit. The first argument is the number of units
  -- that may still follow.
  unfoldable pub scale : ℕ → F → ℕ → F × ℕ
  scale zero v i = (v, i)
  scale (suc more) v i =
      let rest = scale more (d.div v (d.of_ℕ 1024)) (i + 1) in
      if d.le (d.of_ℕ 1024) v then rest else (v, i)

  unfoldable pub human_bytes : F → Text
  unfolding scale
  human_bytes b =
      let (v, i) = scale 5 (d.abs b) 0 in
      let sign = if d.lt b (d.of_ℕ 0) then codes "-" else [] in
      if i == 0
      then sign ++ (d.fixed 0 v ++ codes " B")
      else let digits = if d.le (d.of_ℕ 100) v then 0 else 1 in
        sign ++ (d.fixed digits v ++ (codes " " ++ unwrap_or [] (get_elem? units i)))

  unfoldable pub human_bps : F → Text
  unfolding human_bytes
  human_bps b = human_bytes b ++ codes "/s"
