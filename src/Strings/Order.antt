-- ===== src/Strings/Order.antt =====
-- Go's `<` on strings: the order of their bytes.
use vuln4shift_backend.Prelude.{
  ◌≡◌, Bool, true, false, [], ◌∷◌, arith, ltb, nat_beq, if◌then◌else◌, Str,
}

unfoldable pub str_less : Str → Str → Bool
str_less s [] = false
str_less [] (b ∷ t) = true
str_less (a ∷ s) (b ∷ t) = if nat_beq a b then str_less s t else ltb a b

pub str_less_asym : (s t : Str) → str_less s t ≡ true → str_less t s ≡ false
unfolding str_less
str_less_asym s [] h = cc
str_less_asym [] (b ∷ t) h = ground arith
str_less_asym (a ∷ s) (b ∷ t) h = ground (arith, str_less_asym s t)

pub str_less_trans :
    (s t u : Str) → str_less t s ≡ false → str_less u t ≡ false → str_less u s ≡ false
unfolding str_less
str_less_trans [] t [] h k = ground arith
str_less_trans [] [] (c ∷ u) h k = ground arith
str_less_trans [] (b ∷ t) (c ∷ u) h k = ground arith
str_less_trans (a ∷ s) [] u h k = cc
str_less_trans (a ∷ s) (b ∷ t) [] h k = cc
str_less_trans (a ∷ s) (b ∷ t) (c ∷ u) h k = ground (arith, str_less_trans s t u)
