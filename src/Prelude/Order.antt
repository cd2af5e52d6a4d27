-- ===== src/Prelude/Order.antt =====
-- The order of strings.
use Prim.Native.Nat.{ℕ, Ordering, compare}
use mathlib.Core.Path.{◌≡◌, refl}
use mathlib.Core.List.{[], ◌∷◌}
use native.Mathlib.Omega.{arith}
use mathlib.Core.Bool.{true, false}
use capsules_protocol.Prelude.Text.{Str, str_compare, str_before, str_eq, str_eq_refl}

abbrev pub flip : Ordering → Ordering
flip Ordering.lt = Ordering.gt
flip Ordering.gt = Ordering.lt
flip Ordering.eq = Ordering.eq

compare-flip : (a b : ℕ) → compare b a ≡ flip (compare a b)
compare-flip a b = ground arith

pub str_compare-flip : (s t : Str) → str_compare t s ≡ flip (str_compare s t)
unfolding str_compare
str_compare-flip [] [] = refl
str_compare-flip [] (y ∷ t) = refl
str_compare-flip (x ∷ s) [] = refl
str_compare-flip (x ∷ s) (y ∷ t) = ground (arith, str_compare-flip s t)

pub str_compare_eq : (s t : Str) → str_compare s t ≡ Ordering.eq → s ≡ t
unfolding str_compare
str_compare_eq [] [] h = refl
str_compare_eq [] (y ∷ t) h = cc
str_compare_eq (x ∷ s) [] h = cc
str_compare_eq (x ∷ s) (y ∷ t) h = ground (arith, str_compare_eq s t)

pub str_compare_refl : (s : Str) → str_compare s s ≡ Ordering.eq
unfolding str_compare
str_compare_refl [] = refl
str_compare_refl (x ∷ s) = ground (arith, str_compare_refl s)

pub str_compare_trans :
    (r s t : Str)
    → str_compare r s ≡ Ordering.lt
    → str_compare s t ≡ Ordering.lt
    → str_compare r t ≡ Ordering.lt
unfolding str_compare
str_compare_trans [] [] t h k = cc
str_compare_trans [] (y ∷ s) [] h k = cc
str_compare_trans [] (y ∷ s) (z ∷ t) h k = refl
str_compare_trans (x ∷ r) [] t h k = cc
str_compare_trans (x ∷ r) (y ∷ s) [] h k = cc
str_compare_trans (x ∷ r) (y ∷ s) (z ∷ t) h k = ground (arith, str_compare_trans r s t)

pub before_asym : (a b : Str) → str_before a b ≡ true → str_before b a ≡ false
before_asym a b h = ground (arith, str_compare-flip a b)

pub before_trans :
    (a b c : Str) → str_before a b ≡ true → str_before b c ≡ true → str_before a c ≡ true
before_trans a b c h k = ground (arith, str_compare_trans a b c)

pub before_total : (a b : Str) → str_before a b ≡ false → str_eq a b ≡ false → str_before b a ≡ true
before_total a b h k = ground (arith, str_compare-flip a b, str_compare_eq a b, str_eq_refl a)

pub before_below :
    (a b c : Str) → str_before b a ≡ false → str_before b c ≡ true → str_before a c ≡ true
before_below a b c h k =
    ground (arith, str_compare-flip a b, str_compare_eq a b, str_compare_trans a b c)
