-- ===== src/Prelude/Names.antt =====
-- Lists of texts without repetition.
use mathlib.Core.Path.{◌≡◌, refl}
use mathlib.Core.Logic.{inl, inr}
use mathlib.Core.Bool.{true, false}
use mathlib.Core.List.{List, [], ◌∷◌}
use Prim.Native.Nat.{suc, ◌≤◌}
use native.Mathlib.Omega.{arith}
use capsules_protocol.Prelude.Tests.{if◌then◌else◌, Bool-cases}
use capsules_protocol.Prelude.Lists.{length, All}
use capsules_protocol.Prelude.Text.{Str, str_eq, str_eq_refl, str_eq_iff, contains}

-- No text twice.
abbrev pub Apart : List Str → Type 0
Apart [] = Unit
Apart (t ∷ ts) = (contains ts t ≡ false) × Apart ts

pub contains_cons :
    (seen ts : List Str) (t : Str)
    → All (λ u. contains (t ∷ seen) u ≡ false) ts
    → All (λ u. contains seen u ≡ false) ts × (contains ts t ≡ false)
unfolding contains
contains_cons seen [] t h = (tt, refl)
contains_cons seen (u ∷ ts) t (h, hs) =
    ground (arith, contains_cons seen ts t hs, str_eq_iff t u, str_eq_iff u t)

pub cons_contains :
    (seen ts : List Str) (t : Str)
    → All (λ u. contains seen u ≡ false) ts
    → contains ts t ≡ false
    → All (λ u. contains (t ∷ seen) u ≡ false) ts
unfolding contains
cons_contains seen [] t h k = tt
cons_contains seen (u ∷ ts) t (h, hs) k =
    ground (arith, cons_contains seen ts t hs, str_eq_iff t u, str_eq_iff u t)

pub nothing_seen : (ts : List Str) → All (λ u. contains [] u ≡ false) ts
unfolding contains
nothing_seen [] = tt
nothing_seen (t ∷ ts) = (refl, nothing_seen ts)

pub contains_head : (x : Str) (xs : List Str) → contains (x ∷ xs) x ≡ true
unfolding contains
contains_head x xs = ground (arith, str_eq_refl x)

-- The list without the first `x`.
abbrev without : Str → List Str → List Str
without x [] = []
without x (y ∷ ys) = if str_eq y x then ys else y ∷ without x ys

length-without :
    (x : Str) (ys : List Str) → contains ys x ≡ true → suc (length (without x ys)) ≡ length ys
unfolding contains
length-without x [] h = cc
length-without x (y ∷ ys) h = ground (arith, length-without x ys)

contains-without :
    (x y : Str) (ys : List Str)
    → str_eq x y ≡ false
    → contains ys y ≡ true
    → contains (without x ys) y ≡ true
unfolding contains
contains-without x y [] n h = cc
contains-without x y (z ∷ ys) n h =
    ground (arith, contains-without x y ys n, str_eq_iff z x, str_eq_iff z y, str_eq_refl y)

All-without :
    (x : Str) (xs ys : List Str)
    → contains xs x ≡ false
    → All (λ u. contains ys u ≡ true) xs
    → All (λ u. contains (without x ys) u ≡ true) xs
unfolding contains
All-without x [] ys n h = tt
All-without x (u ∷ xs) ys n (h, hs) =
    let both : (str_eq x u ≡ false) × (contains xs x ≡ false) =
      ground (arith, str_eq_iff u x, str_eq_iff x u) in
    (contains-without x u ys both.0 h, All-without x xs ys both.1 hs)

-- As many texts, none twice, as the list that holds them all.
pub Apart-length :
    (xs ys : List Str) → Apart xs → All (λ u. contains ys u ≡ true) xs → length xs ≤ length ys
Apart-length [] ys a h = omega arith
Apart-length (x ∷ xs) ys (n, a) (h, hs) =
    omega
      (arith, length-without x ys h, Apart-length xs (without x ys) a (All-without x xs ys n hs))

-- Where they are as many, every text of the list is among them.
pub Apart-exhausts :
    (xs ys : List Str) (y : Str)
    → Apart xs
    → All (λ u. contains ys u ≡ true) xs
    → length xs ≡ length ys
    → contains ys y ≡ true
    → contains xs y ≡ true
Apart-exhausts xs ys y a h l m = elim (Bool-cases (contains xs y)) [
  | inl t ↦ t
  | inr f ↦ absurd (
      omega (
        arith,
        l,
        length-without y ys m,
        Apart-length xs (without y ys) a (All-without y xs ys f h),
      ))
]

pub contains_of :
    (xs ys : List Str) (u : Str)
    → All (λ v. contains ys v ≡ true) xs
    → contains xs u ≡ true
    → contains ys u ≡ true
unfolding contains
contains_of [] ys u h m = cc
contains_of (x ∷ xs) ys u (h, hs) m = ground (arith, contains_of xs ys u hs, str_eq_iff x u)
