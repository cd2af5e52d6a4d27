-- ===== src/Prelude/Lists.antt =====
-- Lists measured by native numbers, under the library's names, and predicates over them.
use Prim.Native.Nat.{ℕ, suc, ◌+◌}
use mathlib.Core.Path.{◌≡◌, refl}
use mathlib.Core.Bool.{Bool, true, false, ◌&&◌, ◌||◌}
use mathlib.Core.List.{List, [], ◌∷◌, ◌++◌, Permᴰ}
use native.Mathlib.Omega.{arith}
use capsules_protocol.Prelude.Tests.{if◌then◌else◌}

module _ {ℓ} {A : Type ℓ} where
  abbrev pub length : List A → ℕ
  length [] = 0
  length (x ∷ xs) = suc (length xs)

  abbrev pub is_nil : List A → Bool
  is_nil [] = true
  is_nil (x ∷ xs) = false

  abbrev pub All {κ} : (A → Type κ) → List A → Type κ
  All P [] = Unit
  All P (x ∷ xs) = P x × All P xs

  -- `some` and `every` on arrays.
  abbrev pub any : (A → Bool) → List A → Bool
  any p [] = false
  any p (x ∷ xs) = p x || any p xs

  abbrev pub every : (A → Bool) → List A → Bool
  every p [] = true
  every p (x ∷ xs) = p x && every p xs

  -- `filter` by a Boolean test.
  abbrev pub keep : (A → Bool) → List A → List A
  keep p [] = []
  keep p (x ∷ xs) = if p x then x ∷ keep p xs else keep p xs

  pub length-append : (xs ys : List A) → length (xs ++ ys) ≡ length xs + length ys
  length-append [] ys = omega arith
  length-append (x ∷ xs) ys = omega (arith, length-append xs ys)

  pub All-append {κ} : (P : A → Type κ) (xs ys : List A) → All P xs → All P ys → All P (xs ++ ys)
  All-append P [] ys hx hy = hy
  All-append P (x ∷ xs) ys hx hy = (hx.0, All-append P xs ys hx.1 hy)

  pub append-eq-nil : (xs ys : List A) → (xs ++ ys) ≡ [] → (xs ≡ []) × (ys ≡ [])
  append-eq-nil [] ys h = (refl, h)
  append-eq-nil (x ∷ xs) ys h = cc

  -- Lists one after another.
  abbrev pub concat : List (List A) → List A
  concat [] = []
  concat (l ∷ ls) = l ++ concat ls

pub concat-nil {ℓ} : {A : Type ℓ} (ls : List (List A)) → concat ls ≡ [] → All (λ l. l ≡ []) ls
concat-nil [] h = tt
concat-nil (l ∷ ls) h = let (a, b) = append-eq-nil l (concat ls) h in (a, concat-nil ls b)

pub permuted_refl {ℓ} : {A : Type ℓ} (l : List A) → Permᴰ l l
permuted_refl [] = Permᴰ.nil
permuted_refl (a ∷ l) = Permᴰ.cons refl (permuted_refl l)
