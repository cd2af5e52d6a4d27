-- ===== src/Prelude/Text.antt =====
-- JavaScript strings as lists of UTF-16 code units, and what the source does with them.
use Prim.Native.Nat.{ℕ, compare, Ordering, ◌+◌}
use Prim.Native.Char.{code}
use Prim.Native.String.{String}
use mathlib.Core.Path.{◌≡◌, refl}
use mathlib.Core.Logic.{◌↔◌}
use mathlib.Core.Bool.{Bool, true, false, ◌&&◌, ◌||◌}
use mathlib.Core.Option.{Option, none, some}
use mathlib.Core.List.{List, [], ◌∷◌}
use native.Mathlib.Omega.{arith}
use capsules_protocol.Prelude.Tests.{leb, ◌==◌, if◌then◌else◌}

abbrev pub Str : Type 0
Str = List ℕ

-- The code units of an ASCII literal.
abbrev pub codes : String → Str
codes String.[] = []
codes (String.◌∷◌ c s) = code c ∷ codes s

-- `===` on strings.
unfoldable pub str_eq : Str → Str → Bool
str_eq [] [] = true
str_eq [] (y ∷ ys) = false
str_eq (x ∷ xs) [] = false
str_eq (x ∷ xs) (y ∷ ys) = x == y && str_eq xs ys

pub str_eq_refl : (s : Str) → str_eq s s ≡ true
unfolding str_eq
str_eq_refl [] = refl
str_eq_refl (x ∷ s) = ground (arith, str_eq_refl s)

pub str_eq_sound : (s t : Str) → str_eq s t ≡ true → s ≡ t
unfolding str_eq
str_eq_sound [] [] h = refl
str_eq_sound [] (y ∷ t) h = ground arith
str_eq_sound (x ∷ s) [] h = ground arith
str_eq_sound (x ∷ s) (y ∷ t) h = ground (arith, str_eq_sound s t)

pub str_eq_iff : (s t : Str) → (str_eq s t ≡ true) ↔ (s ≡ t)
str_eq_iff s t = (str_eq_sound s t, λ e. rw e (str_eq_refl t))

-- `includes` on an array of strings, `has` on a `Set` of strings.
unfoldable pub contains : List Str → Str → Bool
contains [] s = false
contains (t ∷ ts) s = str_eq t s || contains ts s

-- A regular expression `^[class]*$`.
unfoldable pub all_in : (ℕ → Bool) → Str → Bool
all_in p [] = true
all_in p (c ∷ s) = p c && all_in p s

abbrev pub is_digit : ℕ → Bool
is_digit c = leb b'0' c && leb c b'9'

abbrev pub is_lower : ℕ → Bool
is_lower c = leb b'a' c && leb c b'z'

abbrev pub is_upper : ℕ → Bool
is_upper c = leb b'A' c && leb c b'Z'

-- The class `[0-9a-f]`.
abbrev pub is_lower_hex : ℕ → Bool
is_lower_hex c = is_digit c || (leb b'a' c && leb c b'f')

-- The class `[0-9a-fA-F]`.
abbrev pub is_hex : ℕ → Bool
is_hex c = is_lower_hex c || (leb b'A' c && leb c b'F')

-- `startsWith`.
unfoldable pub starts_with : Str → Str → Bool
starts_with [] s = true
starts_with (p ∷ ps) [] = false
starts_with (p ∷ ps) (c ∷ s) = p == c && starts_with ps s

-- `toLowerCase`, on the ASCII letters.
abbrev pub lower_code : ℕ → ℕ
lower_code c = if is_upper c then c + 32 else c

unfoldable pub to_lower : Str → Str
to_lower [] = []
to_lower (c ∷ s) = lower_code c ∷ to_lower s

-- `<` and `>` on strings: lexicographic by code unit.
unfoldable pub str_compare : Str → Str → Ordering
str_compare [] [] = Ordering.eq
str_compare [] (y ∷ ys) = Ordering.lt
str_compare (x ∷ xs) [] = Ordering.gt
str_compare (x ∷ xs) (y ∷ ys) =
    let rest = str_compare xs ys in
    elim (compare x y) [
      | Ordering.lt ↦ Ordering.lt
      | Ordering.gt ↦ Ordering.gt
      | Ordering.eq ↦ rest
    ]

-- The text before and after the first `x`.
unfoldable pub cut_at : ℕ → Str → Option (Str × Str)
cut_at x [] = none
cut_at x (c ∷ s) =
    let rest = cut_at x s in
    if c == x then some ([], s) else elim rest [ none ↦ none | some (a, b) ↦ some (c ∷ a, b) ]

-- `a < b`.
abbrev pub str_before : Str → Str → Bool
str_before a b = elim (str_compare a b) [ Ordering.lt ↦ true | _ ↦ false ]
