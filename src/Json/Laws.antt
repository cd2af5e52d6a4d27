-- ===== src/Json/Laws.antt =====
-- The laws of objects: what a read gives after a write, a removal or a spread.
use capsules_protocol.Prelude.{
  ◌≡◌, refl, arith, Option, none, some, false, Str, str_eq, str_eq_iff, str_eq_refl, if◌then◌else◌,
}
use capsules_protocol.Json.{Value, Fields, end, field, get, set, without, spread}

pub get-set :
    (o : Fields) (k j : Str) (v : Value)
    → get (set o k v) j ≡ (if str_eq k j then some v else get o j)
unfolding get set
get-set end k j v = refl
get-set (field i w o) k j v =
    ground (arith, get-set o k j v, str_eq_iff i k, str_eq_iff i j, str_eq_iff k j)

pub get-without :
    (o : Fields) (k j : Str) → get (without o k) j ≡ (if str_eq k j then none else get o j)
unfolding get without
get-without end k j = ground arith
get-without (field i w o) k j =
    ground (arith, get-without o k j, str_eq_iff i k, str_eq_iff i j, str_eq_iff k j)

-- Removing a member that was just added gives the object back.
pub without_absent : (o : Fields) (k : Str) → get o k ≡ none → without o k ≡ o
unfolding get without
without_absent end k h = refl
without_absent (field i w o) k h = ground (arith, without_absent o k)

pub without-set : (o : Fields) (k : Str) (v : Value) → get o k ≡ none → without (set o k v) k ≡ o
unfolding get set without
without-set end k v h = ground (arith, str_eq_refl k)
without-set (field i w o) k v h = ground (arith, without-set o k v)

pub get-spread_absent : (a b : Fields) (k : Str) → get b k ≡ none → get (spread a b) k ≡ get a k
unfolding get spread
get-spread_absent a end k h = refl
get-spread_absent a (field i w b) k h =
    ground (arith, get-spread_absent (set a i w) b k, get-set a i k w)

-- No member twice, as in every object of the source.
abbrev pub Distinct : Fields → Type 0
Distinct end = Unit
Distinct (field k v o) = (get o k ≡ none) × Distinct o

abbrev pub or_else : Option Value → Option Value → Option Value
or_else (some v) d = some v
or_else none d = d

pub get-spread :
    (a b : Fields) (k : Str) → Distinct b → get (spread a b) k ≡ or_else (get b k) (get a k)
unfolding get spread
get-spread a end k h = refl
get-spread a (field i w b) k (new, rest) =
    ground (arith, get-spread (set a i w) b k rest, get-set a i k w, str_eq_iff i k, new)

pub get-set_ne :
    (o : Fields) (k j : Str) (v : Value) → str_eq k j ≡ false → get (set o k v) j ≡ get o j
get-set_ne o k j v h = ground (arith, get-set o k j v)

pub get-set_self : (o : Fields) (k : Str) (v : Value) → get (set o k v) k ≡ some v
get-set_self o k v = ground (arith, get-set o k k v, str_eq_refl k)

-- Writing a member does not change what is left when it is removed.
pub without-set_self : (o : Fields) (k : Str) (v : Value) → without (set o k v) k ≡ without o k
unfolding set without
without-set_self end k v = ground (arith, str_eq_refl k)
without-set_self (field i w o) k v = ground (arith, without-set_self o k v, str_eq_refl k)
