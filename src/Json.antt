-- ===== src/Json.antt =====
-- The values of JSON.parse, as sdk-js/src handles them, and objects with their members in order.
pub mod Laws
use capsules_protocol.Prelude.{
  ℕ, ◌≡◌, Bool, true, false, ◌&&◌, ◌||◌, not, Option, none, some, List, [], ◌∷◌, Str, codes, str_eq,
  ◌==◌, if◌then◌else◌,
}

-- An IEEE-754 double as the source tells doubles apart: integral with its sign and magnitude,
-- fractional with its bits, infinite with its sign, or NaN.
pub data Num : Type 0 where
  integral : Bool → ℕ → Num
  fractional : ℕ → Num
  infinite : Bool → Num
  nan : Num

mutual
  pub data Value : Type 0 where
    null : Value
    bool : Bool → Value
    num : Num → Value
    str : Str → Value
    arr : Items → Value
    obj : Fields → Value

  pub data Items : Type 0 where
    nil : Items
    cons : Value → Items → Items

  pub data Fields : Type 0 where
    end : Fields
    field : Str → Value → Fields → Fields

-- `===` between a number and a natural literal.
abbrev pub num_is : Num → ℕ → Bool
num_is (integral negative m) n = m == n && (not negative || n == 0)
num_is _ n = false

abbrev pub of_ℕ : ℕ → Value
of_ℕ n = num (integral false n)

-- `o[k]`; `none` is `undefined`.
unfoldable pub get : Fields → Str → Option Value
get end k = none
get (field j v o) k = if str_eq j k then some v else get o k

-- `o[k] = v`, which keeps the place of a member that is there.
unfoldable pub set : Fields → Str → Value → Fields
set end k v = field k v end
set (field j w o) k v = if str_eq j k then field j v o else field j w (set o k v)

-- The rest of `const { k, ...rest } = o`.
unfoldable pub without : Fields → Str → Fields
without end k = end
without (field j v o) k = let rest = without o k in if str_eq j k then rest else field j v rest

-- `{ ...a, ...b }`.
unfoldable pub spread : Fields → Fields → Fields
spread a end = a
spread a (field k v b) = spread (set a k v) b

abbrev pub elements : Items → List Value
elements nil = []
elements (cons v xs) = v ∷ elements xs

abbrev pub keys : Fields → List Str
keys end = []
keys (field k v o) = k ∷ keys o

abbrev pub as_str : Option Value → Option Str
as_str (some (str s)) = some s
as_str _ = none

abbrev pub as_arr : Option Value → Option Items
as_arr (some (arr xs)) = some xs
as_arr _ = none

-- `v?.k`, and `undefined` where `v` is no object.
abbrev pub at : Option Value → Str → Option Value
at (some (obj o)) k = get o k
at _ k = none

-- Whether a template literal gives a text for the value. An object with a member `toString` hides
-- the inherited method, and no text is made of it: that throws. An array is joined from the texts
-- of its elements.
unfoldable mutual
  pub has_text : Value → Bool
  has_text (arr vs) = have_texts vs
  has_text (obj o) = elim (get o (codes "toString")) [ none ↦ true | some v ↦ false ]
  has_text v = true

  pub have_texts : Items → Bool
  have_texts nil = true
  have_texts (cons v vs) = has_text v && have_texts vs

-- Whether `${v}` gives a text, where `none` is `undefined`.
abbrev pub prints : Option Value → Bool
prints none = true
prints (some v) = has_text v
