-- ===== src/Canonical.antt =====
-- sdk-js/src/canonical.js: the I-JSON boundary, canonical bytes, and strict hex.
-- Messages are constructors; the path in them, a breadcrumb for the reader, is left out.
pub mod Boundary
pub mod Digests
pub mod Members
use capsules_protocol.Json.{
  Num, integral, fractional, infinite, nan, Value, null, bool, num, str, arr, obj, Items, nil, cons,
  Fields, end, field,
}
use capsules_protocol.Bytes.{Bytes, is_high, is_low, utf8, from_hex}
use capsules_protocol.Platform.{Platform}
use capsules_protocol.Prelude.{
  ltb, leb, ◌==◌, if◌then◌else◌, ==_iff, Bool-cases, Option-cases, &&_both, and_true, Result, ok,
  err, ◌>>=◌, Str, codes, str_eq, str_eq_refl, str_eq_sound, str_eq_iff, contains, all_in, is_digit,
  is_lower, is_upper, is_lower_hex, is_hex, starts_with, cut_at, lower_code, to_lower, str_compare,
  length, is_nil, All, any, every, keep, length-append, All-append, append-eq-nil, ℕ, zero, suc,
  ◌+◌, ◌-◌, ◌*◌, ◌/◌, ◌%◌, ◌^◌, ◌≤◌, ◌<◌, String, ◌≡◌, refl, sym, ap, ◌∙◌, ◌≢◌, ◌↔◌, ◌⊎◌, inl, inr,
  Bool, true, false, ◌&&◌, ◌||◌, not, Option, none, some, List, [], ◌∷◌, ◌++◌, map, append_assoc,
  append-nil, arith,
}

pub data CanonError : Type 0 where
  unpaired_surrogate : ℕ → CanonError
  non_finite : CanonError
  unsafe_integer : CanonError
  no_string : CanonError

abbrev pub max_safe_integer : ℕ
max_safe_integer = 2 ^ 53 - 1

abbrev pub plain_integer_ceiling : ℕ
plain_integer_ceiling = 10 ^ 21

-- `assertIJson` at a number.
unfoldable pub number_error : Num → Option CanonError
number_error (integral negative m) =
    if ltb max_safe_integer m && ltb m plain_integer_ceiling then some unsafe_integer else none
number_error (fractional bits) = none
number_error (infinite negative) = some non_finite
number_error nan = some non_finite

-- The first code point in D800..DFFF that `for (const ch of s)` yields, behind a high surrogate
-- that still waits for its low one.
unfoldable pub lone_from : Option ℕ → Str → Option ℕ
lone_from none [] = none
lone_from (some h) [] = some h
lone_from none (c ∷ s) =
    let pending = lone_from (some c) s in
    let plain = lone_from none s in
    if is_low c then some c else if is_high c then pending else plain
lone_from (some h) (c ∷ s) = let paired = lone_from none s in if is_low c then paired else some h

-- `assertWellFormedUnicode`.
unfoldable pub text_error : Str → Option CanonError
text_error s = elim (lone_from none s) [ none ↦ none | some c ↦ some (unpaired_surrogate c) ]

-- The first error of two checks in order.
abbrev pub or_then : Option CanonError → Option CanonError → Option CanonError
or_then (some e) f = some e
or_then none f = f

-- `assertIJson`; `none` where it returns.
unfoldable mutual
  pub assert_i_json : Value → Option CanonError
  assert_i_json null = none
  assert_i_json (bool b) = none
  assert_i_json (num n) = number_error n
  assert_i_json (str s) = text_error s
  assert_i_json (arr xs) = assert_items xs
  assert_i_json (obj o) = assert_fields o

  pub assert_items : Items → Option CanonError
  assert_items nil = none
  assert_items (cons v xs) = or_then (assert_i_json v) (assert_items xs)

  pub assert_fields : Fields → Option CanonError
  assert_fields end = none
  assert_fields (field k v o) = or_then (text_error k) (or_then (assert_i_json v) (assert_fields o))

-- `jcs(obj)`.
unfoldable pub jcs : Platform → Value → Result CanonError Bytes
jcs p v = elim (assert_i_json v) [
  | some e ↦ err e
  | none ↦ elim (p.canonicalize v) [ none ↦ err no_string | some s ↦ ok (utf8 s) ]
]

pub data HexError : Type 0 where
  odd_length uppercase non_hex : HexError

abbrev pub has_upper_hex : Str → Bool
has_upper_hex = any (λ c. leb b'A' c && leb c b'F')

abbrev pub is_odd : ℕ → Bool
is_odd n = n % 2 == 1

-- `hexToBytes(hex)` of a string.
unfoldable pub hex_to_bytes : Str → Result HexError Bytes
hex_to_bytes s =
    if is_odd (length s)
    then err odd_length
    else if has_upper_hex s
    then err uppercase
    else if all_in is_lower_hex s
    then ok (from_hex s)
    else err non_hex

-- `/^[0-9a-f]{64}$/.test(s)`.
unfoldable pub is_hex64 : Str → Bool
is_hex64 s = length s == 64 && all_in is_lower_hex s
