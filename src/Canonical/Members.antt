-- ===== src/Canonical/Members.antt =====
-- `assertNoDuplicateMembers` and `parseJsonStrict` of sdk-js/src/canonical.js.
-- The position in the text is the text that is left.
pub mod Strings
pub mod Shrinks
pub mod Fuel
use capsules_protocol.Json.{Value}
use capsules_protocol.Bytes.{Bytes}
use capsules_protocol.Prelude.{
  ltb, leb, ◌==◌, if◌then◌else◌, ==_iff, Bool-cases, Option-cases, &&_both, and_true, Result, ok,
  err, ◌>>=◌, Str, codes, str_eq, str_eq_refl, str_eq_sound, str_eq_iff, contains, all_in, is_digit,
  is_lower, is_upper, is_lower_hex, is_hex, starts_with, cut_at, str_before, lower_code, to_lower,
  str_compare, length, is_nil, All, any, every, keep, length-append, All-append, append-eq-nil, ℕ,
  zero, suc, ◌+◌, ◌-◌, ◌*◌, ◌/◌, ◌%◌, ◌^◌, ◌≤◌, ◌<◌, String, ◌≡◌, refl, sym, ap, ◌∙◌, ◌≢◌, ◌↔◌, ◌⊎◌,
  inl, inr, Bool, true, false, ◌&&◌, ◌||◌, not, Option, none, some, List, [], ◌∷◌, ◌++◌, map,
  append_assoc, append-nil, arith, Result-cases, concat, concat-nil, Apart, contains_cons,
  cons_contains, nothing_seen, contains_head, Apart-length, Apart-exhausts, contains_of, flip,
  str_compare-flip, str_compare_eq, str_compare_refl, str_compare_trans, before_asym, before_trans,
  before_total, before_below, permuted_refl,
}

pub data ScanError : Type 0 where
  invalid_escape unterminated expected_name expected_colon : ScanError
  expected_comma_in_object expected_comma_in_array : ScanError
  duplicate_member : Str → ScanError
  -- The fuel of the scanner ran out.
  out_of_fuel : ScanError

abbrev pub is_space : ℕ → Bool
is_space c = c == b' ' || (c == 9 || (c == 10 || c == 13))

-- `skipWs`.
unfoldable pub skip_space : Str → Str
skip_space [] = []
skip_space (c ∷ s) = let rest = skip_space s in if is_space c then rest else c ∷ s

-- What `\e` stands for.
unfoldable pub escaped_unit : ℕ → Option ℕ
escaped_unit e =
    if e == b'"' || (e == b'\\' || e == b'/')
    then some e
    else if e == b'b'
    then some 8
    else if e == b'f'
    then some 12
    else if e == b'n'
    then some 10
    else if e == b'r'
    then some 13
    else if e == b't'
    then some 9
    else none

abbrev pub hex_value : ℕ → ℕ
hex_value c = if is_digit c then c - b'0' else if leb b'a' c then c - b'a' + 10 else c - b'A' + 10

-- White space and line ends of ECMAScript.
abbrev is_white : ℕ → Bool
is_white c =
    c == b' '
    || (leb 9 c && leb c 13
        || (c == 160
            || (c == 5760
                || (leb 8192 c && leb c 8202
                    || (c == 8232
                        || (c == 8233
                            || (c == 8239 || (c == 8287 || (c == 12288 || c == 65279)))))))))

unfoldable pub hex_prefix : ℕ → Str → ℕ
hex_prefix v [] = v
hex_prefix v (c ∷ s) =
    let more = hex_prefix (v * 16 + hex_value c) s in if is_hex c then more else v

abbrev strip_0x : Str → Str
strip_0x (c ∷ d ∷ s) = if c == b'0' && (d == b'x' || d == b'X') then s else c ∷ d ∷ s
strip_0x s = s

abbrev signed_hex : Str → ℕ
signed_hex (c ∷ s) =
    if c == b'-'
    then (65536 - hex_prefix 0 (strip_0x s)) % 65536
    else if c == b'+'
    then hex_prefix 0 (strip_0x s)
    else hex_prefix 0 (strip_0x (c ∷ s))
signed_hex [] = 0

-- The code unit of `String.fromCharCode(parseInt(s, 16))` for four characters: parseInt skips white
-- space, takes a sign and `0x`, and reads as many digits as there are; without any it is NaN, whose
-- code unit is 0.
unfoldable pub parsed_unit : Str → ℕ
parsed_unit [] = 0
parsed_unit (c ∷ s) = let rest = parsed_unit s in if is_white c then rest else signed_hex (c ∷ s)

-- Where the scanner stands in a string: behind a character, behind a backslash, or in a `\u`
-- escape, with as many characters to come behind the next one and those read.
pub data Mode : Type 0 where
  plain backslash : Mode
  unit : ℕ → Str → Mode

abbrev pub push : ℕ → Result ScanError (Str × Str) → Result ScanError (Str × Str)
push c (ok (name, rest)) = ok (c ∷ name, rest)
push c (err e) = err e

-- `parseString` behind the opening quote: what the string says, and the text behind it. A `\u`
-- escape takes four characters, whatever they are.
unfoldable pub scan_string : Mode → Str → Result ScanError (Str × Str)
scan_string plain [] = err unterminated
scan_string backslash [] = err invalid_escape
scan_string (unit k v) [] = err unterminated
scan_string plain (c ∷ s) =
    let escape = scan_string backslash s in
    let rest = scan_string plain s in
    if c == b'"' then ok ([], s) else if c == b'\\' then escape else push c rest
scan_string backslash (c ∷ s) =
    let digits = scan_string (unit 3 []) s in
    let rest = scan_string plain s in
    if c == b'u'
    then digits
    else elim (escaped_unit c) [ none ↦ err invalid_escape | some u ↦ push u rest ]
scan_string (unit zero v) (c ∷ s) = push (parsed_unit (v ++ c ∷ [])) (scan_string plain s)
scan_string (unit (suc k) v) (c ∷ s) = scan_string (unit k (v ++ c ∷ [])) s

-- `",}] \t\n\r".includes(c)`.
abbrev pub ends_scalar : ℕ → Bool
ends_scalar c = c == b',' || (c == b'}' || (c == b']' || is_space c))

unfoldable pub skip_scalar : Str → Str
skip_scalar [] = []
skip_scalar (c ∷ s) = let rest = skip_scalar s in if ends_scalar c then c ∷ s else rest

-- The text behind `c`, where that is the next character.
abbrev pub next_is : ℕ → Str → Option Str
next_is c [] = none
next_is c (d ∷ s) = if d == c then some s else none

-- Behind a value in an array or an object: the text behind the comma, behind the end, or neither.
pub data After : Type 0 where
  comma : Str → After
  close : Str → After
  neither : After

unfoldable pub after_value : ℕ → Str → After
after_value end s = elim (next_is b',' s) [
  | some r ↦ comma r
  | none ↦ elim (next_is end s) [ some r ↦ close r | none ↦ neither ]
]

-- A member's name, and the text behind it.
unfoldable pub scan_name : Str → Result ScanError (Str × Str)
scan_name s = elim (next_is b'"' (skip_space s)) [
  | none ↦ err expected_name
  | some t ↦ scan_string plain t
]

-- The text behind the colon of a member.
unfoldable pub behind_colon : Str → Result ScanError Str
behind_colon s = elim (next_is b':' (skip_space s)) [ none ↦ err expected_colon | some u ↦ ok u ]

-- `parseValue`, the loops of `parseObject` and `parseArray`, and these on a first character.
unfoldable mutual
  pub scan_value : ℕ → Str → Result ScanError Str
  scan_value zero s = err out_of_fuel
  scan_value (suc n) s = scan_first n (skip_space s)

  pub scan_first : ℕ → Str → Result ScanError Str
  scan_first zero s = err out_of_fuel
  scan_first (suc n) [] = ok []
  scan_first (suc n) (c ∷ s) =
      let members = scan_members n [] s in
      let elements = scan_elements n s in
      let object : Result ScanError Str = elim (next_is b'}' (skip_space s)) [
        | some r ↦ ok r
        | none ↦ members
      ] in
      let array : Result ScanError Str = elim (next_is b']' (skip_space s)) [
        | some r ↦ ok r
        | none ↦ elements
      ] in
      if c == b'{'
      then object
      else if c == b'['
      then array
      else if c == b'"'
      then (scan_string plain s >>= λ (name, r). ok r)
      else ok (skip_scalar (c ∷ s))

  pub scan_members : ℕ → List Str → Str → Result ScanError Str
  scan_members zero seen s = err out_of_fuel
  scan_members (suc n) seen s = scan_name s >>= λ (name, r).
      let value = behind_colon r >>= λ u. scan_value n u in
      if contains seen name
      then err (duplicate_member name)
      else (value >>= λ t. elim (after_value b'}' (skip_space t)) [
        | comma u ↦ scan_members n (name ∷ seen) u
        | close u ↦ ok u
        | neither ↦ err expected_comma_in_object
      ])

  pub scan_elements : ℕ → Str → Result ScanError Str
  scan_elements zero s = err out_of_fuel
  scan_elements (suc n) s = scan_value n s >>= λ t. elim (after_value b']' (skip_space t)) [
    | comma u ↦ scan_elements n u
    | close u ↦ ok u
    | neither ↦ err expected_comma_in_array
  ]

-- Fuel that no text uses up.
abbrev pub scan_fuel : Str → ℕ
scan_fuel s = 3 * length s + 2

-- `assertNoDuplicateMembers(text)`; `none` where it returns.
unfoldable pub assert_no_duplicate_members : Str → Option ScanError
assert_no_duplicate_members s = elim (scan_value (scan_fuel s) s) [ ok r ↦ none | err e ↦ some e ]

-- The platform's TextDecoder and JSON.parse, `none` where it throws.
pub record Parser : Type 0 where
  pub decode : Bytes → Str
  pub parse : Str → Option Value

pub data ParseError : Type 0 where
  syntax : ParseError
  scan : ScanError → ParseError

-- `parseJsonStrict` of a text and of bytes.
unfoldable pub parse_text_strict : Parser → Str → Result ParseError Value
parse_text_strict j s = elim (j.parse s) [
  | none ↦ err syntax
  | some v ↦ elim (assert_no_duplicate_members s) [ none ↦ ok v | some e ↦ err (scan e) ]
]

unfoldable pub parse_json_strict : Parser → Bytes → Result ParseError Value
parse_json_strict j b = parse_text_strict j (j.decode b)
