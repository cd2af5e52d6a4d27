-- ===== src/Canonical/Boundary.antt =====
-- The I-JSON boundary (RFC 7493), described without the scan.
use capsules_protocol.Json.{
  Num, integral, fractional, infinite, nan, Value, null, bool, num, str, arr, obj, Items, nil, cons,
  Fields, end, field,
}
use capsules_protocol.Bytes.{Bytes, is_high, is_low, utf8}
use capsules_protocol.Platform.{Platform}
use capsules_protocol.Canonical.{
  CanonError, max_safe_integer, plain_integer_ceiling, number_error, lone_from, text_error, or_then,
  assert_i_json, assert_items, assert_fields, jcs,
}
use capsules_protocol.Prelude.{
  Bool-cases, Option-cases, ok, Str, ℕ, ◌≤◌, ◌≡◌, refl, ◌↔◌, ◌⊎◌, inl, inr, true, false, Option,
  none, some, [], ◌∷◌, arith,
}

-- Well-formed Unicode: every surrogate stands in a pair.
pub data WellFormed : Str → Type 0 where
  empty : WellFormed []
  unit :
      (c : ℕ) (s : Str) → is_low c ≡ false → is_high c ≡ false → WellFormed s → WellFormed (c ∷ s)
  pair :
      (h l : ℕ) (s : Str)
      → is_high h ≡ true
      → is_low l ≡ true
      → WellFormed s
      → WellFormed (h ∷ l ∷ s)

-- A number that every lane represents alike: an exact integer, one in exponent form, a fraction.
abbrev pub IsExact : Num → Type 0
IsExact (integral s m) = (m ≤ max_safe_integer) ⊎ (plain_integer_ceiling ≤ m)
IsExact (fractional b) = Unit
IsExact _ = ⊥

unfoldable mutual
  pub IsIJson : Value → Type 0
  IsIJson null = Unit
  IsIJson (bool b) = Unit
  IsIJson (num n) = IsExact n
  IsIJson (str s) = WellFormed s
  IsIJson (arr xs) = AreIJson xs
  IsIJson (obj o) = MembersIJson o

  pub AreIJson : Items → Type 0
  AreIJson nil = Unit
  AreIJson (cons v xs) = IsIJson v × AreIJson xs

  pub MembersIJson : Fields → Type 0
  MembersIJson end = Unit
  MembersIJson (field k v o) = WellFormed k × IsIJson v × MembersIJson o

lone_sound : (s : Str) → lone_from none s ≡ none → WellFormed s
unfolding lone_from
lone_sound [] h = empty
lone_sound (c ∷ []) h = unit c [] (ground arith) (ground arith) empty
lone_sound (c ∷ d ∷ s) h = elim (Bool-cases (is_low c)) [
  | inl low ↦ absurd (ground (arith, low, h))
  | inr notlow ↦ elim (Bool-cases (is_high c)) [
    | inr nothigh ↦ unit c (d ∷ s) notlow nothigh (lone_sound (d ∷ s) (ground arith))
    | inl high ↦ elim (Bool-cases (is_low d)) [
      | inl low ↦ pair c d s high low (lone_sound s (ground arith))
      | inr bad ↦ absurd (ground (arith, notlow, high, bad, h))
    ]
  ]
]

lone_complete : {s : Str} → WellFormed s → lone_from none s ≡ none
unfolding lone_from
lone_complete empty = refl
lone_complete (unit c s l h w) = rw (l, h) (lone_complete w)
lone_complete (pair h l s hh hl w) = ground (arith, lone_complete w)

text_iff : (s : Str) → (text_error s ≡ none) ↔ WellFormed s
unfolding text_error
text_iff s = (λ h. lone_sound s (clean (lone_from none s) h), λ w. rw (lone_complete w, text_error))
  where
    clean :
        (o : Option ℕ)
        → (elim o [ none ↦ none | some c ↦ some (CanonError.unpaired_surrogate c) ]) ≡ none
        → o ≡ none
    clean none h = refl
    clean (some c) h = cc

number_iff : (n : Num) → (number_error n ≡ none) ↔ IsExact n
unfolding number_error
number_iff (integral s m) = (λ h. ground arith, λ h. ground arith)
number_iff (fractional b) = (λ h. tt, λ h. refl)
number_iff (infinite b) = (λ h. cc, λ h. absurd h)
number_iff nan = (λ h. cc, λ h. absurd h)

or_then_iff : (a b : Option CanonError) → (or_then a b ≡ none) ↔ ((a ≡ none) × (b ≡ none))
or_then_iff none b = (λ h. (refl, h), λ h. h.1)
or_then_iff (some e) b = (λ h. cc, λ h. h.0)

mutual
  unfolding assert_i_json IsIJson

  sound : (v : Value) → assert_i_json v ≡ none → IsIJson v
  sound null h = tt
  sound (bool b) h = tt
  sound (num n) h = (number_iff n).0 h
  sound (str s) h = (text_iff s).0 h
  sound (arr xs) h = sound_items xs h
  sound (obj o) h = sound_fields o h

  sound_items : (xs : Items) → assert_items xs ≡ none → AreIJson xs
  sound_items nil h = tt
  sound_items (cons v xs) h =
      let (a, b) = (or_then_iff (assert_i_json v) (assert_items xs)).0 h in
      (sound v a, sound_items xs b)

  sound_fields : (o : Fields) → assert_fields o ≡ none → MembersIJson o
  sound_fields end h = tt
  sound_fields (field k v o) h =
      let (a, r) = (or_then_iff (text_error k) (or_then (assert_i_json v) (assert_fields o))).0 h in
      let (b, c) = (or_then_iff (assert_i_json v) (assert_fields o)).0 r in
      ((text_iff k).0 a, sound v b, sound_fields o c)

mutual
  unfolding assert_i_json IsIJson

  complete : (v : Value) → IsIJson v → assert_i_json v ≡ none
  complete null h = refl
  complete (bool b) h = refl
  complete (num n) h = (number_iff n).1 h
  complete (str s) h = (text_iff s).1 h
  complete (arr xs) h = complete_items xs h
  complete (obj o) h = complete_fields o h

  complete_items : (xs : Items) → AreIJson xs → assert_items xs ≡ none
  complete_items nil h = refl
  complete_items (cons v xs) (a, b) =
      (or_then_iff (assert_i_json v) (assert_items xs)).1 (complete v a, complete_items xs b)

  complete_fields : (o : Fields) → MembersIJson o → assert_fields o ≡ none
  complete_fields end h = refl
  complete_fields (field k v o) (a, b, c) =
      (or_then_iff (text_error k) _).1
        ((text_iff k).1 a, (or_then_iff (assert_i_json v) _).1 (complete v b, complete_fields o c))

-- `assertIJson` returns exactly on I-JSON values: at every depth, strings and member names are
-- well-formed Unicode, and numbers are finite, exact integers, fractions, or at least 10^21.
pub assert_i_json_iff : (v : Value) → (assert_i_json v ≡ none) ↔ IsIJson v
assert_i_json_iff v = (sound v, complete v)

-- `jcs` yields bytes only for I-JSON values, and then the UTF-8 of the package's text.
pub jcs-IsIJson :
    (p : Platform) (v : Value) (b : Bytes)
    → jcs p v ≡ ok b
    → IsIJson v × ((s : Str) × (p.canonicalize v ≡ some s) × (b ≡ utf8 s))
unfolding jcs
jcs-IsIJson p v b h = elim (Option-cases (assert_i_json v)) [
  | inr (e, bad) ↦ absurd (ground (arith, bad, h))
  | inl good ↦ elim (Option-cases (p.canonicalize v)) [
    | inl missing ↦ absurd (ground (arith, good, missing, h))
    | inr (s, text) ↦ (sound v good, (s, text, ground (arith, good, text, h)))
  ]
]
