-- ===== src/Canonical/Members/Fuel.antt =====
-- The scanner of sdk-js/src/canonical.js ends.
use capsules_protocol.Canonical.Members.{
  out_of_fuel, skip_space, plain, scan_string, next_is, after_value, scan_name, behind_colon,
  scan_value, scan_first, scan_members, scan_elements, scan_fuel, assert_no_duplicate_members,
}
use capsules_protocol.Canonical.Members.Strings.{
  length-skip_space, scan_string_error, name_length, name_error, colon_length, colon_error,
}
use capsules_protocol.Canonical.Members.Shrinks.{shrinks, After-cases, after_value_comma}
use capsules_protocol.Prelude.{
  ◌==◌, Bool-cases, Option-cases, err, Str, length, ℕ, zero, suc, ◌+◌, ◌*◌, ◌≤◌, ◌≢◌, inl, inr,
  some, List, [], ◌∷◌, arith, Result-cases,
}

-- Fuel that the text does not use up.
record IsEnough (n : ℕ) : Type 0 where
  value : (s : Str) → 3 * length s + 2 ≤ n → scan_value n s ≢ err out_of_fuel
  first : (s : Str) → 3 * length s + 1 ≤ n → scan_first n s ≢ err out_of_fuel
  members :
      (seen : List Str) (s : Str) → 3 * length s + 3 ≤ n → scan_members n seen s ≢ err out_of_fuel
  elements : (s : Str) → 3 * length s + 3 ≤ n → scan_elements n s ≢ err out_of_fuel

members_enough :
    (n : ℕ) (i : IsEnough n) (seen : List Str) (s : Str)
    → 3 * length s + 3 ≤ suc n
    → scan_members (suc n) seen s ≢ err out_of_fuel
unfolding scan_value
members_enough n i seen s f h = elim (Result-cases (scan_name s)) [
  | inl (x, e) ↦ name_error s (ground (arith, e))
  | inr ((name, q), e) ↦ elim (Result-cases (behind_colon q)) [
    | inl (x, c) ↦ colon_error q (ground (arith, e, c))
    | inr (v, c) ↦
        let before : length v + 3 ≤ length s =
          omega (arith, colon_length q v c, name_length s name q e) in
        elim (Result-cases (scan_value n v)) [
          | inl (x, k) ↦ i.value v (omega (arith, before)) (ground (arith, e, c, k))
          | inr (t, k) ↦ elim (After-cases (after_value b'}' (skip_space t))) [
            | inl (u, a) ↦
                i.members (name ∷ seen) u
                  (omega (arith, after_value_comma b'}' t u a, (shrinks n).value v t k, before))
                  (ground (arith, e, c, k, a))
            | inr (inl (u, a)) ↦ ground (arith, e, c, k, a)
            | inr (inr a) ↦ ground (arith, e, c, k, a)
          ]
        ]
  ]
]

elements_enough :
    (n : ℕ) (i : IsEnough n) (s : Str)
    → 3 * length s + 3 ≤ suc n
    → scan_elements (suc n) s ≢ err out_of_fuel
unfolding scan_value
elements_enough n i s f h = elim (Result-cases (scan_value n s)) [
  | inl (x, k) ↦ i.value s (omega arith) (ground (arith, k))
  | inr (t, k) ↦ elim (After-cases (after_value b']' (skip_space t))) [
    | inl (u, a) ↦
        i.elements u (omega (arith, after_value_comma b']' t u a, (shrinks n).value s t k))
          (ground (arith, k, a))
    | inr (inl (u, a)) ↦ ground (arith, k, a)
    | inr (inr a) ↦ ground (arith, k, a)
  ]
]

first_enough :
    (n : ℕ) (i : IsEnough n) (s : Str)
    → 3 * length s + 1 ≤ suc n
    → scan_first (suc n) s ≢ err out_of_fuel
unfolding scan_value
first_enough n i [] f h = ground arith
first_enough n i (c ∷ s) f h = elim (Bool-cases (c == b'{')) [
  | inl o ↦ elim (Option-cases (next_is b'}' (skip_space s))) [
    | inl e ↦ i.members [] s (omega arith) (ground (arith, o, e))
    | inr (u, e) ↦ ground (arith, o, e)
  ]
  | inr g ↦ elim (Bool-cases (c == b'[')) [
    | inl o ↦ elim (Option-cases (next_is b']' (skip_space s))) [
      | inl e ↦ i.elements s (omega arith) (ground (arith, g, o, e))
      | inr (u, e) ↦ ground (arith, g, o, e)
    ]
    | inr k ↦ elim (Bool-cases (c == b'"')) [
      | inl o ↦ elim (Result-cases (scan_string plain s)) [
        | inl (x, e) ↦ scan_string_error plain s (ground (arith, g, k, o, e))
        | inr (q, e) ↦ ground (arith, g, k, o, e)
      ]
      | inr m ↦ ground (arith, g, k, m)
    ]
  ]
]

enough : (n : ℕ) → IsEnough n
unfolding scan_value
enough zero = record {
  value = λ s f h. omega arith;
  first = λ s f h. omega arith;
  members = λ seen s f h. omega arith;
  elements = λ s f h. omega arith;
}
enough (suc n) =
    let i = enough n in
    record {
      value = λ s f h. i.first (skip_space s) (omega (arith, f, length-skip_space s)) h;
      first = first_enough n i;
      members = members_enough n i;
      elements = elements_enough n i;
    }

-- The scan for duplicate members ends on every text, well-formed or not: it does not use up its
-- fuel, so it returns or throws one of the errors of the source.
pub scan_text_terminates : (s : Str) → assert_no_duplicate_members s ≢ some out_of_fuel
unfolding assert_no_duplicate_members
scan_text_terminates s h = elim (Result-cases (scan_value (scan_fuel s) s)) [
  | inl (e, k) ↦ (enough (scan_fuel s)).value s (omega arith) (ground (arith, k))
  | inr (r, k) ↦ ground (arith, k)
]
