-- ===== src/Canonical/Members/Shrinks.antt =====
-- The scanner of sdk-js/src/canonical.js never leaves more text than it is given.
use capsules_protocol.Canonical.Members.{
  skip_space, plain, scan_string, skip_scalar, next_is, After, comma, close, neither, after_value,
  scan_name, behind_colon, scan_value, scan_first, scan_members, scan_elements,
}
use capsules_protocol.Canonical.Members.Strings.{
  length-skip_space, length-skip_scalar, next_is-length, scan_string-length, name_length,
  colon_length,
}
use mathlib.Core.Path.{subst}
use capsules_protocol.Prelude.{
  ◌==◌, Bool-cases, Option-cases, ok, Str, length, ℕ, zero, suc, ◌+◌, ◌≤◌, ◌≡◌, refl, sym, ap, ◌⊎◌,
  inl, inr, true, false, List, [], ◌∷◌, arith, Result-cases,
}

-- Behind a value, a comma or the end leaves less.
abbrev After-length : ℕ → After → Type 0
After-length n (comma u) = length u + 1 ≤ n
After-length n (close u) = length u + 1 ≤ n
After-length n neither = Unit

after_value_bound : (c : ℕ) (s : Str) → After-length (length s) (after_value c s)
unfolding after_value
after_value_bound c [] = tt
after_value_bound c (d ∷ s) = elim (Bool-cases (d == b',')) [
  | inl t ↦ subst (After-length (suc (length s))) (sym (comma_first t)) (omega arith)
  | inr f ↦ elim (Bool-cases (d == c)) [
    | inl t ↦ subst (After-length (suc (length s))) (sym (close_first f t)) (omega arith)
    | inr g ↦ subst (After-length (suc (length s))) (sym (none_first f g)) tt
  ]
]
  where
    comma_first : (d == b',') ≡ true → after_value c (d ∷ s) ≡ comma s
    comma_first t = ground (arith, t)

    close_first : (d == b',') ≡ false → (d == c) ≡ true → after_value c (d ∷ s) ≡ close s
    close_first f t = ground (arith, f, t)

    none_first : (d == b',') ≡ false → (d == c) ≡ false → after_value c (d ∷ s) ≡ neither
    none_first f g = ground (arith, f, g)

pub after_value_comma :
    (c : ℕ) (s u : Str) → after_value c (skip_space s) ≡ comma u → length u + 1 ≤ length s
after_value_comma c s u e =
    let b : length u + 1 ≤ length (skip_space s) =
      subst (After-length (length (skip_space s))) e (after_value_bound c (skip_space s)) in
    omega (arith, b, length-skip_space s)

after_value_close :
    (c : ℕ) (s u : Str) → after_value c (skip_space s) ≡ close u → length u + 1 ≤ length s
after_value_close c s u e =
    let b : length u + 1 ≤ length (skip_space s) =
      subst (After-length (length (skip_space s))) e (after_value_bound c (skip_space s)) in
    omega (arith, b, length-skip_space s)

pub After-cases :
    (a : After) → ((u : Str) × (a ≡ comma u)) ⊎ (((u : Str) × (a ≡ close u)) ⊎ (a ≡ neither))
After-cases (comma u) = inl (u, refl)
After-cases (close u) = inr (inl (u, refl))
After-cases neither = inr (inr refl)

-- What is left behind each part of the scanner on fuel `n`.
pub record IsShrinking (n : ℕ) : Type 0 where
  pub value : (s r : Str) → scan_value n s ≡ ok r → length r ≤ length s
  pub first : (s r : Str) → scan_first n s ≡ ok r → length r ≤ length s
  pub members : (seen : List Str) (s r : Str) → scan_members n seen s ≡ ok r → length r ≤ length s
  pub elements : (s r : Str) → scan_elements n s ≡ ok r → length r ≤ length s

members_length :
    (n : ℕ) (i : IsShrinking n) (seen : List Str) (s r : Str)
    → scan_members (suc n) seen s ≡ ok r
    → length r ≤ length s
unfolding scan_value
members_length n i seen s r h = elim (Result-cases (scan_name s)) [
  | inl (x, e) ↦ absurd (ground (arith, e))
  | inr ((name, q), e) ↦ elim (Result-cases (behind_colon q)) [
    | inl (x, c) ↦ absurd (ground (arith, e, c))
    | inr (v, c) ↦ elim (Result-cases (scan_value n v)) [
      | inl (x, k) ↦ absurd (ground (arith, e, c, k))
      | inr (t, k) ↦
          let before : length t + 3 ≤ length s =
            omega (arith, i.value v t k, colon_length q v c, name_length s name q e) in
          elim (After-cases (after_value b'}' (skip_space t))) [
            | inl (u, a) ↦
                let l : scan_members n (name ∷ seen) u ≡ ok r = ground (arith, e, c, k, a) in
                omega (arith, i.members (name ∷ seen) u r l, after_value_comma b'}' t u a, before)
            | inr (inl (u, a)) ↦
                let same : u ≡ r = ground (arith, e, c, k, a) in
                omega (arith, ap (length {A = ℕ}) same, after_value_close b'}' t u a, before)
            | inr (inr a) ↦ absurd (ground (arith, e, c, k, a))
          ]
    ]
  ]
]

elements_length :
    (n : ℕ) (i : IsShrinking n) (s r : Str) → scan_elements (suc n) s ≡ ok r → length r ≤ length s
unfolding scan_value
elements_length n i s r h = elim (Result-cases (scan_value n s)) [
  | inl (x, k) ↦ absurd (ground (arith, k))
  | inr (t, k) ↦ elim (After-cases (after_value b']' (skip_space t))) [
    | inl (u, a) ↦
        let l : scan_elements n u ≡ ok r = ground (arith, k, a) in
        omega (arith, i.elements u r l, after_value_comma b']' t u a, i.value s t k)
    | inr (inl (u, a)) ↦
        let same : u ≡ r = ground (arith, k, a) in
        omega (arith, ap (length {A = ℕ}) same, after_value_close b']' t u a, i.value s t k)
    | inr (inr a) ↦ absurd (ground (arith, k, a))
  ]
]

first_length :
    (n : ℕ) (i : IsShrinking n) (s r : Str) → scan_first (suc n) s ≡ ok r → length r ≤ length s
unfolding scan_value
first_length n i [] r h = ground arith
first_length n i (c ∷ s) r h = elim (Bool-cases (c == b'{')) [
  | inl o ↦ elim (Option-cases (next_is b'}' (skip_space s))) [
    | inl e ↦ omega (arith, i.members [] s r (ground (arith, o, e)))
    | inr (u, e) ↦
        let same : u ≡ r = ground (arith, o, e) in
        omega (
          arith,
          ap (length {A = ℕ}) same,
          next_is-length b'}' (skip_space s) u e,
          length-skip_space s,
        )
  ]
  | inr f ↦ elim (Bool-cases (c == b'[')) [
    | inl o ↦ elim (Option-cases (next_is b']' (skip_space s))) [
      | inl e ↦ omega (arith, i.elements s r (ground (arith, f, o, e)))
      | inr (u, e) ↦
          let same : u ≡ r = ground (arith, f, o, e) in
          omega (
            arith,
            ap (length {A = ℕ}) same,
            next_is-length b']' (skip_space s) u e,
            length-skip_space s,
          )
    ]
    | inr g ↦ elim (Bool-cases (c == b'"')) [
      | inl o ↦ elim (Result-cases (scan_string plain s)) [
        | inl (x, e) ↦ absurd (ground (arith, f, g, o, e))
        | inr ((name, u), e) ↦
            let same : u ≡ r = ground (arith, f, g, o, e) in
            omega (arith, ap (length {A = ℕ}) same, scan_string-length plain s name u e)
      ]
      | inr k ↦
          let same : skip_scalar (c ∷ s) ≡ r = ground (arith, f, g, k) in
          omega (arith, ap (length {A = ℕ}) same, length-skip_scalar (c ∷ s))
    ]
  ]
]

pub shrinks : (n : ℕ) → IsShrinking n
unfolding scan_value
shrinks zero = record {
  value = λ s r h. absurd (cc);
  first = λ s r h. absurd (cc);
  members = λ seen s r h. absurd (cc);
  elements = λ s r h. absurd (cc);
}
shrinks (suc n) =
    let i = shrinks n in
    record {
      value = λ s r h. omega (arith, i.first (skip_space s) r h, length-skip_space s);
      first = first_length n i;
      members = members_length n i;
      elements = elements_length n i;
    }
