-- ===== src/Canonical/Members/Strings.antt =====
-- Strings, names and spaces in the scanner of sdk-js/src/canonical.js.
use capsules_protocol.Canonical.Members.{
  ScanError, out_of_fuel, skip_space, escaped_unit, Mode, plain, backslash, unit, push, scan_string,
  parsed_unit, skip_scalar, next_is, scan_name, behind_colon,
}
use mathlib.Core.Path.{subst}
use capsules_protocol.Prelude.{
  ◌==◌, ◌++◌, Bool-cases, Option-cases, Result, ok, err, Str, length, ℕ, zero, suc, ◌+◌, ◌≤◌, ◌≡◌,
  refl, ap, ◌≢◌, inl, inr, some, [], ◌∷◌, arith,
}

pub length-skip_space : (s : Str) → length (skip_space s) ≤ length s
unfolding skip_space
length-skip_space [] = omega arith
length-skip_space (c ∷ s) = ground (arith, length-skip_space s)

pub length-skip_scalar : (s : Str) → length (skip_scalar s) ≤ length s
unfolding skip_scalar
length-skip_scalar [] = omega arith
length-skip_scalar (c ∷ s) = ground (arith, length-skip_scalar s)

pub next_is-length : (c : ℕ) (s r : Str) → next_is c s ≡ some r → length r + 1 ≡ length s
next_is-length c [] r h = cc
next_is-length c (d ∷ s) r h = ground arith

push-length :
    (k c : ℕ) (x : Result ScanError (Str × Str)) (name r : Str)
    → ((n q : Str) → x ≡ ok (n, q) → length q + 1 ≤ k)
    → push c x ≡ ok (name, r)
    → length r + 1 ≤ k
push-length k c (ok (n, s)) name r f h =
    let e : s ≡ r = ground arith in subst (λ q. length q + 1 ≤ k) e (f n s refl)
push-length k c (err e) name r f h = cc

push_error :
    (c : ℕ) (x : Result ScanError (Str × Str)) (e : ScanError) → push c x ≡ err e → x ≡ err e
push_error c (ok (n, s)) e h = cc
push_error c (err d) e h = h

pub scan_string-length :
    (m : Mode) (s name r : Str) → scan_string m s ≡ ok (name, r) → length r + 1 ≤ length s
unfolding scan_string
scan_string-length plain [] name r h = cc
scan_string-length backslash [] name r h = cc
scan_string-length (unit k v) [] name r h = cc
scan_string-length plain (c ∷ s) name r h = ground (
  arith,
  scan_string-length backslash s name r,
  push-length (length s) c (scan_string plain s) name r (λ n q. scan_string-length plain s n q),
)
scan_string-length backslash (c ∷ s) name r h = elim (Option-cases (escaped_unit c)) [
  | inl n ↦ ground (arith, n, scan_string-length (unit 3 []) s name r)
  | inr (u, e) ↦ ground (
    arith,
    e,
    scan_string-length (unit 3 []) s name r,
    push-length (length s) u (scan_string plain s) name r (λ n q. scan_string-length plain s n q),
  )
]
scan_string-length (unit zero v) (c ∷ s) name r h =
    let l =
      push-length (length s) (parsed_unit (v ++ c ∷ [])) (scan_string plain s) name r
        (λ n q. scan_string-length plain s n q) h in
    omega (arith, l)
scan_string-length (unit (suc k) v) (c ∷ s) name r h =
    omega (arith, scan_string-length (unit k (v ++ c ∷ [])) s name r h)

pub scan_string_error : (m : Mode) (s : Str) → scan_string m s ≢ err out_of_fuel
unfolding scan_string
scan_string_error plain [] h = cc
scan_string_error backslash [] h = cc
scan_string_error (unit k v) [] h = cc
scan_string_error plain (c ∷ s) h = elim (Bool-cases (c == b'"')) [
  | inl q ↦ absurd (ground (arith, q))
  | inr n ↦ elim (Bool-cases (c == b'\\')) [
    | inl b ↦ scan_string_error backslash s (ground (arith, n, b))
    | inr m ↦
        scan_string_error plain s
          (push_error c (scan_string plain s) out_of_fuel (ground (arith, n, m)))
  ]
]
scan_string_error backslash (c ∷ s) h = elim (Bool-cases (c == b'u')) [
  | inl q ↦ scan_string_error (unit 3 []) s (ground (arith, q))
  | inr f ↦ elim (Option-cases (escaped_unit c)) [
    | inl n ↦ absurd (ground (arith, f, n))
    | inr (u, e) ↦
        scan_string_error plain s
          (push_error u (scan_string plain s) out_of_fuel (ground (arith, f, e)))
  ]
]
scan_string_error (unit zero v) (c ∷ s) h =
    scan_string_error plain s
      (push_error (parsed_unit (v ++ c ∷ [])) (scan_string plain s) out_of_fuel h)
scan_string_error (unit (suc k) v) (c ∷ s) h = scan_string_error (unit k (v ++ c ∷ [])) s h

pub name_length : (s name r : Str) → scan_name s ≡ ok (name, r) → length r + 2 ≤ length s
unfolding scan_name
name_length s name r h = elim (Option-cases (next_is b'"' (skip_space s))) [
  | inl n ↦ absurd (ground (arith, n))
  | inr (t, e) ↦
      let scanned : scan_string plain t ≡ ok (name, r) = ground (arith, e) in
      omega (
        arith,
        next_is-length b'"' (skip_space s) t e,
        length-skip_space s,
        scan_string-length plain t name r scanned,
      )
]

pub colon_length : (s r : Str) → behind_colon s ≡ ok r → length r + 1 ≤ length s
unfolding behind_colon
colon_length s r h = elim (Option-cases (next_is b':' (skip_space s))) [
  | inl n ↦ absurd (ground (arith, n))
  | inr (u, l) ↦
      let same : u ≡ r = ground (arith, l) in
      omega (
        arith,
        next_is-length b':' (skip_space s) u l,
        length-skip_space s,
        ap (length {A = ℕ}) same,
      )
]

pub name_error : (s : Str) → scan_name s ≢ err out_of_fuel
unfolding scan_name
name_error s h = elim (Option-cases (next_is b'"' (skip_space s))) [
  | inl n ↦ ground (arith, n)
  | inr (t, e) ↦ scan_string_error plain t (ground (arith, e))
]

pub colon_error : (s : Str) → behind_colon s ≢ err out_of_fuel
unfolding behind_colon
colon_error s h = elim (Option-cases (next_is b':' (skip_space s))) [
  | inl n ↦ ground (arith, n)
  | inr (u, e) ↦ ground (arith, e)
]
