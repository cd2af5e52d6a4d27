-- ===== src/Versions/Classify.antt =====
-- `classifyVersion`, by the versions that strings print.
use mathlib.Core.Path.{ap₂}
use capsules_protocol.Json.{str}
use capsules_protocol.Versions.{
  numeral, both, parse_version, known_versions, VersionStatus, known, unknown_newer, unknown_older,
  invalid, status_of, classify_version,
}
use capsules_protocol.Versions.Numeral.{decimal, numeral-decimal, numeral_sound, decimal-All}
use capsules_protocol.Prelude.{
  ltb, ◌==◌, if◌then◌else◌, Bool-cases, Str, codes, str_eq, str_eq_refl, str_eq_sound, contains,
  is_digit, cut_at, All, ℕ, ◌≡◌, refl, sym, ap, ◌∙◌, ◌≢◌, ◌⊎◌, inl, inr, true, false, ◌&&◌, ◌||◌,
  Option, none, some, [], ◌∷◌, ◌++◌, arith,
}

abbrev pub print_version : ℕ → ℕ → Str
print_version a b = decimal a ++ b'.' ∷ decimal b

-- The status that spec/versioning.md gives to the era `a.b`.
abbrev pub era_status : ℕ → ℕ → VersionStatus
era_status a b =
    if a == 0 && (b == 6 || b == 7)
    then known
    else if ltb 0 a || ltb 7 b
    then unknown_newer
    else unknown_older

cut_at-digits :
    (d t : Str) → All (λ c. is_digit c ≡ true) d → cut_at b'.' (d ++ b'.' ∷ t) ≡ some (d, t)
unfolding cut_at
cut_at-digits [] t h = refl
cut_at-digits (c ∷ d) t (hc, hd) = ground (arith, cut_at-digits d t hd)

cut_at_sound : (s a b : Str) → cut_at b'.' s ≡ some (a, b) → s ≡ a ++ b'.' ∷ b
unfolding cut_at
cut_at_sound [] a b h = cc
cut_at_sound (c ∷ s) a b h = step (cut_at b'.' s) refl (λ x y e. cut_at_sound s x y e)
  where
    step :
        (o : Option (Str × Str))
        → cut_at b'.' s ≡ o
        → ((x y : Str) → cut_at b'.' s ≡ some (x, y) → s ≡ x ++ b'.' ∷ y)
        → (c ∷ s) ≡ a ++ b'.' ∷ b
    step none e ih = ground arith
    step (some (x, y)) e ih = ground (arith, ih x y e)

-- Every printed version is parsed to its numbers.
pub parse-print : (a b : ℕ) → parse_version (print_version a b) ≡ some (a, b)
unfolding parse_version
parse-print a b =
    cc (cut_at-digits (decimal a) (decimal b) (decimal-All a), numeral-decimal a, numeral-decimal b)

parse_version_sound : (s : Str) (a b : ℕ) → parse_version s ≡ some (a, b) → s ≡ print_version a b
unfolding parse_version
parse_version_sound s a b h = step (cut_at b'.' s) refl
  where
    parts :
        (x y : Str) (m n : Option ℕ)
        → numeral x ≡ m
        → numeral y ≡ n
        → both m n ≡ some (a, b)
        → (x ≡ decimal a) × (y ≡ decimal b)
    parts x y (some m) (some n) p q e =
        (numeral_sound x a (ground arith), numeral_sound y b (ground arith))
    parts x y _ _ p q e = cc

    step : (o : Option (Str × Str)) → cut_at b'.' s ≡ o → s ≡ print_version a b
    step none e = cc
    step (some (x, y)) e =
        let (p, q) = parts x y (numeral x) (numeral y) refl refl (ground (arith, e)) in
        cc (cut_at_sound s x y e, p, q)

pair_eq : (a b c d : ℕ) → ◌≡◌ {A = Option (ℕ × ℕ)} (some (a, b)) (some (c, d)) → (a ≡ c) × (b ≡ d)
pair_eq a b c d h = ground arith

str_eq-print : (a b c d : ℕ) → str_eq (print_version a b) (print_version c d) ≡ (c == a && d == b)
str_eq-print a b c d = elim (Bool-cases (str_eq (print_version a b) (print_version c d))) [
  | inl same ↦
      let e = str_eq_sound (print_version a b) (print_version c d) same in
      let (p, q) = pair_eq a b c d (sym (parse-print a b) ∙ ap parse_version e ∙ parse-print c d) in
      same ∙ ground arith
  | inr other ↦ other ∙ ground (arith, different other)
]
  where
    different :
        str_eq (print_version a b) (print_version c d) ≡ false → (c == a && d == b) ≡ true → ⊥
    different other h =
        let p : a ≡ c = ground arith in
        let q : b ≡ d = ground arith in
        let r : str_eq (print_version a b) (print_version c d) ≡ true =
          rw (p, q) (str_eq_refl (print_version c d)) in
        cc

era_0_6 : codes "0.6" ≡ print_version 0 6
unfolding decimal
era_0_6 = refl

era_0_7 : codes "0.7" ≡ print_version 0 7
unfolding decimal
era_0_7 = refl

known_iff : (a b : ℕ) → contains known_versions (print_version a b) ≡ (a == 0 && (b == 6 || b == 7))
unfolding contains
known_iff a b = ground (
  arith,
  str_eq-print 0 6 a b,
  str_eq-print 0 7 a b,
  ap (λ s. str_eq s (print_version a b)) era_0_6,
  ap (λ s. str_eq s (print_version a b)) era_0_7,
)

status_of-print : (a b : ℕ) → status_of (print_version a b) (some (a, b)) ≡ era_status a b
unfolding status_of
status_of-print a b = rw known_iff (ground arith)

-- A string that prints the version `a.b` has the status of that era; any other string is invalid.
pub classify_version_cases :
    (s : Str)
    → ((a : ℕ) × (b : ℕ) × (s ≡ print_version a b)
        × ((classify_version (some (str s))).status ≡ era_status a b))
      ⊎ (((classify_version (some (str s))).status ≡ invalid) × ((a b : ℕ) → s ≢ print_version a b))
unfolding classify_version
classify_version_cases s = step (parse_version s) refl
  where
    step :
        (o : Option (ℕ × ℕ))
        → parse_version s ≡ o
        → ((a : ℕ) × (b : ℕ) × (s ≡ print_version a b)
            × (status_of s (parse_version s) ≡ era_status a b))
          ⊎ ((status_of s (parse_version s) ≡ invalid) × ((a b : ℕ) → s ≢ print_version a b))
    step none e = inr (rw e, λ a b q. cc (e, parse-print a b))
    step (some (a, b)) e = inl (
      a,
      b,
      parse_version_sound s a b e,
      ap₂ status_of (parse_version_sound s a b e) e ∙ status_of-print a b,
    )
