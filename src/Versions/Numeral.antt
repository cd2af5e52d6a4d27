-- ===== src/Versions/Numeral.antt =====
-- Decimal numerals, as the version grammar has them.
use capsules_protocol.Versions.{value_from, numeral}
use capsules_protocol.Prelude.{
  ltb, ◌==◌, if◌then◌else◌, Bool-cases, &&_both, Str, all_in, is_digit, All, All-append, ℕ, zero,
  suc, ◌+◌, ◌-◌, ◌*◌, ◌/◌, ◌%◌, ◌≤◌, ◌<◌, ◌≡◌, refl, sym, ap, ◌∙◌, inl, inr, true, false, ◌&&◌,
  some, [], ◌∷◌, ◌++◌, append_assoc, append-nil, arith,
}

-- `String(n)`, on fuel above the number of its digits.
decimal_from : ℕ → ℕ → Str
decimal_from zero n = []
decimal_from (suc f) n =
    let more = decimal_from f (n / 10) in
    if ltb n 10 then (b'0' + n) ∷ [] else more ++ (b'0' + n % 10) ∷ []

unfoldable pub decimal : ℕ → Str
unfolding decimal_from
decimal n = decimal_from (suc n) n

-- A numeral of the grammar that is not `0`.
abbrev pub IsPositive : Str → Type 0
IsPositive [] = ⊥
IsPositive (c ∷ s) = (b'1' ≤ c) × (c ≤ b'9') × All (λ d. is_digit d ≡ true) s

value_from-append : (n : ℕ) (s t : Str) → value_from n (s ++ t) ≡ value_from (value_from n s) t
unfolding value_from
value_from-append n [] t = refl
value_from-append n (c ∷ s) t = value_from-append (n * 10 + (c - b'0')) s t

IsPositive-append : (s : Str) (d : ℕ) → IsPositive s → is_digit d ≡ true → IsPositive (s ++ d ∷ [])
IsPositive-append [] d h hd = absurd h
IsPositive-append (c ∷ s) d (lo, hi, ds) hd = (lo, hi, All-append _ s (d ∷ []) ds (hd, tt))

digit_is : (n : ℕ) → is_digit (b'0' + n % 10) ≡ true
digit_is n = ground arith

decimal_from-IsPositive : (f n : ℕ) → n < f → 0 < n → IsPositive (decimal_from f n)
unfolding decimal_from
decimal_from-IsPositive zero n h p = absurd (omega arith)
decimal_from-IsPositive (suc f) n h p = elim (Bool-cases (ltb n 10)) [
  | inl small ↦ rw small (ground arith)
  | inr big ↦ rw big (
      IsPositive-append (decimal_from f (n / 10)) (b'0' + n % 10)
        (decimal_from-IsPositive f (n / 10) (ground arith) (ground arith)) (digit_is n))
]

value_from-decimal_from : (f n : ℕ) → n < f → value_from 0 (decimal_from f n) ≡ n
unfolding decimal_from value_from
value_from-decimal_from zero n h = absurd (omega arith)
value_from-decimal_from (suc f) n h = ground (
  arith,
  value_from-append 0 (decimal_from f (n / 10)) ((b'0' + n % 10) ∷ []),
  value_from-decimal_from f (n / 10),
)

all_in-All : (s : Str) → All (λ d. is_digit d ≡ true) s → all_in is_digit s ≡ true
unfolding all_in
all_in-All [] h = refl
all_in-All (c ∷ s) (hc, hs) = ground (arith, all_in-All s hs)

numeral_positive : (s : Str) → IsPositive s → numeral s ≡ some (value_from 0 s)
unfolding numeral
numeral_positive [] h = absurd h
numeral_positive (c ∷ s) (lo, hi, ds) = ground (arith, all_in-All s ds)

-- Every number is read back from its decimal print.
pub numeral-decimal : (n : ℕ) → numeral (decimal n) ≡ some n
unfolding decimal
numeral-decimal zero = unfold numeral in refl
numeral-decimal (suc n) =
    numeral_positive (decimal_from (suc (suc n)) (suc n))
      (decimal_from-IsPositive (suc (suc n)) (suc n) (omega arith) (omega arith))
    ∙ ap some (value_from-decimal_from (suc (suc n)) (suc n) (omega arith))

IsPositive-All : (s : Str) → IsPositive s → All (λ d. is_digit d ≡ true) s
IsPositive-All [] h = absurd h
IsPositive-All (c ∷ s) (lo, hi, ds) = (ground arith, ds)

pub decimal-All : (n : ℕ) → All (λ d. is_digit d ≡ true) (decimal n)
unfolding decimal
decimal-All zero = (refl, tt)
decimal-All (suc n) =
    IsPositive-All _ (decimal_from-IsPositive (suc (suc n)) (suc n) (omega arith) (omega arith))

decimal_from_fuel : (f g n : ℕ) → n < f → n < g → decimal_from f n ≡ decimal_from g n
unfolding decimal_from
decimal_from_fuel zero g n h k = absurd (omega arith)
decimal_from_fuel (suc f) zero n h k = absurd (omega arith)
decimal_from_fuel (suc f) (suc g) n h k = ground (arith, decimal_from_fuel f g (n / 10))

decimal_snoc : (n d : ℕ) → 0 < n → d < 10 → decimal (n * 10 + d) ≡ decimal n ++ (b'0' + d) ∷ []
unfolding decimal decimal_from
decimal_snoc n d p h =
    let q : (n * 10 + d) / 10 ≡ n = omega arith in
    let r : (n * 10 + d) % 10 ≡ d = omega arith in
    ground (arith, decimal_from_fuel (n * 10 + d) (suc n) n)

decimal-value_from :
    (n : ℕ) (s : Str) → 0 < n → all_in is_digit s ≡ true → decimal (value_from n s) ≡ decimal n ++ s
unfolding value_from all_in
decimal-value_from n [] p h = sym (append-nil (decimal n))
decimal-value_from n (c ∷ s) p h =
    let (hc, hs) = &&_both (is_digit c) (all_in is_digit s) h in
    decimal-value_from (n * 10 + (c - b'0')) s (omega arith) hs
    ∙ ap (λ t. t ++ s) (decimal_snoc n (c - b'0') p (ground arith))
    ∙ append_assoc (decimal n) ((b'0' + (c - b'0')) ∷ []) s
    ∙ ap (λ (d : ℕ). decimal n ++ d ∷ s) (ground arith)

decimal_digit : (d : ℕ) → d < 10 → decimal d ≡ (b'0' + d) ∷ []
unfolding decimal decimal_from
decimal_digit d h = ground arith

-- The grammar has one numeral for each number, its decimal print.
pub numeral_sound : (s : Str) (n : ℕ) → numeral s ≡ some n → s ≡ decimal n
unfolding numeral value_from
numeral_sound [] n h = cc
numeral_sound (c ∷ s) n h = elim (Bool-cases (c == b'0')) [
  | inl z ↦ zero_case z
  | inr z ↦ elim (Bool-cases (is_digit c && all_in is_digit s)) [
    | inl t ↦ positive_case z t
    | inr f ↦ ground arith
  ]
]
  where
    zero_case : (c == b'0') ≡ true → (c ∷ s) ≡ decimal n
    zero_case z = ground (arith, decimal_digit 0)

    positive_case :
        (c == b'0') ≡ false → (is_digit c && all_in is_digit s) ≡ true → (c ∷ s) ≡ decimal n
    positive_case z t =
        let (hc, hs) = &&_both (is_digit c) (all_in is_digit s) t in
        let p : 0 < c - b'0' = ground arith in
        let e : decimal (value_from (c - b'0') s) ≡ decimal (c - b'0') ++ s =
          decimal-value_from (c - b'0') s p hs in
        ground (arith, e, decimal_digit (c - b'0'))
