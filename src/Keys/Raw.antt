-- ===== src/Keys/Raw.antt =====
-- The keys that `toRawKey` of sdk-js/src/keys.js takes.
use capsules_protocol.Bytes.{Bytes, AreBytes, to_hex, from_hex}
use capsules_protocol.Bytes.Hex.{from_hex-to_hex, length-to_hex, to_hex-all_in}
use capsules_protocol.Canonical.{hex_to_bytes, has_upper_hex, is_odd}
use capsules_protocol.Keys.{
  Given, absent, null_value, text, raw, other, is_key_text, to_raw_key, to_key_hex,
}
use mathlib.Core.Path.{subst}
use capsules_protocol.Prelude.{
  Bool-cases, &&_both, and_true, ok, Str, all_in, is_lower_hex, is_hex, lower_code, to_lower,
  length, is_nil, ℕ, zero, suc, ◌*◌, ◌≤◌, ◌≡◌, refl, sym, ap, ◌∙◌, ◌≢◌, ◌↔◌, inl, inr, true, false,
  not, [], ◌∷◌, arith,
}

-- A spelling of a key of `n` bytes: the bytes, or hexadecimal digits of either case, two for each.
pub data IsKey (n : ℕ) (b : Bytes) : Given → Type 0 where
  as_bytes : length b ≡ n → IsKey n b (raw b)
  as_digits :
      (s : Str)
      → length s ≡ n * 2
      → s ≢ []
      → all_in is_hex s ≡ true
      → b ≡ from_hex (to_lower s)
      → IsKey n b (text s)

length-to_lower : (s : Str) → length (to_lower s) ≡ length s
unfolding to_lower
length-to_lower [] = refl
length-to_lower (c ∷ s) = omega (arith, length-to_lower s)

lower_digit : (c : ℕ) → is_hex c ≡ true → is_lower_hex (lower_code c) ≡ true
lower_digit c h = ground arith

lower_digits : (s : Str) → all_in is_hex s ≡ true → all_in is_lower_hex (to_lower s) ≡ true
unfolding all_in to_lower
lower_digits [] h = refl
lower_digits (c ∷ s) h =
    let (a, b) = &&_both (is_hex c) (all_in is_hex s) h in
    and_true (is_lower_hex (lower_code c)) (all_in is_lower_hex (to_lower s)) (lower_digit c a)
      (lower_digits s b)

no_upper : (s : Str) → all_in is_lower_hex s ≡ true → has_upper_hex s ≡ false
unfolding all_in
no_upper [] h = refl
no_upper (c ∷ s) h = ground (arith, no_upper s)

even_double : (n : ℕ) → is_odd (n * 2) ≡ false
even_double n = ground arith

digits_read :
    (s : Str) (n : ℕ)
    → length s ≡ n * 2
    → all_in is_hex s ≡ true
    → hex_to_bytes (to_lower s) ≡ ok (from_hex (to_lower s))
unfolding hex_to_bytes
digits_read s n l h =
    let e : is_odd (length (to_lower s)) ≡ false =
      subst (λ k. is_odd k ≡ false) (sym (length-to_lower s ∙ l)) (even_double n) in
    ground (arith, e, lower_digits s h, no_upper (to_lower s) (lower_digits s h))

nonempty_iff : (s : Str) → (not (is_nil s) ≡ true) ↔ (s ≢ [])
nonempty_iff [] = (λ h. absurd (cc), λ h. absurd (h refl))
nonempty_iff (c ∷ s) = (λ h e. cc, λ h. refl)

IsKey-sound : (v : Given) (n : ℕ) (b : Bytes) → to_raw_key v n ≡ ok b → IsKey n b v
unfolding to_raw_key
IsKey-sound (raw c) n b h =
    let both : (length c ≡ n) × (c ≡ b) = ground arith in
    subst (λ x. IsKey n x (raw c)) (both.1) (IsKey.as_bytes (both.0))
IsKey-sound (text s) n b h = elim (Bool-cases (is_key_text s n)) [
  | inr f ↦ absurd (ground (arith, f))
  | inl t ↦
      let parts : (length s ≡ n * 2) × (not (is_nil s) ≡ true) × (all_in is_hex s ≡ true) =
        ground (arith, t) in
      let read = digits_read s n (parts.0) (parts.2) in
      IsKey.as_digits s (parts.0) ((nonempty_iff s).0 (parts.1)) (parts.2) (ground (arith, t, read))
]
IsKey-sound absent n b h = cc
IsKey-sound null_value n b h = cc
IsKey-sound other n b h = cc

IsKey-complete : (v : Given) (n : ℕ) (b : Bytes) → IsKey n b v → to_raw_key v n ≡ ok b
unfolding to_raw_key
IsKey-complete absent n b k = elim k [ ]
IsKey-complete null_value n b k = elim k [ ]
IsKey-complete other n b k = elim k [ ]
IsKey-complete (raw b) n _ (IsKey.as_bytes l) = ground (arith, l)
IsKey-complete (text _) n b (IsKey.as_digits s l e h q) =
    ground (arith, l, (nonempty_iff s).1 e, h, digits_read s n l h, q)

not_empty : (s : Str) → s ≡ [] → 1 ≤ length s → ⊥
not_empty s e l = ground (arith, e, l)

length-from_hex : (n : ℕ) (s : Str) → length s ≡ n * 2 → length (from_hex s) ≡ n
unfolding from_hex
length-from_hex zero [] h = refl
length-from_hex (suc n) [] h = absurd (omega arith)
length-from_hex n (c ∷ []) h = absurd (omega arith)
length-from_hex zero (c ∷ d ∷ s) h = absurd (omega arith)
length-from_hex (suc n) (c ∷ d ∷ s) h = omega (arith, length-from_hex n s (omega arith))

IsKey-length : (v : Given) (n : ℕ) (b : Bytes) → IsKey n b v → length b ≡ n
IsKey-length absent n b k = elim k [ ]
IsKey-length null_value n b k = elim k [ ]
IsKey-length other n b k = elim k [ ]
IsKey-length (raw b) n _ (IsKey.as_bytes l) = l
IsKey-length (text _) n b (IsKey.as_digits s l e h q) =
    ap (length {A = ℕ}) q ∙ length-from_hex n (to_lower s) (length-to_lower s ∙ l)

lower_is_hex : (s : Str) → all_in is_lower_hex s ≡ true → all_in is_hex s ≡ true
unfolding all_in
lower_is_hex [] h = refl
lower_is_hex (c ∷ s) h = ground (arith, lower_is_hex s)

lower_fixed : (s : Str) → all_in is_lower_hex s ≡ true → to_lower s ≡ s
unfolding all_in to_lower
lower_fixed [] h = refl
lower_fixed (c ∷ s) h = ground (arith, lower_fixed s)

-- A value is taken as the key `b` exactly when it is those `n` bytes, or a text of twice as many
-- hexadecimal digits of either case, not empty, that spells them.
pub to_raw_key_iff : (v : Given) (n : ℕ) (b : Bytes) → (to_raw_key v n ≡ ok b) ↔ IsKey n b v
to_raw_key_iff v n b = (IsKey-sound v n b, IsKey-complete v n b)

-- The text that a key of bytes is normalized to has two lowercase digits for each byte, and is
-- taken again as the same key.
pub to_key_hex-to_raw_key :
    (v : Given) (n : ℕ) (b : Bytes)
    → 1 ≤ n
    → AreBytes b
    → to_raw_key v n ≡ ok b
    → (to_key_hex v n ≡ ok (to_hex b))
      × (length (to_hex b) ≡ n * 2)
      × (all_in is_lower_hex (to_hex b) ≡ true)
      × (to_raw_key (text (to_hex b)) n ≡ ok b)
unfolding to_key_hex
to_key_hex-to_raw_key v n b l a h =
    let size : length b ≡ n = IsKey-length v n b (IsKey-sound v n b h) in
    let digits = to_hex-all_in b a in
    let long : length (to_hex b) ≡ n * 2 = omega (arith, length-to_hex b, size) in
    (
      ground (arith, h),
      long,
      digits,
      IsKey-complete (text (to_hex b)) n b (
          IsKey.as_digits (to_hex b) long (λ e. not_empty (to_hex b) e (omega (arith, long, l)))
            (lower_is_hex (to_hex b) digits)
            (sym (ap from_hex (lower_fixed (to_hex b) digits) ∙ from_hex-to_hex b a))),
    )
