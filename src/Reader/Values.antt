-- ===== src/Reader/Values.antt =====
-- The values that the tests of sdk-js/src/reader.js let through.
use capsules_protocol.Json.{Value, null, bool, num, str, arr, obj, Num, Items, cons, Fields}
use capsules_protocol.Platform.{Platform}
use capsules_protocol.Canonical.{is_hex64}
use capsules_protocol.Reader.{
  joined, to_text, hex64_test, is_object, is_full_text, may_be_array, may_be_hash, has_signers,
}
use capsules_protocol.Prelude.{
  ◌==◌, ==_iff, &&_both, and_true, Str, all_in, is_lower_hex, length, ◌≡◌, refl, ◌≢◌, ◌↔◌, ◌⊎◌, inl,
  inr, true, Option, none, some, [], ◌∷◌,
}

-- A text of 64 lowercase hexadecimal digits.
pub record IsDigits (s : Str) : Type 0 where
  pub size : length s ≡ 64
  pub digits : all_in is_lower_hex s ≡ true

-- What the pattern of a hash is found in: such a text; but also an array or a number whose own text
-- is one, as the test reads the text of what it is given.
pub data IsHash (p : Platform) : Option Value → Type 0 where
  as_text : (s : Str) → IsDigits s → IsHash p (some (str s))
  as_array : (vs : Items) → IsDigits (joined p vs) → IsHash p (some (arr vs))
  as_number : (n : Num) → IsDigits (p.number_text n) → IsHash p (some (num n))

is_hex64_iff : (s : Str) → (is_hex64 s ≡ true) ↔ IsDigits s
unfolding is_hex64
is_hex64_iff s = (
  λ h.
      let (a, b) = &&_both (length s == 64) (all_in is_lower_hex s) h in
      record { size = (==_iff (length s) 64).0 a; digits = b },
  λ d. and_true _ _ ((==_iff (length s) 64).1 d.size) d.digits,
)

pub hex64_test-IsHash : (p : Platform) (v : Option Value) → hex64_test p v ≡ true → IsHash p v
unfolding hex64_test to_text is_hex64
hex64_test-IsHash p none h = cc
hex64_test-IsHash p (some null) h = cc
hex64_test-IsHash p (some (bool true)) h = cc
hex64_test-IsHash p (some (bool _)) h = cc
hex64_test-IsHash p (some (obj o)) h = cc
hex64_test-IsHash p (some (num n)) h = IsHash.as_number n ((is_hex64_iff (p.number_text n)).0 h)
hex64_test-IsHash p (some (str s)) h = IsHash.as_text s ((is_hex64_iff s).0 h)
hex64_test-IsHash p (some (arr vs)) h = IsHash.as_array vs ((is_hex64_iff (joined p vs)).0 h)

pub IsHash-hex64_test : (p : Platform) (v : Option Value) → IsHash p v → hex64_test p v ≡ true
unfolding hex64_test to_text
IsHash-hex64_test p _ (IsHash.as_text s d) = (is_hex64_iff s).1 d
IsHash-hex64_test p _ (IsHash.as_array vs d) = (is_hex64_iff (joined p vs)).1 d
IsHash-hex64_test p _ (IsHash.as_number n d) = (is_hex64_iff (p.number_text n)).1 d

-- A member that may be missing or null.
abbrev pub MayBeHash : Platform → Option Value → Type 0
MayBeHash p v = (v ≡ none) ⊎ ((v ≡ some null) ⊎ IsHash p v)

pub may_be_hash_iff : (p : Platform) (v : Option Value) → (may_be_hash p v ≡ true) ↔ MayBeHash p v
may_be_hash_iff p none = (λ h. inl refl, λ h. refl)
may_be_hash_iff p (some null) = (λ h. inr (inl refl), λ h. refl)
may_be_hash_iff p (some (bool b)) = (
  λ h. inr (inr (hex64_test-IsHash p (some (bool b)) h)),
  λ m. elim m [
    | inl q ↦ absurd (cc)
    | inr (inl q) ↦ absurd (cc)
    | inr (inr i) ↦ IsHash-hex64_test p (some (bool b)) i
  ],
)
may_be_hash_iff p (some (num n)) = (
  λ h. inr (inr (hex64_test-IsHash p (some (num n)) h)),
  λ m. elim m [
    | inl q ↦ absurd (cc)
    | inr (inl q) ↦ absurd (cc)
    | inr (inr i) ↦ IsHash-hex64_test p (some (num n)) i
  ],
)
may_be_hash_iff p (some (str s)) = (
  λ h. inr (inr (hex64_test-IsHash p (some (str s)) h)),
  λ m. elim m [
    | inl q ↦ absurd (cc)
    | inr (inl q) ↦ absurd (cc)
    | inr (inr i) ↦ IsHash-hex64_test p (some (str s)) i
  ],
)
may_be_hash_iff p (some (arr vs)) = (
  λ h. inr (inr (hex64_test-IsHash p (some (arr vs)) h)),
  λ m. elim m [
    | inl q ↦ absurd (cc)
    | inr (inl q) ↦ absurd (cc)
    | inr (inr i) ↦ IsHash-hex64_test p (some (arr vs)) i
  ],
)
may_be_hash_iff p (some (obj o)) = (
  λ h. inr (inr (hex64_test-IsHash p (some (obj o)) h)),
  λ m. elim m [
    | inl q ↦ absurd (cc)
    | inr (inl q) ↦ absurd (cc)
    | inr (inr i) ↦ IsHash-hex64_test p (some (obj o)) i
  ],
)

pub is_object_iff : (v : Value) → (is_object v ≡ true) ↔ ((o : Fields) × (v ≡ obj o))
is_object_iff (obj o) = (λ h. (o, refl), λ h. refl)
is_object_iff null = (λ h. absurd (cc), λ h. absurd (let (o, q) = h in cc))
is_object_iff (bool b) = (λ h. absurd (cc), λ h. absurd (let (o, q) = h in cc))
is_object_iff (num n) = (λ h. absurd (cc), λ h. absurd (let (o, q) = h in cc))
is_object_iff (str s) = (λ h. absurd (cc), λ h. absurd (let (o, q) = h in cc))
is_object_iff (arr vs) = (λ h. absurd (cc), λ h. absurd (let (o, q) = h in cc))

pub full_text_sound :
    (v : Option Value) → is_full_text v ≡ true → (s : Str) × (v ≡ some (str s)) × (s ≢ [])
full_text_sound (some (str [])) h = cc
full_text_sound (some (str (c ∷ s))) h = (c ∷ s, refl, λ q. cc)
full_text_sound none h = cc
full_text_sound (some null) h = cc
full_text_sound (some (bool b)) h = cc
full_text_sound (some (num n)) h = cc
full_text_sound (some (arr vs)) h = cc
full_text_sound (some (obj o)) h = cc

pub full_text_complete :
    (v : Option Value) (s : Str) → v ≡ some (str s) → s ≢ [] → is_full_text v ≡ true
full_text_complete v [] q n = absurd (n refl)
full_text_complete v (c ∷ s) q n = rw q refl

pub may_be_array_sound :
    (v : Option Value) → may_be_array v ≡ true → (v ≡ none) ⊎ ((vs : Items) × (v ≡ some (arr vs)))
may_be_array_sound none h = inl refl
may_be_array_sound (some (arr vs)) h = inr (vs, refl)
may_be_array_sound (some null) h = cc
may_be_array_sound (some (bool b)) h = cc
may_be_array_sound (some (num n)) h = cc
may_be_array_sound (some (str s)) h = cc
may_be_array_sound (some (obj o)) h = cc

pub may_be_array_complete :
    (v : Option Value) → (v ≡ none) ⊎ ((vs : Items) × (v ≡ some (arr vs))) → may_be_array v ≡ true
may_be_array_complete v (inl q) = rw q refl
may_be_array_complete v (inr (vs, q)) = rw q refl

pub has_signers_sound :
    (v : Option Value)
    → has_signers v ≡ true
    → (s : Value) × (ss : Items) × (v ≡ some (arr (cons s ss)))
has_signers_sound (some (arr (cons s ss))) h = (s, ss, refl)
has_signers_sound (some (arr _)) h = cc
has_signers_sound none h = cc
has_signers_sound (some null) h = cc
has_signers_sound (some (bool b)) h = cc
has_signers_sound (some (num n)) h = cc
has_signers_sound (some (str s)) h = cc
has_signers_sound (some (obj o)) h = cc
