-- ===== src/Crypto.antt =====
-- sdk-js/src/crypto.js: the checks of Ed25519 keys and signatures before node:crypto is asked.
pub mod SmallOrder
use capsules_protocol.Bytes.{Bytes, to_hex}
use capsules_protocol.Platform.{Platform}
use capsules_protocol.Prelude.{
  ltb, leb, ◌==◌, if◌then◌else◌, ==_iff, Bool-cases, Option-cases, &&_both, and_true, Result, ok,
  err, ◌>>=◌, Str, codes, str_eq, str_eq_refl, str_eq_sound, str_eq_iff, contains, all_in, is_digit,
  is_lower, is_upper, is_lower_hex, is_hex, starts_with, cut_at, lower_code, to_lower, str_compare,
  length, is_nil, All, any, every, keep, length-append, All-append, append-eq-nil, ℕ, zero, suc,
  ◌+◌, ◌-◌, ◌*◌, ◌/◌, ◌%◌, ◌^◌, ◌≤◌, ◌<◌, String, ◌≡◌, refl, sym, ap, ◌∙◌, ◌≢◌, ◌↔◌, ◌⊎◌, inl, inr,
  Bool, true, false, ◌&&◌, ◌||◌, not, Option, none, some, List, [], ◌∷◌, ◌++◌, map, append_assoc,
  append-nil, arith,
}

abbrev pub ed25519_p : ℕ
ed25519_p = 2 ^ 255 - 19

abbrev pub ed25519_l : ℕ
ed25519_l = 2 ^ 252 + 27742317777372353535851937790883648493

abbrev pub small_order_y : List Str
small_order_y =
    codes "0000000000000000000000000000000000000000000000000000000000000000"
    ∷ codes "0100000000000000000000000000000000000000000000000000000000000000"
    ∷ codes "26e8958fc2b227b045c3f489f2ef98f0d5dfac05d3c63339b13802886d53fc05"
    ∷ codes "c7176a703d4dd84fba3c0b760d10670f2a2053fa2c39ccc64ec7fd7792ac037a"
    ∷ codes "ecffffffffffffffffffffffffffffffffffffffffffffffffffffffffffff7f"
    ∷ []

-- `leToBigInt`: the bytes as digits, the lowest first.
unfoldable pub le_to_nat : Bytes → ℕ
le_to_nat [] = 0
le_to_nat (b ∷ bs) = b + 256 * le_to_nat bs

-- `masked[31] &= 0x7f` on 32 bytes: the sign bit of the last byte is cleared.
unfoldable pub mask_last : Bytes → Bytes
mask_last [] = []
mask_last (b ∷ []) = b % 128 ∷ []
mask_last (b ∷ c ∷ bs) = b ∷ mask_last (c ∷ bs)

-- `ed25519PublicKeyIsAcceptable`.
unfoldable pub public_key_is_acceptable : Bytes → Bool
public_key_is_acceptable key =
    length key == 32
    && (ltb (le_to_nat (mask_last key)) ed25519_p
        && not (contains small_order_y (to_hex (mask_last key))))

abbrev drop_bytes : ℕ → Bytes → Bytes
drop_bytes zero bs = bs
drop_bytes (suc n) [] = []
drop_bytes (suc n) (b ∷ bs) = drop_bytes n bs

-- `ed25519SignatureSIsReduced`.
unfoldable pub signature_s_is_reduced : Bytes → Bool
signature_s_is_reduced signature =
    length signature == 64 && ltb (le_to_nat (drop_bytes 32 signature)) ed25519_l

-- `ed25519Verify`; a key or signature that node:crypto cannot read verifies nothing.
unfoldable pub ed25519_verify : Platform → Bytes → Bytes → Bytes → Bool
ed25519_verify p key message signature =
    public_key_is_acceptable key
    && (signature_s_is_reduced signature && p.ed25519_verify key message signature)
