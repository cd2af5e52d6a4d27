-- ===== src/Bytes/Hex.antt =====
-- Hex digits: reading what was written, and writing what was read.
use capsules_protocol.Bytes.{Bytes, AreBytes, hex_digit, to_hex, digit_value, from_hex}
use capsules_protocol.Prelude.{
  &&_both, Str, all_in, is_lower_hex, length, ℕ, ◌+◌, ◌*◌, ◌/◌, ◌%◌, ◌<◌, ◌≡◌, refl, true, ◌&&◌, [],
  ◌∷◌, arith,
}

digits_back :
    (b : ℕ) → b < 256 → digit_value (hex_digit (b / 16)) * 16 + digit_value (hex_digit (b % 16)) ≡ b
unfolding digit_value hex_digit
digits_back b h = ground arith

pub from_hex-to_hex : (bs : Bytes) → AreBytes bs → from_hex (to_hex bs) ≡ bs
unfolding from_hex to_hex
from_hex-to_hex [] h = refl
from_hex-to_hex (b ∷ bs) (hb, hs) = ground (arith, digits_back b hb, from_hex-to_hex bs hs)

pub length-to_hex : (bs : Bytes) → length (to_hex bs) ≡ 2 * length bs
unfolding to_hex
length-to_hex [] = refl
length-to_hex (b ∷ bs) = omega (arith, length-to_hex bs)

hex_digit-is_lower_hex : (d : ℕ) → d < 16 → is_lower_hex (hex_digit d) ≡ true
unfolding hex_digit
hex_digit-is_lower_hex d h = ground arith

pub to_hex-all_in : (bs : Bytes) → AreBytes bs → all_in is_lower_hex (to_hex bs) ≡ true
unfolding to_hex all_in
to_hex-all_in [] h = refl
to_hex-all_in (b ∷ bs) (hb, hs) =
    ground
      (arith, hex_digit-is_lower_hex (b / 16), hex_digit-is_lower_hex (b % 16), to_hex-all_in bs hs)

digit_there :
    (c : ℕ) → is_lower_hex c ≡ true → (digit_value c < 16) × (hex_digit (digit_value c) ≡ c)
unfolding hex_digit digit_value
digit_there c h = ground arith

pair_there : (x y : ℕ) → x < 16 → y < 16 → ((x * 16 + y) / 16 ≡ x) × ((x * 16 + y) % 16 ≡ y)
pair_there x y hx hy = omega arith

abbrev pub IsEven : Str → Type 0
IsEven (c ∷ d ∷ s) = IsEven s
IsEven (c ∷ []) = ⊥
IsEven [] = Unit

pub to_hex-from_hex : (s : Str) → IsEven s → all_in is_lower_hex s ≡ true → to_hex (from_hex s) ≡ s
unfolding to_hex from_hex all_in
to_hex-from_hex [] e h = refl
to_hex-from_hex (c ∷ []) e h = absurd e
to_hex-from_hex (c ∷ d ∷ s) e h =
    let (hc, rest) = &&_both (is_lower_hex c) (is_lower_hex d && all_in is_lower_hex s) h in
    let (hd, hs) = &&_both (is_lower_hex d) (all_in is_lower_hex s) rest in
    let (bc, xc) = digit_there c hc in
    let (bd, xd) = digit_there d hd in
    let (p, q) = pair_there (digit_value c) (digit_value d) bc bd in
    cc (p, q, xc, xd, to_hex-from_hex s e hs)
