-- ===== src/Canonical/Digests.antt =====
-- Hex of a digest, as the chain and the manifest store it.
use capsules_protocol.Bytes.{Bytes, AreBytes, to_hex, from_hex}
use capsules_protocol.Bytes.Hex.{length-to_hex, to_hex-all_in, from_hex-to_hex}
use capsules_protocol.Canonical.{hex_to_bytes, is_hex64, has_upper_hex, is_odd}
use capsules_protocol.Prelude.{
  ◌==◌, ==_iff, &&_both, and_true, ok, Str, all_in, is_lower_hex, length, ◌≡◌, refl, true, false,
  [], ◌∷◌, arith,
}

no_upper : (s : Str) → all_in is_lower_hex s ≡ true → has_upper_hex s ≡ false
unfolding all_in
no_upper [] h = refl
no_upper (c ∷ s) h = ground (arith, no_upper s)

pub hex_to_bytes-hex64 : (s : Str) → is_hex64 s ≡ true → hex_to_bytes s ≡ ok (from_hex s)
unfolding hex_to_bytes is_hex64
hex_to_bytes-hex64 s h =
    let (size, digits) = &&_both (length s == 64) (all_in is_lower_hex s) h in
    let n : length s ≡ 64 = (==_iff (length s) 64).0 size in rw (n, no_upper s digits, digits)

pub is_hex64-to_hex : (b : Bytes) → length b ≡ 32 → AreBytes b → is_hex64 (to_hex b) ≡ true
unfolding is_hex64
is_hex64-to_hex b n h =
    and_true _ _ ((==_iff (length (to_hex b)) 64).1 (omega (arith, length-to_hex b)))
      (to_hex-all_in b h)

pub length_hex64 : (s : Str) → is_hex64 s ≡ true → (length s == 64) ≡ true
unfolding is_hex64
length_hex64 s h = (&&_both (length s == 64) (all_in is_lower_hex s) h).0

even_length : (b : Bytes) → is_odd (length (to_hex b)) ≡ false
even_length b = ground (arith, length-to_hex b)

pub hex_to_bytes-to_hex : (b : Bytes) → AreBytes b → hex_to_bytes (to_hex b) ≡ ok b
unfolding hex_to_bytes
hex_to_bytes-to_hex b h =
    let digits = to_hex-all_in b h in
    rw (even_length b, no_upper (to_hex b) digits, digits, from_hex-to_hex b h) refl
