-- ===== src/Crypto/SmallOrder.antt =====
-- `ed25519PublicKeyIsAcceptable`, by the numbers that keys encode.
use capsules_protocol.Bytes.{Bytes, AreBytes, to_hex, from_hex, hex_digit, digit_value}
use capsules_protocol.Crypto.{
  ed25519_p, small_order_y, le_to_nat, mask_last, public_key_is_acceptable,
}
use capsules_protocol.Bytes.Hex.{from_hex-to_hex}
use capsules_protocol.Prelude.{
  ltb, ◌==◌, ==_iff, &&_both, and_true, not, ◌&&◌, ◌||◌, Bool, String, codes, ℕ, ◌-◌, ◌<◌, ◌≢◌, ◌↔◌,
  Bool-cases, inl, inr, str_eq, str_eq_iff, str_eq_sound, contains, length, suc, ◌≡◌, refl, sym, ap,
  ◌∙◌, true, false, [], ◌∷◌, arith,
}

le_injective :
    (a b : Bytes)
    → length a ≡ length b
    → AreBytes a
    → AreBytes b
    → le_to_nat a ≡ le_to_nat b
    → a ≡ b
unfolding le_to_nat
le_injective [] [] n ha hb e = refl
le_injective [] (y ∷ b) n ha hb e = absurd (omega arith)
le_injective (x ∷ a) [] n ha hb e = absurd (omega arith)
le_injective (x ∷ a) (y ∷ b) n (hx, ha) (hy, hb) e =
    let tails = le_injective a b (omega arith) ha hb (omega arith) in
    let heads : x ≡ y = omega arith in cc

length-mask_last : (k : Bytes) → length (mask_last k) ≡ length k
unfolding mask_last
length-mask_last [] = refl
length-mask_last (b ∷ []) = refl
length-mask_last (b ∷ c ∷ k) = ap suc (length-mask_last (c ∷ k))

mask_last-AreBytes : (k : Bytes) → AreBytes k → AreBytes (mask_last k)
unfolding mask_last
mask_last-AreBytes [] h = tt
mask_last-AreBytes (b ∷ []) h = omega arith
mask_last-AreBytes (b ∷ c ∷ k) (hb, h) = (hb, mask_last-AreBytes (c ∷ k) h)

-- The y coordinates of the points whose order divides 8: order 4, the identity, order 8, order 2.
abbrev pub NotListed : ℕ → Type 0
NotListed y =
    (y ≢ 0)
    × (y ≢ 1)
    × (y ≢ 2707385501144840649318225287225658788936804267575313519463743609750303402022)
    × (y ≢ 55188659117513257062467267217118295137698188065244968500265048394206261417927)
    × (y ≢ ed25519_p - 1)

-- A listed text is that of a masked key exactly where the numbers are equal.
text_iff :
    (k point : Bytes) (y : ℕ)
    → length k ≡ length point
    → AreBytes k
    → AreBytes point
    → le_to_nat point ≡ y
    → (str_eq (to_hex point) (to_hex k) ≡ false) ↔ (le_to_nat k ≢ y)
text_iff k point y n hk hp e = (
  λ f same. cc (
    f,
    (str_eq_iff (to_hex point) (to_hex k)).1
        (ap to_hex (le_injective point k (sym n) hp hk (e ∙ sym same))),
  ),
  λ ne. elim (Bool-cases (str_eq (to_hex point) (to_hex k))) [
    | inr f ↦ f
    | inl t ↦
        let texts = str_eq_sound (to_hex point) (to_hex k) t in
        let points = sym (from_hex-to_hex point hp) ∙ ap from_hex texts ∙ from_hex-to_hex k hk in
        absurd (ne (sym (ap le_to_nat points) ∙ e))
  ],
)

ltb_iff : (a b : ℕ) → (ltb a b ≡ true) ↔ (a < b)
ltb_iff a b = ground arith

not_any :
    (a b c d e : Bool)
    → (not (a || (b || (c || (d || (e || false))))) ≡ true)
      ↔ ((a ≡ false) × (b ≡ false) × (c ≡ false) × (d ≡ false) × (e ≡ false))
not_any a b c d e = ground arith

-- The bytes of a listed text.
abbrev point : String → Bytes
point t = from_hex (codes t)

module _ (k : Bytes) (n : length k ≡ 32) (h : AreBytes k) where
  NotListed-iff : (not (contains small_order_y (to_hex k)) ≡ true) ↔ NotListed (le_to_nat k)
  unfolding contains from_hex digit_value to_hex hex_digit le_to_nat
  NotListed-iff =
      let p0 =
        text_iff k (point "0000000000000000000000000000000000000000000000000000000000000000") 0 n h
          (omega arith) refl in
      let p1 =
        text_iff k (point "0100000000000000000000000000000000000000000000000000000000000000") 1 n h
          (omega arith) refl in
      let p2 =
        text_iff k (point "26e8958fc2b227b045c3f489f2ef98f0d5dfac05d3c63339b13802886d53fc05")
          2707385501144840649318225287225658788936804267575313519463743609750303402022 n h
          (omega arith) refl in
      let p3 =
        text_iff k (point "c7176a703d4dd84fba3c0b760d10670f2a2053fa2c39ccc64ec7fd7792ac037a")
          55188659117513257062467267217118295137698188065244968500265048394206261417927 n h
          (omega arith) refl in
      let p4 =
        text_iff k (point "ecffffffffffffffffffffffffffffffffffffffffffffffffffffffffffff7f")
          (ed25519_p - 1) n h (omega arith) refl in
      let all =
        not_any
          (str_eq (codes "0000000000000000000000000000000000000000000000000000000000000000")
            (to_hex k))
          (str_eq (codes "0100000000000000000000000000000000000000000000000000000000000000")
            (to_hex k))
          (str_eq (codes "26e8958fc2b227b045c3f489f2ef98f0d5dfac05d3c63339b13802886d53fc05")
            (to_hex k))
          (str_eq (codes "c7176a703d4dd84fba3c0b760d10670f2a2053fa2c39ccc64ec7fd7792ac037a")
            (to_hex k))
          (str_eq (codes "ecffffffffffffffffffffffffffffffffffffffffffffffffffffffffffff7f")
            (to_hex k)) in
      (
        λ e. let f = all.0 e in (p0.0 f.0, p1.0 f.1, p2.0 f.2, p3.0 f.3, p4.0 f.4),
        λ e. all.1 (p0.1 e.0, p1.1 e.1, p2.1 e.2, p3.1 e.3, p4.1 e.4),
      )

-- The check accepts exactly the keys of 32 bytes whose number, without the sign bit, is below the
-- field prime and is no y coordinate of a point whose order divides 8.
pub acceptable_iff :
    (key : Bytes)
    → AreBytes key
    → (public_key_is_acceptable key ≡ true) ↔ (
        (length key ≡ 32)
        × (le_to_nat (mask_last key) < ed25519_p)
        × NotListed (le_to_nat (mask_last key)))
unfolding public_key_is_acceptable
acceptable_iff key h =
    let k = mask_last key in
    let hk = mask_last-AreBytes key h in
    (
      λ e.
          let (size, rest) =
            &&_both (length key == 32)
              (ltb (le_to_nat k) ed25519_p && not (contains small_order_y (to_hex k))) e in
          let (below, unlisted) =
            &&_both (ltb (le_to_nat k) ed25519_p) (not (contains small_order_y (to_hex k))) rest in
          let n = (==_iff (length key) 32).0 size in
          (
            n,
            (ltb_iff (le_to_nat k) ed25519_p).0 below,
            (NotListed-iff k (length-mask_last key ∙ n) hk).0 unlisted,
          ),
      λ (n, below, free). and_true _ _ ((==_iff (length key) 32).1 n) (
          and_true _ _ ((ltb_iff (le_to_nat k) ed25519_p).1 below)
            ((NotListed-iff k (length-mask_last key ∙ n) hk).1 free)),
    )
