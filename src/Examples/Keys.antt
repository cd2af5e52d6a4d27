-- ===== src/Examples/Keys.antt =====
-- Keys, signers and recipients as a caller passes them.
use capsules_protocol.Bytes.{to_hex, from_hex, digit_value}
use capsules_protocol.Canonical.{hex_to_bytes}
use capsules_protocol.Chain.{zeros}
use capsules_protocol.Keys.{
  Given, absent, text, raw, KeyObject, untagged_keypair, or_else, role_of, curve_fits, object,
  has_private, to_raw_key, to_key_hex, to_signer, to_recipient,
}
use capsules_protocol.Keys.Raw.{IsKey, to_raw_key_iff, to_key_hex-to_raw_key}
use capsules_protocol.Keys.Curves.{IsRole, recipient_curve, signer_curve}
use capsules_protocol.Prelude.{
  ok, err, codes, str_eq, all_in, is_lower_hex, to_lower, length, ◌*◌, ◌≡◌, refl, ◌↔◌, ◌⊎◌, true,
  false, [], ◌∷◌, arith,
}

to_raw_key_iff_example :
    (to_raw_key (text (codes "0aFF")) 2 ≡ ok (10 ∷ 255 ∷ []))
    ↔ IsKey 2 (10 ∷ 255 ∷ []) (text (codes "0aFF"))
to_raw_key_iff_example = to_raw_key_iff (text (codes "0aFF")) 2 (10 ∷ 255 ∷ [])

upper_test : to_raw_key (text (codes "0aFF")) 2 ≡ ok (10 ∷ 255 ∷ [])
unfolding to_raw_key hex_to_bytes from_hex digit_value to_lower all_in
upper_test = refl

to_key_hex-to_raw_key_example :
    (to_key_hex (text (codes "0aFF")) 2 ≡ ok (to_hex (10 ∷ 255 ∷ [])))
    × (length (to_hex (10 ∷ 255 ∷ [])) ≡ 2 * 2)
    × (all_in is_lower_hex (to_hex (10 ∷ 255 ∷ [])) ≡ true)
    × (to_raw_key (text (to_hex (10 ∷ 255 ∷ []))) 2 ≡ ok (10 ∷ 255 ∷ []))
to_key_hex-to_raw_key_example =
    to_key_hex-to_raw_key (text (codes "0aFF")) 2 (10 ∷ 255 ∷ []) (omega arith)
      (omega arith, (omega arith, tt)) upper_test

-- A pair of 32 bytes each, with a tag.
abbrev pair_of : Given → KeyObject
pair_of tag = record {
  curve = tag;
  role = absent;
  public_key = raw (1 ∷ zeros 31);
  public_key_hex = absent;
  private_key = raw (2 ∷ zeros 31);
  private_key_hex = absent;
}

untagged_test : to_recipient (object (pair_of absent)) ≡ err untagged_keypair
unfolding to_recipient curve_fits
untagged_test = refl

tagged_test : to_recipient (object (pair_of (text (codes "x25519")))) ≡ ok (1 ∷ zeros 31)
unfolding to_recipient curve_fits to_raw_key str_eq
tagged_test = refl

recipient_curve_example :
    ((text (codes "x25519") ≡ text (codes "x25519"))
      ⊎ ((text (codes "x25519") ≡ absent)
          × (has_private (pair_of (text (codes "x25519"))) ≡ false)))
    × (to_raw_key (or_else (raw (1 ∷ zeros 31)) absent) 32 ≡ ok (1 ∷ zeros 31))
recipient_curve_example =
    recipient_curve (pair_of (text (codes "x25519"))) (1 ∷ zeros 31) tagged_test

own_signer_test :
    to_signer (object (pair_of absent))
    ≡ ok (record {
      role = codes "originator";
      public_key = 1 ∷ zeros 31;
      private_key = 2 ∷ zeros 31;
    })
unfolding to_signer curve_fits role_of to_raw_key
own_signer_test = refl

signer_curve_example :
    ((absent ≡ absent) ⊎ (absent ≡ text (codes "ed25519")))
    × IsRole (codes "originator") absent
    × IsKey 32 (1 ∷ zeros 31) (or_else (raw (1 ∷ zeros 31)) absent)
    × IsKey 32 (2 ∷ zeros 31) (or_else (raw (2 ∷ zeros 31)) absent)
signer_curve_example =
    signer_curve (pair_of absent)
      (record { role = codes "originator"; public_key = 1 ∷ zeros 31; private_key = 2 ∷ zeros 31 })
      own_signer_test
