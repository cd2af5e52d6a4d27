-- ===== src/Examples/Envelope.antt =====
-- A built, signed and verified envelope, over the toy platform.
use capsules_protocol.Json.{Fields, end, get, set, without}
use capsules_protocol.Bytes.{
  Bytes, to_hex, hex_digit, digit_value, from_hex, utf8, emit, encode_from, encode_pair,
  encode_unit,
}
use capsules_protocol.Canonical.{
  hex_to_bytes, jcs, assert_i_json, text_error, lone_from, number_error,
}
use capsules_protocol.Crypto.{
  public_key_is_acceptable, signature_s_is_reduced, le_to_nat, mask_last,
}
use capsules_protocol.Chain.{zeros}
use capsules_protocol.Envelope.{
  EnvelopeParts, build_envelope, envelope_fields, envelope_canonical_payload, SealingKey,
  sign_envelope, sign_all, sign_one, signing_input,
}
use capsules_protocol.Envelope.Verify.{SignatureResult, verify_envelope_signatures}
use capsules_protocol.Envelope.Accepted.{IsAccepted, envelope_signatures_iff}
use capsules_protocol.Envelope.Sign.{IsUsable, verify-sign}
use capsules_protocol.Examples.Toy.{toy, print, toy_digest, checksum}
use capsules_protocol.Prelude.{
  ok, err, Str, codes, str_eq, str_eq_refl, contains, all_in, is_nil, ℕ, ◌<◌, ◌≡◌, refl, ◌↔◌, true,
  false, none, some, [], ◌∷◌, ◌++◌, arith,
}

abbrev pub parts : EnvelopeParts
parts = record {
  capsule_id = codes "c1";
  first_event_hash = none;
  entry_hash = none;
  manifest_hash = codes "m1";
  content_index_hash = codes "i1";
  encrypted_blob_hash = none;
  cipher = codes "none";
  signed_at = codes "now";
}

abbrev pub key_of : ℕ → Str → SealingKey
key_of n role = record { role = role; public_key = n ∷ zeros 31; private_key = n ∷ zeros 31 }

usable :
    (n : ℕ) (role : Str)
    → is_nil role ≡ false
    → n < 256
    → public_key_is_acceptable (n ∷ zeros 31) ≡ true
    → IsUsable toy (key_of n role)
unfolding toy_digest signature_s_is_reduced le_to_nat
usable n role r h a = record {
  role_given = r;
  seed_size = refl;
  key_size = refl;
  key_bytes = omega (arith, h);
  acceptable = a;
  signature_bytes = λ m. omega arith;
  reduced = λ m. refl;
  verifies = λ m. str_eq_refl (toy_digest ((n ∷ zeros 31) ++ m) ++ zeros 32);
}

-- The definitions that signing and verifying go through.
unfoldable pub envelope_code : Unit {0}
unfolding build_envelope get set without str_eq contains jcs assert_i_json text_error lone_from
    number_error to_hex hex_digit hex_to_bytes digit_value from_hex utf8 emit encode_from
    encode_pair encode_unit envelope_canonical_payload print toy_digest checksum
    public_key_is_acceptable le_to_nat mask_last sign_envelope sign_all sign_one signing_input
    all_in
envelope_code = tt

abbrev payload : Bytes
payload = elim (envelope_canonical_payload toy (envelope_fields parts)) [ ok m ↦ m | err e ↦ [] ]

verify-sign_example :
    (o' : Fields) × (r : SignatureResult) × (sign_envelope toy
        (envelope_fields parts)
        (key_of 3 (codes "originator") ∷ key_of 4 (codes "witness") ∷ [])
      ≡ ok o')
    × (verify_envelope_signatures toy o' ≡ some r)
    × (r.ok ≡ true)
unfolding envelope_code
verify-sign_example =
    verify-sign toy parts (envelope_fields parts) payload (key_of 3 (codes "originator"))
      (key_of 4 (codes "witness") ∷ []) refl refl
      (
        usable 3 (codes "originator") refl (omega arith) refl,
        (usable 4 (codes "witness") refl (omega arith) refl, tt),
      )
      (refl, (refl, tt))

abbrev signed_fields : Fields
signed_fields =
    elim (sign_envelope toy (envelope_fields parts) (key_of 3 (codes "originator") ∷ [])) [
      | ok o ↦ o
      | err e ↦ end
    ]

envelope_signatures_iff_example :
    ((r : SignatureResult) × (verify_envelope_signatures toy signed_fields ≡ some r)
      × (r.ok ≡ true))
    ↔ IsAccepted toy signed_fields
envelope_signatures_iff_example = envelope_signatures_iff toy signed_fields
