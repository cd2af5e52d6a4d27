-- ===== src/Envelope/Sign.antt =====
-- Signing a built envelope and verifying it.
use mathlib.Core.Path.{subst}
use capsules_protocol.Json.{Value, str, arr, Items, nil, cons, Fields, get, set, as_arr}
use capsules_protocol.Json.Laws.{get-set_ne, get-set_self, without-set_self}
use capsules_protocol.Bytes.{Bytes, AreBytes, to_hex}
use capsules_protocol.Bytes.Hex.{to_hex-all_in}
use capsules_protocol.Platform.{Platform}
use capsules_protocol.Canonical.Digests.{hex_to_bytes-to_hex}
use capsules_protocol.Crypto.{public_key_is_acceptable, signature_s_is_reduced, ed25519_verify}
use capsules_protocol.Versions.{
  current_version, known, classify_version, parse_version, numeral, provenance_domain,
}
use capsules_protocol.Envelope.{
  EnvelopeParts, build_envelope, envelope_fields, supported_ciphers, envelope_canonical_payload,
  declared_version, signing_input, SealingKey, append_item, signer_row, push_signer, sign_one,
  sign_all, sign_envelope,
}
use capsules_protocol.Envelope.Verify.{
  SignatureResult, member_text, template_text, cipher_supported, verify_envelope_signatures,
}
use capsules_protocol.Envelope.Rows.{IsSigned, texts, EveryItem}
use capsules_protocol.Envelope.Accepted.{IsAccepted, IsAccepted-complete}
use capsules_protocol.Prelude.{
  Apart, ok, Str, codes, str_eq, contains, all_in, is_lower_hex, cut_at, to_lower, length, is_nil,
  All, ◌≡◌, refl, sym, ap, ◌∙◌, Bool, true, false, some, List, [], ◌∷◌, ◌++◌, map, append_assoc,
  append-nil, arith,
}

-- A signer whose key pair works, as RFC 8032 has it.
pub record IsUsable (p : Platform) (s : SealingKey) : Type 0 where
  pub role_given : is_nil s.role ≡ false
  pub seed_size : length s.private_key ≡ 32
  pub key_size : length s.public_key ≡ 32
  pub key_bytes : AreBytes s.public_key
  pub acceptable : public_key_is_acceptable s.public_key ≡ true
  pub signature_bytes : (m : Bytes) → AreBytes (p.ed25519_sign s.private_key m)
  pub reduced : (m : Bytes) → signature_s_is_reduced (p.ed25519_sign s.private_key m) ≡ true
  pub verifies :
      (m : Bytes) → p.ed25519_verify s.public_key m (p.ed25519_sign s.private_key m) ≡ true

-- What signing leaves alone.
record Body (p : Platform) (v c : Str) (m : Bytes) (o : Fields) : Type 0 where
  version : get o (codes "version") ≡ some (str v)
  cipher : get o (codes "cipher") ≡ some (str c)
  payload : envelope_canonical_payload p o ≡ ok m

abbrev pub member_key : SealingKey → Str
member_key s = s.role ++ 0 ∷ to_hex s.public_key

abbrev is_empty_items : Items → Bool
is_empty_items nil = true
is_empty_items (cons v vs) = false

abbrev row_of : Platform → Str → Bytes → SealingKey → Value
row_of p v m s =
    signer_row s.role s.public_key (p.ed25519_sign s.private_key (provenance_domain v s.role ++ m))

abbrev appended : Platform → Str → Bytes → Items → List SealingKey → Items
appended p v m acc [] = acc
appended p v m acc (s ∷ ss) = appended p v m (append_item acc (row_of p v m s)) ss

lower_hex_stays : (s : Str) → all_in is_lower_hex s ≡ true → to_lower s ≡ s
unfolding all_in to_lower
lower_hex_stays [] h = refl
lower_hex_stays (c ∷ s) h = ground (arith, lower_hex_stays s)

to_lower-to_hex : (b : Bytes) → AreBytes b → to_lower (to_hex b) ≡ to_hex b
to_lower-to_hex b h = lower_hex_stays (to_hex b) (to_hex-all_in b h)

module _ (p : Platform) (v c : Str) (m : Bytes) where
  Body-set : (o : Fields) (x : Value) → Body p v c m o → Body p v c m (set o (codes "signers") x)
  unfolding envelope_canonical_payload str_eq
  Body-set o x b = record {
    version = get-set_ne o (codes "signers") (codes "version") x refl ∙ b.version;
    cipher = get-set_ne o (codes "signers") (codes "cipher") x refl ∙ b.cipher;
    payload = rw (without-set_self o (codes "signers") x) b.payload;
  }

  declared : (o : Fields) → Body p v c m o → declared_version o ≡ v
  declared o b = rw (declared_version, b.version) refl

  input_of :
      (o : Fields) (s : SealingKey)
      → Body p v c m o
      → is_nil s.role ≡ false
      → signing_input p o s.role ≡ ok (provenance_domain v s.role ++ m)
  unfolding signing_input
  input_of o s b r = rw (r, b.payload, declared o b) refl

  pushed :
      (o : Fields) (acc : Items) (row : Value)
      → as_arr (get o (codes "signers")) ≡ some acc
      → push_signer o row ≡ ok (set o (codes "signers") (arr (append_item acc row)))
  pushed o acc row l = rw (push_signer, l) refl

  sign_one_lem :
      (o : Fields) (acc : Items) (s : SealingKey)
      → Body p v c m o
      → IsUsable p s
      → as_arr (get o (codes "signers")) ≡ some acc
      → sign_one p o s ≡ ok (set o (codes "signers") (arr (append_item acc (row_of p v m s))))
  unfolding sign_one
  sign_one_lem o acc s b u l =
      rw
        (
          u.role_given,
          u.seed_size,
          u.key_size,
          input_of o s b u.role_given,
          pushed o acc (row_of p v m s) l,
        )
        refl

  sign_all_lem :
      (o : Fields) (acc : Items) (ss : List SealingKey)
      → Body p v c m o
      → All (IsUsable p) ss
      → as_arr (get o (codes "signers")) ≡ some acc
      → (o' : Fields) × (sign_all p o ss ≡ ok o')
        × Body p v c m o'
        × (as_arr (get o' (codes "signers")) ≡ some (appended p v m acc ss))
  unfolding sign_all
  sign_all_lem o acc [] b us l = (o, refl, b, l)
  sign_all_lem o acc (s ∷ ss) b (u, us) l =
      let next = append_item acc (row_of p v m s) in
      let o' = set o (codes "signers") (arr next) in
      let (final, e, b', l') =
        sign_all_lem o' next ss (Body-set o (arr next) b) us
          (ap as_arr (get-set_self o (codes "signers") (arr next))) in
      (final, rw (sign_one_lem o acc s b u l) e, b', l')

  verified_own :
      (s : SealingKey)
      → IsUsable p s
      → (i : Bytes) → ed25519_verify p s.public_key i (p.ed25519_sign s.private_key i) ≡ true
  unfolding ed25519_verify
  verified_own s u i = rw (u.acceptable, u.reduced i, u.verifies i) refl

  EveryItem-append :
      (P : Value → Type 0) (acc : Items) (x : Value)
      → EveryItem P acc
      → P x
      → EveryItem P (append_item acc x)
  EveryItem-append P nil x h k = (k, tt)
  EveryItem-append P (cons w vs) x (h, hs) k = (h, EveryItem-append P vs x hs k)

  texts-append :
      (acc : Items) (x : Value) → texts p (append_item acc x) ≡ texts p acc ++ member_text p x ∷ []
  texts-append nil x = refl
  texts-append (cons w vs) x = ap (λ l. member_text p w ∷ l) (texts-append vs x)

  member_text-row : (s : SealingKey) → IsUsable p s → member_text p (row_of p v m s) ≡ member_key s
  unfolding member_text get str_eq template_text
  member_text-row s u = ap (λ k. s.role ++ 0 ∷ k) (to_lower-to_hex s.public_key u.key_bytes)

  append_item-some : (acc : Items) (x : Value) → is_empty_items (append_item acc x) ≡ false
  append_item-some nil x = refl
  append_item-some (cons w vs) x = refl

  row-IsSigned :
      (o : Fields) (s : SealingKey) → Body p v c m o → IsUsable p s → IsSigned p o (row_of p v m s)
  unfolding get str_eq
  row-IsSigned o s b u =
      let i = provenance_domain v s.role ++ m in
      let signature = p.ed25519_sign s.private_key i in
      IsSigned.signed s.role (to_hex s.public_key) (to_hex signature) i s.public_key signature refl
        refl refl (input_of o s b u.role_given) (hex_to_bytes-to_hex s.public_key u.key_bytes)
        (hex_to_bytes-to_hex signature (u.signature_bytes i)) (verified_own s u i)

  All-rows :
      (o : Fields)
      → Body p v c m o
      → (ss : List SealingKey) → All (IsUsable p) ss
      → All (λ s. IsSigned p o (row_of p v m s)) ss
  All-rows o b [] us = tt
  All-rows o b (s ∷ ss) (u, us) = (row-IsSigned o s b u, All-rows o b ss us)

  every_appended :
      (P : Value → Type 0) (acc : Items) (ss : List SealingKey)
      → EveryItem P acc
      → All (λ s. P (row_of p v m s)) ss
      → EveryItem P (appended p v m acc ss)
  every_appended P acc [] h k = h
  every_appended P acc (s ∷ ss) h (k, ks) =
      every_appended P (append_item acc (row_of p v m s)) ss
        (EveryItem-append P acc (row_of p v m s) h k) ks

  texts-appended :
      (acc : Items) (ss : List SealingKey)
      → All (IsUsable p) ss
      → texts p (appended p v m acc ss) ≡ texts p acc ++ map member_key ss
  texts-appended acc [] u = sym (append-nil (texts p acc))
  texts-appended acc (s ∷ ss) (u, us) =
      texts-appended (append_item acc (row_of p v m s)) ss us
      ∙ rw (texts-append acc (row_of p v m s), member_text-row s u)
          (append_assoc (texts p acc) (member_key s ∷ []) (map member_key ss))

  first_of : (ss : Items) → is_empty_items ss ≡ false → (a : Value) × (b : Items) × (ss ≡ cons a b)
  first_of nil h = cc
  first_of (cons a b) h = (a, b, refl)

  appended-some :
      (acc : Items) (ss : List SealingKey)
      → is_empty_items acc ≡ false
      → is_empty_items (appended p v m acc ss) ≡ false
  appended-some acc [] h = h
  appended-some acc (s ∷ ss) h =
      appended-some (append_item acc (row_of p v m s)) ss (append_item-some acc (row_of p v m s))

  sign-IsAccepted :
      (o : Fields) (s : SealingKey) (ss : List SealingKey)
      → (classify_version (some (str v))).status ≡ known
      → contains supported_ciphers c ≡ true
      → Body p v c m o
      → as_arr (get o (codes "signers")) ≡ some nil
      → All (IsUsable p) (s ∷ ss)
      → Apart (map member_key (s ∷ ss))
      → (o' : Fields) × (sign_envelope p o (s ∷ ss) ≡ ok o') × IsAccepted p o'
  unfolding sign_envelope
  sign-IsAccepted o s ss hv hc b l us ap' =
      let (o', e, b', l') = sign_all_lem o nil (s ∷ ss) b us l in
      let items = appended p v m nil (s ∷ ss) in
      let (a, rest, split) = first_of items (appended-some (cons (row_of p v m s) nil) ss refl) in
      (
        o',
        rw (sign_envelope, l) e,
        record {
          version_known = rw b'.version hv;
          cipher_known = rw (cipher_supported, b'.cipher) hc;
          first = a;
          others = rest;
          listed = l' ∙ ap some split;
          members_apart =
              subst (λ x. Apart (texts p x)) split
                (subst Apart (sym (texts-appended nil (s ∷ ss) us)) ap');
          all_signed =
              subst (EveryItem (IsSigned p o')) split
                (every_appended (IsSigned p o') nil (s ∷ ss) tt (All-rows o' b' (s ∷ ss) us));
        },
      )

built_is :
    (e : EnvelopeParts) (o : Fields)
    → build_envelope e ≡ ok o
    → (o ≡ envelope_fields e) × (contains supported_ciphers e.cipher ≡ true)
unfolding build_envelope
built_is e o h = ground arith

built-Body :
    (p : Platform) (e : EnvelopeParts) (o : Fields) (m : Bytes)
    → build_envelope e ≡ ok o
    → envelope_canonical_payload p o ≡ ok m
    → Body p current_version e.cipher m o
      × (as_arr (get o (codes "signers")) ≡ some nil)
      × (contains supported_ciphers e.cipher ≡ true)
unfolding get str_eq
built-Body p e o m h k =
    let (same, c) = built_is e o h in
    (record { version = rw same refl; cipher = rw same refl; payload = k }, rw same refl, c)

-- An envelope that `buildEnvelope` returns, and whose members have a canonical text, is signed by
-- any non-empty list of distinct members with working keys, and what is signed is accepted by
-- `verifyEnvelopeSignatures`.
pub verify-sign :
    (p : Platform) (e : EnvelopeParts) (o : Fields) (m : Bytes) (s : SealingKey)
    (ss : List SealingKey)
    → build_envelope e ≡ ok o
    → envelope_canonical_payload p o ≡ ok m
    → All (IsUsable p) (s ∷ ss)
    → Apart (map member_key (s ∷ ss))
    → (o' : Fields) × (r : SignatureResult) × (sign_envelope p o (s ∷ ss) ≡ ok o')
      × (verify_envelope_signatures p o' ≡ some r)
      × (r.ok ≡ true)
unfolding classify_version parse_version cut_at numeral all_in contains str_eq
verify-sign p e o m s ss h k us a =
    let (b, l, c) = built-Body p e o m h k in
    let (o', signed, accepted) =
      sign-IsAccepted p current_version e.cipher m o s ss refl c b l us a in
    let (r, v, t) = IsAccepted-complete p o' accepted in (o', r, signed, v, t)
