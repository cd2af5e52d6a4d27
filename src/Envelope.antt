-- ===== src/Envelope.antt =====
-- sdk-js/src/envelope.js: building, signing and verifying the provenance envelope.
-- Notes and error messages are constructors.
pub mod Verify
pub mod Rows
pub mod Accepted
pub mod Sign
use capsules_protocol.Json.{
  Value, null, bool, num, str, arr, obj, Items, nil, cons, Fields, end, field, get, set, without,
  as_str, as_arr, at,
}
use capsules_protocol.Bytes.{Bytes, to_hex}
use capsules_protocol.Platform.{Platform}
use capsules_protocol.Canonical.{CanonError, jcs, hex_to_bytes}
use capsules_protocol.Crypto.{ed25519_verify}
use capsules_protocol.Versions.{
  current_version, VersionStatus, known, unknown_newer, unknown_older, invalid, VersionClass,
  classify_version, provenance_domain,
}
use capsules_protocol.Prelude.{
  ltb, leb, ◌==◌, if◌then◌else◌, ==_iff, Bool-cases, Option-cases, &&_both, and_true, Result, ok,
  err, ◌>>=◌, Str, codes, str_eq, str_eq_refl, str_eq_sound, str_eq_iff, contains, all_in, is_digit,
  is_lower, is_upper, is_lower_hex, is_hex, starts_with, cut_at, str_before, lower_code, to_lower,
  str_compare, length, is_nil, All, any, every, keep, length-append, All-append, append-eq-nil, ℕ,
  zero, suc, ◌+◌, ◌-◌, ◌*◌, ◌/◌, ◌%◌, ◌^◌, ◌≤◌, ◌<◌, String, ◌≡◌, refl, sym, ap, ◌∙◌, ◌≢◌, ◌↔◌, ◌⊎◌,
  inl, inr, Bool, true, false, ◌&&◌, ◌||◌, not, Option, none, some, List, [], ◌∷◌, ◌++◌, map,
  append_assoc, append-nil, arith,
}

abbrev pub supported_ciphers : List Str
supported_ciphers = codes "none" ∷ codes "ChaCha20-Poly1305" ∷ []

pub data EnvelopeError : Type 0 where
  unsupported_cipher : Str → EnvelopeError
  plain_with_blob : EnvelopeError
  missing_blob_hash : EnvelopeError

pub record EnvelopeParts : Type 0 where
  pub capsule_id : Str
  pub first_event_hash : Option Str
  pub entry_hash : Option Str
  pub manifest_hash : Str
  pub content_index_hash : Str
  pub encrypted_blob_hash : Option Str
  pub cipher : Str
  pub signed_at : Str

-- A string, or null where it is absent.
abbrev pub or_null : Option Str → Value
or_null none = null
or_null (some s) = str s

abbrev blob_problem : Bool → Option Str → Option EnvelopeError
blob_problem true none = none
blob_problem true (some h) = some plain_with_blob
blob_problem false none = some missing_blob_hash
blob_problem false (some h) = if length h == 64 then none else some missing_blob_hash

abbrev pub envelope_fields : EnvelopeParts → Fields
envelope_fields e = field (codes "version") (str current_version) (
    field (codes "capsule_id") (str e.capsule_id) (
      field (codes "first_event_hash") (or_null e.first_event_hash) (
        field (codes "entry_hash") (or_null e.entry_hash) (
          field (codes "manifest_hash") (str e.manifest_hash) (
            field (codes "content_index_hash") (str e.content_index_hash) (
              field (codes "encrypted_blob_hash") (or_null e.encrypted_blob_hash) (
                field (codes "cipher") (str e.cipher) (
                  field (codes "signed_at") (str e.signed_at)
                    (field (codes "signers") (arr nil) end)))))))))

-- `buildEnvelope({...})`.
unfoldable pub build_envelope : EnvelopeParts → Result EnvelopeError Fields
build_envelope e =
    if contains supported_ciphers e.cipher
    then elim (blob_problem (str_eq e.cipher (codes "none")) e.encrypted_blob_hash) [
      | none ↦ ok (envelope_fields e)
      | some x ↦ err x
    ]
    else err (unsupported_cipher e.cipher)

-- `envelopeCanonicalPayload(envelope)`.
unfoldable pub envelope_canonical_payload : Platform → Fields → Result CanonError Bytes
envelope_canonical_payload p o = jcs p (obj (without o (codes "signers")))

pub data InputError : Type 0 where
  bad_role : InputError
  not_canonical : CanonError → InputError

-- The declared version, or the current one where it is no string.
abbrev pub declared_version : Fields → Str
declared_version o = elim (as_str (get o (codes "version"))) [ none ↦ current_version | some v ↦ v ]

-- `envelopeSigningInput(envelope, role)` for a role that is a string.
unfoldable pub signing_input : Platform → Fields → Str → Result InputError Bytes
signing_input p o role =
    if is_nil role then err bad_role else elim (envelope_canonical_payload p o) [
      | err e ↦ err (not_canonical e)
      | ok b ↦ ok (provenance_domain (declared_version o) role ++ b)
    ]

pub record SealingKey : Type 0 where
  pub role : Str
  pub public_key : Bytes
  pub private_key : Bytes

pub data SignError : Type 0 where
  already_signed no_array no_role bad_private_key bad_public_key : SignError
  no_input : InputError → SignError

abbrev pub append_item : Items → Value → Items
append_item nil v = cons v nil
append_item (cons w vs) v = cons w (append_item vs v)

abbrev pub signer_row : Str → Bytes → Bytes → Value
signer_row role key signature = obj (
    field (codes "role") (str role) (
      field (codes "public_key") (str (to_hex key))
        (field (codes "signature") (str (to_hex signature)) end)))

-- `envelope.signers.push(...)`.
abbrev pub push_signer : Fields → Value → Result SignError Fields
push_signer o row = elim (as_arr (get o (codes "signers"))) [
  | none ↦ err no_array
  | some rows ↦ ok (set o (codes "signers") (arr (append_item rows row)))
]

-- One round of the loop of `signEnvelope`.
unfoldable pub sign_one : Platform → Fields → SealingKey → Result SignError Fields
sign_one p o s =
    if is_nil s.role
    then err no_role
    else if not (length s.private_key == 32)
    then err bad_private_key
    else if not (length s.public_key == 32)
    then err bad_public_key
    else elim (signing_input p o s.role) [
      | err e ↦ err (no_input e)
      | ok m ↦ push_signer o (signer_row s.role s.public_key (p.ed25519_sign s.private_key m))
    ]

unfoldable pub sign_all : Platform → Fields → List SealingKey → Result SignError Fields
sign_all p o [] = ok o
sign_all p o (s ∷ ss) = sign_one p o s >>= λ signed. sign_all p signed ss

-- `signEnvelope(envelope, signers)` of an envelope whose signers are an array.
unfoldable pub sign_envelope : Platform → Fields → List SealingKey → Result SignError Fields
sign_envelope p o ss = elim (as_arr (get o (codes "signers"))) [
  | none ↦ err no_array
  | some nil ↦ sign_all p o ss
  | some (cons v vs) ↦ err already_signed
]
