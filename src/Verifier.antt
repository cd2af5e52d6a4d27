-- ===== src/Verifier.antt =====
-- sdk-js/src/verifier.js: the checks between manifest, envelope and package.
-- Error texts are constructors. A document is the object that its JSON text holds.
pub mod Index
pub mod Signers
pub mod Verdict
pub mod Stages
pub mod Messages
pub mod Capsule
pub mod Gates
pub mod Described
pub mod Sound
pub mod Surface
pub mod Indexed
pub mod Contents
use capsules_protocol.Json.{
  Num, integral, fractional, infinite, nan, Value, null, bool, num, str, arr, obj, Items, nil, cons,
  Fields, get, as_str, at, prints,
}
use capsules_protocol.Bytes.{Bytes}
use capsules_protocol.Platform.{Platform}
use capsules_protocol.Canonical.{CanonError, jcs, hex_to_bytes}
use capsules_protocol.Chain.{ActorProblem}
use capsules_protocol.Manifest.{compute_capsule_id, sha256_hex, manifest_hash, Files, file}
use capsules_protocol.Manifest.Commitment.{CommitmentProblem, Difference}
use capsules_protocol.Manifest.Predecessors.{PredecessorProblem, predecessors_problems}
use capsules_protocol.Envelope.Verify.{Note}
use capsules_protocol.Profiles.{ProfileProblem}
use capsules_protocol.Prelude.{
  ltb, leb, ◌==◌, if◌then◌else◌, ==_iff, Bool-cases, Option-cases, &&_both, and_true, Result, ok,
  err, ◌>>=◌, Str, codes, str_eq, str_eq_refl, str_eq_sound, str_eq_iff, contains, all_in, is_digit,
  is_lower, is_upper, is_lower_hex, is_hex, starts_with, cut_at, str_before, lower_code, to_lower,
  str_compare, length, is_nil, All, any, every, keep, length-append, All-append, append-eq-nil, ℕ,
  zero, suc, ◌+◌, ◌-◌, ◌*◌, ◌/◌, ◌%◌, ◌^◌, ◌≤◌, ◌<◌, String, ◌≡◌, refl, sym, ap, ◌∙◌, ◌≢◌, ◌↔◌, ◌⊎◌,
  inl, inr, Bool, true, false, ◌&&◌, ◌||◌, not, Option, none, some, List, [], ◌∷◌, ◌++◌, map,
  append_assoc, append-nil, arith,
}

pub data VerifyError : Type 0 where
  bad_participants : VerifyError
  participant_problem : ActorProblem → VerifyError
  bad_manifest_version bad_envelope_version : VerifyError
  unsupported_manifest_version unsupported_envelope_version : VerifyError
  versions_differ : VerifyError
  profile_problem : ProfileProblem → VerifyError
  profile_mismatch unsupported_profile : VerifyError
  id_mismatch envelope_id_mismatch id_failed : VerifyError
  first_hash_mismatch : VerifyError
  manifest_hash_mismatch manifest_hash_failed : VerifyError
  blob_without_hash blob_hash_mismatch blob_on_plain hash_on_plain cipher_on_plain : VerifyError
  encryption_on_plain no_encryption encryption_cipher no_metadata_path : VerifyError
  metadata_missing metadata_not_indexed : Str → VerifyError
  lineage_problem : PredecessorProblem → VerifyError
  empty_with_first empty_with_entry empty_with_manifest_first : VerifyError
  first_mismatch entry_mismatch no_manifest_first : VerifyError
  signature_note : Note → VerifyError
  signature_invalid : ℕ → VerifyError
  commitment_malformed : CommitmentProblem → VerifyError
  commitment_differs : Difference → VerifyError
  originator_unsigned : VerifyError
  outer_id outer_first outer_entry outer_predecessors : VerifyError

-- The error, where the test fails.
abbrev pub unless : Bool → VerifyError → List VerifyError
unless true e = []
unless false e = e ∷ []

abbrev pub bool_same : Bool → Bool → Bool
bool_same true b = b
bool_same false b = not b

-- `===` on numbers.
unfoldable pub num_same : Num → Num → Bool
num_same (integral s m) (integral t n) = m == n && (bool_same s t || m == 0)
num_same (fractional a) (fractional b) = a == b
num_same (infinite s) (infinite t) = bool_same s t
num_same _ _ = false

-- `===` on what two documents hold: of their objects and arrays, none is the other's.
unfoldable pub same : Option Value → Option Value → Bool
same none none = true
same (some null) (some null) = true
same (some (bool a)) (some (bool b)) = bool_same a b
same (some (num a)) (some (num b)) = num_same a b
same (some (str a)) (some (str b)) = str_eq a b
same _ _ = false

-- `v === s` of a string `s`.
abbrev pub is_text : Option Value → Str → Bool
is_text v s = same v (some (str s))

-- `v ?? null`.
abbrev pub null_for_undefined : Option Value → Option Value
null_for_undefined none = some null
null_for_undefined (some v) = some v

abbrev pub is_null_value : Option Value → Bool
is_null_value v = same v (some null)

-- `hexToBytes(v)` inside a `try`.
abbrev pub key_bytes : Option Value → Option Bytes
key_bytes v = elim (as_str v) [
  | none ↦ none
  | some s ↦ elim (hex_to_bytes s) [ ok b ↦ some b | err e ↦ none ]
]

-- The capsule id that the manifest's own members derive; `none` where that throws.
unfoldable pub expected_id : Platform → Fields → Str → Option Str
expected_id p m version = elim (key_bytes (at (get m (codes "originator")) (codes "public_key"))) [
  | none ↦ none
  | some key ↦ elim (compute_capsule_id p key (get m (codes "first_event_hash")) version) [
    | ok id ↦ some id
    | err e ↦ none
  ]
]

-- Capsule identity. A message that throws is caught as a failed derivation.
unfoldable pub identity_errors : Platform → Fields → Fields → Str → List VerifyError
identity_errors p m e version = elim (expected_id p m version) [
  | none ↦ id_failed ∷ []
  | some id ↦
      let of_envelope =
        unless (is_text (get e (codes "capsule_id")) id)
          (if prints (get e (codes "capsule_id")) then envelope_id_mismatch else id_failed) in
      if is_text (get m (codes "id")) id
      then of_envelope
      else if prints (get m (codes "id"))
      then id_mismatch ∷ of_envelope
      else id_failed ∷ []
]

-- Semantic binding of the first event hash.
unfoldable pub first_hash_errors : Fields → Fields → List VerifyError
first_hash_errors m e =
    unless
      (same (null_for_undefined (get m (codes "first_event_hash")))
        (null_for_undefined (get e (codes "first_event_hash"))))
      first_hash_mismatch

unfoldable pub manifest_hash_errors : Platform → Fields → Fields → List VerifyError
manifest_hash_errors p m e = elim (manifest_hash p (obj m)) [
  | err x ↦ manifest_hash_failed ∷ []
  | ok h ↦ unless (is_text (get e (codes "manifest_hash")) h) (
      if prints (get e (codes "manifest_hash"))
      then manifest_hash_mismatch
      else manifest_hash_failed)
]

abbrev pub is_plain : Fields → Bool
is_plain e = is_text (get e (codes "cipher")) (codes "none")

abbrev blob_hash_errors : Platform → Bytes → Option Value → List VerifyError
blob_hash_errors p b stored =
    if is_null_value stored
    then blob_without_hash ∷ []
    else unless (is_text stored (sha256_hex p b)) blob_hash_mismatch

-- Encrypted-blob shape.
unfoldable pub blob_errors : Platform → Fields → Files → List VerifyError
blob_errors p e fs = elim (file fs (codes "content.enc")) [
  | some b ↦
      blob_hash_errors p b (null_for_undefined (get e (codes "encrypted_blob_hash")))
      ++ unless (not (is_plain e)) blob_on_plain
  | none ↦
      unless (is_null_value (get e (codes "encrypted_blob_hash"))) hash_on_plain
      ++ unless (is_plain e) cipher_on_plain
]

abbrev pub has_file : Files → Str → Bool
has_file fs path = elim (file fs path) [ none ↦ false | some b ↦ true ]

-- `manifest.content_index.files.some((f) => f.path === path)`.
unfoldable pub some_path : Items → Str → Bool
some_path nil path = false
some_path (cons v vs) path = is_text (at (some v) (codes "path")) path || some_path vs path

abbrev pub metadata_errors : Files → Items → Option Str → List VerifyError
metadata_errors fs indexed none = no_metadata_path ∷ []
metadata_errors fs indexed (some path) =
    if is_nil path
    then no_metadata_path ∷ []
    else if not (has_file fs path)
    then metadata_missing path ∷ []
    else unless (some_path indexed path) (metadata_not_indexed path)

abbrev pub declared_errors : Fields → Files → Items → Value → List VerifyError
declared_errors e fs indexed d =
    unless (same (at (some d) (codes "cipher")) (get e (codes "cipher"))) encryption_cipher
    ++ metadata_errors fs indexed (as_str (at (some d) (codes "metadata_path")))

abbrev pub encrypted_errors : Fields → Files → Items → Option Value → List VerifyError
encrypted_errors e fs indexed (some (obj d)) = declared_errors e fs indexed (obj d)
encrypted_errors e fs indexed (some (arr d)) = declared_errors e fs indexed (arr d)
encrypted_errors e fs indexed _ = no_encryption ∷ []

-- Encryption declaration, over the manifest's list of indexed files.
unfoldable pub encryption_errors : Fields → Fields → Files → Items → List VerifyError
encryption_errors m e fs indexed =
    let declared = null_for_undefined (get m (codes "encryption")) in
    if is_plain e
    then unless (is_null_value declared) encryption_on_plain
    else encrypted_errors e fs indexed declared

abbrev pub lineage_eras : List Str
lineage_eras = codes "0.7" ∷ []

-- The standalone checks of `evaluateLineage`, the only ones that add to the errors.
unfoldable pub lineage_errors : Platform → Fields → Str → List VerifyError
lineage_errors p m version = elim (get m (codes "predecessors")) [
  | none ↦ []
  | some d ↦
      if contains lineage_eras version then map lineage_problem (predecessors_problems p d) else []
]
