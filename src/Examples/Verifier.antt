-- ===== src/Examples/Verifier.antt =====
-- A whole capsule without events: sealed, and verified, over the toy platform.
use capsules_protocol.Json.{Value, null, str, arr, obj, nil, cons, Fields, end, field, set}
use capsules_protocol.Bytes.{Bytes, to_hex}
use capsules_protocol.Versions.{
  classify_version, parse_version, numeral, value_from, status_of, id_domain, provenance_domain,
}
use capsules_protocol.Versions.{unknown_newer}
use capsules_protocol.Profiles.{
  default_profile, ProfileClass, classify_profile, require_supported_profile, normalize, look_up,
  pair_eq, best_effort_observed,
}
use capsules_protocol.Profiles.Classify.{
  Classified, AreWellFormed, classify_profile_cases, require_supported_profile_iff,
}
use capsules_protocol.Chain.{zeros, participant_actor_ids, participant_actor_id_problems}
use capsules_protocol.Chain.Walk.{first_and_entry_hash}
use capsules_protocol.Crypto.{ed25519_verify, signature_s_is_reduced}
use capsules_protocol.Manifest.{
  Files, file, build_content_index, hashed_files, sort_entries, insert_entry, sha256_hex,
  manifest_hash, compute_capsule_id, first_hash_raw,
}
use capsules_protocol.Envelope.{EnvelopeParts, envelope_fields, signer_row}
use capsules_protocol.Envelope.Verify.{
  verify_envelope_signatures, check_signers, roles_print, first_duplicate, member_text,
  template_text, signer_rows, signer_valid,
}
use capsules_protocol.Verifier.{
  same, some_path, expected_id, identity_errors, first_hash_errors, manifest_hash_errors,
  blob_errors, encryption_errors, lineage_errors,
}
use capsules_protocol.Verifier.Index.{
  content_problems, files_problems, stored_hash, missing_problems, packaged, index_files, has_null,
  truthy,
}
use capsules_protocol.Verifier.Signers.{
  trusted_rows, invalid_errors, signature_errors, trusted_keys, distinct_count,
  trusted_signer_count, originator_signed, originator_errors,
}
use capsules_protocol.Json.{has_text}
use capsules_protocol.Verifier.Index.{paths_print}
use capsules_protocol.Verifier.Messages.{
  first_hash_prints, blob_prints, encryption_prints, chain_prints, events_print, rows_print,
  messages_print,
}
use capsules_protocol.Verifier.Verdict.{
  valid_capsule, invalid_capsule, unsupported_capsule, Facts, no_note, derive_verdict, verdict_of,
}
use capsules_protocol.Verifier.Stages.{
  Options, participants_errors, events_stage, chain_stage, outer_errors,
}
use capsules_protocol.Verifier.Capsule.{
  Report, conclude, evaluate, profile_gate, envelope_gate, verify_capsule,
}
use capsules_protocol.Verifier.Gates.{IsValid}
use capsules_protocol.Verifier.Sound.{IsVerified, verdict_sound}
use capsules_protocol.Verifier.Surface.{IsCoherent, derive_verdict-IsCoherent}
use capsules_protocol.Examples.Toy.{toy, toy-IsDigest}
use capsules_protocol.Manifest.Identity.{IdsCollide, capsule_id_binds}
use capsules_protocol.Crypto.SmallOrder.{NotListed, acceptable_iff}
use capsules_protocol.Crypto.{ed25519_p, le_to_nat, mask_last, public_key_is_acceptable}
use capsules_protocol.Examples.Envelope.{envelope_code}
use capsules_protocol.Prelude.{
  ok, Str, codes, cut_at, to_lower, str_compare, length, ℕ, ◌<◌, String, ◌≡◌, refl, ◌↔◌, ◌⊎◌, Bool,
  true, false, Option, none, some, [], ◌∷◌, arith,
}

abbrev pub packed : Files
packed = (codes "chain/events.jsonl", []) ∷ (codes "notes.md", b'h' ∷ b'i' ∷ []) ∷ []

-- The hex of a digest of the toy platform, by its first byte.
abbrev hex_of : ℕ → Str
hex_of n = to_hex (n ∷ zeros 31)

abbrev author : Bytes
author = 3 ∷ zeros 31

abbrev indexed_file : String → ℕ → Value
indexed_file path n =
    obj (field (codes "path") (str (codes path)) (field (codes "sha256") (str (hex_of n)) end))

abbrev pub sealed_manifest : Fields
sealed_manifest = field (codes "format") (obj (field (codes "version") (str (codes "0.7")) end)) (
    field (codes "id") (str (hex_of 168)) (
      field (codes "originator") (obj (field (codes "public_key") (str (to_hex author)) end)) (
        field (codes "first_event_hash") null (
          field (codes "content_index")
            (obj (
              field (codes "index_hash") (str (hex_of 124)) (
                field (codes "files")
                  (arr (
                    cons (indexed_file "chain/events.jsonl" 0)
                      (cons (indexed_file "notes.md" 33) nil)))
                  end)))
            end))))

abbrev own_parts : EnvelopeParts
own_parts = record {
  capsule_id = hex_of 168;
  first_event_hash = none;
  entry_hash = none;
  manifest_hash = hex_of 199;
  content_index_hash = hex_of 124;
  encrypted_blob_hash = none;
  cipher = codes "none";
  signed_at = codes "now";
}

abbrev pub sealed_envelope : Fields
sealed_envelope =
    set (envelope_fields own_parts) (codes "signers")
      (arr (cons (signer_row (codes "originator") author (31 ∷ zeros 63)) nil))

abbrev pub options : Options
options = record {
  allowlist = [];
  accept_versions = none;
  outer_envelope = none;
  outer_manifest = none;
  read_events = λ b. some [];
  hops = some [];
}

abbrev no_facts : Facts
no_facts = record {
  is_ok = false;
  is_l3 = false;
  version_status = some unknown_newer;
  profile_unsupported = false;
  signer_set_bound = false;
  actor_set_bound = false;
  chain_note = no_note;
  accepted_by_policy = none;
  trusted_count = 0;
  lineage_declared = false;
  hops = [];
}

-- Whether a run gave a valid verdict.
abbrev succeeds : Option Report → Bool
succeeds none = false
succeeds (some r) = elim r.surface.verdict [
  | valid_capsule ↦ true
  | invalid_capsule ↦ false
  | unsupported_capsule ↦ false
]

outcome : (x : Option Report) → succeeds x ≡ true → (r : Report) × (x ≡ some r) × IsValid r
outcome none h = cc
outcome (some r) h = (r, refl, ground arith)

valid_run : succeeds (verify_capsule toy options sealed_manifest sealed_envelope packed) ≡ true
unfolding envelope_code verify_capsule envelope_gate profile_gate evaluate conclude classify_version
    parse_version numeral value_from status_of cut_at classify_profile normalize look_up pair_eq
    best_effort_observed participant_actor_ids participant_actor_id_problems first_and_entry_hash
    build_content_index hashed_files sort_entries insert_entry sha256_hex manifest_hash
    compute_capsule_id first_hash_raw id_domain provenance_domain ed25519_verify
    signature_s_is_reduced file verify_envelope_signatures check_signers roles_print has_text
    first_duplicate member_text template_text signer_rows signer_valid same some_path expected_id
    identity_errors first_hash_errors manifest_hash_errors blob_errors encryption_errors
    lineage_errors first_hash_prints blob_prints encryption_prints chain_prints events_print
    rows_print messages_print paths_print content_problems files_problems stored_hash
    missing_problems packaged index_files has_null truthy trusted_rows invalid_errors
    signature_errors trusted_keys distinct_count trusted_signer_count originator_signed
    originator_errors derive_verdict verdict_of participants_errors events_stage chain_stage
    outer_errors str_compare to_lower
valid_run = refl

verdict_sound_example : IsVerified toy options sealed_manifest sealed_envelope packed
verdict_sound_example =
    let (r, e, v) =
      outcome (verify_capsule toy options sealed_manifest sealed_envelope packed) valid_run in
    verdict_sound toy options sealed_manifest sealed_envelope packed r e v

derive_verdict-IsCoherent_example : IsCoherent no_facts (derive_verdict none (some 0) no_facts)
derive_verdict-IsCoherent_example = derive_verdict-IsCoherent none (some 0) no_facts

classify_profile_cases_example : Classified none none (classify_profile none none)
classify_profile_cases_example = classify_profile_cases none none

require_supported_profile_iff_example :
    ((c : ProfileClass) × (require_supported_profile none none ≡ ok c)) ↔ (
      AreWellFormed none none
      × (normalize none ≡ default_profile)
      × (normalize none ≡ default_profile))
require_supported_profile_iff_example = require_supported_profile_iff none none

capsule_id_binds_example :
    ((codes "0.7" ≡ codes "0.7")
      × (author ≡ author)
      × (first_hash_raw (some null) ≡ first_hash_raw (some null)))
    ⊎ IdsCollide toy author author (some null) (some null) (codes "0.7") (codes "0.7")
unfolding envelope_code compute_capsule_id first_hash_raw id_domain
capsule_id_binds_example =
    capsule_id_binds toy toy-IsDigest author author (some null) (some null) (codes "0.7")
      (codes "0.7") (hex_of 168) (omega arith) (omega arith) refl refl

acceptable_iff_example : (public_key_is_acceptable author ≡ true) ↔ (
    (length author ≡ 32)
    × (le_to_nat (mask_last author) < ed25519_p)
    × NotListed (le_to_nat (mask_last author)))
acceptable_iff_example = acceptable_iff author (omega arith)
