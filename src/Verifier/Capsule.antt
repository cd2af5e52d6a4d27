-- ===== src/Verifier/Capsule.antt =====
-- `verifyCapsuleInner` of sdk-js/src/verifier.js on a reader: the stages in their order.
-- The promises of the source are awaited in turn, so its stages run one after another.
use capsules_protocol.Json.{Items, Fields, get, at}
use capsules_protocol.Platform.{Platform}
use capsules_protocol.Versions.{
  VersionStatus, known, unknown_newer, unknown_older, invalid, classify_version,
}
use capsules_protocol.Profiles.{ProfileClass, ProfileStatus, classify_profile}
use capsules_protocol.Chain.{participant_actor_ids}
use capsules_protocol.Manifest.{Files}
use capsules_protocol.Envelope.Verify.{SignatureResult, verify_envelope_signatures}
use capsules_protocol.Verifier.{
  VerifyError, bad_manifest_version, bad_envelope_version, unsupported_manifest_version,
  unsupported_envelope_version, versions_differ, profile_problem, profile_mismatch,
  unsupported_profile, is_text, identity_errors, first_hash_errors, manifest_hash_errors,
  blob_errors, encryption_errors, lineage_eras, lineage_errors,
}
use capsules_protocol.Verifier.Index.{ContentProblem, listed_files, content_problems}
use capsules_protocol.Verifier.Signers.{
  TrustedRow, trusted_rows, signature_errors, trusted_signer_count, distinct_count, set_errors,
  originator_errors,
}
use capsules_protocol.Verifier.Messages.{messages_print}
use capsules_protocol.Verifier.Verdict.{
  no_note, HopStatus, Facts, VerdictSurface, derive_verdict, capsule_signed,
}
use capsules_protocol.Verifier.Stages.{
  Options, participants_errors, ChainStage, chain_stage, outer_errors,
}
use capsules_protocol.Prelude.{
  concat, if◌then◌else◌, Str, codes, contains, is_nil, Bool, true, false, ◌&&◌, not, Option, none,
  some, List, [], ◌∷◌, ◌++◌, map,
}

pub record Report : Type 0 where
  pub errors : List VerifyError
  pub content : List ContentProblem
  pub rows : List TrustedRow
  pub signed : Bool
  pub facts : Facts
  pub surface : VerdictSurface

abbrev pub is_some {ℓ} : {A : Type ℓ} → Option A → Bool
is_some none = false
is_some (some a) = true

abbrev pub actors_bound : Fields → Bool
actors_bound m = not (is_nil (participant_actor_ids (get m (codes "participants"))))

-- Every channel at its fail-closed default.
abbrev pub refused_facts : Options → Fields → Option VersionStatus → Bool → Facts
refused_facts o m status profile = record {
  is_ok = false;
  is_l3 = is_some o.outer_envelope;
  version_status = status;
  profile_unsupported = profile;
  signer_set_bound = false;
  actor_set_bound = actors_bound m;
  chain_note = no_note;
  accepted_by_policy = none;
  trusted_count = 0;
  lineage_declared = false;
  hops = [];
}

abbrev pub refuse :
    Options
    → Fields
    → Option VersionStatus
    → VersionStatus
    → Bool
    → List VerifyError
    → Option Report
refuse o m refusal status profile errors =
    let facts = refused_facts o m (some status) profile in
    some (record {
      errors = errors;
      content = [];
      rows = [];
      signed = false;
      facts = facts;
      surface = derive_verdict refusal none facts;
    })

-- The errors of the stages behind the gates, in their order.
abbrev pub stages :
    Platform
    → Options
    → Fields
    → Fields
    → Files
    → Str
    → Items
    → ChainStage
    → SignatureResult
    → List (List VerifyError)
stages p o m e fs version indexed chain s =
    participants_errors (get m (codes "participants"))
    ∷ identity_errors p m e version
    ∷ first_hash_errors m e
    ∷ manifest_hash_errors p m e
    ∷ blob_errors p e fs
    ∷ encryption_errors m e fs indexed
    ∷ lineage_errors p m version
    ∷ chain.anchor_errors
    ∷ signature_errors s
    ∷ set_errors e (get m (codes "signer_commitment"))
    ∷ originator_errors m s.signers
    ∷ outer_errors p o m e version
    ∷ []

abbrev pub stage_errors :
    Platform
    → Options
    → Fields
    → Fields
    → Files
    → Str
    → Items
    → ChainStage
    → SignatureResult
    → List VerifyError
stage_errors p o m e fs version indexed chain s = concat (stages p o m e fs version indexed chain s)

abbrev pub accepted_version : Option (List Str) → Str → Option Bool
accepted_version none v = none
accepted_version (some vs) v = some (contains vs v)

abbrev pub lineage_declared_by : Fields → Str → Bool
lineage_declared_by m version =
    is_some (get m (codes "predecessors")) && contains lineage_eras version

unfoldable pub conclude :
    Platform
    → Options
    → Fields
    → Fields
    → Files
    → Str
    → Items
    → List ContentProblem
    → SignatureResult
    → List HopStatus
    → Report
conclude p o m e fs version indexed content s hops =
    let chain = chain_stage p o m e fs in
    let errors = stage_errors p o m e fs version indexed chain s in
    let rows = trusted_rows p o.allowlist s.signers in
    let facts : Facts = record {
      is_ok = is_nil errors && (is_nil content && (chain.walked_ok && s.ok));
      is_l3 = is_some o.outer_envelope;
      version_status = some known;
      profile_unsupported = false;
      signer_set_bound = is_some (get m (codes "signer_commitment"));
      actor_set_bound = actors_bound m;
      chain_note = chain.note;
      accepted_by_policy = accepted_version o.accept_versions version;
      trusted_count = trusted_signer_count p rows;
      lineage_declared = lineage_declared_by m version;
      hops = hops;
    } in
    record {
      errors = errors;
      content = content;
      rows = rows;
      signed = capsule_signed facts.is_ok (is_nil content) s.ok facts.trusted_count;
      facts = facts;
      surface = derive_verdict none (some (distinct_count o.allowlist)) facts;
    }

-- Behind the gates; `none` where the content index, the lineage walk, the signatures or a message
-- throws.
unfoldable pub evaluate : Platform → Options → Fields → Fields → Files → Str → Option Report
evaluate p o m e fs version = elim (content_problems p m e fs) [
  | none ↦ none
  | some content ↦ elim (listed_files m) [
    | none ↦ none
    | some indexed ↦ elim (verify_envelope_signatures p e) [
      | none ↦ none
      | some s ↦ elim o.hops [
        | none ↦ none
        | some hops ↦
            if messages_print p o m e fs s
            then some (conclude p o m e fs version indexed content s hops)
            else none
      ]
    ]
  ]
]

abbrev pub profile_errors : ProfileClass → List VerifyError
profile_errors c = elim c.status [
  | ProfileStatus.invalid ↦ map profile_problem c.problems
  | ProfileStatus.mismatched ↦ profile_mismatch ∷ []
  | ProfileStatus.unsupported ↦ unsupported_profile ∷ []
  | ProfileStatus.default ↦ []
  | ProfileStatus.supported ↦ []
]

-- The profile gate.
unfoldable pub profile_gate : Platform → Options → Fields → Fields → Files → Str → Option Report
profile_gate p o m e fs version =
    let c =
      classify_profile (at (get m (codes "format")) (codes "profile")) (get e (codes "profile")) in
    let start = participants_errors (get m (codes "participants")) in
    elim c.status [
      | ProfileStatus.invalid ↦ refuse o m none known false (start ++ profile_errors c)
      | ProfileStatus.mismatched ↦ refuse o m none known false (start ++ profile_errors c)
      | ProfileStatus.unsupported ↦ refuse o m none known true (start ++ profile_errors c)
      | ProfileStatus.default ↦ evaluate p o m e fs version
      | ProfileStatus.supported ↦ evaluate p o m e fs version
    ]

-- The gate of the envelope's version, behind a known manifest version.
unfoldable pub envelope_gate : Platform → Options → Fields → Fields → Files → Str → Option Report
envelope_gate p o m e fs version =
    let start = participants_errors (get m (codes "participants")) in
    let next = profile_gate p o m e fs version in
    elim ((classify_version (get e (codes "version"))).status) [
      | invalid ↦ refuse o m none known false (start ++ bad_envelope_version ∷ [])
      | unknown_newer ↦
          refuse o m (some unknown_newer) known false (start ++ unsupported_envelope_version ∷ [])
      | unknown_older ↦
          refuse o m (some unknown_older) known false (start ++ unsupported_envelope_version ∷ [])
      | known ↦
          if is_text (get e (codes "version")) version
          then next
          else refuse o m none known false (start ++ versions_differ ∷ [])
    ]

-- `verifyCapsuleInner(reader, options)`; `none` where it throws, and `verifyCapsule` then fails closed.
unfoldable pub verify_capsule : Platform → Options → Fields → Fields → Files → Option Report
verify_capsule p o m e fs =
    let start = participants_errors (get m (codes "participants")) in
    let c = classify_version (at (get m (codes "format")) (codes "version")) in
    elim c.status [
      | invalid ↦ refuse o m none invalid false (start ++ bad_manifest_version ∷ [])
      | unknown_newer ↦
          refuse o m none unknown_newer false (start ++ unsupported_manifest_version ∷ [])
      | unknown_older ↦
          refuse o m none unknown_older false (start ++ unsupported_manifest_version ∷ [])
      | known ↦ elim c.observed [ none ↦ none | some version ↦ envelope_gate p o m e fs version ]
    ]
