-- ===== src/Verifier/Stages.antt =====
-- The chain, participant and outer-layer stages of `verifyCapsuleInner`.
use capsules_protocol.Json.{Value, arr, Fields, get}
use capsules_protocol.Bytes.{Bytes}
use capsules_protocol.Platform.{Platform}
use capsules_protocol.Canonical.{CanonError, jcs}
use capsules_protocol.Chain.{participant_actor_id_problems}
use capsules_protocol.Chain.Walk.{verify_chain, first_and_entry_hash}
use capsules_protocol.Manifest.{Files, file}
use capsules_protocol.Verifier.{
  VerifyError, bad_participants, participant_problem, empty_with_first, empty_with_entry,
  empty_with_manifest_first, first_mismatch, entry_mismatch, no_manifest_first, outer_id,
  outer_first, outer_entry, outer_predecessors, unless, same, null_for_undefined, is_null_value,
  is_plain, has_file, lineage_eras,
}
use capsules_protocol.Verifier.Verdict.{ChainNote, no_note, empty_chain, deferred, HopStatus}
use capsules_protocol.Prelude.{
  if◌then◌else◌, Result, ok, Str, codes, str_eq, contains, is_nil, Bool, true, false, ◌&&◌, not,
  Option, none, some, List, [], ◌∷◌, ◌++◌, map,
}

-- The options; the allowlist holds its well-formed keys. `read_events` stands for JSON.parse of the
-- lines of a chain file and is `none` where that throws; `hops` are the statuses that the
-- report-only walk over supplied predecessors gives, `none` where it throws.
pub record Options : Type 0 where
  pub allowlist : List Str
  pub accept_versions : Option (List Str)
  pub outer_envelope : Option Fields
  pub outer_manifest : Option Fields
  pub read_events : Bytes → Option (List Value)
  pub hops : Option (List HopStatus)

-- A present `participants` that is no array.
unfoldable pub participants_errors : Option Value → List VerifyError
participants_errors v =
    let shape : List VerifyError = elim v [
      | none ↦ []
      | some (arr vs) ↦ []
      | some w ↦ bad_participants ∷ []
    ] in
    shape ++ map participant_problem (participant_actor_id_problems v)

pub record ChainStage : Type 0 where
  pub walked_ok : Bool
  pub note : ChainNote
  pub anchor_errors : List VerifyError

abbrev pub broken_chain : ChainStage
broken_chain = record { walked_ok = false; note = no_note; anchor_errors = [] }

abbrev pub anchors_of : Fields → Fields → Option Value × Option Value → List VerifyError
anchors_of m e (first, entry) =
    unless (same first (get e (codes "first_event_hash"))) first_mismatch
    ++ (unless (same entry (get e (codes "entry_hash"))) entry_mismatch
        ++ unless (not (is_null_value (null_for_undefined (get m (codes "first_event_hash")))))
            no_manifest_first)

abbrev pub empty_anchors : Fields → Fields → List VerifyError
empty_anchors m e =
    unless (is_null_value (get e (codes "first_event_hash"))) empty_with_first
    ++ (unless (is_null_value (get e (codes "entry_hash"))) empty_with_entry
        ++ unless (is_null_value (get m (codes "first_event_hash"))) empty_with_manifest_first)

unfoldable pub events_stage : Platform → Fields → Fields → List Value → ChainStage
events_stage p m e events = elim (first_and_entry_hash events) [
  | none ↦ record { walked_ok = true; note = empty_chain; anchor_errors = empty_anchors m e }
  | some anchors ↦ record {
    walked_ok = is_nil (verify_chain p (get m (codes "participants")) events);
    note = no_note;
    anchor_errors = anchors_of m e anchors;
  }
]

abbrev pub is_encrypted : Fields → Files → Bool
is_encrypted e fs = not (is_plain e) && has_file fs (codes "content.enc")

unfoldable pub chain_stage : Platform → Options → Fields → Fields → Files → ChainStage
chain_stage p o m e fs =
    let plain : ChainStage = elim (file fs (codes "chain/events.jsonl")) [
      | none ↦ broken_chain
      | some b ↦ elim (o.read_events b) [
        | none ↦ broken_chain
        | some events ↦ events_stage p m e events
      ]
    ] in
    if is_encrypted e fs
    then record { walked_ok = true; note = deferred; anchor_errors = [] }
    else plain

abbrev same_bytes : Result CanonError Bytes → Result CanonError Bytes → Bool
same_bytes (ok a) (ok b) = str_eq a b
same_bytes _ _ = false

abbrev both_predecessors : Platform → Option Value → Option Value → List VerifyError
both_predecessors p (some a) (some b) = unless (same_bytes (jcs p a) (jcs p b)) outer_predecessors
both_predecessors p _ _ = []

abbrev outer_lineage : Platform → Fields → Str → Option Fields → List VerifyError
outer_lineage p m version none = []
outer_lineage p m version (some om) =
    if contains lineage_eras version
    then both_predecessors p (get m (codes "predecessors")) (get om (codes "predecessors"))
    else []

-- The cross-check of an inner capsule against its outer layer.
unfoldable pub outer_errors : Platform → Options → Fields → Fields → Str → List VerifyError
outer_errors p o m e version = elim o.outer_envelope [
  | none ↦ []
  | some x ↦
      unless (same (get x (codes "capsule_id")) (get e (codes "capsule_id"))) outer_id
      ++ (unless (same (get x (codes "first_event_hash")) (get e (codes "first_event_hash")))
            outer_first
          ++ (unless (same (get x (codes "entry_hash")) (get e (codes "entry_hash"))) outer_entry
              ++ outer_lineage p m version o.outer_manifest))
]
