-- ===== src/Verifier/Sound.antt =====
-- The valid verdict of `verifyCapsule`, against a description of verified capsules.
use capsules_protocol.Json.{Value, str, obj, Items, Fields, get}
use capsules_protocol.Bytes.{Bytes}
use capsules_protocol.Platform.{Platform}
use capsules_protocol.Versions.{known}
use capsules_protocol.Manifest.{Files, file, manifest_hash}
use capsules_protocol.Envelope.Accepted.{IsAccepted, IsAccepted-sound}
use capsules_protocol.Verifier.{
  encryption_errors, lineage_errors, is_text, expected_id, identity_errors, manifest_hash_errors,
  same, null_for_undefined, lineage_eras, lineage_problem,
}
use capsules_protocol.Verifier.Stages.{Options, chain_stage, events_stage, is_encrypted}
use capsules_protocol.Verifier.Capsule.{Report, stages, verify_capsule}
use capsules_protocol.Manifest.Predecessors.{predecessors_problems}
use capsules_protocol.Verifier.Described.{
  IsListed, content-IsListed, HasFittingBlob, blob_errors-HasFittingBlob, HasFittingEncryption,
  encryption-HasFittingEncryption, IsAnchored, anchors-IsAnchored, IsCommitted,
  set_errors-IsCommitted, AgreesWithOuter, outer_errors-AgreesWithOuter, first_hash_same, map-nil,
}
use mathlib.Core.Path.{subst}
use capsules_protocol.Prelude.{
  contains, sym, Option, concat-nil, Result-cases, Bool-cases, Option-cases, ok, Str, codes, ◌≡◌,
  refl, ap, ◌∙◌, ◌⊎◌, inl, inr, true, some, List, [], ◌∷◌, arith,
}
use capsules_protocol.Chain.Walk.{verify_chain, first_and_entry_hash, walk}
use capsules_protocol.Verifier.Gates.{
  is_nil_sound, IsValid, manifest_class, is_text_sound, manifest_passed, envelope_passed, evaluated,
  all_passed,
}

identity_sound :
    (p : Platform) (m e : Fields) (version : Str)
    → identity_errors p m e version ≡ []
    → (id : Str) × (expected_id p m version ≡ some id)
      × (get m (codes "id") ≡ some (str id))
      × (get e (codes "capsule_id") ≡ some (str id))
unfolding identity_errors
identity_sound p m e version h = elim (Option-cases (expected_id p m version)) [
  | inl n ↦ absurd (ground (arith, n))
  | inr (id, n) ↦
      let both : (is_text (get m (codes "id")) id ≡ true)
          × (is_text (get e (codes "capsule_id")) id ≡ true) =
        ground (arith, n) in
      (
        id,
        n,
        is_text_sound (get m (codes "id")) id both.0,
        is_text_sound (get e (codes "capsule_id")) id both.1,
      )
]

manifest_hash_sound :
    (p : Platform) (m e : Fields)
    → manifest_hash_errors p m e ≡ []
    → (h : Str) × (manifest_hash p (obj m) ≡ ok h) × (get e (codes "manifest_hash") ≡ some (str h))
unfolding manifest_hash_errors
manifest_hash_sound p m e k = elim (Result-cases (manifest_hash p (obj m))) [
  | inl (x, n) ↦ absurd (ground (arith, n))
  | inr (h, n) ↦ (h, n, is_text_sound (get e (codes "manifest_hash")) h (ground (arith, n)))
]

-- The chain is deferred to the inner layer, or its file is read, walked and anchored.
abbrev pub IsChainBound : Platform → Options → Fields → Fields → Files → Type 0
IsChainBound p o m e fs =
    (is_encrypted e fs ≡ true)
    ⊎ ((b : Bytes) × (events : List Value) × (file fs (codes "chain/events.jsonl") ≡ some b)
        × (o.read_events b ≡ some events)
        × (verify_chain p (get m (codes "participants")) events ≡ [])
        × IsAnchored m e events)

events_sound :
    (p : Platform) (m e : Fields) (events : List Value)
    → (events_stage p m e events).walked_ok ≡ true
    → verify_chain p (get m (codes "participants")) events ≡ []
unfolding events_stage first_and_entry_hash verify_chain walk
events_sound p m e [] h = refl
events_sound p m e (v ∷ vs) h =
    is_nil_sound (verify_chain p (get m (codes "participants")) (v ∷ vs)) h

chain_sound :
    (p : Platform) (o : Options) (m e : Fields) (fs : Files)
    → (chain_stage p o m e fs).walked_ok ≡ true
    → (chain_stage p o m e fs).anchor_errors ≡ []
    → IsChainBound p o m e fs
unfolding chain_stage
chain_sound p o m e fs w a = elim (Bool-cases (is_encrypted e fs)) [
  | inl t ↦ inl t
  | inr f ↦ elim (Option-cases (file fs (codes "chain/events.jsonl"))) [
    | inl n ↦ absurd (ground (arith, f, n))
    | inr (b, hb) ↦ elim (Option-cases (o.read_events b)) [
      | inl n ↦ absurd (ground (arith, f, hb, n))
      | inr (events, he) ↦ inr (
        b,
        events,
        hb,
        he,
        events_sound p m e events (ground (arith, f, hb, he)),
        anchors-IsAnchored p m e events (ground (arith, f, hb, he)),
      )
    ]
  ]
]

some_items : {xs ys : Items} → ◌≡◌ {A = Option Items} (some xs) (some ys) → xs ≡ ys
some_items h = cc

lineage_sound :
    (p : Platform) (m : Fields) (version : Str) (d : Value)
    → get m (codes "predecessors") ≡ some d
    → contains lineage_eras version ≡ true
    → lineage_errors p m version ≡ []
    → predecessors_problems p d ≡ []
unfolding lineage_errors
lineage_sound p m version d q t h = map-nil lineage_problem _ (ground (arith, q, t))

-- What a verified capsule is.
pub record IsVerified (p : Platform) (o : Options) (m e : Fields) (fs : Files) : Type 0 where
  pub version : Str
  pub version_known : (manifest_class m).status ≡ known
  pub manifest_version : (manifest_class m).observed ≡ some version
  pub envelope_version : get e (codes "version") ≡ some (str version)
  pub id : Str
  pub id_derived : expected_id p m version ≡ some id
  pub manifest_id : get m (codes "id") ≡ some (str id)
  pub envelope_id : get e (codes "capsule_id") ≡ some (str id)
  pub hash : Str
  pub hash_recomputed : manifest_hash p (obj m) ≡ ok hash
  pub envelope_hash : get e (codes "manifest_hash") ≡ some (str hash)
  pub first_repeated :
      same
        (null_for_undefined (get m (codes "first_event_hash")))
        (null_for_undefined (get e (codes "first_event_hash")))
      ≡ true
  pub content : IsListed p m e fs
  pub blob_fits : HasFittingBlob p e fs
  pub chain_bound : IsChainBound p o m e fs
  pub signatures : IsAccepted p e
  pub signer_set : IsCommitted e (get m (codes "signer_commitment"))
  pub encryption_declared : HasFittingEncryption m e fs content.listed
  pub lineage_well_formed :
      (d : Value)
      → get m (codes "predecessors") ≡ some d
      → contains lineage_eras version ≡ true
      → predecessors_problems p d ≡ []
  pub outer_agrees : (x : Fields) → o.outer_envelope ≡ some x → AgreesWithOuter x e

-- A capsule with a valid verdict has one known version in both documents, the id that its own
-- members derive and the manifest hash in both places, a package whose files are the listed ones
-- with the listed hashes, but for the excluded paths, a blob with its stated hash exactly where it
-- is encrypted, a chain that is walked and whose first and last hash the envelope names, or that is
-- deferred, signatures that all verify, exactly the committed signers where it commits to any, an
-- encryption that both documents and the package agree on, a predecessor declaration without
-- problems where the version has one, and the id and the anchors of the outer envelope, if there is
-- one.
pub verdict_sound :
    (p : Platform) (o : Options) (m e : Fields) (fs : Files) (r : Report)
    → verify_capsule p o m e fs ≡ some r
    → IsValid r
    → IsVerified p o m e fs
verdict_sound p o m e fs r h v =
    let (version, hk, hv, h1) = manifest_passed p o m e fs r h v in
    let (ht, h2) = envelope_passed p o m e fs version r h1 v in
    let c = evaluated p o m e fs version r h2 in
    let (errors, content, walked, good) = all_passed p o m e fs version r c v in
    let passed =
      concat-nil (stages p o m e fs version c.indexed (chain_stage p o m e fs) c.result) errors in
    let listed = content-IsListed p m e fs (c.of_content ∙ ap some content) in
    let same_listed = some_items (sym c.of_listed ∙ listed.of_manifest) in
    let (id, d, im, ie) = identity_sound p m e version (passed.1.0) in
    let (hash, hr, he) = manifest_hash_sound p m e (passed.1.1.1.0) in
    record {
      version = version;
      version_known = hk;
      manifest_version = hv;
      envelope_version = is_text_sound (get e (codes "version")) version ht;
      id = id;
      id_derived = d;
      manifest_id = im;
      envelope_id = ie;
      hash = hash;
      hash_recomputed = hr;
      envelope_hash = he;
      first_repeated = first_hash_same m e (passed.1.1.0);
      content = listed;
      blob_fits = blob_errors-HasFittingBlob p e fs (passed.1.1.1.1.0);
      chain_bound = chain_sound p o m e fs walked (passed.1.1.1.1.1.1.1.0);
      signatures = IsAccepted-sound p e c.result c.of_signatures good;
      signer_set = set_errors-IsCommitted e _ (passed.1.1.1.1.1.1.1.1.1.0);
      encryption_declared =
          encryption-HasFittingEncryption m e fs listed.listed
            (subst (λ i. encryption_errors m e fs i ≡ []) same_listed (passed.1.1.1.1.1.0));
      lineage_well_formed = λ d q t. lineage_sound p m version d q t (passed.1.1.1.1.1.1.0);
      outer_agrees =
          λ x q. outer_errors-AgreesWithOuter p o m e version x q (passed.1.1.1.1.1.1.1.1.1.1.1.0);
    }
