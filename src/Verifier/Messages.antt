-- ===== src/Verifier/Messages.antt =====
-- The messages of sdk-js/src/verifier.js and of `verifyChain` that throw where a value has no text.
-- `verifyCapsule` then fails closed. What is thrown inside a `try` block is an error of its stage.
use capsules_protocol.Json.{prints, Value, arr, obj, Fields, get, at}
use capsules_protocol.Platform.{Platform}
use capsules_protocol.Manifest.{Files, file, sha256_hex}
use capsules_protocol.Chain.Walk.{seq_is, first_and_entry_hash}
use capsules_protocol.Envelope.Verify.{SignerRow, SignatureResult}
use capsules_protocol.Verifier.{same, is_text, null_for_undefined, is_null_value, is_plain}
use capsules_protocol.Verifier.Stages.{Options, is_encrypted}
use capsules_protocol.Prelude.{
  if◌then◌else◌, codes, ℕ, suc, ◌+◌, Bool, true, ◌&&◌, ◌||◌, Option, none, some, List, [], ◌∷◌,
}

-- The message on two first event hashes that differ.
unfoldable pub first_hash_prints : Fields → Fields → Bool
first_hash_prints m e =
    same (null_for_undefined (get m (codes "first_event_hash")))
      (null_for_undefined (get e (codes "first_event_hash")))
    || prints (get m (codes "first_event_hash")) && prints (get e (codes "first_event_hash"))

-- The messages on a blob whose hash differs, and on a cipher without a blob.
unfoldable pub blob_prints : Platform → Fields → Files → Bool
blob_prints p e fs =
    let stored = null_for_undefined (get e (codes "encrypted_blob_hash")) in
    elim (file fs (codes "content.enc")) [
      | some b ↦ is_null_value stored || (is_text stored (sha256_hex p b) || prints stored)
      | none ↦ is_plain e || prints (get e (codes "cipher"))
    ]

-- The messages that quote the cipher of an encrypted capsule.
unfoldable pub encryption_prints : Fields → Fields → Bool
encryption_prints m e =
    let cipher = get e (codes "cipher") in
    let declared = null_for_undefined (get m (codes "encryption")) in
    let agreed = same (at declared (codes "cipher")) cipher in
    let quoted : Bool = elim declared [
      | some (obj d) ↦ agreed || prints cipher
      | some (arr vs) ↦ agreed || prints cipher
      | _ ↦ prints cipher
    ] in
    is_plain e || quoted

-- The message of `verifyChain` on a wrong `seq`.
unfoldable pub seqs_print : ℕ → List Value → Bool
seqs_print i [] = true
seqs_print i (obj e ∷ vs) =
    (seq_is (get e (codes "seq")) (i + 1) || prints (get e (codes "seq"))) && seqs_print (suc i) vs
seqs_print i (v ∷ vs) = seqs_print (suc i) vs

abbrev null_or_prints : Option Value → Bool
null_or_prints v = is_null_value v || prints v

abbrev same_or_prints : Option Value → Option Value → Bool
same_or_prints a b = same a b || prints a && prints b

-- The messages on anchors that an empty chain must not have, and on those that differ.
unfoldable pub events_print : Fields → Fields → List Value → Bool
events_print m e events = elim (first_and_entry_hash events) [
  | none ↦
      null_or_prints (get e (codes "first_event_hash"))
      && (null_or_prints (get e (codes "entry_hash"))
          && null_or_prints (get m (codes "first_event_hash")))
  | some (first, entry) ↦
      seqs_print 0 events
      && (same_or_prints first (get e (codes "first_event_hash"))
          && same_or_prints entry (get e (codes "entry_hash")))
]

unfoldable pub chain_prints : Options → Fields → Fields → Files → Bool
chain_prints o m e fs =
    let plain : Bool = elim (file fs (codes "chain/events.jsonl")) [
      | none ↦ true
      | some b ↦ elim (o.read_events b) [ none ↦ true | some events ↦ events_print m e events ]
    ] in
    if is_encrypted e fs then true else plain

-- The messages on rows that are not valid.
unfoldable pub rows_print : List SignerRow → Bool
rows_print [] = true
rows_print (r ∷ rs) = (r.valid || prints r.role && prints r.public_key) && rows_print rs

-- All messages of the stages.
unfoldable pub messages_print :
    Platform → Options → Fields → Fields → Files → SignatureResult → Bool
messages_print p o m e fs s =
    first_hash_prints m e
    && (blob_prints p e fs
        && (encryption_prints m e && (chain_prints o m e fs && rows_print s.signers)))
