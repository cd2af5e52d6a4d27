-- ===== src/Lineage/Classify.antt =====
-- `classifyArtifact` of sdk-js/src/lineage.js.
use capsules_protocol.Json.{Value, null, at, as_str}
use capsules_protocol.Bytes.{Bytes}
use capsules_protocol.Platform.{Platform}
use capsules_protocol.Canonical.{is_hex64, hex_to_bytes}
use capsules_protocol.Canonical.Members.{Parser, parse_json_strict}
use capsules_protocol.Versions.{known, unknown_newer, unknown_older, invalid, classify_version}
use capsules_protocol.Manifest.{
  Files, file, compute_capsule_id, manifest_hash, declared_alternate_profile_id,
}
use capsules_protocol.Zip.{default_limits}
use capsules_protocol.Zip.Unpack.{Zipper, unpack_zip}
use capsules_protocol.Verifier.{is_text}
use capsules_protocol.Lineage.{
  Kind, verifiable, encrypted, unsupported_version, unsupported_profile, unreadable, Verification,
  verification_error_count, or_null, Artifact,
}
use capsules_protocol.Prelude.{
  if◌then◌else◌, Result, ok, err, Str, codes, to_lower, Bool, true, false, ◌||◌, not, Option, none,
  some,
}

-- A member of the pool: a reader's files, or an archive.
pub data Input : Type 0 where
  reader : Files → Input
  archive : Bytes → Input

-- What the walk calls: the platform, and the `verify` of its caller under the host's options.
pub record Host : Type 0 where
  pub platform : Platform
  pub zipper : Zipper
  pub parser : Parser
  pub verify : Input → Verification

abbrev unread : Artifact
unread = record {
  kind = unreadable;
  manifest = null;
  claimed_id = none;
  version = none;
  recomputed_id = none;
  recomputed_hash = none;
  originator_key = none;
  first_event_hash = null;
  entry_hash = null;
  is_ok = false;
  summary = none;
  assigned = false;
}

abbrev ok_or_none {ℓ κ} : {E : Type κ} {A : Type ℓ} → Result E A → Option A
ok_or_none (ok a) = some a
ok_or_none (err e) = none

abbrev files_of : Host → Input → Option Files
files_of h (reader fs) = some fs
files_of h (archive b) = ok_or_none (unpack_zip h.zipper b default_limits)

abbrev parsed : Host → Bytes → Option Value
parsed h b = ok_or_none (parse_json_strict h.parser b)

-- The manifest and the envelope, null where that is absent; `none` where the `try` throws.
abbrev documents : Host → Files → Option (Value × Value)
documents h fs = elim (file fs (codes "manifest.json")) [
  | none ↦ none
  | some b ↦ elim (parsed h b) [
    | none ↦ none
    | some m ↦ elim (file fs (codes "provenance/envelope.json")) [
      | none ↦ some (m, null)
      | some c ↦ elim (parsed h c) [ none ↦ none | some e ↦ some (m, e) ]
    ]
  ]
]

abbrev claimed : Value → Option Str
claimed m = elim (as_str (at (some m) (codes "id"))) [
  | none ↦ none
  | some s ↦ if is_hex64 s then some s else none
]

abbrev key_text : Value → Option Value
key_text m = at (at (some m) (codes "originator")) (codes "public_key")

-- `computeCapsuleId(...)` of the members of the artifact, where it does not throw.
unfoldable pub recompute_id : Platform → Value → Option Str → Option Str
recompute_id p m none = none
recompute_id p m (some version) = elim (as_str (key_text m)) [
  | none ↦ none
  | some s ↦ elim (hex_to_bytes s) [
    | err e ↦ none
    | ok key ↦
        ok_or_none (compute_capsule_id p key (at (some m) (codes "first_event_hash")) version)
  ]
]

abbrev lowered : Option Value → Option Str
lowered v = elim (as_str v) [ none ↦ none | some s ↦ some (to_lower s) ]

abbrev is_plain_cipher : Value → Bool
is_plain_cipher e = is_text (at (some e) (codes "cipher")) (codes "none")

abbrev has_blob : Files → Bool
has_blob fs = elim (file fs (codes "content.enc")) [ none ↦ false | some b ↦ true ]

-- A readable artifact of a kind that is not verified.
abbrev unverified_artifact : Kind → Value → Option Str → Artifact
unverified_artifact k m version = record unread {
  kind = k;
  manifest = m;
  claimed_id = claimed m;
  version = version;
}

abbrev verified_artifact : Host → Input → Value → Value → Option Str → Artifact
verified_artifact h input m e version =
    let v = h.verify input in
    record {
      kind = verifiable;
      manifest = m;
      claimed_id = claimed m;
      version = version;
      recomputed_id = recompute_id h.platform m version;
      recomputed_hash = ok_or_none (manifest_hash h.platform m);
      originator_key = lowered (key_text m);
      first_event_hash = or_null (at (some m) (codes "first_event_hash"));
      entry_hash = or_null (at (some e) (codes "entry_hash"));
      is_ok = v.ok;
      summary = some (record {
        ok = v.ok;
        observed_version = elim v.observed [ none ↦ version | some s ↦ some s ];
        level = v.level;
        error_count = verification_error_count v;
      });
      assigned = false;
    }

-- Behind the documents: the tests for encryption, version and profile, in their order.
unfoldable pub classify_documents : Host → Input → Files → Value → Value → Artifact
classify_documents h input fs m e =
    let c = classify_version (at (at (some m) (codes "format")) (codes "version")) in
    let known_era : Artifact = elim (declared_alternate_profile_id (some m)) [
      | none ↦ verified_artifact h input m e c.observed
      | some id ↦ unverified_artifact unsupported_profile m c.observed
    ] in
    if not (is_plain_cipher e) || has_blob fs
    then unverified_artifact encrypted m c.observed
    else elim c.status [
      | known ↦ known_era
      | unknown_newer ↦ unverified_artifact unsupported_version m c.observed
      | unknown_older ↦ unverified_artifact unsupported_version m c.observed
      | invalid ↦ unverified_artifact unsupported_version m c.observed
    ]

-- `classifyArtifact(input, verify, hostOptions)`.
unfoldable pub classify_artifact : Host → Input → Artifact
classify_artifact h input = elim (files_of h input) [
  | none ↦ unread
  | some fs ↦ elim (documents h fs) [
    | none ↦ unread
    | some (m, e) ↦ classify_documents h input fs m e
  ]
]
