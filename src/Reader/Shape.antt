-- ===== src/Reader/Shape.antt =====
-- The documents that the shape checks of sdk-js/src/reader.js let through.
use capsules_protocol.Json.{
  Value, null, bool, num, str, arr, obj, Items, nil, cons, Fields, get, at,
}
use capsules_protocol.Platform.{Platform}
use capsules_protocol.Versions.{
  VersionStatus, known, unknown_newer, unknown_older, invalid, classify_version,
  require_known_version,
}
use capsules_protocol.Reader.{
  OpenError, file_not_object, path_not_text, file_hash_not_hash, index_hash_not_hash, id_not_hash,
  originator_not_key, participants_not_array, first_hash_not_hash, capsule_id_not_hash, no_signers,
  hex64_test, is_object, is_full_text, may_be_array, may_be_hash, has_signers, require,
  require_version, validate_index_files, validate_listed_files, validate_content_index_shape,
  validate_manifest_shape, validate_envelope_shape,
}
use capsules_protocol.Reader.Values.{
  IsHash, MayBeHash, hex64_test-IsHash, IsHash-hex64_test, may_be_hash_iff, is_object_iff,
  full_text_sound, full_text_complete, may_be_array_sound, may_be_array_complete, has_signers_sound,
}
use capsules_protocol.Prelude.{
  [], Str, codes, ℕ, suc, ◌≡◌, refl, ◌≢◌, ◌⊎◌, inl, inr, Bool, true, false, Option, none, some,
  arith,
}

-- A listed file: an object with a path and a hash.
pub record IsListed (p : Platform) (f : Value) : Type 0 where
  pub object : (o : Fields) × (f ≡ obj o)
  pub path : (s : Str) × (at (some f) (codes "path") ≡ some (str s)) × (s ≢ [])
  pub hash : IsHash p (at (some f) (codes "sha256"))

abbrev pub EachListed : Platform → Items → Type 0
EachListed p nil = Unit
EachListed p (cons f fs) = IsListed p f × EachListed p fs

-- A string of a version that is known.
abbrev pub IsKnown : Option Value → Str → Type 0
IsKnown v s = (v ≡ some (str s)) × ((classify_version v).status ≡ known)

pub record IsManifest (p : Platform) (m : Fields) : Type 0 where
  pub version : Str
  pub is_known : IsKnown (at (get m (codes "format")) (codes "version")) version
  pub id : IsHash p (get m (codes "id"))
  pub originator : IsHash p (at (get m (codes "originator")) (codes "public_key"))
  pub participants :
      (get m (codes "participants") ≡ none)
      ⊎ ((vs : Items) × (get m (codes "participants") ≡ some (arr vs)))
  pub first_hash : MayBeHash p (get m (codes "first_event_hash"))
  pub index : Fields
  pub of_index : get m (codes "content_index") ≡ some (obj index)
  pub index_hash : IsHash p (get index (codes "index_hash"))
  pub listed : Items
  pub of_listed : get index (codes "files") ≡ some (arr listed)
  pub each : EachListed p listed

pub record IsEnvelope (p : Platform) (e : Fields) : Type 0 where
  pub version : Str
  pub is_known : IsKnown (get e (codes "version")) version
  pub capsule_id : IsHash p (get e (codes "capsule_id"))
  pub signers : (s : Value) × (ss : Items) × (get e (codes "signers") ≡ some (arr (cons s ss)))

require_passes :
    (b : Bool) (e : OpenError) (next : Option OpenError)
    → require b e next ≡ none
    → (b ≡ true) × (next ≡ none)
require_passes true e next h = (refl, h)
require_passes false e next h = cc

status-cases :
    (s : VersionStatus)
    → (s ≡ known) ⊎ ((s ≡ invalid) ⊎ ((s ≡ unknown_newer) ⊎ (s ≡ unknown_older)))
status-cases known = inl refl
status-cases invalid = inr (inl refl)
status-cases unknown_newer = inr (inr (inl refl))
status-cases unknown_older = inr (inr (inr refl))

some_none : (s : Str) → ◌≢◌ {A = Option Value} none (some (str s))
some_none s h = cc

IsKnown-passes :
    (f : Str) (v : Option Value) (next : Option OpenError)
    → require_version f v next ≡ none
    → (s : Str) × IsKnown v s × (next ≡ none)
unfolding require_known_version classify_version
IsKnown-passes f none next h = absurd (ground arith)
IsKnown-passes f (some (str s)) next h =
    elim (status-cases ((classify_version (some (str s))).status)) [
      | inl k ↦ (s, (refl, k), ground (arith, k))
      | inr (inl k) ↦ absurd (ground (arith, k))
      | inr (inr (inl k)) ↦ absurd (ground (arith, k))
      | inr (inr (inr k)) ↦ absurd (ground (arith, k))
    ]
IsKnown-passes f (some null) next h = absurd (ground arith)
IsKnown-passes f (some (bool b)) next h = absurd (ground arith)
IsKnown-passes f (some (num n)) next h = absurd (ground arith)
IsKnown-passes f (some (arr xs)) next h = absurd (ground arith)
IsKnown-passes f (some (obj o)) next h = absurd (ground arith)

files_pass :
    (p : Platform) (i : ℕ) (fs : Items) → validate_index_files p i fs ≡ none → EachListed p fs
unfolding validate_index_files
files_pass p i nil h = tt
files_pass p i (cons f fs) h =
    let (a, h1) = require_passes (is_object f) (file_not_object i) _ h in
    let (b, h2) =
      require_passes (is_full_text (at (some f) (codes "path"))) (path_not_text i) _ h1 in
    let (c, h3) =
      require_passes (hex64_test p (at (some f) (codes "sha256"))) (file_hash_not_hash i) _ h2 in
    (
      record {
        object = (is_object_iff f).0 a;
        path = full_text_sound _ b;
        hash = hex64_test-IsHash p _ c;
      },
      files_pass p (suc i) fs h3,
    )

listed_pass :
    (p : Platform) (v : Option Value)
    → validate_listed_files p v ≡ none
    → (fs : Items) × (v ≡ some (arr fs)) × EachListed p fs
unfolding validate_listed_files
listed_pass p (some (arr fs)) h = (fs, refl, files_pass p 0 fs h)
listed_pass p none h = cc
listed_pass p (some null) h = cc
listed_pass p (some (bool b)) h = cc
listed_pass p (some (num n)) h = cc
listed_pass p (some (str s)) h = cc
listed_pass p (some (obj o)) h = cc

index_passes :
    (p : Platform) (v : Option Value)
    → validate_content_index_shape p v ≡ none
    → (o : Fields) × (fs : Items) × (v ≡ some (obj o))
      × (hex64_test p (get o (codes "index_hash")) ≡ true)
      × (get o (codes "files") ≡ some (arr fs))
      × EachListed p fs
unfolding validate_content_index_shape
index_passes p (some (obj o)) h =
    let (a, h1) =
      require_passes (hex64_test p (get o (codes "index_hash"))) index_hash_not_hash _ h in
    let (fs, e, each) = listed_pass p (get o (codes "files")) h1 in (o, fs, refl, a, e, each)
index_passes p none h = cc
index_passes p (some null) h = cc
index_passes p (some (bool b)) h = cc
index_passes p (some (num n)) h = cc
index_passes p (some (str s)) h = cc
index_passes p (some (arr vs)) h = cc

pub IsManifest-passes :
    (p : Platform) (v : Value)
    → validate_manifest_shape p v ≡ none
    → (m : Fields) × (v ≡ obj m) × IsManifest p m
unfolding validate_manifest_shape
IsManifest-passes p (obj m) h =
    let (s, k, h1) =
      IsKnown-passes (codes "manifest.format.version")
        (at (get m (codes "format")) (codes "version")) _ h in
    let (a, h2) = require_passes (hex64_test p (get m (codes "id"))) id_not_hash _ h1 in
    let (b, h3) =
      require_passes (hex64_test p (at (get m (codes "originator")) (codes "public_key")))
        originator_not_key _ h2 in
    let (c, h4) =
      require_passes (may_be_array (get m (codes "participants"))) participants_not_array _ h3 in
    let (d, h5) =
      require_passes (may_be_hash p (get m (codes "first_event_hash"))) first_hash_not_hash _ h4 in
    let (o, fs, e, i, l, each) = index_passes p (get m (codes "content_index")) h5 in
    (
      m,
      refl,
      record {
        version = s;
        is_known = k;
        id = hex64_test-IsHash p _ a;
        originator = hex64_test-IsHash p _ b;
        participants = may_be_array_sound _ c;
        first_hash = (may_be_hash_iff p _).0 d;
        index = o;
        of_index = e;
        index_hash = hex64_test-IsHash p _ i;
        listed = fs;
        of_listed = l;
        each = each;
      },
    )
IsManifest-passes p null h = cc
IsManifest-passes p (bool b) h = cc
IsManifest-passes p (num n) h = cc
IsManifest-passes p (str s) h = cc
IsManifest-passes p (arr vs) h = cc

pub IsEnvelope-passes :
    (p : Platform) (v : Value)
    → validate_envelope_shape p v ≡ none
    → (e : Fields) × (v ≡ obj e) × IsEnvelope p e
unfolding validate_envelope_shape
IsEnvelope-passes p (obj e) h =
    let (s, k, h1) = IsKnown-passes (codes "envelope.version") (get e (codes "version")) _ h in
    let (a, h2) =
      require_passes (hex64_test p (get e (codes "capsule_id"))) capsule_id_not_hash _ h1 in
    let (b, h3) = require_passes (has_signers (get e (codes "signers"))) no_signers _ h2 in
    (
      e,
      refl,
      record {
        version = s;
        is_known = k;
        capsule_id = hex64_test-IsHash p _ a;
        signers = has_signers_sound _ b;
      },
    )
IsEnvelope-passes p (arr vs) h =
    let (s, (e, k), h1) = IsKnown-passes (codes "envelope.version") none _ h in
    absurd (some_none s e)
IsEnvelope-passes p null h = cc
IsEnvelope-passes p (bool b) h = cc
IsEnvelope-passes p (num n) h = cc
IsEnvelope-passes p (str s) h = cc

known_complete :
    (f : Str) (v : Option Value) (s : Str) (next : Option OpenError)
    → IsKnown v s
    → next ≡ none
    → require_version f v next ≡ none
unfolding require_known_version
known_complete f v s next (e, k) n = ground (arith, k, n)

require_complete :
    (b : Bool) (e : OpenError) (next : Option OpenError)
    → b ≡ true
    → next ≡ none
    → require b e next ≡ none
require_complete b e next h n = rw h n

files_complete :
    (p : Platform) (i : ℕ) (fs : Items) → EachListed p fs → validate_index_files p i fs ≡ none
unfolding validate_index_files
files_complete p i nil h = refl
files_complete p i (cons f fs) (h, hs) = require_complete _ _ _ ((is_object_iff f).1 h.object) (
    require_complete _ _ _ (full_text_complete _ (h.path.0) (h.path.1) (h.path.2))
      (require_complete _ _ _ (IsHash-hex64_test p _ h.hash) (files_complete p (suc i) fs hs)))

index_complete :
    (p : Platform) (m : Fields)
    → (i : IsManifest p m) → validate_content_index_shape p (get m (codes "content_index")) ≡ none
unfolding validate_content_index_shape validate_listed_files
index_complete p m i = ground (
  arith,
  i.of_index,
  i.of_listed,
  IsHash-hex64_test p _ i.index_hash,
  files_complete p 0 i.listed i.each,
)

pub manifest_complete :
    (p : Platform) (m : Fields) → IsManifest p m → validate_manifest_shape p (obj m) ≡ none
unfolding validate_manifest_shape
manifest_complete p m i = known_complete _ _ i.version _ i.is_known (
    require_complete _ _ _ (IsHash-hex64_test p _ i.id) (
      require_complete _ _ _ (IsHash-hex64_test p _ i.originator) (
        require_complete _ _ _ (may_be_array_complete _ i.participants)
          (require_complete _ _ _ ((may_be_hash_iff p _).1 i.first_hash) (index_complete p m i)))))

pub envelope_complete :
    (p : Platform) (e : Fields) → IsEnvelope p e → validate_envelope_shape p (obj e) ≡ none
unfolding validate_envelope_shape
envelope_complete p e i = known_complete _ _ i.version _ i.is_known (
    require_complete _ _ _ (IsHash-hex64_test p _ i.capsule_id)
      (require_complete _ _ _ (rw (i.signers.2) refl) refl))
