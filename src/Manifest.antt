-- ===== src/Manifest.antt =====
-- sdk-js/src/manifest.js: the capsule id, the content index, the signer commitment.
pub mod Commitment
pub mod Predecessors
pub mod Identity
use capsules_protocol.Json.{
  Value, null, str, arr, obj, Items, nil, cons, Fields, end, field, get, keys, elements, as_str, at,
  of_ℕ,
}
use capsules_protocol.Bytes.{Bytes, to_hex}
use capsules_protocol.Platform.{Platform}
use capsules_protocol.Versions.{
  classify_version, known, unknown_newer, unknown_older, invalid, id_domain, current_version,
}
use capsules_protocol.Canonical.{CanonError, HexError, hex_to_bytes, jcs, is_hex64}
use capsules_protocol.Chain.{zeros}
use capsules_protocol.Prelude.{
  ltb, leb, ◌==◌, if◌then◌else◌, ==_iff, Bool-cases, Option-cases, &&_both, and_true, Result, ok,
  err, ◌>>=◌, Str, codes, str_eq, str_eq_refl, str_eq_sound, str_eq_iff, contains, all_in, is_digit,
  is_lower, is_upper, is_lower_hex, is_hex, starts_with, cut_at, str_before, lower_code, to_lower,
  str_compare, length, is_nil, All, any, every, keep, length-append, All-append, append-eq-nil, ℕ,
  zero, suc, ◌+◌, ◌-◌, ◌*◌, ◌/◌, ◌%◌, ◌^◌, ◌≤◌, ◌<◌, String, ◌≡◌, refl, sym, ap, ◌∙◌, ◌≢◌, ◌↔◌, ◌⊎◌,
  inl, inr, Bool, true, false, ◌&&◌, ◌||◌, not, Option, none, some, List, [], ◌∷◌, ◌++◌, map,
  append_assoc, append-nil, arith,
}

pub data IdError : Type 0 where
  bad_key_length : IdError
  bad_first_hash : IdError
  bad_first_hex : HexError → IdError

-- The raw first event hash: 32 zero bytes where the chain is empty.
unfoldable pub first_hash_raw : Option Value → Result IdError Bytes
first_hash_raw none = ok (zeros 32)
first_hash_raw (some null) = ok (zeros 32)
first_hash_raw (some (str s)) =
    let read : Result IdError Bytes = elim (hex_to_bytes s) [
      | ok b ↦ ok b
      | err e ↦ err (bad_first_hex e)
    ] in
    if length s == 64 then read else err bad_first_hash
first_hash_raw (some v) = err bad_first_hash

-- `computeCapsuleId(pub, feh, version)`.
unfoldable pub compute_capsule_id : Platform → Bytes → Option Value → Str → Result IdError Str
compute_capsule_id p key first version =
    if length key == 32
    then (first_hash_raw first >>= λ raw.
        ok (to_hex (p.sha256 (id_domain version ++ (key ++ raw)))))
    else err bad_key_length

abbrev pub structural_excluded : List Str
structural_excluded = codes "manifest.json" ∷ codes "provenance/envelope.json" ∷ []

-- `contentIndexExclusions(encrypted)`.
abbrev pub content_index_exclusions : Bool → List Str
content_index_exclusions true = structural_excluded ++ codes "content.enc" ∷ []
content_index_exclusions false = structural_excluded

-- `sha256Hex(bytes)`.
unfoldable pub sha256_hex : Platform → Bytes → Str
sha256_hex p b = to_hex (p.sha256 b)

-- A package's files: a map by path, in order.
abbrev pub Files : Type 0
Files = List (Str × Bytes)

-- `files.get(path)`.
unfoldable pub file : Files → Str → Option Bytes
file [] path = none
file ((q, b) ∷ fs) path = if str_eq q path then some b else file fs path

pub record IndexEntry : Type 0 where
  pub path : Str
  pub sha256 : Str

unfoldable pub hashed_files : Platform → List Str → Files → List IndexEntry
hashed_files p excluded [] = []
hashed_files p excluded ((path, bytes) ∷ fs) =
    let rest = hashed_files p excluded fs in
    if contains excluded path
    then rest
    else record { path = path; sha256 = sha256_hex p bytes } ∷ rest

-- `entries.sort(...)`: by path, and stable.
unfoldable pub insert_entry : IndexEntry → List IndexEntry → List IndexEntry
insert_entry e [] = e ∷ []
insert_entry e (f ∷ fs) =
    let later = f ∷ insert_entry e fs in if str_before f.path e.path then later else e ∷ f ∷ fs

unfoldable pub sort_entries : List IndexEntry → List IndexEntry
sort_entries [] = []
sort_entries (e ∷ es) = insert_entry e (sort_entries es)

abbrev pub entry_value : IndexEntry → Value
entry_value e = obj (field (codes "path") (str e.path) (field (codes "sha256") (str e.sha256) end))

abbrev pub to_items : List Value → Items
to_items [] = nil
to_items (v ∷ vs) = cons v (to_items vs)

pub record ContentIndex : Type 0 where
  pub files : List IndexEntry
  pub index_hash : Str

-- `buildContentIndex(files, excluded)`.
unfoldable pub build_content_index : Platform → Files → List Str → Result CanonError ContentIndex
build_content_index p fs excluded =
    let entries = sort_entries (hashed_files p excluded fs) in
    jcs p (arr (to_items (map entry_value entries))) >>= λ bytes.
    ok (record { files = entries; index_hash = sha256_hex p bytes })

-- `manifestHash(manifest)`.
unfoldable pub manifest_hash : Platform → Value → Result CanonError Str
manifest_hash p m = jcs p m >>= λ bytes. ok (sha256_hex p bytes)

abbrev pub default_profile_id : Str
default_profile_id = codes "v0.6-suite"

abbrev alternate : Option Str → Option Str
alternate none = some (codes "(uninterpretable profile declaration)")
alternate (some id) =
    if str_eq id default_profile_id
    then none
    else if is_nil id
    then some (codes "(uninterpretable profile declaration)")
    else some id

-- `declaredAlternateProfileId(manifest)`; `none` is its null.
unfoldable pub declared_alternate_profile_id : Option Value → Option Str
declared_alternate_profile_id m = elim (at (at m (codes "format")) (codes "profile")) [
  | none ↦ none
  | some null ↦ none
  | some v ↦ alternate (as_str (at (some v) (codes "id")))
]
