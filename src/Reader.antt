-- ===== src/Reader.antt =====
-- sdk-js/src/reader.js: opening a package.
-- Messages are constructors.
pub mod Values
pub mod Shape
pub mod Opens
use capsules_protocol.Json.{
  Num, integral, nan, Value, null, bool, num, str, arr, obj, Items, nil, cons, Fields, end, get, at,
  as_arr,
}
use capsules_protocol.Bytes.{Bytes}
use capsules_protocol.Platform.{Platform}
use capsules_protocol.Canonical.{is_hex64}
use capsules_protocol.Canonical.Members.{Parser, ParseError, parse_json_strict}
use capsules_protocol.Versions.{VersionError, require_known_version}
use capsules_protocol.Profiles.{ProfileError, ProfileClass, require_supported_profile}
use capsules_protocol.Manifest.{Files, file}
use capsules_protocol.Prelude.{
  ltb, leb, ◌==◌, if◌then◌else◌, ==_iff, Bool-cases, Option-cases, &&_both, and_true, Result, ok,
  err, ◌>>=◌, Str, codes, str_eq, str_eq_refl, str_eq_sound, str_eq_iff, contains, all_in, is_digit,
  is_lower, is_upper, is_lower_hex, is_hex, starts_with, cut_at, str_before, lower_code, to_lower,
  str_compare, length, is_nil, All, any, every, keep, length-append, All-append, append-eq-nil, ℕ,
  zero, suc, ◌+◌, ◌-◌, ◌*◌, ◌/◌, ◌%◌, ◌^◌, ◌≤◌, ◌<◌, String, ◌≡◌, refl, sym, ap, ◌∙◌, ◌≢◌, ◌↔◌, ◌⊎◌,
  inl, inr, Bool, true, false, ◌&&◌, ◌||◌, not, Option, none, some, List, [], ◌∷◌, ◌++◌, map,
  append_assoc, append-nil, arith, Result-cases, concat, concat-nil, Apart, contains_cons,
  cons_contains, nothing_seen, contains_head, Apart-length, Apart-exhausts, contains_of, flip,
  str_compare-flip, str_compare_eq, str_compare_refl, str_compare_trans, before_asym, before_trans,
  before_total, before_below, permuted_refl,
}

pub data OpenError : Type 0 where
  no_manifest no_envelope : OpenError
  bad_manifest_text bad_envelope_text : ParseError → OpenError
  manifest_not_object id_not_hash originator_not_key participants_not_array first_hash_not_hash :
      OpenError
  index_not_object index_hash_not_hash files_not_array : OpenError
  file_not_object path_not_text file_hash_not_hash : ℕ → OpenError
  envelope_not_object capsule_id_not_hash no_signers : OpenError
  version : VersionError → OpenError
  profile : ProfileError → OpenError

-- `String(v)`, as `RegExp.test` takes its argument.
unfoldable mutual
  pub to_text : Platform → Value → Str
  to_text p null = codes "null"
  to_text p (bool true) = codes "true"
  to_text p (bool false) = codes "false"
  to_text p (num n) = p.number_text n
  to_text p (str s) = s
  to_text p (arr vs) = joined p vs
  to_text p (obj o) = codes "[object Object]"

  -- `vs.join()`, where null is the empty text.
  pub joined : Platform → Items → Str
  joined p nil = []
  joined p (cons v nil) = item_text p v
  joined p (cons v (cons w vs)) = item_text p v ++ b',' ∷ joined p (cons w vs)

  pub item_text : Platform → Value → Str
  item_text p null = []
  item_text p (bool true) = codes "true"
  item_text p (bool false) = codes "false"
  item_text p (num n) = p.number_text n
  item_text p (str s) = s
  item_text p (arr vs) = joined p vs
  item_text p (obj o) = codes "[object Object]"

-- `HEX64.test(v ?? "")`.
unfoldable pub hex64_test : Platform → Option Value → Bool
hex64_test p none = false
hex64_test p (some null) = false
hex64_test p (some v) = is_hex64 (to_text p v)

-- The error, where the test fails, or else the next.
abbrev pub require : Bool → OpenError → Option OpenError → Option OpenError
require true e next = next
require false e next = some e

abbrev pub is_object : Value → Bool
is_object (obj o) = true
is_object _ = false

abbrev pub is_full_text : Option Value → Bool
is_full_text (some (str s)) = not (is_nil s)
is_full_text _ = false

abbrev pub is_array : Option Value → Bool
is_array (some (arr vs)) = true
is_array _ = false

-- The `forEach` over the listed files.
unfoldable pub validate_index_files : Platform → ℕ → Items → Option OpenError
validate_index_files p i nil = none
validate_index_files p i (cons f fs) = require (is_object f) (file_not_object i) (
    require (is_full_text (at (some f) (codes "path"))) (path_not_text i) (
      require (hex64_test p (at (some f) (codes "sha256"))) (file_hash_not_hash i)
        (validate_index_files p (suc i) fs)))

unfoldable pub validate_listed_files : Platform → Option Value → Option OpenError
validate_listed_files p (some (arr fs)) = validate_index_files p 0 fs
validate_listed_files p _ = some files_not_array

-- `validateContentIndexShape(index)`.
unfoldable pub validate_content_index_shape : Platform → Option Value → Option OpenError
validate_content_index_shape p (some (obj o)) =
    require (hex64_test p (get o (codes "index_hash"))) index_hash_not_hash
      (validate_listed_files p (get o (codes "files")))
validate_content_index_shape p _ = some index_not_object

abbrev pub may_be_array : Option Value → Bool
may_be_array none = true
may_be_array v = is_array v

-- `feh === null || HEX64.test(feh)` of `manifest.first_event_hash ?? null`.
abbrev pub may_be_hash : Platform → Option Value → Bool
may_be_hash p none = true
may_be_hash p (some null) = true
may_be_hash p v = hex64_test p v

-- Behind the gate of a version.
abbrev pub require_version : Str → Option Value → Option OpenError → Option OpenError
require_version f v next = elim (require_known_version f v) [
  | err e ↦ some (version e)
  | ok c ↦ next
]

-- `validateManifestShape(manifest)`; `none` where it returns. A falsy originator has no key.
unfoldable pub validate_manifest_shape : Platform → Value → Option OpenError
validate_manifest_shape p (obj m) =
    require_version (codes "manifest.format.version")
      (at (get m (codes "format")) (codes "version"))
      (require (hex64_test p (get m (codes "id"))) id_not_hash (
        require (hex64_test p (at (get m (codes "originator")) (codes "public_key")))
          originator_not_key
          (require (may_be_array (get m (codes "participants"))) participants_not_array (
            require (may_be_hash p (get m (codes "first_event_hash"))) first_hash_not_hash
              (validate_content_index_shape p (get m (codes "content_index")))))))
validate_manifest_shape p v = some manifest_not_object

abbrev pub has_signers : Option Value → Bool
has_signers (some (arr (cons s ss))) = true
has_signers _ = false

abbrev envelope_errors : Platform → Value → Option OpenError
envelope_errors p v = require_version (codes "envelope.version") (at (some v) (codes "version")) (
    require (hex64_test p (at (some v) (codes "capsule_id"))) capsule_id_not_hash
      (require (has_signers (at (some v) (codes "signers"))) no_signers none))

-- `validateEnvelopeShape(envelope)`; an array is an object, without these members.
unfoldable pub validate_envelope_shape : Platform → Value → Option OpenError
validate_envelope_shape p (obj e) = envelope_errors p (obj e)
validate_envelope_shape p (arr vs) = envelope_errors p (arr vs)
validate_envelope_shape p v = some envelope_not_object

pub record Reader : Type 0 where
  pub files : Files
  pub manifest : Value
  pub envelope : Value

-- A document of the package, parsed and checked.
unfoldable pub read_document :
    Parser
    → Files
    → Str
    → OpenError
    → (ParseError → OpenError)
    → (Value → Option OpenError)
    → Result OpenError Value
read_document j fs path gone bad validate = elim (file fs path) [
  | none ↦ err gone
  | some b ↦ elim (parse_json_strict j b) [
    | err e ↦ err (bad e)
    | ok v ↦ elim (validate v) [ some e ↦ err e | none ↦ ok v ]
  ]
]

abbrev pub read_manifest : Platform → Parser → Files → Result OpenError Value
read_manifest p j fs =
    read_document j fs (codes "manifest.json") no_manifest bad_manifest_text
      (validate_manifest_shape p)

abbrev pub read_envelope : Platform → Parser → Files → Result OpenError Value
read_envelope p j fs =
    read_document j fs (codes "provenance/envelope.json") no_envelope bad_envelope_text
      (validate_envelope_shape p)

abbrev pub profile_of : Value → Value → Result ProfileError ProfileClass
profile_of m e =
    require_supported_profile (at (at (some m) (codes "format")) (codes "profile"))
      (at (some e) (codes "profile"))

-- `new CapsuleReader(files)`.
unfoldable pub open_files : Platform → Parser → Files → Result OpenError Reader
open_files p j fs = read_manifest p j fs >>= λ m. read_envelope p j fs >>= λ e.
    elim (profile_of m e) [
      | err x ↦ err (profile x)
      | ok c ↦ ok (record { files = fs; manifest = m; envelope = e })
    ]
