-- ===== src/Manifest/Predecessors.antt =====
-- `predecessorsProblems` of manifest.js: the shape and coherence of a lineage declaration.
-- Problem texts are constructors.
use capsules_protocol.Json.{
  Value, null, str, arr, obj, Items, nil, cons, Fields, get, keys, as_str, at,
}
use capsules_protocol.Bytes.{Bytes}
use capsules_protocol.Platform.{Platform}
use capsules_protocol.Canonical.{is_hex64, hex_to_bytes}
use capsules_protocol.Versions.{VersionStatus, known, invalid, classify_version}
use capsules_protocol.Manifest.{compute_capsule_id}
use capsules_protocol.Prelude.{
  if◌then◌else◌, ok, err, Str, codes, str_eq, contains, starts_with, ℕ, suc, Bool, true, false,
  ◌&&◌, ◌||◌, not, Option, none, some, List, [], ◌∷◌, ◌++◌,
}

pub data PredecessorProblem : Type 0 where
  not_an_array empty : PredecessorProblem
  not_an_object : ℕ → PredecessorProblem
  unknown_member not_hex not_hex_or_null : ℕ → Str → PredecessorProblem
  bad_version mixed_nulls underived_id : ℕ → PredecessorProblem
  cited_twice : ℕ → ℕ → PredecessorProblem
  -- `computeCapsuleId` threw.
  id_throws : ℕ → PredecessorProblem

abbrev pub predecessor_entry_members : List Str
predecessor_entry_members =
    codes "capsule_id"
    ∷ codes "format_version"
    ∷ codes "originator_public_key"
    ∷ codes "first_event_hash"
    ∷ codes "entry_hash"
    ∷ codes "manifest_hash"
    ∷ []

-- Whether a member is present and lowercase 64-hex.
abbrev pub is_hash : Option Value → Bool
is_hash (some (str s)) = is_hex64 s
is_hash _ = false

abbrev pub is_null_member : Option Value → Bool
is_null_member (some null) = true
is_null_member _ = false

abbrev pub is_hash_or_null : Option Value → Bool
is_hash_or_null v = is_null_member v || is_hash v

abbrev pub bool_eq : Bool → Bool → Bool
bool_eq true b = b
bool_eq false b = not b

unfoldable pub unknown_members : ℕ → List Str → List PredecessorProblem
unknown_members i [] = []
unknown_members i (k ∷ ks) =
    let rest = unknown_members i ks in
    if contains predecessor_entry_members k || starts_with (codes "x-") k
    then rest
    else unknown_member i k ∷ rest

abbrev pub unless : Bool → PredecessorProblem → List PredecessorProblem
unless true e = []
unless false e = e ∷ []

abbrev pub hex_problem : ℕ → Fields → Str → List PredecessorProblem
hex_problem i o k = unless (is_hash (get o k)) (not_hex i k)

abbrev pub anchor_problem : ℕ → Fields → Str → List PredecessorProblem
anchor_problem i o k = unless (is_hash_or_null (get o k)) (not_hex_or_null i k)

abbrev pub is_known_status : VersionStatus → Bool
is_known_status known = true
is_known_status _ = false

abbrev pub is_valid_status : VersionStatus → Bool
is_valid_status invalid = false
is_valid_status _ = true

abbrev pub anchors_typed : Fields → Bool
anchors_typed o =
    is_hash_or_null (get o (codes "first_event_hash"))
    && is_hash_or_null (get o (codes "entry_hash"))

abbrev pub anchors_agree : Fields → Bool
anchors_agree o =
    bool_eq (is_null_member (get o (codes "first_event_hash")))
      (is_null_member (get o (codes "entry_hash")))

abbrev pub decoded_key : Option Value → Option Bytes
decoded_key (some (str s)) = elim (hex_to_bytes s) [ ok b ↦ some b | err e ↦ none ]
decoded_key _ = none

-- The capsule id that the entry's own members derive.
unfoldable pub derived_entry_id : Platform → Fields → Str → Option Str
derived_entry_id p o version = elim (decoded_key (get o (codes "originator_public_key"))) [
  | none ↦ none
  | some key ↦ elim (compute_capsule_id p key (get o (codes "first_event_hash")) version) [
    | ok id ↦ some id
    | err e ↦ none
  ]
]

abbrev pub text_is : Option Value → Str → Bool
text_is (some (str s)) t = str_eq s t
text_is _ t = false

-- Check 3 of a known era.
unfoldable pub identity_problem : Platform → ℕ → Fields → Option Str → List PredecessorProblem
identity_problem p i o none = []
identity_problem p i o (some version) = elim (derived_entry_id p o version) [
  | none ↦ id_throws i ∷ []
  | some id ↦ unless (text_is (get o (codes "capsule_id")) id) (underived_id i)
]

abbrev pub identity_checked : Fields → Bool
identity_checked o =
    is_known_status ((classify_version (get o (codes "format_version"))).status)
    && (is_hash (get o (codes "capsule_id"))
        && (is_hash (get o (codes "originator_public_key"))
            && (anchors_typed o && anchors_agree o)))

-- The first `forEach`, at one entry.
unfoldable pub entry_problems : Platform → ℕ → Value → List PredecessorProblem
entry_problems p i (obj o) =
    unknown_members i (keys o)
    ++ (hex_problem i o (codes "capsule_id")
        ++ (hex_problem i o (codes "originator_public_key")
            ++ (hex_problem i o (codes "manifest_hash")
                ++ (anchor_problem i o (codes "first_event_hash")
                    ++ (anchor_problem i o (codes "entry_hash")
                        ++ (unless
                              (is_valid_status
                                ((classify_version (get o (codes "format_version"))).status))
                              (bad_version i)
                            ++ (unless (not (anchors_typed o) || anchors_agree o) (mixed_nulls i)
                                ++ (if identity_checked o
                                    then identity_problem p i o
                                        (as_str (get o (codes "format_version")))
                                    else []))))))))
entry_problems p i v = not_an_object i ∷ []

unfoldable pub entries_problems : Platform → ℕ → Items → List PredecessorProblem
entries_problems p i nil = []
entries_problems p i (cons v vs) = entry_problems p i v ++ entries_problems p (suc i) vs

-- `seen.get(mh)`.
unfoldable pub seen_at : List (Str × ℕ) → Str → Option ℕ
seen_at [] h = none
seen_at ((g, i) ∷ seen) h = if str_eq g h then some i else seen_at seen h

abbrev hash_text : Value → Option Str
hash_text v = elim (as_str (at (some v) (codes "manifest_hash"))) [
  | none ↦ none
  | some h ↦ if is_hex64 h then some h else none
]

-- The second `forEach`: no manifest_hash twice.
unfoldable pub cited_problems : List (Str × ℕ) → ℕ → Items → List PredecessorProblem
cited_problems seen i nil = []
cited_problems seen i (cons v vs) =
    let skip = cited_problems seen (suc i) vs in
    elim (hash_text v) [
      | none ↦ skip
      | some h ↦
          let fresh = cited_problems ((h, i) ∷ seen) (suc i) vs in
          elim (seen_at seen h) [ none ↦ fresh | some j ↦ cited_twice i j ∷ skip ]
    ]

-- `predecessorsProblems(predecessors)`.
unfoldable pub predecessors_problems : Platform → Value → List PredecessorProblem
predecessors_problems p (arr nil) = empty ∷ []
predecessors_problems p (arr (cons v vs)) =
    entries_problems p 0 (cons v vs) ++ cited_problems [] 0 (cons v vs)
predecessors_problems p v = not_an_array ∷ []

-- `predecessorIdentityCheckable(entry)`.
unfoldable pub predecessor_identity_checkable : Option Value → Bool
predecessor_identity_checkable v =
    is_known_status ((classify_version (at v (codes "format_version"))).status)
