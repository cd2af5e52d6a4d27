-- ===== src/Profiles.antt =====
-- sdk-js/src/profiles.js: the profile declarations of a capsule and the gate over them.
pub mod Classify
use capsules_protocol.Json.{Value, null, str, arr, obj, Fields, get, keys, as_str, at}
use capsules_protocol.Versions.{parse_version}
use capsules_protocol.Prelude.{
  ltb, leb, ◌==◌, if◌then◌else◌, ==_iff, Bool-cases, Option-cases, &&_both, and_true, Result, ok,
  err, ◌>>=◌, Str, codes, str_eq, str_eq_refl, str_eq_sound, str_eq_iff, contains, all_in, is_digit,
  is_lower, is_upper, is_lower_hex, is_hex, starts_with, cut_at, lower_code, to_lower, str_compare,
  length, is_nil, All, any, every, keep, length-append, All-append, append-eq-nil, ℕ, zero, suc,
  ◌+◌, ◌-◌, ◌*◌, ◌/◌, ◌%◌, ◌^◌, ◌≤◌, ◌<◌, String, ◌≡◌, refl, sym, ap, ◌∙◌, ◌≢◌, ◌↔◌, ◌⊎◌, inl, inr,
  Bool, true, false, ◌&&◌, ◌||◌, not, Option, none, some, List, [], ◌∷◌, ◌++◌, map, append_assoc,
  append-nil, arith,
}

-- An (id, version) pair of a declaration; `none` is `undefined`.
abbrev pub Pair : Type 0
Pair = Option Str × Option Str

abbrev pub default_profile : Pair
default_profile = (some (codes "v0.6-suite"), some (codes "1.0"))

abbrev pub supported_profiles : List Pair
supported_profiles = default_profile ∷ []

-- `===` on values that are strings or `undefined`.
abbrev pub opt_eq : Option Str → Option Str → Bool
opt_eq (some s) (some t) = str_eq s t
opt_eq none none = true
opt_eq _ _ = false

unfoldable pub pair_eq : Pair → Pair → Bool
pair_eq a b = opt_eq a.0 b.0 && opt_eq a.1 b.1

-- `[a-z0-9.]`
abbrev pub is_name_char : ℕ → Bool
is_name_char c = is_lower c || is_digit c || c == b'.'

abbrev pub is_id_char : ℕ → Bool
is_id_char c = is_name_char c || c == b'-'

abbrev last_unit : ℕ → Str → ℕ
last_unit c [] = c
last_unit c (d ∷ s) = last_unit d s

-- `VENDOR_ID_GRAMMAR` behind its `x-`: a vendor, a dash, a name.
unfoldable pub is_vendor_rest : Str → Bool
is_vendor_rest s = elim (cut_at b'-' s) [
  | none ↦ false
  | some (vendor, name) ↦
      not (is_nil vendor)
      && (all_in is_name_char vendor && (not (is_nil name) && all_in is_id_char name))
]

abbrev fenced : Str → Bool
fenced (x ∷ dash ∷ s) = if x == b'x' && dash == b'-' then is_vendor_rest s else true
fenced _ = true

-- `isValidProfileId` of a string.
unfoldable pub is_valid_profile_id : Str → Bool
is_valid_profile_id [] = false
is_valid_profile_id (c ∷ s) =
    is_lower c
    && (all_in is_id_char s
        && (leb (length s) 63
            && (not (last_unit c s == b'-' || last_unit c s == b'.') && fenced (c ∷ s))))

unfoldable pub is_valid_profile_version : Str → Bool
is_valid_profile_version s = elim (parse_version s) [ none ↦ false | some v ↦ true ]

-- The document that carries a declaration; the envelope's copy has no `params`.
pub data Side : Type 0 where
  manifest envelope : Side

pub data ProfileProblem : Type 0 where
  not_an_object : Side → ProfileProblem
  not_a_member : Side → Str → ProfileProblem
  bad_id : Side → ProfileProblem
  bad_version : Side → ProfileProblem
  bad_params : ProfileProblem

abbrev allowed : Side → List Str
allowed manifest = codes "id" ∷ codes "version" ∷ codes "params" ∷ []
allowed envelope = codes "id" ∷ codes "version" ∷ []

key_problems : Side → List Str → List ProfileProblem
key_problems side [] = []
key_problems side (k ∷ ks) =
    if contains (allowed side) k
    then key_problems side ks
    else not_a_member side k ∷ key_problems side ks

abbrev unless : (Str → Bool) → Option Str → ProfileProblem → List ProfileProblem
unless valid none x = x ∷ []
unless valid (some s) x = if valid s then [] else x ∷ []

abbrev params_problems : Side → Option Value → List ProfileProblem
params_problems envelope v = []
params_problems manifest none = []
params_problems manifest (some (obj o)) = []
params_problems manifest (some v) = bad_params ∷ []

-- `profileDeclarationProblems` of a present member.
unfoldable pub profile_declaration_problems : Side → Value → List ProfileProblem
unfolding key_problems
profile_declaration_problems side (obj o) =
    key_problems side (keys o)
    ++ (unless is_valid_profile_id (as_str (get o (codes "id"))) (bad_id side)
        ++ (unless is_valid_profile_version (as_str (get o (codes "version"))) (bad_version side)
            ++ params_problems side (get o (codes "params"))))
profile_declaration_problems side v = not_an_object side ∷ []

abbrev pub member_problems : Side → Option Value → List ProfileProblem
member_problems side none = []
member_problems side (some v) = profile_declaration_problems side v

-- The id and version as read: of the manifest where it holds an object or an array, else of the
-- envelope where that does.
unfoldable pub best_effort_observed : Option Value → Option Value → Pair
best_effort_observed (some (obj o)) e =
    (as_str (get o (codes "id")), as_str (get o (codes "version")))
best_effort_observed (some (arr xs)) e = (none, none)
best_effort_observed _ e = (as_str (at e (codes "id")), as_str (at e (codes "version")))

pub data ProfileStatus : Type 0 where
  default supported unsupported mismatched invalid : ProfileStatus

pub record ProfileClass : Type 0 where
  pub status : ProfileStatus
  pub observed : Pair
  pub declared : Bool
  pub effective : Pair
  pub is_supported : Bool
  pub problems : List ProfileProblem
  pub normalized : Option (Pair × Pair)

abbrev pub is_declared : Option Value → Bool
is_declared none = false
is_declared (some v) = true

-- A declaration with its absence read as the era default.
unfoldable pub normalize : Option Value → Pair
normalize none = default_profile
normalize (some v) = (as_str (at (some v) (codes "id")), as_str (at (some v) (codes "version")))

abbrev pub base : Option Value → Option Value → ProfileStatus → ProfileClass
base m e s = record {
  status = s;
  observed = best_effort_observed m e;
  declared = is_declared m || is_declared e;
  effective = (none, none);
  is_supported = false;
  problems = [];
  normalized = none;
}

-- The table lookup, once both documents agree on `m`.
unfoldable pub look_up : Option Value → Option Value → Pair → ProfileClass
look_up md ed m =
    if any (λ row. pair_eq row m) supported_profiles
    then record (base md ed (if pair_eq m default_profile then default else supported)) {
      effective = m;
      is_supported = true;
    }
    else record (base md ed unsupported) { observed = m }

-- `classifyProfile(manifestDecl, envelopeDecl)`; `none` is `undefined`.
unfoldable pub classify_profile : Option Value → Option Value → ProfileClass
classify_profile md ed =
    let problems = member_problems manifest md ++ member_problems envelope ed in
    let m = normalize md in
    let e = normalize ed in
    if is_nil problems
    then (if pair_eq m e
        then look_up md ed m
        else record (base md ed mismatched) { normalized = some (m, e) })
    else record (base md ed invalid) { problems = problems }

pub data ProfileError : Type 0 where
  unsupported_profile mismatch invalid_profile : ProfileClass → ProfileError

-- `requireSupportedProfile`, of the two declarations.
unfoldable pub require_supported_profile :
    Option Value → Option Value → Result ProfileError ProfileClass
require_supported_profile md ed =
    let c = classify_profile md ed in
    elim c.status [
      | invalid ↦ err (invalid_profile c)
      | mismatched ↦ err (mismatch c)
      | unsupported ↦ err (unsupported_profile c)
      | default ↦ ok c
      | supported ↦ ok c
    ]
