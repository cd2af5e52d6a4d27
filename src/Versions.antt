-- ===== src/Versions.antt =====
-- sdk-js/src/versions.js: the known-version table, the grammar of versions, and the domain strings.
pub mod Numeral
pub mod Classify
pub mod Domains
use capsules_protocol.Json.{Value, str}
use capsules_protocol.Bytes.{Bytes, utf8}
use capsules_protocol.Prelude.{
  ltb, leb, ◌==◌, if◌then◌else◌, ==_iff, Bool-cases, Option-cases, &&_both, and_true, Result, ok,
  err, ◌>>=◌, Str, codes, str_eq, str_eq_refl, str_eq_sound, str_eq_iff, contains, all_in, is_digit,
  is_lower, is_upper, is_lower_hex, is_hex, starts_with, cut_at, lower_code, to_lower, str_compare,
  length, is_nil, All, any, every, keep, length-append, All-append, append-eq-nil, ℕ, zero, suc,
  ◌+◌, ◌-◌, ◌*◌, ◌/◌, ◌%◌, ◌^◌, ◌≤◌, ◌<◌, String, ◌≡◌, refl, sym, ap, ◌∙◌, ◌≢◌, ◌↔◌, ◌⊎◌, inl, inr,
  Bool, true, false, ◌&&◌, ◌||◌, not, Option, none, some, List, [], ◌∷◌, ◌++◌, map, append_assoc,
  append-nil, arith,
}

abbrev pub known_versions : List Str
known_versions = codes "0.6" ∷ codes "0.7" ∷ []

abbrev pub current_version : Str
current_version = codes "0.7"

-- `SUITES`, by version.
unfoldable pub suites : Str → Option Str
suites v =
    if str_eq v (codes "0.6")
    then some (codes "v0.6")
    else if str_eq v (codes "0.7")
    then some (codes "v0.6")
    else none

-- `Number(s)` of a string of digits.
unfoldable pub value_from : ℕ → Str → ℕ
value_from n [] = n
value_from n (c ∷ s) = value_from (n * 10 + (c - b'0')) s

-- One group `(0|[1-9][0-9]*)` of the grammar, with its number.
unfoldable pub numeral : Str → Option ℕ
numeral [] = none
numeral (c ∷ s) =
    if c == b'0'
    then (if is_nil s then some 0 else none)
    else if is_digit c && all_in is_digit s
    then some (value_from 0 (c ∷ s))
    else none

abbrev pub both : Option ℕ → Option ℕ → Option (ℕ × ℕ)
both (some a) (some b) = some (a, b)
both _ _ = none

-- `VERSION_GRAMMAR.exec(v)` and the numbers of its groups.
unfoldable pub parse_version : Str → Option (ℕ × ℕ)
parse_version s = elim (cut_at b'.' s) [ none ↦ none | some (a, b) ↦ both (numeral a) (numeral b) ]

-- Whether `compareVersions(a, b) > 0`.
unfoldable pub is_newer : ℕ × ℕ → ℕ × ℕ → Bool
is_newer (a, b) (c, d) = ltb c a || (a == c && ltb d b)

pub data VersionStatus : Type 0 where
  known unknown_newer unknown_older invalid : VersionStatus

pub record VersionClass : Type 0 where
  pub observed : Option Str
  pub status : VersionStatus

abbrev newest_known : ℕ × ℕ
newest_known = (0, 7)

unfoldable pub status_of : Str → Option (ℕ × ℕ) → VersionStatus
unfolding is_newer
status_of s none = invalid
status_of s (some v) =
    if contains known_versions s
    then known
    else if is_newer v newest_known
    then unknown_newer
    else unknown_older

-- `classifyVersion(v)`; `none` is `undefined`.
unfoldable pub classify_version : Option Value → VersionClass
unfolding status_of
classify_version (some (str s)) = record {
  observed = some s;
  status = status_of s (parse_version s);
}
classify_version _ = record { observed = none; status = invalid }

-- What `requireKnownVersion` throws: a shape error, or an UnsupportedVersionError with its status.
pub data VersionError : Type 0 where
  bad_grammar : Str → VersionError
  unsupported : Str → Option Str → VersionStatus → VersionError

abbrev gate : Str → Option Value → VersionClass → Result VersionError (Option Value)
gate f v c = elim c.status [
  | known ↦ ok v
  | invalid ↦ err (bad_grammar f)
  | unknown_newer ↦ err (unsupported f c.observed unknown_newer)
  | unknown_older ↦ err (unsupported f c.observed unknown_older)
]

unfoldable pub require_known_version : Str → Option Value → Result VersionError (Option Value)
require_known_version f v = gate f v (classify_version v)

-- `idDomain`, `provenanceDomain` and `keyWrapInfo`.
unfoldable pub id_domain : Str → Bytes
id_domain v = utf8 (codes "capsule-id-v" ++ (v ++ 0 ∷ []))

unfoldable pub provenance_domain : Str → Str → Bytes
provenance_domain v role = utf8 (codes "capsule-provenance-v" ++ (v ++ b':' ∷ (role ++ 0 ∷ [])))

unfoldable pub key_wrap_info : Str → Bytes
key_wrap_info v = utf8 (codes "capsule-key-wrap-v" ++ v)
