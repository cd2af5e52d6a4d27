-- ===== src/Federation.antt =====
-- sdk-js/src/federation/policy.js: the signer policy of a host, over a verified capsule.
-- A requirement's quorum is a natural number.
pub mod Quorum
use capsules_protocol.Platform.{Platform}
use capsules_protocol.Verifier.Signers.{TrustedRow, key_text}
use capsules_protocol.Prelude.{
  ltb, leb, ◌==◌, if◌then◌else◌, ==_iff, Bool-cases, Option-cases, &&_both, and_true, Result, ok,
  err, ◌>>=◌, Str, codes, str_eq, str_eq_refl, str_eq_sound, str_eq_iff, contains, all_in, is_digit,
  is_lower, is_upper, is_lower_hex, is_hex, starts_with, cut_at, str_before, lower_code, to_lower,
  str_compare, length, is_nil, All, any, every, keep, length-append, All-append, append-eq-nil, ℕ,
  zero, suc, ◌+◌, ◌-◌, ◌*◌, ◌/◌, ◌%◌, ◌^◌, ◌≤◌, ◌<◌, String, ◌≡◌, refl, sym, ap, ◌∙◌, ◌≢◌, ◌↔◌, ◌⊎◌,
  inl, inr, Bool, true, false, ◌&&◌, ◌||◌, not, Option, none, some, List, [], ◌∷◌, ◌++◌, map,
  append_assoc, append-nil, arith, Result-cases, concat, concat-nil,
}

-- The claims of a verified identity attestation.
pub record Attestation : Type 0 where
  pub capsule_id : Option Str
  pub signer_public_key : Option Str
  pub signer_role : Option Str
  pub org_role : Option Str

pub record Requirement : Type 0 where
  pub role : Str
  pub org_role : Option Str
  pub quorum : Option ℕ

pub data PolicyError : Type 0 where
  bound_elsewhere : Str → Option Str → PolicyError
  unmet_role : Requirement → ℕ → PolicyError

-- The lower-case keys of the rows that are valid and trusted.
unfoldable pub valid_keys : Platform → List TrustedRow → List Str
valid_keys p [] = []
valid_keys p (t ∷ ts) =
    let rest = valid_keys p ts in
    if t.row.valid && t.trusted then key_text p t.row.public_key ∷ rest else rest

-- `new Set(keys)`, behind the keys seen so far.
unfoldable pub set_of : List Str → List Str → List Str
set_of seen [] = []
set_of seen (k ∷ ks) =
    let skip = set_of seen ks in
    let fresh = k ∷ set_of (k ∷ seen) ks in if contains seen k then skip else fresh

abbrev pub opt_is : Option Str → Str → Bool
opt_is none s = false
opt_is (some t) s = str_eq t s

-- The key of an attestation, in lower case; `none` where it is falsy.
abbrev pub attested_key : Attestation → Option Str
attested_key a = elim a.signer_public_key [
  | none ↦ none
  | some k ↦ if is_nil k then none else some (to_lower k)
]

-- The errors of attestations that are bound to another capsule.
unfoldable pub binding_errors : Str → List Attestation → List PolicyError
binding_errors id [] = []
binding_errors id (a ∷ as') =
    let rest = binding_errors id as' in
    elim (attested_key a) [
      | none ↦ rest
      | some k ↦ if opt_is a.capsule_id id then rest else bound_elsewhere k a.capsule_id ∷ rest
    ]

-- `attestByKey.get(key)`: the last attestation of the key that is bound to this capsule.
unfoldable pub attestation_for : Str → Str → List Attestation → Option Attestation
attestation_for id key [] = none
attestation_for id key (a ∷ as') =
    let own : Option Attestation =
      if opt_is (attested_key a) key && opt_is a.capsule_id id then some a else none in
    elim (attestation_for id key as') [ some b ↦ some b | none ↦ own ]

abbrev pub org_fits : Option Str → Option Str → Bool
org_fits none org = true
org_fits (some r) org = if is_nil r then true else opt_is org r

-- Whether the key counts toward the requirement.
abbrev pub counts : Str → List Attestation → Requirement → Str → Bool
counts id as' req key = elim (attestation_for id key as') [
  | none ↦ false
  | some a ↦ opt_is a.signer_role req.role && org_fits req.org_role a.org_role
]

unfoldable pub hits : Str → List Attestation → Requirement → List Str → List Str
hits id as' req [] = []
hits id as' req (k ∷ ks) =
    let rest = hits id as' req ks in if counts id as' req k then k ∷ rest else rest

abbrev pub quorum_of : Requirement → ℕ
quorum_of req = elim req.quorum [ none ↦ 1 | some n ↦ n ]

unfoldable pub unmet_errors :
    Str → List Attestation → List Str → List Requirement → List PolicyError
unmet_errors id as' keys [] = []
unmet_errors id as' keys (req ∷ reqs) =
    let have = length (hits id as' req keys) in
    let rest = unmet_errors id as' keys reqs in
    if leb (quorum_of req) have then rest else unmet_role req have ∷ rest

-- The errors of `evaluateSignerPolicy`; it is satisfied where there are none, and it throws where
-- the options name no capsule id.
unfoldable pub evaluate_signer_policy :
    Platform
    → List TrustedRow
    → List Attestation
    → List Requirement
    → Str
    → Option (List PolicyError)
evaluate_signer_policy p rows as' reqs id =
    let keys = set_of [] (valid_keys p rows) in
    if is_nil id then none else some (binding_errors id as' ++ unmet_errors id as' keys reqs)
