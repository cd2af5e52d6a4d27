-- ===== src/Verifier/Verdict.antt =====
-- `deriveVerdict` and `deriveSkillTrust` of sdk-js/src/verifier.js.
use capsules_protocol.Json.{arr, Items, nil, cons, Fields, get, at}
use capsules_protocol.Versions.{VersionStatus, known, unknown_newer, unknown_older, invalid}
use capsules_protocol.Manifest.{Files}
use capsules_protocol.Verifier.{is_text}
use capsules_protocol.Prelude.{
  ltb, ◌==◌, if◌then◌else◌, Str, codes, str_eq, cut_at, is_nil, any, ℕ, Bool, true, false, ◌&&◌,
  ◌||◌, not, Option, none, some, List, [], ◌∷◌, ◌++◌,
}

pub data Verdict : Type 0 where
  valid_capsule invalid_capsule unsupported_capsule : Verdict

pub data Reason : Type 0 where
  version_older version_newer profile : Reason

pub data Qualifier : Type 0 where
  signer_set_unbound actor_set_unbound empty_chain_not_walked encrypted_outer_only : Qualifier
  version_not_accepted_by_policy trust_not_evaluated no_trusted_signer : Qualifier
  lineage_declared_unverified lineage_mismatch lineage_predecessor_invalid : Qualifier

-- The note of the chain channel.
pub data ChainNote : Type 0 where
  no_note empty_chain deferred : ChainNote

pub data HopStatus : Type 0 where
  unverified predecessor_unverifiable verified mismatch predecessor_invalid : HopStatus

-- What the verdict is derived from; a status of `none` is unread.
pub record Facts : Type 0 where
  pub is_ok : Bool
  pub is_l3 : Bool
  pub version_status : Option VersionStatus
  pub profile_unsupported : Bool
  pub signer_set_bound : Bool
  pub actor_set_bound : Bool
  pub chain_note : ChainNote
  pub accepted_by_policy : Option Bool
  pub trusted_count : ℕ
  pub lineage_declared : Bool
  pub hops : List HopStatus

pub record VerdictSurface : Type 0 where
  pub verdict : Verdict
  pub reason : Option Reason
  pub qualifiers : List Qualifier

abbrev first_status : Option VersionStatus → Option VersionStatus → Option VersionStatus
first_status (some s) t = some s
first_status none t = t

abbrev by_ok : Bool → Verdict × Option Reason
by_ok true = (valid_capsule, none)
by_ok false = (invalid_capsule, none)

abbrev by_profile : Facts → Verdict × Option Reason
by_profile r = if r.profile_unsupported then (unsupported_capsule, some profile) else by_ok r.is_ok

unfoldable pub verdict_of : Option VersionStatus → Facts → Verdict × Option Reason
verdict_of refusal r = elim (first_status refusal r.version_status) [
  | some unknown_older ↦ (unsupported_capsule, some version_older)
  | some unknown_newer ↦ (unsupported_capsule, some version_newer)
  | some known ↦ by_profile r
  | some invalid ↦ by_profile r
  | none ↦ by_profile r
]

abbrev pub qualifier_if : Bool → Qualifier → List Qualifier
qualifier_if true q = q ∷ []
qualifier_if false q = []

abbrev is_empty_note : ChainNote → Bool
is_empty_note empty_chain = true
is_empty_note _ = false

abbrev is_deferred : ChainNote → Bool
is_deferred deferred = true
is_deferred _ = false

abbrev is_refused : Option Bool → Bool
is_refused (some false) = true
is_refused _ = false

-- `null`: the size does not matter.
abbrev trust_qualifiers : Option ℕ → ℕ → List Qualifier
trust_qualifiers none n = []
trust_qualifiers (some size) n =
    if size == 0 then trust_not_evaluated ∷ [] else qualifier_if (n == 0) no_trusted_signer

abbrev is_open : HopStatus → Bool
is_open unverified = true
is_open predecessor_unverifiable = true
is_open _ = false

abbrev is_mismatch : HopStatus → Bool
is_mismatch mismatch = true
is_mismatch _ = false

abbrev is_invalid_hop : HopStatus → Bool
is_invalid_hop predecessor_invalid = true
is_invalid_hop _ = false

abbrev lineage_qualifiers : Bool → List HopStatus → List Qualifier
lineage_qualifiers true hops =
    qualifier_if (any is_open hops) lineage_declared_unverified
    ++ (qualifier_if (any is_mismatch hops) lineage_mismatch
        ++ qualifier_if (any is_invalid_hop hops) lineage_predecessor_invalid)
lineage_qualifiers false hops = []

-- The qualifiers of a valid verdict, in their order.
unfoldable pub qualifiers_of : Option ℕ → Facts → List Qualifier
qualifiers_of size r =
    qualifier_if (not r.signer_set_bound) signer_set_unbound
    ++ (qualifier_if (not r.actor_set_bound) actor_set_unbound
        ++ (qualifier_if (is_empty_note r.chain_note) empty_chain_not_walked
            ++ (qualifier_if (not r.is_l3 && is_deferred r.chain_note) encrypted_outer_only
                ++ (qualifier_if (is_refused r.accepted_by_policy) version_not_accepted_by_policy
                    ++ (trust_qualifiers size r.trusted_count
                        ++ lineage_qualifiers r.lineage_declared r.hops)))))

-- `deriveVerdict(result, { versionRefusal, allowlistSize })`.
unfoldable pub derive_verdict : Option VersionStatus → Option ℕ → Facts → VerdictSurface
derive_verdict refusal size r =
    let v = verdict_of refusal r in
    elim (v.0) [
      | valid_capsule ↦ record {
        verdict = valid_capsule;
        reason = v.1;
        qualifiers = qualifiers_of size r;
      }
      | invalid_capsule ↦ record { verdict = invalid_capsule; reason = v.1; qualifiers = [] }
      | unsupported_capsule ↦ record {
        verdict = unsupported_capsule;
        reason = v.1;
        qualifiers = [];
      }
    ]

-- The id of a path that `/^skills\/([^/]+)\/(skill\.json|SKILL\.md)$/` matches.
unfoldable pub skill_id : Str → Option Str
skill_id path = elim (cut_at b'/' path) [
  | none ↦ none
  | some (top, rest) ↦
      if str_eq top (codes "skills")
      then elim (cut_at b'/' rest) [
        | none ↦ none
        | some (id, leaf) ↦
            if not (is_nil id)
              && (str_eq leaf (codes "skill.json") || str_eq leaf (codes "SKILL.md"))
            then some id
            else none
      ]
      else none
]

unfoldable pub lists_path : Items → Str → Bool
lists_path nil path = false
lists_path (cons v vs) path = is_text (at (some v) (codes "path")) path || lists_path vs path

abbrev pub indexed_paths : Fields → Str → Bool
indexed_paths m path = elim (at (get m (codes "content_index")) (codes "files")) [
  | some (arr vs) ↦ lists_path vs path
  | none ↦ false
  | some v ↦ false
]

abbrev skill_path : Str → Str
skill_path id = codes "skills/" ++ (id ++ codes "/skill.json")

-- `capsuleSigned`.
unfoldable pub capsule_signed : Bool → Bool → Bool → ℕ → Bool
capsule_signed verdict_ok index_ok envelope_ok trusted =
    verdict_ok && (index_ok && (envelope_ok && ltb 0 trusted))

-- `skills`, by path: the ids with their tier, of every path that names a skill.
unfoldable pub skill_tiers : Fields → Bool → Files → List (Str × Bool)
skill_tiers m signed [] = []
skill_tiers m signed ((path, b) ∷ fs) =
    let rest = skill_tiers m signed fs in
    elim (skill_id path) [
      | none ↦ rest
      | some id ↦
          if str_eq id (codes "decryption")
          then rest
          else (id, signed && indexed_paths m (skill_path id)) ∷ rest
    ]
