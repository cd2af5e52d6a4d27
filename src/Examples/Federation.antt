-- ===== src/Examples/Federation.antt =====
-- A policy with one role, met by one attested signer.
use capsules_protocol.Json.{str}
use capsules_protocol.Verifier.Signers.{TrustedRow}
use capsules_protocol.Federation.{
  Attestation, Requirement, valid_keys, set_of, attested_key, binding_errors, attestation_for, hits,
  unmet_errors, evaluate_signer_policy,
}
use capsules_protocol.Federation.Quorum.{IsQuorum, policy_satisfied}
use capsules_protocol.Envelope.Verify.{template_text}
use capsules_protocol.Examples.Toy.{toy}
use capsules_protocol.Prelude.{
  codes, str_eq, contains, to_lower, All, ◌≡◌, refl, ◌≢◌, ◌⊎◌, true, none, some, [], ◌∷◌,
}

abbrev signer : TrustedRow
signer = record {
  row = record {
    role = some (str (codes "originator"));
    public_key = some (str (codes "aa"));
    valid = true;
  };
  trusted = true;
}

abbrev claims : Attestation
claims = record {
  capsule_id = some (codes "c1");
  signer_public_key = some (codes "AA");
  signer_role = some (codes "approver");
  org_role = none;
}

abbrev approver : Requirement
approver = record { role = codes "approver"; org_role = none; quorum = none }

-- An attestation of another capsule fails the policy.
replayed : evaluate_signer_policy toy (signer ∷ []) (claims ∷ []) [] (codes "c2") ≢ some []
unfolding evaluate_signer_policy binding_errors str_eq unmet_errors to_lower
replayed = λ e. cc

policy_satisfied_example :
    All (IsQuorum toy (signer ∷ []) (claims ∷ []) (codes "c1")) (approver ∷ [])
    × All (λ a. (attested_key a ≡ none) ⊎ (a.capsule_id ≡ some (codes "c1"))) (claims ∷ [])
unfolding evaluate_signer_policy valid_keys set_of binding_errors attestation_for hits unmet_errors
    str_eq to_lower template_text contains
policy_satisfied_example =
    policy_satisfied toy (signer ∷ []) (claims ∷ []) (approver ∷ []) (codes "c1") refl
