-- ===== src/Examples/Manifest.antt =====
-- Profiles, signer sets and canonical values at concrete inputs.
use mathlib.Core.List.{Perm}
use capsules_protocol.Json.{str, arr, nil, cons}
use capsules_protocol.Canonical.{assert_i_json}
use capsules_protocol.Canonical.Boundary.{IsIJson, assert_i_json_iff}
use capsules_protocol.Manifest.Commitment.{
  Member, compare_members, order_problems, differences, sort_members,
}
use capsules_protocol.Manifest.Commitment.Bound.{signer_set_iff}
use capsules_protocol.Prelude.{codes, str_compare, ◌≡◌, refl, ◌↔◌, none, List, [], ◌∷◌}

abbrev committed : List Member
committed =
    record { role = codes "originator"; public_key = codes "aa" }
    ∷ record { role = codes "witness"; public_key = codes "bb" }
    ∷ []

abbrev in_envelope : List Member
in_envelope =
    record { role = codes "witness"; public_key = codes "bb" }
    ∷ record { role = codes "originator"; public_key = codes "aa" }
    ∷ []

signer_set_iff_example :
    (differences committed (sort_members in_envelope) ≡ []) ↔ Perm in_envelope committed
unfolding order_problems compare_members str_compare
signer_set_iff_example = signer_set_iff committed in_envelope refl

assert_i_json_iff_example :
    (assert_i_json (arr (cons (str (codes "x")) nil)) ≡ none)
    ↔ IsIJson (arr (cons (str (codes "x")) nil))
assert_i_json_iff_example = assert_i_json_iff (arr (cons (str (codes "x")) nil))
