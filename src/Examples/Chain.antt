-- ===== src/Examples/Chain.antt =====
-- Chains at concrete inputs, over the toy platform.
use capsules_protocol.Json.{
  Value, null, str, arr, obj, nil, cons, Fields, end, field, get, set, without, spread,
}
use capsules_protocol.Bytes.{
  to_hex, hex_digit, digit_value, from_hex, utf8, emit, encode_from, encode_pair, encode_unit,
}
use capsules_protocol.Chain.{
  HashError, is_valid_actor_id, participant_actor_ids, is_valid_untrusted_payload_path,
  genesis_prev, has, hash_event, strip, is_path_tail, is_segments,
}
use capsules_protocol.Chain.Build.{
  assemble, with_payload, linked, build_chain_events, build_from, candidates, default_event_id,
  pad3,
}
use capsules_protocol.Chain.Walk.{
  verify_chain, first_and_entry_hash, walk, verify_event, rule_errors, markings_errors, link_errors,
  seal_errors, last_from,
}
use capsules_protocol.Chain.Sound.{IsChain}
use capsules_protocol.Chain.Complete.{verify_chain_iff}
use capsules_protocol.Chain.RoundTrip.{IsAuthored, verify-build}
use capsules_protocol.Examples.Toy.{toy, toy-IsDigest, print, toy_digest, checksum}
use capsules_protocol.Versions.Numeral.{decimal}
use capsules_protocol.Canonical.{
  is_hex64, hex_to_bytes, jcs, assert_i_json, text_error, lone_from, number_error,
}
use capsules_protocol.Canonical.Boundary.{IsIJson, MembersIJson, assert_i_json_iff}
use capsules_protocol.Chain.Total.{IsSealedFrom, IsBare, build_total}
use capsules_protocol.Prelude.{
  arith, length, none, ok, err, codes, str_eq, contains, all_in, cut_at, is_nil, All, String, ◌≡◌,
  refl, ◌↔◌, true, false, Option, some, List, [], ◌∷◌, map,
}

actor_ids :
    (is_valid_actor_id (codes "human:ann") ≡ true)
    × (is_valid_actor_id (codes "human:") ≡ false)
    × (is_valid_actor_id (codes "robot:x") ≡ false)
unfolding is_valid_actor_id cut_at contains str_eq
actor_ids = (refl, refl, refl)

payload_paths :
    (is_valid_untrusted_payload_path (str (codes "payload.a-b.c")) ≡ true)
    × (is_valid_untrusted_payload_path (str (codes "payload")) ≡ false)
    × (is_valid_untrusted_payload_path (str (codes "payload..a")) ≡ false)
    × (is_valid_untrusted_payload_path (str (codes "payload.a.")) ≡ false)
unfolding is_valid_untrusted_payload_path capsules_protocol.Chain.strip
    capsules_protocol.Chain.is_path_tail capsules_protocol.Chain.is_segments
payload_paths = (refl, refl, refl, refl)

abbrev people : Option Value
people = some (arr (cons (str (codes "human:ann")) nil))

abbrev event : String → Fields
event kind = field (codes "actor") (str (codes "human:ann")) (
    field (codes "kind") (str (codes kind))
      (field (codes "payload") (obj (field (codes "summary") (str (codes "hi")) end)) end))

abbrev bares : List Fields
bares = event "decision" ∷ event "observation" ∷ []

abbrev built : List Fields
built = elim (build_chain_events toy bares) [ ok es ↦ es | err e ↦ [] ]

-- The definitions that a run of the builder or of the walk goes through.
chain_code : Unit {0}
unfolding build_chain_events hash_event get set without spread assemble with_payload linked str_eq
    to_hex hex_digit hex_to_bytes digit_value from_hex utf8 emit encode_from encode_pair encode_unit
    all_in contains jcs assert_i_json text_error lone_from number_error build_from candidates
    default_event_id pad3 decimal print toy_digest checksum verify_chain walk verify_event
    rule_errors markings_errors link_errors seal_errors is_hex64 participant_actor_ids
    is_valid_untrusted_payload_path strip is_path_tail is_segments first_and_entry_hash last_from
chain_code = tt

built_lem : build_chain_events toy bares ≡ ok built
unfolding chain_code
built_lem = refl

bares-IsAuthored : All (IsAuthored (participant_actor_ids people)) bares
unfolding chain_code
bares-IsAuthored = (
  record {
    distinct = (refl, (refl, (refl, tt)));
    no_seq = refl;
    kind = refl;
    actor = refl;
    markings = λ xs e. cc;
  },
  (
    record {
      distinct = (refl, (refl, (refl, tt)));
      no_seq = refl;
      kind = refl;
      actor = refl;
      markings = λ xs e. cc;
    },
    tt,
  ),
)

verify-build_example : verify_chain toy people (map obj built) ≡ []
verify-build_example = verify-build toy toy-IsDigest people bares built bares-IsAuthored built_lem

abbrev second_first : List Value
second_first = elim built [ [] ↦ [] | e ∷ es ↦ map obj es ]

-- A chain without its first event is refused.
cut_chain : is_nil (verify_chain toy people second_first) ≡ false
unfolding chain_code
cut_chain = refl

verify_chain_iff_example :
    (verify_chain toy people (map obj built) ≡ [])
    ↔ IsChain toy (participant_actor_ids people) 0 genesis_prev (map obj built)
verify_chain_iff_example = verify_chain_iff toy toy-IsDigest people (map obj built)

abbrev first_built : Value
first_built = elim built [ [] ↦ null | e ∷ es ↦ obj e ]

members_of : (o : Fields) → assert_i_json (obj o) ≡ none → MembersIJson o
unfolding IsIJson
members_of o h = (assert_i_json_iff (obj o)).0 h

bares-IsBare : All IsBare bares
unfolding chain_code
bares-IsBare = (
  record {
    distinct = (refl, (refl, (refl, tt)));
    members = members_of (event "decision") refl;
    unsealed = refl;
  },
  (
    record {
      distinct = (refl, (refl, (refl, tt)));
      members = members_of (event "observation") refl;
      unsealed = refl;
    },
    tt,
  ),
)

build_total_example :
    (events : List Fields) × (build_chain_events toy bares ≡ ok events)
    × (length events ≡ length bares)
    × IsSealedFrom toy genesis_prev events
build_total_example =
    build_total toy toy-IsDigest (λ v h. (print v, refl)) bares (omega arith) bares-IsBare
