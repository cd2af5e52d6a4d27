-- ===== src/Chain/Walk.antt =====
-- `verifyChain` and `firstAndEntryHash`.
use capsules_protocol.Json.{
  Value, null, num, str, arr, obj, Items, nil, cons, Fields, of_ℕ, num_is, get, without,
}
use capsules_protocol.Bytes.{Bytes, to_hex, from_hex}
use capsules_protocol.Platform.{Platform}
use capsules_protocol.Canonical.{is_hex64}
use capsules_protocol.Chain.{
  genesis_prev, has, event_kinds, host_actor, participant_actor_ids,
  is_valid_untrusted_payload_path, HashError, text64, hash_event,
}
use capsules_protocol.Prelude.{
  if◌then◌else◌, Result, ok, err, Str, codes, str_eq, is_nil, ℕ, suc, ◌+◌, Bool, true, false, ◌&&◌,
  not, Option, none, some, List, [], ◌∷◌, ◌++◌, map,
}

pub data ChainError : Type 0 where
  not_an_object : ChainError
  actor_not_bound : Option Value → ChainError
  kind_not_known : Option Value → ChainError
  seq_expected : ℕ → ChainError
  markings_not_array : ChainError
  bad_marking : ℕ → Value → ChainError
  prev_hash_missing : ChainError
  prev_hash_not_canonical : ChainError
  prev_hash_mismatch : Str → Str → ChainError
  hash_missing : ChainError
  hash_not_canonical : ChainError
  recompute_failed : HashError → ChainError
  hash_mismatch : Str → Str → ChainError

abbrev pub error_if : Bool → ChainError → List ChainError
error_if true e = e ∷ []
error_if false e = []

abbrev pub is_host : Option Value → Bool
is_host (some (str s)) = str_eq s host_actor
is_host _ = false

abbrev pub seq_is : Option Value → ℕ → Bool
seq_is (some (num n)) k = num_is n k
seq_is _ k = false

marking_errors : ℕ → Items → List ChainError
marking_errors i nil = []
marking_errors i (cons v vs) =
    error_if (not (is_valid_untrusted_payload_path v)) (bad_marking i v)
    ++ marking_errors (suc i) vs

unfoldable pub markings_errors : Option Value → List ChainError
unfolding marking_errors
markings_errors none = []
markings_errors (some (arr vs)) = marking_errors 0 vs
markings_errors (some v) = markings_not_array ∷ []

-- The rules of one event that do not stop its check: actor, kind, seq, markings.
unfoldable pub rule_errors : List Str → ℕ → Fields → List ChainError
rule_errors ids i e =
    let actor = get e (codes "actor") in
    let kind = get e (codes "kind") in
    error_if (not (is_nil ids) && (not (is_host actor) && not (has ids actor)))
      (actor_not_bound actor)
    ++ (error_if (not (has event_kinds kind)) (kind_not_known kind)
        ++ (error_if (not (seq_is (get e (codes "seq")) (i + 1))) (seq_expected (i + 1))
            ++ markings_errors (get e (codes "untrusted_payload_fields"))))

abbrev recomputed : Str → Bytes → Result HashError Bytes → List ChainError × Bytes
recomputed stored prev (err x) = (recompute_failed x ∷ [], prev)
recomputed stored prev (ok h) =
    (error_if (not (str_eq (to_hex h) stored)) (hash_mismatch stored (to_hex h)), from_hex stored)

-- The stored hash, and the hash that the next event has to name.
unfoldable pub seal_errors : Platform → Bytes → Fields → Option Str → List ChainError × Bytes
seal_errors p prev e none = (hash_missing ∷ [], prev)
seal_errors p prev e (some stored) =
    let recheck = recomputed stored prev (hash_event p (without e (codes "hash"))) in
    if is_hex64 stored then recheck else (hash_not_canonical ∷ [], prev)

abbrev after : List ChainError → List ChainError × Bytes → List ChainError × Bytes
after before (errors, prev) = (before ++ errors, prev)

unfoldable pub link_errors : Platform → Bytes → Fields → Option Str → List ChainError × Bytes
link_errors p prev e none = (prev_hash_missing ∷ [], prev)
link_errors p prev e (some named) =
    let linked =
      after (error_if (not (str_eq named (to_hex prev))) (prev_hash_mismatch named (to_hex prev)))
        (seal_errors p prev e (text64 (get e (codes "hash")))) in
    if is_hex64 named then linked else (prev_hash_not_canonical ∷ [], prev)

-- One round of the walk: the errors of the event at position `i`, and the next `prev`.
unfoldable pub verify_event : Platform → List Str → ℕ → Bytes → Value → List ChainError × Bytes
verify_event p ids i prev (obj e) =
    after (rule_errors ids i e) (link_errors p prev e (text64 (get e (codes "prev_hash"))))
verify_event p ids i prev v = (not_an_object ∷ [], prev)

-- The `seq` under which the errors of an event are reported: its own, or its position.
abbrev reported_seq : ℕ → Value → Value
reported_seq i (obj e) = elim (get e (codes "seq")) [
  | none ↦ of_ℕ (i + 1)
  | some v ↦ or_position i v
]
  where
    or_position : ℕ → Value → Value
    or_position i null = of_ℕ (i + 1)
    or_position i v = v
reported_seq i v = of_ℕ (i + 1)

unfoldable pub walk : Platform → List Str → ℕ → Bytes → List Value → List (Value × ChainError)
walk p ids i prev [] = []
walk p ids i prev (v ∷ vs) =
    let (errors, next) = verify_event p ids i prev v in
    map (λ x. (reported_seq i v, x)) errors ++ walk p ids (suc i) next vs

-- `verifyChain(events, { participants })`: the list of errors, empty for `ok`. Where the message on
-- a wrong `seq` throws (`seqs_print` of Verifier/Messages), the list holds that error.
unfoldable pub verify_chain : Platform → Option Value → List Value → List (Value × ChainError)
verify_chain p participants events =
    walk p (participant_actor_ids participants) 0 genesis_prev events

abbrev pub hash_of : Value → Option Value
hash_of (obj e) = get e (codes "hash")
hash_of v = none

unfoldable pub last_from : Value → List Value → Value
last_from v [] = v
last_from v (w ∷ vs) = last_from w vs

-- `firstAndEntryHash`; `none` where it throws on an empty chain.
unfoldable pub first_and_entry_hash : List Value → Option (Option Value × Option Value)
first_and_entry_hash [] = none
first_and_entry_hash (v ∷ vs) = some (hash_of v, hash_of (last_from v vs))
