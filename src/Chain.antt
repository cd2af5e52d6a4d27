-- ===== src/Chain.antt =====
-- sdk-js/src/chain.js: the grammar of events, building a chain and walking it.
pub mod Build
pub mod Hashing
pub mod Walk
pub mod Assembled
pub mod Total
pub mod RoundTrip
pub mod Sound
pub mod Complete
pub mod Evidence
use capsules_protocol.Json.{
  Value, null, num, str, arr, obj, Items, nil, cons, Fields, num_is, get, elements, at,
}
use capsules_protocol.Bytes.{Bytes}
use capsules_protocol.Platform.{Platform}
use capsules_protocol.Canonical.{CanonError, HexError, hex_to_bytes, jcs}
use capsules_protocol.Prelude.{
  ltb, leb, ◌==◌, if◌then◌else◌, ==_iff, Bool-cases, Option-cases, &&_both, and_true, Result, ok,
  err, ◌>>=◌, Str, codes, str_eq, str_eq_refl, str_eq_sound, str_eq_iff, contains, all_in, is_digit,
  is_lower, is_upper, is_lower_hex, is_hex, starts_with, cut_at, lower_code, to_lower, str_compare,
  length, is_nil, All, any, every, keep, length-append, All-append, append-eq-nil, ℕ, zero, suc,
  ◌+◌, ◌-◌, ◌*◌, ◌/◌, ◌%◌, ◌^◌, ◌≤◌, ◌<◌, String, ◌≡◌, refl, sym, ap, ◌∙◌, ◌≢◌, ◌↔◌, ◌⊎◌, inl, inr,
  Bool, true, false, ◌&&◌, ◌||◌, not, Option, none, some, List, [], ◌∷◌, ◌++◌, map, append_assoc,
  append-nil, arith,
}

abbrev pub zeros : ℕ → Bytes
zeros zero = []
zeros (suc n) = 0 ∷ zeros n

abbrev pub genesis_prev : Bytes
genesis_prev = zeros 32

abbrev pub event_kinds : List Str
event_kinds =
    codes "decision"
    ∷ codes "observation"
    ∷ codes "mutation"
    ∷ codes "session"
    ∷ codes "checkpoint"
    ∷ []

abbrev pub host_actor : Str
host_actor = codes "system:host"

-- `set.has(v)` of a set of strings.
abbrev pub has : List Str → Option Value → Bool
has set (some (str s)) = contains set s
has set _ = false

unfoldable pub is_valid_event_kind : Option Value → Bool
is_valid_event_kind v = has event_kinds v

abbrev pub actor_namespaces : List Str
actor_namespaces = codes "human" ∷ codes "ai" ∷ codes "system" ∷ codes "capsule" ∷ []

-- `isValidActorId` of a string: the text before the first colon is a namespace, and text follows.
unfoldable pub is_valid_actor_id : Str → Bool
is_valid_actor_id id = elim (cut_at b':' id) [
  | none ↦ false
  | some (namespace, rest) ↦
      not (is_nil namespace) && (not (is_nil rest) && contains actor_namespaces namespace)
]

-- The actor id that an entry of `participants` gives.
abbrev pub entry_id : Value → Option Value
entry_id (str s) = some (str s)
entry_id (obj o) = get o (codes "actor_id")
entry_id _ = none

pub data ActorProblem : Type 0 where
  not_a_string : ℕ → ActorProblem
  bad_namespace : ℕ → Str → ActorProblem

abbrev id_problems : ℕ → Option Value → List ActorProblem
id_problems i (some (str s)) = if is_valid_actor_id s then [] else bad_namespace i s ∷ []
id_problems i _ = not_a_string i ∷ []

problems_from : ℕ → Items → List ActorProblem
problems_from i nil = []
problems_from i (cons v vs) = id_problems i (entry_id v) ++ problems_from (suc i) vs

-- `participantActorIdProblems`.
unfoldable pub participant_actor_id_problems : Option Value → List ActorProblem
unfolding problems_from
participant_actor_id_problems (some (arr vs)) = problems_from 0 vs
participant_actor_id_problems _ = []

abbrev with_id : Option Value → List Str → List Str
with_id (some (str s)) ids = s ∷ ids
with_id _ ids = ids

ids_of : Items → List Str
ids_of nil = []
ids_of (cons v vs) = with_id (entry_id v) (ids_of vs)

-- `participantActorIds`: a set, of which the source reads the size and the members.
unfoldable pub participant_actor_ids : Option Value → List Str
unfolding ids_of
participant_actor_ids (some (arr vs)) = ids_of vs
participant_actor_ids _ = []

-- `[A-Za-z0-9_-]`
abbrev pub is_segment_char : ℕ → Bool
is_segment_char c = is_upper c || is_lower c || is_digit c || c == b'_' || c == b'-'

-- `segment` behind a full stop; the flag says that a character of it was read.
unfoldable pub is_segments : Bool → Str → Bool
is_segments started [] = started
is_segments started (c ∷ s) =
    let inside = is_segments true s in
    let next = started && is_segments false s in
    if is_segment_char c then inside else if c == b'.' then next else false

unfoldable pub is_path_tail : Str → Bool
is_path_tail [] = false
is_path_tail (c ∷ s) = c == b'.' && is_segments false s

-- The text behind a prefix.
unfoldable pub strip : Str → Str → Option Str
strip [] s = some s
strip (p ∷ ps) [] = none
strip (p ∷ ps) (c ∷ s) = let rest = strip ps s in if p == c then rest else none

-- `isValidUntrustedPayloadPath`: `/^payload(\.[A-Za-z0-9_-]+)+$/`.
unfoldable pub is_valid_untrusted_payload_path : Value → Bool
is_valid_untrusted_payload_path (str s) = elim (strip (codes "payload") s) [
  | none ↦ false
  | some rest ↦ is_path_tail rest
]
is_valid_untrusted_payload_path _ = false

pub data HashError : Type 0 where
  has_hash : HashError
  bad_prev_hash : HashError
  bad_hex : HexError → HashError
  not_canonical : CanonError → HashError

abbrev pub of_hex : Result HexError Bytes → Result HashError Bytes
of_hex (ok b) = ok b
of_hex (err e) = err (bad_hex e)

abbrev pub of_canon : Result CanonError Bytes → Result HashError Bytes
of_canon (ok b) = ok b
of_canon (err e) = err (not_canonical e)

-- A string of 64 code units.
abbrev pub text64 : Option Value → Option Str
text64 (some (str s)) = if length s == 64 then some s else none
text64 _ = none

abbrev pub digest : Platform → Fields → Option Str → Result HashError Bytes
digest p event none = err bad_prev_hash
digest p event (some h) = do
  prev ← of_hex (hex_to_bytes h)
  canon ← of_canon (jcs p (obj event))
  ok (p.sha256 (prev ++ canon))

-- `hashEvent(event)`.
unfoldable pub hash_event : Platform → Fields → Result HashError Bytes
hash_event p event = elim (get event (codes "hash")) [
  | some h ↦ err has_hash
  | none ↦ digest p event (text64 (get event (codes "prev_hash")))
]
