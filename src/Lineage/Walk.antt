-- ===== src/Lineage/Walk.antt =====
-- The `while (changed)` loop of `evaluateLineage` of sdk-js/src/lineage.js.
use capsules_protocol.Json.{Value, arr, Items, at, elements}
use capsules_protocol.Platform.{Platform}
use capsules_protocol.Manifest.Predecessors.{predecessors_problems}
use capsules_protocol.Verifier.{is_text, lineage_eras}
use capsules_protocol.Verifier.Verdict.{
  unverified, predecessor_unverifiable, verified, mismatch, predecessor_invalid,
}
use capsules_protocol.Lineage.{
  Kind, verifiable, encrypted, unsupported_version, unsupported_profile, unreadable, Summary,
  fails_own_verification, different_seal, Entry, make_entry, Artifact, equality_diffs,
}
use capsules_protocol.Prelude.{
  leb, if◌then◌else◌, Str, codes, contains, is_nil, ℕ, zero, suc, ◌+◌, Bool, true, false, ◌&&◌, not,
  Option, none, some, List, [], ◌∷◌, ◌++◌, map,
}

pub data Note : Type 0 where
  era_without_lineage : Str → Note
  not_countersigned : Note
  encrypted_predecessor unsupported_predecessor alternate_profile : Value → Note
  ends_walk : Value → Note
  cap_reached : ℕ → Note
  unread_artifact unmatched_artifact : ℕ → Note
  declared_not_verified : Value → ℕ → Note
  verified_to : ℕ → Note

-- What the rounds change, next to the artifacts: the entries, the hashes walked, the notes.
pub record State : Type 0 where
  pub entries : List Entry
  pub walked : List Str
  pub notes : List Note

abbrev pub is_open : Entry → Bool
is_open e = elim e.status [ unverified ↦ true | _ ↦ false ]

-- The entry that `openEntry` finds, and the entries once it is changed.
unfoldable pub change_first :
    (Entry → Bool) → (Entry → Entry) → List Entry → Option (Entry × List Entry)
change_first test change [] = none
change_first test change (e ∷ es) =
    let rest = change_first test change es in
    if is_open e && test e
    then some (e, change e ∷ es)
    else elim rest [ none ↦ none | some (f, fs) ↦ some (f, e ∷ fs) ]

abbrev pub has_id : Str → Entry → Bool
has_id id e = is_text (some e.capsule_id) id

abbrev pub has_hash : Str → Entry → Bool
has_hash h e = is_text (some e.manifest_hash) h

abbrev pub unverifiable : Kind → Entry → Entry
unverifiable k e = record e { status = predecessor_unverifiable; reason = some k }

abbrev count_of : Option Summary → ℕ
count_of none = 0
count_of (some s) = s.error_count

-- The entry once a verifiable artifact is assigned to it. Where the comparison throws, `place` ends
-- the walk, and the entry is read no more.
unfoldable pub assign : Artifact → Entry → Entry
assign a e = elim (equality_diffs e a) [
  | none ↦ e
  | some diffs ↦
      if not a.is_ok
      then record e {
        artifact = a.summary;
        status = predecessor_invalid;
        errors = e.errors ++ fails_own_verification a.version (count_of a.summary) ∷ diffs;
      }
      else if not (is_nil diffs)
      then record e {
        artifact = a.summary;
        status = mismatch;
        errors = e.errors ++ different_seal ∷ diffs;
      }
      else record e { artifact = a.summary; status = verified }
]

abbrev note_of : Kind → Entry → Note
note_of encrypted e = encrypted_predecessor e.capsule_id
note_of unsupported_version e = unsupported_predecessor e.capsule_id
note_of k e = alternate_profile e.capsule_id

-- An artifact that is not verified goes to the first open entry with the id that it claims.
unfoldable pub place_unverified : Artifact → State → Option State
place_unverified a s = elim a.claimed_id [
  | none ↦ none
  | some id ↦ elim (change_first (has_id id) (unverifiable a.kind) s.entries) [
    | none ↦ none
    | some (e, es) ↦ some (record s { entries = es; notes = s.notes ++ note_of a.kind e ∷ [] })
  ]
]

-- The entry for an artifact: the first open one with its id and its hash, or else with its id.
unfoldable pub match_verifiable : Artifact → List Entry → Option (Entry × List Entry)
match_verifiable a es = elim a.recomputed_id [
  | none ↦ none
  | some id ↦
      let by_id = change_first (has_id id) (assign a) es in
      elim a.recomputed_hash [
        | none ↦ by_id
        | some h ↦ elim (change_first (λ e. has_id id e && has_hash h e) (assign a) es) [
          | none ↦ by_id
          | some found ↦ some found
        ]
      ]
]

abbrev pub children : ℕ → Items → List Entry
children hop vs = map (make_entry hop) (elements vs)

-- `LINEAGE_ERAS.has(version)`, `eraDefinesLineage(version)`.
abbrev pub era_defines_lineage : Option Str → Bool
era_defines_lineage none = false
era_defines_lineage (some v) = contains lineage_eras v

-- What a declaration adds, within the cap on hops.
unfoldable pub declare : ℕ → Entry → Value → State → State
declare hops e (arr vs) s =
    if leb (e.hop + 1) hops
    then record s { entries = s.entries ++ children (e.hop + 1) vs }
    else record s { notes = s.notes ++ cap_reached hops ∷ [] }
declare hops e d s = s

-- The declaration of a hop that is the declared artifact, walked for the first time.
unfoldable pub expand : Platform → ℕ → Artifact → Entry → State → State
expand p hops a e s = elim (at (some a.manifest) (codes "predecessors")) [
  | none ↦ s
  | some d ↦
      if not (era_defines_lineage a.version)
      then record s { notes = s.notes ++ ends_walk e.capsule_id ∷ [] }
      else if is_nil (predecessors_problems p d)
      then declare hops e d s
      else s
]

abbrev pub walk_on : Platform → ℕ → Artifact → Entry → State → State
walk_on p hops a e s = elim a.recomputed_hash [
  | none ↦ s
  | some h ↦
      if has_hash h e && not (contains s.walked h)
      then expand p hops a e (record s { walked = h ∷ s.walked })
      else s
]

-- What comes of an artifact in one round: it stays unassigned, its comparison throws, or it is
-- assigned.
pub data Placing : Type 0 where
  unplaced threw : Placing
  moved : State → Placing

unfoldable pub place_verifiable : Platform → ℕ → Artifact → State → Placing
place_verifiable p hops a s = elim (match_verifiable a s.entries) [
  | none ↦ unplaced
  | some (e, es) ↦ elim (equality_diffs e a) [
    | none ↦ threw
    | some diffs ↦ moved (walk_on p hops a e (record s { entries = es }))
  ]
]

abbrev pub moved_or_not : Option State → Placing
moved_or_not none = unplaced
moved_or_not (some t) = moved t

-- One artifact in one round.
unfoldable pub place : Platform → ℕ → Artifact → State → Placing
place p hops a s = elim a.kind [
  | unreadable ↦ unplaced
  | verifiable ↦ place_verifiable p hops a s
  | encrypted ↦ moved_or_not (place_unverified a s)
  | unsupported_version ↦ moved_or_not (place_unverified a s)
  | unsupported_profile ↦ moved_or_not (place_unverified a s)
]

-- One round of the `while`: whether it changed something, the artifacts, the state.
pub record Round : Type 0 where
  pub changed : Bool
  pub artifacts : List Artifact
  pub state : State

abbrev pub keep_in : Artifact → Round → Round
keep_in a r = record r { artifacts = a ∷ r.artifacts }

abbrev pub place_in : Artifact → Round → Round
place_in a r = record r { changed = true; artifacts = record a { assigned = true } ∷ r.artifacts }

abbrev pub kept : Artifact → Option Round → Option Round
kept a none = none
kept a (some r) = some (keep_in a r)

abbrev pub placed : Artifact → Option Round → Option Round
placed a none = none
placed a (some r) = some (place_in a r)

-- `none` where a comparison throws.
unfoldable pub round : Platform → ℕ → List Artifact → State → Option Round
round p hops [] s = some (record { changed = false; artifacts = []; state = s })
round p hops (a ∷ as') s =
    let skip = round p hops as' s in
    let tried : Option Round = elim (place p hops a s) [
      | unplaced ↦ kept a skip
      | threw ↦ none
      | moved t ↦ placed a (round p hops as' t)
    ] in
    if a.assigned then kept a skip else tried

-- A run on fuel that may throw.
pub data Run {ℓ} (A : Type ℓ) : Type ℓ where
  out_of_fuel thrown : Run A
  ended : A → Run A

-- The rounds, on fuel; each round but the last assigns an artifact, so one more than the artifacts
-- is enough.
unfoldable pub rounds : Platform → ℕ → ℕ → List Artifact → State → Run (List Artifact × State)
rounds p hops zero as' s = out_of_fuel
rounds p hops (suc fuel) as' s = elim (round p hops as' s) [
  | none ↦ thrown
  | some r ↦
      let next = rounds p hops fuel r.artifacts r.state in
      if r.changed then next else ended (r.artifacts, r.state)
]
