-- ===== src/Lineage/Evaluate.antt =====
-- `evaluateLineage` of sdk-js/src/lineage.js.
use capsules_protocol.Json.{Value, arr, Items, nil, Fields, get}
use capsules_protocol.Manifest.Predecessors.{predecessors_problems}
use capsules_protocol.Verifier.{VerifyError, lineage_problem}
use capsules_protocol.Verifier.Verdict.{
  unverified, predecessor_unverifiable, verified, mismatch, predecessor_invalid,
}
use capsules_protocol.Lineage.{unreadable, Entry, Artifact}
use capsules_protocol.Lineage.Classify.{Input, Host, classify_artifact}
use capsules_protocol.Lineage.Walk.{
  Note, era_without_lineage, not_countersigned, unread_artifact, unmatched_artifact,
  declared_not_verified, verified_to, State, Run, out_of_fuel, thrown, ended, children,
  era_defines_lineage, rounds,
}
use capsules_protocol.Prelude.{
  leb, ◌==◌, if◌then◌else◌, Str, codes, length, is_nil, any, every, ℕ, zero, suc, ◌+◌, Bool, true,
  false, ◌||◌, not, none, some, List, [], ◌∷◌, ◌++◌, map, concat,
}

pub record Lineage : Type 0 where
  pub declared : Bool
  pub ok : Bool
  pub verified_depth : ℕ
  pub entries : List Entry

-- What is returned, and what is pushed to the errors and the notes of the caller.
pub record Evaluated : Type 0 where
  pub lineage : Lineage
  pub errors : List VerifyError
  pub notes : List Note

abbrev pub is_verified : Entry → Bool
is_verified e = elim e.status [ verified ↦ true | _ ↦ false ]

abbrev pub contradicts : Entry → Bool
contradicts e = elim e.status [ mismatch ↦ true | predecessor_invalid ↦ true | _ ↦ false ]

abbrev pub some_at : ℕ → List Entry → Bool
some_at hop = any (λ e. e.hop == hop)

abbrev pub verified_within : ℕ → List Entry → Bool
verified_within hop = every (λ e. not (leb e.hop hop) || is_verified e)

-- The `for` over the hops behind `depth`, on fuel.
unfoldable pub depth_from : List Entry → ℕ → ℕ → ℕ
depth_from es zero depth = depth
depth_from es (suc fuel) depth =
    let rest = depth_from es fuel (depth + 1) in
    if not (some_at (depth + 1) es)
    then depth
    else if not (verified_within (depth + 1) es)
    then depth
    else rest

abbrev pub top_hop : List Entry → ℕ
top_hop [] = 0
top_hop (e ∷ es) = e.hop + top_hop es

-- `verifiedDepth`; no entry stands behind the sum of the hops, which is fuel enough.
unfoldable pub verified_depth : List Entry → ℕ
verified_depth es = depth_from es (top_hop es) 0

abbrev artifact_note : ℕ → Artifact → List Note
artifact_note i a =
    let read : List Note = elim a.kind [
      | unreadable ↦ unread_artifact i ∷ []
      | _ ↦ unmatched_artifact i ∷ []
    ] in
    if a.assigned then [] else read

abbrev artifact_notes : ℕ → List Artifact → List Note
artifact_notes i [] = []
artifact_notes i (a ∷ as') = artifact_note i a ++ artifact_notes (suc i) as'

abbrev entry_note : Entry → List Note
entry_note e = elim e.status [
  | unverified ↦ declared_not_verified e.capsule_id e.hop ∷ []
  | predecessor_unverifiable ↦ declared_not_verified e.capsule_id e.hop ∷ []
  | _ ↦ []
]

abbrev depth_note : ℕ → List Note
depth_note zero = []
depth_note (suc d) = verified_to (suc d) ∷ []

-- Behind the rounds.
unfoldable pub conclude_lineage : List Artifact × State → Evaluated
conclude_lineage r =
    let es = (r.1).entries in
    let depth = verified_depth es in
    record {
      lineage = record {
        declared = true;
        ok = not (any contradicts es);
        verified_depth = depth;
        entries = es;
      };
      errors = [];
      notes =
          (r.1).notes
          ++ (artifact_notes 1 (r.0) ++ (concat (map entry_note es) ++ depth_note depth));
    }

abbrev pub walk_start : Items → State
walk_start vs = record { entries = children 1 vs; walked = []; notes = not_countersigned ∷ [] }

abbrev pub walk_pool : Host → ℕ → List Input → Items → Run (List Artifact × State)
walk_pool h hops pool vs =
    rounds h.platform hops (length pool + 1) (map (classify_artifact h) pool) (walk_start vs)

abbrev pub declared_items : Value → Items
declared_items (arr vs) = vs
declared_items _ = nil

abbrev pub undeclared : List Note → Evaluated
undeclared notes = record {
  lineage = record { declared = false; ok = true; verified_depth = 0; entries = [] };
  errors = [];
  notes = notes;
}

abbrev pub malformed : List VerifyError → Evaluated
malformed errors = record {
  lineage = record { declared = true; ok = false; verified_depth = 0; entries = [] };
  errors = errors;
  notes = [];
}

-- `evaluateLineage(...)` of a manifest of an observed version, a pool and a cap on hops. A
-- declaration without problems is an array.
unfoldable pub evaluate_lineage : Host → ℕ → List Input → Fields → Str → Run Evaluated
evaluate_lineage h hops pool m version = elim (get m (codes "predecessors")) [
  | none ↦ ended (undeclared [])
  | some d ↦
      let problems = predecessors_problems h.platform d in
      if not (era_defines_lineage (some version))
      then ended (undeclared (era_without_lineage version ∷ []))
      else if not (is_nil problems)
      then ended (malformed (map lineage_problem problems))
      else elim (walk_pool h hops pool (declared_items d)) [
        | out_of_fuel ↦ out_of_fuel
        | thrown ↦ thrown
        | ended r ↦ ended (conclude_lineage r)
      ]
]
