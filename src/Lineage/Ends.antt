-- ===== src/Lineage/Ends.antt =====
-- The walk of sdk-js/src/lineage.js ends.
use capsules_protocol.Platform.{Platform}
use capsules_protocol.Json.{str}
use capsules_protocol.Verifier.Verdict.{unverified}
use capsules_protocol.Lineage.{verifiable, unreadable, Entry, Artifact, equality_diffs}
use capsules_protocol.Lineage.Walk.{State, Round}
use capsules_protocol.Prelude.{
  if◌then◌else◌, All, Str, ℕ, ◌+◌, ◌≤◌, ◌<◌, ◌≡◌, ◌≢◌, ◌⊎◌, true, none, some, List, [], ◌∷◌,
}

-- The artifacts still to be assigned.
abbrev pub unassigned : List Artifact → ℕ
unassigned [] = 0
unassigned (a ∷ as') = (if a.assigned then 0 else 1) + unassigned as'

-- No artifact loses its place, and where something changed, one more has a place.
abbrev IsShorter : List Artifact → Round → Type 0
IsShorter as' r =
    (unassigned r.artifacts ≤ unassigned as')
    × (r.changed ≡ true → unassigned r.artifacts < unassigned as')

-- The id under which an artifact is looked for: of a verifiable one the recomputed id, of another
-- readable one the id that it claims.
abbrev pub IsIdOf : Artifact → Str → Type 0
IsIdOf a id =
    ((a.kind ≡ verifiable) × (a.recomputed_id ≡ some id))
    ⊎ ((a.kind ≢ verifiable) × (a.kind ≢ unreadable) × (a.claimed_id ≡ some id))

-- No entry that is still unverified declares the id.
abbrev pub NoOpen : Str → List Entry → Type 0
NoOpen id es = All (λ e. e.status ≡ unverified → e.capsule_id ≢ str id) es

-- The comparison of one of the artifacts, a verifiable one, with some entry throws.
abbrev pub HasThrowing : List Artifact → Type 0
HasThrowing [] = ⊥
HasThrowing (a ∷ as') =
    ((a.kind ≡ verifiable) × ((e : Entry) × (equality_diffs e a ≡ none))) ⊎ HasThrowing as'

-- Each artifact has a place, or no unverified entry declares its id.
abbrev pub Settled : State → List Artifact → Type 0
Settled s [] = Unit
Settled s (a ∷ as') =
    ((a.assigned ≡ true) ⊎ ((id : Str) → IsIdOf a id → NoOpen id s.entries)) × Settled s as'
