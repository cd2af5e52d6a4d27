-- ===== src/Lineage/Report.antt =====
-- What `evaluateLineage` of sdk-js/src/lineage.js reports, and what it leaves to the verdict.
use capsules_protocol.Lineage.{Artifact}
use capsules_protocol.Lineage.Classify.{Input, Host, classify_artifact}
use capsules_protocol.Prelude.{◌≡◌, false, List, ◌∷◌}

-- What an input of the pool is classified as, whether assigned or not.
pub data IsSupplied (h : Host) (a : Artifact) : List Input → Type 0 where
  first :
      {i : Input} {is' : List Input}
      → record (classify_artifact h i) { assigned = false } ≡ record a { assigned = false }
      → IsSupplied h a (i ∷ is')
  later : {i : Input} {is' : List Input} → IsSupplied h a is' → IsSupplied h a (i ∷ is')

module _ (h : Host) (pool : List Input) where
  abbrev pub FromPool : Artifact → Type 0
  FromPool a = IsSupplied h a pool
