-- ===== src/Verifier/Surface.antt =====
-- The verdict surface that `deriveVerdict` gives, on every branch.
use capsules_protocol.Versions.{VersionStatus}
use capsules_protocol.Verifier.Verdict.{
  valid_capsule, invalid_capsule, unsupported_capsule, Facts, VerdictSurface, verdict_of,
  derive_verdict,
}
use capsules_protocol.Prelude.{ℕ, ◌≡◌, ◌≢◌, true, false, Option, none, [], arith}

-- What each verdict goes with.
abbrev pub IsCoherent : Facts → VerdictSurface → Type 0
IsCoherent f s = elim s.verdict [
  | valid_capsule ↦ (f.is_ok ≡ true) × (s.reason ≡ none)
  | invalid_capsule ↦ (f.is_ok ≡ false) × (s.reason ≡ none) × (s.qualifiers ≡ [])
  | unsupported_capsule ↦ (s.reason ≢ none) × (s.qualifiers ≡ [])
]

-- A valid verdict goes with an ok result, an invalid one with a result that is not, and both give no
-- reason; an unsupported one gives a reason; no verdict but valid has a qualifier.
pub derive_verdict-IsCoherent :
    (refusal : Option VersionStatus) (size : Option ℕ) (f : Facts)
    → IsCoherent f (derive_verdict refusal size f)
unfolding derive_verdict verdict_of
derive_verdict-IsCoherent refusal size f = ground arith
