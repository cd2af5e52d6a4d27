-- ===== src/Examples/Versions.antt =====
-- Versions and domain strings at concrete inputs.
use capsules_protocol.Json.{str}
use capsules_protocol.Bytes.{utf8}
use capsules_protocol.Versions.{
  VersionStatus, known, unknown_newer, unknown_older, invalid, classify_version, id_domain,
  provenance_domain,
}
use capsules_protocol.Versions.Classify.{print_version, era_status, classify_version_cases}
use capsules_protocol.Versions.Domains.{provenance_domain_separates, id_domain_separates}
use capsules_protocol.Prelude.{
  codes, str_eq, contains, all_in, cut_at, ℕ, ◌≡◌, refl, ◌≢◌, ◌⊎◌, none, some, List, [], ◌∷◌, ◌++◌,
  arith,
}

statuses :
    ((classify_version (some (str (codes "0.7")))).status ≡ known)
    × ((classify_version (some (str (codes "0.10")))).status ≡ unknown_newer)
    × ((classify_version (some (str (codes "0.5")))).status ≡ unknown_older)
    × ((classify_version (some (str (codes "0.07")))).status ≡ invalid)
    × ((classify_version none).status ≡ invalid)
unfolding classify_version capsules_protocol.Versions.parse_version cut_at
    capsules_protocol.Versions.numeral all_in contains str_eq capsules_protocol.Versions.value_from
statuses = (refl, refl, refl, refl, refl)

classify_version_cases_example :
    ((a : ℕ) × (b : ℕ) × (codes "0.7" ≡ print_version a b)
      × ((classify_version (some (str (codes "0.7")))).status ≡ era_status a b))
    ⊎ (((classify_version (some (str (codes "0.7")))).status ≡ invalid)
        × ((a b : ℕ) → codes "0.7" ≢ print_version a b))
classify_version_cases_example = classify_version_cases (codes "0.7")

provenance_domain_separates_example :
    (codes "0.7" ≡ codes "0.7")
    × (utf8 (codes "originator") ≡ utf8 (codes "originator"))
    × (◌≡◌ {A = List ℕ} (123 ∷ []) (123 ∷ []))
provenance_domain_separates_example =
    provenance_domain_separates (codes "0.7") (codes "0.7") (codes "originator")
      (codes "originator") (123 ∷ []) (123 ∷ []) (omega arith) (omega arith) (omega arith)
      (omega arith) refl

id_domain_separates_example :
    (id_domain (codes "0.6") ++ 1 ∷ [] ≡ id_domain (codes "0.7") ++ 1 ∷ []
      → (codes "0.6" ≡ codes "0.7") × (◌≡◌ {A = List ℕ} (1 ∷ []) (1 ∷ [])))
    × (id_domain (codes "0.6") ++ 1 ∷ []
        ≢ provenance_domain (codes "0.7") (codes "witness") ++ 1 ∷ [])
id_domain_separates_example =
    id_domain_separates (codes "0.6") (codes "0.7") (codes "witness") (1 ∷ []) (1 ∷ [])
      (omega arith) (omega arith)
