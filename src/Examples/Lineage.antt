-- ===== src/Examples/Lineage.antt =====
-- A declaration of one predecessor, and a pool that has it.
use capsules_protocol.Json.{Value, null, str, arr, obj, nil, cons, Fields, end, field, get, at}
use capsules_protocol.Canonical.{is_hex64}
use capsules_protocol.Canonical.Members.{
  skip_space, scan_string, parsed_unit, behind_colon, escaped_unit, skip_scalar, after_value,
  scan_name, scan_value, assert_no_duplicate_members, parse_text_strict, parse_json_strict,
}
use capsules_protocol.Versions.{
  classify_version, parse_version, numeral, status_of, value_from, id_domain,
}
use capsules_protocol.Manifest.Predecessors.{
  predecessors_problems, entries_problems, entry_problems, unknown_members, identity_problem,
  derived_entry_id, cited_problems, seen_at, predecessor_identity_checkable,
}
use capsules_protocol.Zip.Unpack.{unpack_zip}
use capsules_protocol.Zip.Strict.{strict_entries}
use capsules_protocol.Zip.Scan.{scan_central_directory}
use capsules_protocol.Examples.Envelope.{envelope_code}
use capsules_protocol.Manifest.{
  compute_capsule_id, first_hash_raw, sha256_hex, declared_alternate_profile_id, file,
  manifest_hash,
}
use capsules_protocol.Verifier.{same}
use capsules_protocol.Lineage.{
  verification_error_count, equality_diffs, Entry, hop_cap_default, make_entry, or_null,
}
use capsules_protocol.Lineage.Classify.{
  Input, reader, archive, Host, classify_artifact, classify_documents, recompute_id,
}
use capsules_protocol.Lineage.Walk.{
  change_first, assign, place_unverified, match_verifiable, declare, expand, place_verifiable,
  place, round, rounds, Run, ended,
}
use capsules_protocol.Lineage.Evaluate.{
  Evaluated, some_at, verified_within, verified_depth, depth_from, conclude_lineage,
  evaluate_lineage, undeclared,
}
use capsules_protocol.Lineage.Depth.{verified_depth_iff}
use capsules_protocol.Examples.Toy.{toy}
use capsules_protocol.Examples.Verifier.{sealed_manifest, sealed_envelope}
use capsules_protocol.Examples.Zip.{zipper}
use capsules_protocol.Examples.Reader.{parser, whole}
use capsules_protocol.Prelude.{
  codes, cut_at, to_lower, ℕ, ◌≤◌, ◌≡◌, refl, ◌↔◌, true, none, List, [], ◌∷◌,
}

-- A verifier that accepts what it is given.
abbrev host : Host
host = record {
  platform = toy;
  zipper = zipper;
  parser = parser;
  verify = λ i. record {
    ok = true;
    observed = none;
    level = none;
    errors = 0;
    content_errors = 0;
    chain_errors = 0;
    signers = true ∷ [];
  };
}

-- The sealed capsule as a predecessor, declared member by member.
abbrev own_declaration : Value
own_declaration = obj (
    field (codes "capsule_id") (or_null (get sealed_manifest (codes "id"))) (
      field (codes "format_version") (str (codes "0.7")) (
        field (codes "originator_public_key")
          (or_null (at (get sealed_manifest (codes "originator")) (codes "public_key")))
          (field (codes "first_event_hash") null (
            field (codes "entry_hash") null (
              field (codes "manifest_hash") (or_null (get sealed_envelope (codes "manifest_hash")))
                end))))))

abbrev successor : Fields
successor = field (codes "predecessors") (arr (cons own_declaration nil)) end

abbrev report_of : Run Evaluated → Evaluated
report_of (ended r) = r
report_of _ = undeclared []

abbrev depth_of : Run Evaluated → ℕ
depth_of r = (report_of r).lineage.verified_depth

depth_test :
    depth_of (
      evaluate_lineage host hop_cap_default
        (reader whole ∷ archive [] ∷ [])
        successor
        (codes "0.7"))
    ≡ 1
unfolding envelope_code evaluate_lineage predecessors_problems entries_problems entry_problems
    unknown_members identity_problem derived_entry_id cited_problems seen_at
    predecessor_identity_checkable compute_capsule_id first_hash_raw id_domain make_entry rounds
    round place place_verifiable place_unverified match_verifiable change_first assign
    equality_diffs same expand declare classify_artifact classify_documents recompute_id
    declared_alternate_profile_id classify_version parse_version cut_at numeral status_of value_from
    unpack_zip strict_entries scan_central_directory file parse_json_strict parse_text_strict
    assert_no_duplicate_members scan_value skip_space scan_string parsed_unit escaped_unit
    skip_scalar after_value scan_name behind_colon manifest_hash sha256_hex verification_error_count
    conclude_lineage verified_depth depth_from is_hex64 to_lower
depth_test = refl

abbrev pool : List Input
pool = reader whole ∷ archive [] ∷ []

abbrev report : Evaluated
report = report_of (evaluate_lineage host hop_cap_default pool successor (codes "0.7"))

abbrev declared_entries : List Entry
declared_entries = make_entry 1 own_declaration ∷ []

verified_depth_iff_example : (1 ≤ verified_depth declared_entries) ↔ (
    (h : ℕ)
    → 1 ≤ h
    → h ≤ 1
    → (some_at h declared_entries ≡ true) × (verified_within h declared_entries ≡ true))
verified_depth_iff_example = verified_depth_iff declared_entries 1
