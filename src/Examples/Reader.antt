-- ===== src/Examples/Reader.antt =====
-- The sealed capsule opened by the reader, over parameters that know its two documents.

use capsules_protocol.Json.{obj, get, set}
use capsules_protocol.Bytes.{to_hex, hex_digit}
use capsules_protocol.Versions.{
  classify_version, parse_version, numeral, value_from, status_of, is_newer, require_known_version,
}
use capsules_protocol.Profiles.{
  classify_profile, require_supported_profile, normalize, look_up, pair_eq, best_effort_observed,
}
use capsules_protocol.Canonical.{is_hex64}
use capsules_protocol.Canonical.Members.{
  out_of_fuel, duplicate_member, Parser, skip_space, scan_string, parsed_unit, behind_colon,
  hex_prefix, escaped_unit, skip_scalar, after_value, scan_name, scan_value,
  assert_no_duplicate_members, parse_text_strict, parse_json_strict,
}
use capsules_protocol.Canonical.Members.Fuel.{scan_text_terminates}
use capsules_protocol.Manifest.{Files, file}
use capsules_protocol.Reader.{
  open_files, read_document, validate_manifest_shape, validate_envelope_shape,
  validate_content_index_shape, validate_listed_files, validate_index_files, hex64_test, to_text,
}
use capsules_protocol.Examples.Toy.{toy}
use capsules_protocol.Examples.Verifier.{sealed_manifest, sealed_envelope, packed}
use capsules_protocol.Prelude.{
  if◌then◌else◌, ok, codes, str_eq, contains, all_in, cut_at, ◌≡◌, refl, ◌≢◌, some, ◌∷◌,
}

-- JSON.parse of the two texts of the package.
abbrev pub parser : Parser
parser = record {
  decode = λ b. b;
  parse = λ s.
      if str_eq s (codes "{\"m\": 1}")
      then some (obj sealed_manifest)
      else some (obj sealed_envelope);
}

abbrev pub whole : Files
whole =
    (codes "manifest.json", codes "{\"m\": 1}")
    ∷ (codes "provenance/envelope.json", codes "{\"e\": [1, \"\\u0061\"]}")
    ∷ packed

open_test :
    open_files toy parser whole
    ≡ ok (record { files = whole; manifest = obj sealed_manifest; envelope = obj sealed_envelope })
unfolding open_files read_document validate_manifest_shape validate_envelope_shape
    validate_content_index_shape validate_listed_files validate_index_files hex64_test to_text
    is_hex64 file parse_json_strict parse_text_strict assert_no_duplicate_members scan_value
    skip_space scan_string parsed_unit escaped_unit skip_scalar after_value scan_name behind_colon
    str_eq get require_known_version classify_version status_of parse_version numeral value_from
    is_newer require_supported_profile classify_profile normalize look_up pair_eq
    best_effort_observed contains all_in cut_at to_hex hex_digit set
open_test = refl

scan_test :
    assert_no_duplicate_members (codes "{\"a\": 1, \"\\u0061\": 2}")
    ≡ some (duplicate_member (codes "a"))
unfolding assert_no_duplicate_members scan_value skip_space scan_string parsed_unit escaped_unit
    skip_scalar after_value scan_name behind_colon contains str_eq hex_prefix
scan_test = refl

scan_text_terminates_example : assert_no_duplicate_members (codes "{\"a\" [") ≢ some out_of_fuel
scan_text_terminates_example = scan_text_terminates (codes "{\"a\" [")
