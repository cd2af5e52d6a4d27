-- ===== src/Reader/Opens.antt =====
-- What `new CapsuleReader(files)` of sdk-js/src/reader.js opens.
use capsules_protocol.Json.{Value, obj, Fields, get, at}
use capsules_protocol.Bytes.{Bytes}
use capsules_protocol.Platform.{Platform}
use capsules_protocol.Canonical.Members.{Parser, assert_no_duplicate_members}
use capsules_protocol.Profiles.{normalize, default_profile}
use capsules_protocol.Profiles.Classify.{AreWellFormed}
use capsules_protocol.Manifest.{Files, file}
use capsules_protocol.Reader.{Reader}
use capsules_protocol.Reader.Shape.{IsManifest, IsEnvelope}
use capsules_protocol.Prelude.{codes, ◌≡◌, none, some}

-- Bytes that decode to JSON of the value, in which no object has a member twice.
pub record IsStrictText (j : Parser) (b : Bytes) (v : Value) : Type 0 where
  pub parses : j.parse (j.decode b) ≡ some v
  pub no_duplicates : assert_no_duplicate_members (j.decode b) ≡ none

-- Two documents of the package under the default profile.
pub record IsOpen (p : Platform) (j : Parser) (fs : Files) (m e : Fields) : Type 0 where
  pub manifest_bytes : Bytes
  pub of_manifest : file fs (codes "manifest.json") ≡ some manifest_bytes
  pub manifest_text : IsStrictText j manifest_bytes (obj m)
  pub envelope_bytes : Bytes
  pub of_envelope : file fs (codes "provenance/envelope.json") ≡ some envelope_bytes
  pub envelope_text : IsStrictText j envelope_bytes (obj e)
  pub manifest_shape : IsManifest p m
  pub envelope_shape : IsEnvelope p e
  pub profiles_well_formed :
      AreWellFormed (at (get m (codes "format")) (codes "profile")) (get e (codes "profile"))
  pub manifest_profile : normalize (at (get m (codes "format")) (codes "profile")) ≡ default_profile
  pub envelope_profile : normalize (get e (codes "profile")) ≡ default_profile
