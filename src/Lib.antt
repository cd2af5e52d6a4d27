-- ===== src/Lib.antt =====
-- A model of the JavaScript reference implementation of the capsule format, sdk-js/src.
--
-- A capsule is a package of files with a manifest and a provenance envelope. The manifest names
-- the originator, the chain of events, the content index and, where it makes such claims, the
-- committed signers, the predecessors and the profile. The envelope repeats the anchors of the
-- manifest and carries signatures over its own canonical bytes. The verifier checks both documents
-- and the package against each other.
--
-- Files and code:
--   Prelude: the shared names, Boolean tests, lists and texts. A JavaScript string is the list of
--   its UTF-16 code units.
--   Json, Json/Laws: values as JSON.parse gives them; an object is the list of its members in
--   order, and a number is integral, fractional, infinite or NaN.
--   Bytes: UTF-8 of a string and hex; Bytes/Utf8 and Bytes/Hex have their laws.
--   Platform: what the code calls and does not hold: the canonicalize package, SHA-256 and Ed25519
--   of node:crypto, and the text of a number.
--   Versions (sdk-js/src/versions.js): the known versions, their grammar and the domain strings.
--   Crypto (sdk-js/src/crypto.js): the checks of keys and signatures before node:crypto is asked.
--   Canonical (sdk-js/src/canonical.js): assertIJson, jcs and strict hex; Canonical/Members has
--   assertNoDuplicateMembers and parseJsonStrict.
--   Profiles (sdk-js/src/profiles.js): the declarations of a profile, their classes and the gate.
--   Chain (sdk-js/src/chain.js): hashEvent and its grammars; Chain/Build has buildChainEvents,
--   Chain/Walk has verifyChain.
--   Manifest (sdk-js/src/manifest.js): computeCapsuleId, buildContentIndex, manifestHash;
--   Manifest/Commitment has the signer commitment, Manifest/Predecessors has predecessorsProblems.
--   Envelope (sdk-js/src/envelope.js): buildEnvelope and signEnvelope; Envelope/Verify has
--   verifyEnvelopeSignatures.
--   Verifier (sdk-js/src/verifier.js and the standalone checks of lineage.js): the stages between
--   the documents; Verifier/Index, Verifier/Signers and Verifier/Stages have the other stages,
--   Verifier/Messages the messages that throw, Verifier/Capsule their composition,
--   Verifier/Described what each stage accepts, Verifier/Verdict deriveVerdict and
--   deriveSkillTrust.
--   Keys (sdk-js/src/keys.js): toRawKey, toKeyHex, toSigner and toRecipient.
--   Zip (sdk-js/src/zip.js): names, limits and entries; Zip/Scan has scanCentralDirectory,
--   Zip/Strict assertStrictEntries, Zip/Unpack unpackZip and packZip.
--   Reader (sdk-js/src/reader.js): new CapsuleReader; Reader/Values and Reader/Shape have what its
--   shape checks accept.
--   Lineage (sdk-js/src/lineage.js): Lineage/Classify has classifyArtifact, Lineage/Walk the
--   rounds over the supplied artifacts, Lineage/Evaluate evaluateLineage.
--   Federation (sdk-js/src/federation/policy.js): evaluateSignerPolicy.
--   Examples: tests, and the theorems at concrete inputs over a toy platform.
--
-- Code that throws is a Result or an Option, in the lineage walk a Run. A template literal throws
-- on an object with a member toString: Json has the test, and Verifier/Messages the messages of
-- the verifier and of verifyChain that throw. Messages are constructors, and breadcrumb paths in
-- them are left out. Version numbers are exact, where the source has doubles. toLowerCase is that
-- of the ASCII letters, as a key that holds another is refused as hex. The order of members whose
-- names are array indices is not modelled.
--
-- Fuel: the merge of two member lists (Manifest/Commitment) has the sum of their lengths, and each
-- round takes a member from one of them. The walk over the records of a zip directory has one more
-- than the bytes of the directory, and each record takes 46 or more. The scanner of JSON text has
-- three times the length of the text, and two. The rounds of the lineage walk have one more than
-- the supplied artifacts, and each but the last assigns one. The search for the depth has the sum
-- of the hops.
--
-- Parameters: JSZip and the decoder of names (Zip/Unpack), TextDecoder and JSON.parse
-- (Canonical/Members), and, in Lineage/Classify, the verifier that the caller of the walk passes
-- in.
--
-- Not modelled: encryption, the accessors of the reader, the builder, attestations, and the
-- advisory notes of a report but for those of the lineage walk. The text of a chain file is read
-- by a parameter of the verifier's options, and the statuses of the lineage walk are one of its
-- options too.
pub mod Prelude
pub mod Json
pub mod Bytes
pub mod Platform
pub mod Versions
pub mod Crypto
pub mod Canonical
pub mod Profiles
pub mod Chain
pub mod Manifest
pub mod Envelope
pub mod Verifier
pub mod Keys
pub mod Zip
pub mod Reader
pub mod Lineage
pub mod Federation
pub mod Examples
