-- ===== src/Verifier/Signers.antt =====
-- Signatures, trust, the signer set and the originator in sdk-js/src/verifier.js.
use capsules_protocol.Json.{Value, null, str, arr, Fields, get, at}
use capsules_protocol.Platform.{Platform}
use capsules_protocol.Envelope.Verify.{Note, SignerRow, SignatureResult, template_text}
use capsules_protocol.Manifest.Commitment.{
  Member, signer_commitment_problems, members, signer_members, sort_members, differences,
}
use capsules_protocol.Verifier.{
  VerifyError, signature_note, signature_invalid, commitment_malformed, commitment_differs,
  originator_unsigned, unless, is_text,
}
use capsules_protocol.Prelude.{
  if◌then◌else◌, Str, codes, str_eq, contains, to_lower, is_nil, ℕ, suc, Bool, true, false, ◌&&◌,
  ◌||◌, Option, none, some, List, [], ◌∷◌, ◌++◌, map,
}

-- `String(s.public_key ?? "").toLowerCase()`.
abbrev pub key_text : Platform → Option Value → Str
key_text p none = []
key_text p (some null) = []
key_text p (some v) = to_lower (template_text p v)

pub record TrustedRow : Type 0 where
  pub row : SignerRow
  pub trusted : Bool

unfoldable pub trusted_rows : Platform → List Str → List SignerRow → List TrustedRow
trusted_rows p allowlist [] = []
trusted_rows p allowlist (r ∷ rs) =
    record { row = r; trusted = r.valid && contains allowlist (key_text p r.public_key) }
    ∷ trusted_rows p allowlist rs

unfoldable pub invalid_errors : ℕ → List SignerRow → List VerifyError
invalid_errors i [] = []
invalid_errors i (r ∷ rs) = unless r.valid (signature_invalid i) ++ invalid_errors (suc i) rs

abbrev pub note_errors : Bool → Option Note → List VerifyError
note_errors true n = []
note_errors false none = []
note_errors false (some n) = signature_note n ∷ []

-- The errors of the signature stage.
unfoldable pub signature_errors : SignatureResult → List VerifyError
signature_errors r = note_errors r.ok r.note ++ invalid_errors 0 r.signers

-- The keys of the trusted rows, in lower case.
unfoldable pub trusted_keys : Platform → List TrustedRow → List Str
trusted_keys p [] = []
trusted_keys p (t ∷ ts) =
    let rest = trusted_keys p ts in if t.trusted then key_text p t.row.public_key ∷ rest else rest

-- `new Set(keys).size`.
unfoldable pub distinct_count : List Str → ℕ
distinct_count [] = 0
distinct_count (k ∷ ks) = let rest = distinct_count ks in if contains ks k then rest else suc rest

-- `trustedSignerCount`.
unfoldable pub trusted_signer_count : Platform → List TrustedRow → ℕ
trusted_signer_count p ts = distinct_count (trusted_keys p ts)

abbrev pub actual_members : Option Value → List Member
actual_members (some (arr vs)) = signer_members vs
actual_members _ = []

abbrev pub committed_members : Value → List Member
committed_members (arr vs) = members vs
committed_members v = []

-- Signer-set binding of a present commitment.
unfoldable pub signer_set_errors : Fields → Value → List VerifyError
signer_set_errors e commitment =
    let problems = signer_commitment_problems commitment in
    if is_nil problems
    then map commitment_differs (
        differences (committed_members commitment)
          (sort_members (actual_members (get e (codes "signers")))))
    else map commitment_malformed problems

-- An absent commitment binds nothing and fails nothing.
abbrev pub set_errors : Fields → Option Value → List VerifyError
set_errors e none = []
set_errors e (some c) = signer_set_errors e c

abbrev lower_key : Option Value → Option Str
lower_key (some (str s)) = some (to_lower s)
lower_key _ = none

abbrev is_key : Option Str → Option Str → Bool
is_key (some a) (some b) = str_eq a b
is_key _ _ = false

unfoldable pub originator_signed : Option Str → List SignerRow → Bool
originator_signed key [] = false
originator_signed key (r ∷ rs) =
    is_text r.role (codes "originator") && (r.valid && is_key (lower_key r.public_key) key)
    || originator_signed key rs

-- Originator binding.
unfoldable pub originator_errors : Fields → List SignerRow → List VerifyError
originator_errors m rows =
    unless
      (originator_signed (lower_key (at (get m (codes "originator")) (codes "public_key"))) rows)
      originator_unsigned
