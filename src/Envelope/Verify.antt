-- ===== src/Envelope/Verify.antt =====
-- `verifyEnvelopeSignatures` of sdk-js/src/envelope.js.
use capsules_protocol.Json.{
  Value, null, bool, num, str, arr, obj, Items, nil, cons, Fields, get, as_str, as_arr, at, prints,
}
use capsules_protocol.Bytes.{Bytes}
use capsules_protocol.Platform.{Platform}
use capsules_protocol.Canonical.{hex_to_bytes}
use capsules_protocol.Crypto.{ed25519_verify}
use capsules_protocol.Versions.{
  VersionStatus, known, unknown_newer, unknown_older, invalid, classify_version,
}
use capsules_protocol.Envelope.{supported_ciphers, signing_input}
use capsules_protocol.Prelude.{
  if◌then◌else◌, ok, err, Str, codes, contains, to_lower, every, Bool, true, false, ◌&&◌, ◌||◌, not,
  Option, none, some, List, [], ◌∷◌, ◌++◌,
}

pub data Note : Type 0 where
  bad_version : Note
  unsupported_version : VersionStatus → Note
  unsupported_cipher : Note
  no_signers : Note
  duplicate_signer : Option Value → Option Value → Note

-- One element of the `signers` that are returned.
pub record SignerRow : Type 0 where
  pub role : Option Value
  pub public_key : Option Value
  pub valid : Bool

pub record SignatureResult : Type 0 where
  pub ok : Bool
  pub signers : List SignerRow
  pub note : Option Note

abbrev pub refused : Note → Option SignatureResult
refused n = some (record { ok = false; signers = []; note = some n })

abbrev pub is_null : Value → Bool
is_null null = true
is_null _ = false

-- ECMAScript's text of a value in a template literal; an array is joined by commas.
unfoldable mutual
  pub template_text : Platform → Value → Str
  template_text p null = codes "null"
  template_text p (bool b) = if b then codes "true" else codes "false"
  template_text p (num n) = p.number_text n
  template_text p (str s) = s
  template_text p (arr vs) = joined_text p [] vs
  template_text p (obj o) = codes "[object Object]"

  pub joined_text : Platform → Str → Items → Str
  joined_text p comma nil = []
  joined_text p comma (cons v vs) =
      let text = template_text p v in
      comma ++ ((if is_null v then [] else text) ++ joined_text p (b',' ∷ []) vs)

abbrev pub role_text : Platform → Option Value → Str
role_text p none = codes "undefined"
role_text p (some v) = template_text p v

abbrev key_lower : Option Str → Str
key_lower none = []
key_lower (some k) = to_lower k

-- The text of a (role, public_key) pair that the duplicate check looks up.
unfoldable pub member_text : Platform → Value → Str
member_text p s =
    role_text p (at (some s) (codes "role"))
    ++ 0 ∷ key_lower (as_str (at (some s) (codes "public_key")))

-- The first signer whose pair is already seen.
unfoldable pub first_duplicate : Platform → List Str → Items → Option Value
first_duplicate p seen nil = none
first_duplicate p seen (cons s ss) =
    let rest = first_duplicate p (member_text p s ∷ seen) ss in
    if contains seen (member_text p s) then some s else rest

abbrev pub checked_hex : Option Str → Option Bytes
checked_hex none = none
checked_hex (some s) = elim (hex_to_bytes s) [ ok b ↦ some b | err e ↦ none ]

abbrev pub read_input : Platform → Fields → Option Str → Option Bytes
read_input p o none = none
read_input p o (some role) = elim (signing_input p o role) [ ok m ↦ some m | err e ↦ none ]

abbrev pub verified : Platform → Option Bytes → Option Bytes → Option Bytes → Bool
verified p (some m) (some key) (some signature) = ed25519_verify p key m signature
verified p _ _ _ = false

-- The `try` block of the second loop; what throws in it is not valid.
unfoldable pub signer_valid : Platform → Fields → Value → Bool
signer_valid p o s =
    verified p (read_input p o (as_str (at (some s) (codes "role"))))
      (checked_hex (as_str (at (some s) (codes "public_key"))))
      (checked_hex (as_str (at (some s) (codes "signature"))))

-- The rows of the second loop; reading a member of null throws outside its `try` block.
unfoldable pub signer_rows : Platform → Fields → Items → Option (List SignerRow)
signer_rows p o nil = some []
signer_rows p o (cons s ss) =
    let row : SignerRow = record {
      role = at (some s) (codes "role");
      public_key = at (some s) (codes "public_key");
      valid = signer_valid p o s;
    } in
    let rest = signer_rows p o ss in
    if is_null s then none else elim rest [ none ↦ none | some rows ↦ some (row ∷ rows) ]

abbrev pub all_valid : List SignerRow → Bool
all_valid = every (λ r. r.valid)

-- Whether each text of a pair that the duplicate check makes is made; it ends at a duplicate.
unfoldable pub roles_print : Platform → List Str → Items → Bool
roles_print p seen nil = true
roles_print p seen (cons s ss) =
    let rest = roles_print p (member_text p s ∷ seen) ss in
    prints (at (some s) (codes "role")) && (contains seen (member_text p s) || rest)

-- Reading a member of null throws, and so does the message where the key has no text.
abbrev pub report_duplicate : Value → Option SignatureResult
report_duplicate s =
    if is_null s || not (prints (at (some s) (codes "public_key")))
    then none
    else refused (duplicate_signer (at (some s) (codes "role")) (at (some s) (codes "public_key")))

unfoldable pub check_signers : Platform → Fields → Items → Option SignatureResult
check_signers p o ss =
    let checked : Option SignatureResult = elim (first_duplicate p [] ss) [
      | some s ↦ report_duplicate s
      | none ↦ elim (signer_rows p o ss) [
        | none ↦ none
        | some rows ↦ some (record { ok = all_valid rows; signers = rows; note = none })
      ]
    ] in
    if roles_print p [] ss then checked else none

abbrev pub cipher_supported : Fields → Bool
cipher_supported o = elim (as_str (get o (codes "cipher"))) [
  | none ↦ false
  | some c ↦ contains supported_ciphers c
]

abbrev pub signers_of : Platform → Fields → Option Items → Option SignatureResult
signers_of p o none = refused no_signers
signers_of p o (some nil) = refused no_signers
signers_of p o (some (cons s ss)) = check_signers p o (cons s ss)

-- `verifyEnvelopeSignatures(envelope)`; `none` where it throws.
unfoldable pub verify_envelope_signatures : Platform → Fields → Option SignatureResult
verify_envelope_signatures p o =
    let accepted : Option SignatureResult =
      if cipher_supported o
      then signers_of p o (as_arr (get o (codes "signers")))
      else if prints (get o (codes "cipher"))
      then refused unsupported_cipher
      else none in
    elim ((classify_version (get o (codes "version"))).status) [
      | invalid ↦ refused bad_version
      | known ↦ accepted
      | unknown_newer ↦ refused (unsupported_version unknown_newer)
      | unknown_older ↦ refused (unsupported_version unknown_older)
    ]
