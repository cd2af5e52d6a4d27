-- ===== src/Envelope/Accepted.antt =====
-- When `verifyEnvelopeSignatures` accepts: an independent description.
use capsules_protocol.Json.{Value, Items, nil, cons, Fields, get, as_arr}
use capsules_protocol.Platform.{Platform}
use capsules_protocol.Versions.{known, classify_version}
use capsules_protocol.Envelope.Verify.{
  SignerRow, SignatureResult, first_duplicate, roles_print, signer_rows, all_valid,
  report_duplicate, check_signers, cipher_supported, signers_of, verify_envelope_signatures,
}
use capsules_protocol.Prelude.{
  Apart, nothing_seen, Bool-cases, Option-cases, codes, ◌≡◌, refl, ap, ◌↔◌, inl, inr, true, false,
  Option, none, some, List, [], arith,
}
use capsules_protocol.Envelope.Rows.{
  IsSigned, texts, EveryItem, rows_sound, rows_complete, Apart-sound, Apart-complete,
  roles_print_of,
}

-- What the envelope must hold.
pub record IsAccepted (p : Platform) (o : Fields) : Type 0 where
  pub version_known : (classify_version (get o (codes "version"))).status ≡ known
  pub cipher_known : cipher_supported o ≡ true
  pub first : Value
  pub others : Items
  pub listed : as_arr (get o (codes "signers")) ≡ some (cons first others)
  pub members_apart : Apart (texts p (cons first others))
  pub all_signed : EveryItem (IsSigned p o) (cons first others)

no_report : (s : Value) (r : SignatureResult) → report_duplicate s ≡ some r → r.ok ≡ false
no_report s r h = ground arith

check_sound :
    (p : Platform) (o : Fields) (ss : Items) (r : SignatureResult)
    → check_signers p o ss ≡ some r
    → r.ok ≡ true
    → Apart (texts p ss) × EveryItem (IsSigned p o) ss
unfolding check_signers
check_sound p o ss r h v = elim (Bool-cases (roles_print p [] ss)) [
  | inr f ↦ absurd (ground (arith, f))
  | inl t ↦ elim (Option-cases (first_duplicate p [] ss)) [
    | inr (s, e) ↦ absurd (ground (arith, t, e, no_report s r))
    | inl e ↦ elim (Option-cases (signer_rows p o ss)) [
      | inl n ↦ absurd (ground (arith, t, e, n))
      | inr (rows, k) ↦
          ((Apart-sound p [] ss e).1, rows_sound p o ss rows k (ground (arith, t, e, k)))
    ]
  ]
]

check_result :
    (p : Platform) (o : Fields) (ss : Items) (rows : List SignerRow)
    → roles_print p [] ss ≡ true
    → first_duplicate p [] ss ≡ none
    → signer_rows p o ss ≡ some rows
    → check_signers p o ss ≡ some (record { ok = all_valid rows; signers = rows; note = none })
unfolding check_signers
check_result p o ss rows t d e = ground (arith, t, d, e)

check_complete :
    (p : Platform) (o : Fields) (ss : Items)
    → Apart (texts p ss)
    → EveryItem (IsSigned p o) ss
    → (r : SignatureResult) × (check_signers p o ss ≡ some r) × (r.ok ≡ true)
unfolding check_signers
check_complete p o ss a h =
    let (rows, e, v) = rows_complete p o ss h in
    (
      record { ok = all_valid rows; signers = rows; note = none },
      check_result p o ss rows (roles_print_of p o [] ss h)
          (Apart-complete p [] ss (nothing_seen (texts p ss)) a) e,
      v,
    )

listed_sound :
    (p : Platform) (o : Fields) (l : Option Items) (r : SignatureResult)
    → as_arr (get o (codes "signers")) ≡ l
    → signers_of p o l ≡ some r
    → r.ok ≡ true
    → (classify_version (get o (codes "version"))).status ≡ known
    → cipher_supported o ≡ true
    → IsAccepted p o
listed_sound p o none r e h v vk ck = absurd (ground arith)
listed_sound p o (some nil) r e h v vk ck = absurd (ground arith)
listed_sound p o (some (cons s ss)) r e h v vk ck =
    let (a, i) = check_sound p o (cons s ss) r h v in
    record {
      version_known = vk;
      cipher_known = ck;
      first = s;
      others = ss;
      listed = e;
      members_apart = a;
      all_signed = i;
    }

pub IsAccepted-sound :
    (p : Platform) (o : Fields) (r : SignatureResult)
    → verify_envelope_signatures p o ≡ some r
    → r.ok ≡ true
    → IsAccepted p o
unfolding verify_envelope_signatures
IsAccepted-sound p o r h v =
    let gates : ((classify_version (get o (codes "version"))).status ≡ known)
        × (cipher_supported o ≡ true)
        × (signers_of p o (as_arr (get o (codes "signers"))) ≡ some r) =
      ground arith in
    listed_sound p o (as_arr (get o (codes "signers"))) r refl gates.2 v gates.0 gates.1

gated :
    (p : Platform) (o : Fields) (s : Value) (ss : Items) (r : SignatureResult)
    → (classify_version (get o (codes "version"))).status ≡ known
    → cipher_supported o ≡ true
    → as_arr (get o (codes "signers")) ≡ some (cons s ss)
    → check_signers p o (cons s ss) ≡ some r
    → verify_envelope_signatures p o ≡ some r
unfolding verify_envelope_signatures
gated p o s ss r vk ck l e = ground (arith, vk, ck, ap (signers_of p o) l, e)

pub IsAccepted-complete :
    (p : Platform) (o : Fields)
    → IsAccepted p o
    → (r : SignatureResult) × (verify_envelope_signatures p o ≡ some r) × (r.ok ≡ true)
unfolding verify_envelope_signatures
IsAccepted-complete p o a =
    let (r, e, v) = check_complete p o (cons a.first a.others) a.members_apart a.all_signed in
    (r, gated p o a.first a.others r a.version_known a.cipher_known a.listed e, v)

-- `verifyEnvelopeSignatures` returns ok exactly for the envelopes of the description: the version is
-- known, the cipher supported, the signers are a non-empty array without two of one
-- (role, lower-case key) text, and each signature verifies, under the declared era's domain for its
-- role, the canonical bytes of the envelope without its signers.
pub envelope_signatures_iff :
    (p : Platform) (o : Fields)
    → ((r : SignatureResult) × (verify_envelope_signatures p o ≡ some r) × (r.ok ≡ true))
      ↔ IsAccepted p o
envelope_signatures_iff p o = (λ h. IsAccepted-sound p o h.0 h.1 h.2, IsAccepted-complete p o)
