-- ===== src/Lineage.antt =====
-- sdk-js/src/lineage.js: the supplied predecessors, and the walk over what they declare.
-- Messages are constructors; the result of `verifyCapsule` is read through `Verification`.
pub mod Classify
pub mod Walk
pub mod Evaluate
pub mod Rounds
pub mod Ends
pub mod Linked
pub mod Sound
pub mod Depth
pub mod Report
use capsules_protocol.Json.{Value, null, str, obj, get, at, as_str, has_text}
use capsules_protocol.Verifier.{same, is_text, null_for_undefined}
use capsules_protocol.Verifier.Verdict.{HopStatus, unverified}
use capsules_protocol.Manifest.Predecessors.{predecessor_identity_checkable}
use capsules_protocol.Prelude.{
  ltb, leb, ◌==◌, if◌then◌else◌, ==_iff, Bool-cases, Option-cases, &&_both, and_true, Result, ok,
  err, ◌>>=◌, Str, codes, str_eq, str_eq_refl, str_eq_sound, str_eq_iff, contains, all_in, is_digit,
  is_lower, is_upper, is_lower_hex, is_hex, starts_with, cut_at, str_before, lower_code, to_lower,
  str_compare, length, is_nil, All, any, every, keep, length-append, All-append, append-eq-nil, ℕ,
  zero, suc, ◌+◌, ◌-◌, ◌*◌, ◌/◌, ◌%◌, ◌^◌, ◌≤◌, ◌<◌, String, ◌≡◌, refl, sym, ap, ◌∙◌, ◌≢◌, ◌↔◌, ◌⊎◌,
  inl, inr, Bool, true, false, ◌&&◌, ◌||◌, not, Option, none, some, List, [], ◌∷◌, ◌++◌, map,
  append_assoc, append-nil, arith, Result-cases, concat, concat-nil, Apart, contains_cons,
  cons_contains, nothing_seen, contains_head, Apart-length, Apart-exhausts, contains_of, flip,
  str_compare-flip, str_compare_eq, str_compare_refl, str_compare_trans, before_asym, before_trans,
  before_total, before_below, permuted_refl,
}

abbrev pub hop_cap_default : ℕ
hop_cap_default = 256

pub data Kind : Type 0 where
  verifiable encrypted unsupported_version unsupported_profile unreadable : Kind

-- What the walk reads of a result of `verifyCapsule`: the sizes of its error channels, and the
-- validity of each signer row.
pub record Verification : Type 0 where
  pub ok : Bool
  pub observed : Option Str
  pub level : Option Str
  pub errors : ℕ
  pub content_errors : ℕ
  pub chain_errors : ℕ
  pub signers : List Bool

-- `verificationErrorCount(result)`.
unfoldable pub verification_error_count : Verification → ℕ
verification_error_count v =
    v.errors + v.content_errors + v.chain_errors + length (keep not v.signers)

pub record Summary : Type 0 where
  pub ok : Bool
  pub observed_version : Option Str
  pub level : Option Str
  pub error_count : ℕ

pub data EntryError : Type 0 where
  fails_own_verification : Option Str → ℕ → EntryError
  different_seal : EntryError
  -- The member, what the entry declares, what the supplied artifact has.
  differs : Str → Value → Value → EntryError

-- A reported entry: six members of the declaration, and the facts.
pub record Entry : Type 0 where
  pub capsule_id : Value
  pub format_version : Value
  pub originator_public_key : Value
  pub first_event_hash : Value
  pub entry_hash : Value
  pub manifest_hash : Value
  pub hop : ℕ
  pub identity_checked : Bool
  pub status : HopStatus
  pub reason : Option Kind
  pub errors : List EntryError
  pub artifact : Option Summary

-- `v ?? null`.
abbrev pub or_null : Option Value → Value
or_null none = null
or_null (some v) = v

-- `makeEntry(declared, hop)`.
unfoldable pub make_entry : ℕ → Value → Entry
make_entry hop d = record {
  capsule_id = or_null (at (some d) (codes "capsule_id"));
  format_version = or_null (at (some d) (codes "format_version"));
  originator_public_key = or_null (at (some d) (codes "originator_public_key"));
  first_event_hash = or_null (at (some d) (codes "first_event_hash"));
  entry_hash = or_null (at (some d) (codes "entry_hash"));
  manifest_hash = or_null (at (some d) (codes "manifest_hash"));
  hop = hop;
  identity_checked = predecessor_identity_checkable (some d);
  status = unverified;
  reason = none;
  errors = [];
  artifact = none;
}

-- A supplied artifact: what it is, what it claims, what is recomputed, and how it verifies.
pub record Artifact : Type 0 where
  pub kind : Kind
  pub manifest : Value
  pub claimed_id : Option Str
  pub version : Option Str
  pub recomputed_id : Option Str
  pub recomputed_hash : Option Str
  pub originator_key : Option Str
  pub first_event_hash : Value
  pub entry_hash : Value
  pub is_ok : Bool
  pub summary : Option Summary
  pub assigned : Bool

abbrev pub text_or_null : Option Str → Value
text_or_null none = null
text_or_null (some s) = str s

-- A pair of the loop of `equalityDiffs`; the message throws where a value has no text.
abbrev pub diff_unless : Str → Value → Value → Option (List EntryError)
diff_unless name declared supplied =
    if same (some declared) (some supplied)
    then some []
    else if has_text declared && has_text supplied
    then some (differs name declared supplied ∷ [])
    else none

abbrev pub both_diffs :
    Option (List EntryError) → Option (List EntryError) → Option (List EntryError)
both_diffs none d = none
both_diffs (some c) none = none
both_diffs (some c) (some d) = some (c ++ d)

-- `equalityDiffs(entry, record)`; `none` where it throws.
unfoldable pub equality_diffs : Entry → Artifact → Option (List EntryError)
equality_diffs e a =
    both_diffs (diff_unless (codes "format_version") e.format_version (text_or_null a.version)) (
      both_diffs (diff_unless (codes "capsule_id") e.capsule_id (text_or_null a.recomputed_id)) (
        both_diffs
          (diff_unless (codes "originator_public_key") e.originator_public_key
            (text_or_null a.originator_key))
          (both_diffs (diff_unless (codes "first_event_hash") e.first_event_hash a.first_event_hash)
            (both_diffs (diff_unless (codes "entry_hash") e.entry_hash a.entry_hash) (
              diff_unless (codes "manifest_hash") e.manifest_hash
                (text_or_null a.recomputed_hash))))))
