-- ===== src/Keys.antt =====
-- sdk-js/src/keys.js: what the public functions take as a key, a signer or a recipient.
-- The names in the messages are left out.
pub mod Raw
pub mod Curves
use capsules_protocol.Bytes.{Bytes, to_hex}
use capsules_protocol.Canonical.{HexError, hex_to_bytes}
use capsules_protocol.Prelude.{
  ltb, leb, ◌==◌, if◌then◌else◌, ==_iff, Bool-cases, Option-cases, &&_both, and_true, Result, ok,
  err, ◌>>=◌, Str, codes, str_eq, str_eq_refl, str_eq_sound, str_eq_iff, contains, all_in, is_digit,
  is_lower, is_upper, is_lower_hex, is_hex, starts_with, cut_at, str_before, lower_code, to_lower,
  str_compare, length, is_nil, All, any, every, keep, length-append, All-append, append-eq-nil, ℕ,
  zero, suc, ◌+◌, ◌-◌, ◌*◌, ◌/◌, ◌%◌, ◌^◌, ◌≤◌, ◌<◌, String, ◌≡◌, refl, sym, ap, ◌∙◌, ◌≢◌, ◌↔◌, ◌⊎◌,
  inl, inr, Bool, true, false, ◌&&◌, ◌||◌, not, Option, none, some, List, [], ◌∷◌, ◌++◌, map,
  append_assoc, append-nil, arith, Result-cases, concat, concat-nil, Apart, contains_cons,
  cons_contains, nothing_seen, contains_head, Apart-length, Apart-exhausts, contains_of, flip,
  str_compare-flip, str_compare_eq, str_compare_refl, str_compare_trans, before_asym, before_trans,
  before_total, before_below, permuted_refl,
}

-- A JavaScript value, as far as the functions tell values apart.
pub data Given : Type 0 where
  absent null_value : Given
  text : Str → Given
  raw : Bytes → Given
  other : Given

pub data KeyError : Type 0 where
  bad_raw_length bad_hex bad_type : KeyError
  not_hex : HexError → KeyError
  wrong_curve untagged_keypair : KeyError
  not_an_object bad_role no_keys no_public_key : KeyError

-- `value.length === length * 2 && HEX_RE.test(value)`.
abbrev pub is_key_text : Str → ℕ → Bool
is_key_text s n = length s == n * 2 && (not (is_nil s) && all_in is_hex s)

-- `toRawKey(value, name, length)`.
unfoldable pub to_raw_key : Given → ℕ → Result KeyError Bytes
to_raw_key (raw b) n = if length b == n then ok b else err bad_raw_length
to_raw_key (text s) n =
    let read : Result KeyError Bytes = elim (hex_to_bytes (to_lower s)) [
      | ok b ↦ ok b
      | err e ↦ err (not_hex e)
    ] in
    if is_key_text s n then read else err bad_hex
to_raw_key absent n = err bad_type
to_raw_key null_value n = err bad_type
to_raw_key other n = err bad_type

-- `toKeyHex(value, name, length)`.
unfoldable pub to_key_hex : Given → ℕ → Result KeyError Str
to_key_hex v n = to_raw_key v n >>= λ b. ok (to_hex b)

pub record KeyObject : Type 0 where
  pub curve : Given
  pub role : Given
  pub public_key : Given
  pub public_key_hex : Given
  pub private_key : Given
  pub private_key_hex : Given

-- `a ?? b`.
abbrev pub or_else : Given → Given → Given
or_else absent b = b
or_else null_value b = b
or_else a b = a

-- `a != null`.
abbrev pub is_given : Given → Bool
is_given absent = false
is_given null_value = false
is_given a = true

-- `assertCurveTag(obj, expected, name)`.
unfoldable pub curve_fits : Given → Str → Bool
curve_fits absent expected = true
curve_fits (text s) expected = str_eq s expected
curve_fits v expected = false

pub record Signer : Type 0 where
  pub role : Str
  pub public_key : Bytes
  pub private_key : Bytes

-- What is passed as a signer or a recipient: an object with members, or another value.
pub data Party : Type 0 where
  object : KeyObject → Party
  bare : Given → Party

-- `signer.role ?? "originator"`, which must be a text that is not empty.
unfoldable pub role_of : Given → Result KeyError Str
role_of absent = ok (codes "originator")
role_of null_value = ok (codes "originator")
role_of (text s) = if is_nil s then err bad_role else ok s
role_of v = err bad_role

-- `toSigner(signer, index)`. Bytes are an object without these members.
unfoldable pub to_signer : Party → Result KeyError Signer
to_signer (object o) =
    let public = or_else o.public_key o.public_key_hex in
    let private = or_else o.private_key o.private_key_hex in
    if not (curve_fits o.curve (codes "ed25519"))
    then err wrong_curve
    else (role_of o.role >>= λ role.
        if not (is_given public && is_given private)
        then err no_keys
        else (to_raw_key public 32 >>= λ p. to_raw_key private 32 >>= λ k.
            ok (record { role = role; public_key = p; private_key = k })))
to_signer (bare (raw b)) = err no_keys
to_signer (bare v) = err not_an_object

abbrev recipient_key : Given → Result KeyError Bytes
recipient_key v = if is_given v then to_raw_key v 32 else err no_public_key

abbrev pub has_private : KeyObject → Bool
has_private o = is_given o.private_key || is_given o.private_key_hex

abbrev pub is_absent : Given → Bool
is_absent absent = true
is_absent v = false

-- `toRecipient(recipient, index)`.
unfoldable pub to_recipient : Party → Result KeyError Bytes
to_recipient (object o) =
    if not (curve_fits o.curve (codes "x25519"))
    then err wrong_curve
    else if has_private o && is_absent o.curve
    then err untagged_keypair
    else recipient_key (or_else o.public_key o.public_key_hex)
to_recipient (bare v) = recipient_key v
