-- ===== src/Keys/Curves.antt =====
-- The curve tags of sdk-js/src/keys.js.
use capsules_protocol.Bytes.{Bytes}
use capsules_protocol.Keys.{
  Given, absent, null_value, text, raw, other, KeyObject, or_else, curve_fits, Signer, object,
  role_of, to_signer, has_private, is_absent, to_recipient, to_raw_key,
}
use capsules_protocol.Keys.Raw.{IsKey, to_raw_key_iff}
use mathlib.Core.Path.{subst}
use capsules_protocol.Prelude.{
  sym, ◌≢◌, [], ◌∷◌, ok, Str, codes, str_eq_sound, ◌≡◌, refl, ap, ◌⊎◌, inl, inr, true, false, ◌&&◌,
  arith, Result-cases,
}

fits_cases : (c : Given) (s : Str) → curve_fits c s ≡ true → (c ≡ absent) ⊎ (c ≡ text s)
unfolding curve_fits
fits_cases absent s h = inl refl
fits_cases (text t) s h = inr (ap text (str_eq_sound t s h))
fits_cases null_value s h = cc
fits_cases (raw b) s h = cc
fits_cases other s h = cc

-- A keypair object that `toRecipient` takes, with private key material, is tagged X25519; one that
-- is tagged with anything else, or not tagged, is refused. Without private material, it is tagged
-- X25519 or not tagged.
pub recipient_curve :
    (o : KeyObject) (k : Bytes)
    → to_recipient (object o) ≡ ok k
    → ((o.curve ≡ text (codes "x25519")) ⊎ ((o.curve ≡ absent) × (has_private o ≡ false)))
      × (to_raw_key (or_else o.public_key o.public_key_hex) 32 ≡ ok k)
unfolding to_recipient
recipient_curve o k h =
    let facts : (curve_fits o.curve (codes "x25519") ≡ true)
        × ((has_private o && is_absent o.curve) ≡ false)
        × (to_raw_key (or_else o.public_key o.public_key_hex) 32 ≡ ok k) =
      ground arith in
    (
      elim (fits_cases o.curve (codes "x25519") (facts.0)) [
        | inr t ↦ inl t
        | inl a ↦ inr (a, unmarked o a (facts.1))
      ],
      facts.2,
    )
  where
    unmarked :
        (o' : KeyObject)
        → o'.curve ≡ absent
        → (has_private o' && is_absent o'.curve) ≡ false
        → has_private o' ≡ false
    unmarked o' a f = ground (arith, a, f)

-- The role of a signer: "originator" where none is given, or else the given text, not empty.
pub data IsRole (role : Str) : Given → Type 0 where
  not_given : role ≡ codes "originator" → IsRole role absent
  given_null : role ≡ codes "originator" → IsRole role null_value
  given_text : role ≢ [] → IsRole role (text role)

role_of-IsRole : (g : Given) (role : Str) → role_of g ≡ ok role → IsRole role g
unfolding role_of
role_of-IsRole absent role h = IsRole.not_given (ground arith)
role_of-IsRole null_value role h = IsRole.given_null (ground arith)
role_of-IsRole (raw b) role h = cc
role_of-IsRole other role h = cc
role_of-IsRole (text []) role h = cc
role_of-IsRole (text (c ∷ s)) role h =
    let same : (c ∷ s) ≡ role = ground (arith) in
    subst (λ t. IsRole role (text t)) (sym same) (IsRole.given_text (λ e. cc))

-- An object that `toSigner` takes is tagged Ed25519 or not tagged, gives its role, which is a text
-- that is not empty, or "originator" where it has none, and its two keys, each as 32 bytes or as 64
-- hexadecimal digits that spell them.
pub signer_curve :
    (o : KeyObject) (s : Signer)
    → to_signer (object o) ≡ ok s
    → ((o.curve ≡ absent) ⊎ (o.curve ≡ text (codes "ed25519")))
      × IsRole s.role o.role
      × IsKey 32 s.public_key (or_else o.public_key o.public_key_hex)
      × IsKey 32 s.private_key (or_else o.private_key o.private_key_hex)
unfolding to_signer
signer_curve o s h =
    let facts : (curve_fits o.curve (codes "ed25519") ≡ true)
        × (role_of o.role ≡ ok s.role)
        × (to_raw_key (or_else o.public_key o.public_key_hex) 32 ≡ ok s.public_key)
        × (to_raw_key (or_else o.private_key o.private_key_hex) 32 ≡ ok s.private_key) =
      ground (
        arith,
        Result-cases (role_of o.role),
        Result-cases (to_raw_key (or_else o.public_key o.public_key_hex) 32),
        Result-cases (to_raw_key (or_else o.private_key o.private_key_hex) 32),
      ) in
    (
      fits_cases o.curve (codes "ed25519") (facts.0),
      role_of-IsRole o.role s.role (facts.1),
      (to_raw_key_iff (or_else o.public_key o.public_key_hex) 32 s.public_key).0 (facts.2),
      (to_raw_key_iff (or_else o.private_key o.private_key_hex) 32 s.private_key).0 (facts.3),
    )
