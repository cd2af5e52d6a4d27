-- ===== src/Envelope/Rows.antt =====
-- The signers that the two loops of `verifyEnvelopeSignatures` let through.
use capsules_protocol.Json.{
  prints, has_text, Value, null, bool, num, str, arr, obj, Items, nil, cons, Fields, as_str, at,
}
use capsules_protocol.Bytes.{Bytes}
use capsules_protocol.Platform.{Platform}
use capsules_protocol.Canonical.{hex_to_bytes}
use capsules_protocol.Crypto.{ed25519_verify}
use capsules_protocol.Envelope.{signing_input}
use capsules_protocol.Envelope.Verify.{
  SignerRow, member_text, first_duplicate, roles_print, checked_hex, read_input, verified, is_null,
  signer_valid, signer_rows, all_valid,
}
use capsules_protocol.Prelude.{
  Option-cases, and_true, ok, Str, codes, contains, All, Apart, contains_cons, cons_contains, ◌≡◌,
  refl, inl, inr, true, false, Option, none, some, List, [], ◌∷◌, arith,
}

-- A signer whose role, key and signature are texts that verify the signing input of its role.
pub data IsSigned (p : Platform) (o : Fields) (s : Value) : Type 0 where
  signed :
      (role key signature : Str) (m k b : Bytes)
      → as_str (at (some s) (codes "role")) ≡ some role
      → as_str (at (some s) (codes "public_key")) ≡ some key
      → as_str (at (some s) (codes "signature")) ≡ some signature
      → signing_input p o role ≡ ok m
      → hex_to_bytes key ≡ ok k
      → hex_to_bytes signature ≡ ok b
      → ed25519_verify p k m b ≡ true
      → IsSigned p o s

abbrev pub texts : Platform → Items → List Str
texts p nil = []
texts p (cons s ss) = member_text p s ∷ texts p ss

abbrev pub EveryItem : (Value → Type 0) → Items → Type 0
EveryItem P nil = Unit
EveryItem P (cons v vs) = P v × EveryItem P vs

read_input_inv :
    (p : Platform) (o : Fields) (r : Option Str) (m : Bytes)
    → read_input p o r ≡ some m
    → (role : Str) × (r ≡ some role) × (signing_input p o role ≡ ok m)
read_input_inv p o none m h = cc
read_input_inv p o (some role) m h = (role, refl, ground arith)

checked_hex_inv :
    (r : Option Str) (b : Bytes)
    → checked_hex r ≡ some b
    → (s : Str) × (r ≡ some s) × (hex_to_bytes s ≡ ok b)
checked_hex_inv none b h = cc
checked_hex_inv (some s) b h = (s, refl, ground arith)

verified_inv :
    (p : Platform) (m k b : Option Bytes)
    → verified p m k b ≡ true
    → (m' : Bytes) × (k' : Bytes) × (b' : Bytes) × (m ≡ some m')
      × (k ≡ some k')
      × (b ≡ some b')
      × (ed25519_verify p k' m' b' ≡ true)
verified_inv p (some m) (some k) (some b) h = (m, k, b, refl, refl, refl, h)
verified_inv p none k b h = cc
verified_inv p (some m) none b h = cc
verified_inv p (some m) (some k) none h = cc

signer_valid_sound :
    (p : Platform) (o : Fields) (s : Value) → signer_valid p o s ≡ true → IsSigned p o s
unfolding signer_valid
signer_valid_sound p o s h =
    let (m, k, b, hm, hk, hb, v) =
      verified_inv p (read_input p o (as_str (at (some s) (codes "role"))))
        (checked_hex (as_str (at (some s) (codes "public_key"))))
        (checked_hex (as_str (at (some s) (codes "signature")))) h in
    let (role, r, i) = read_input_inv p o (as_str (at (some s) (codes "role"))) m hm in
    let (key, kr, ki) = checked_hex_inv (as_str (at (some s) (codes "public_key"))) k hk in
    let (sig, sr, si) = checked_hex_inv (as_str (at (some s) (codes "signature"))) b hb in
    IsSigned.signed role key sig m k b r kr sr i ki si v

read_from :
    (p : Platform) (o : Fields) {r : Option Str} (role : Str) (m : Bytes)
    → r ≡ some role
    → signing_input p o role ≡ ok m
    → read_input p o r ≡ some m
read_from p o role m h i = rw h (ground (arith, i))

hex_from :
    {r : Option Str} (s : Str) (b : Bytes)
    → r ≡ some s
    → hex_to_bytes s ≡ ok b
    → checked_hex r ≡ some b
hex_from s b h e = rw h (ground (arith, e))

verified_of :
    (p : Platform) {m' k' b' : Option Bytes} {m k b : Bytes}
    → m' ≡ some m
    → k' ≡ some k
    → b' ≡ some b
    → ed25519_verify p k m b ≡ true
    → verified p m' k' b' ≡ true
verified_of p hm hk hb v = rw (hm, hk, hb) v

signer_valid_complete :
    (p : Platform) (o : Fields) (s : Value) → IsSigned p o s → signer_valid p o s ≡ true
unfolding signer_valid
signer_valid_complete p o s (IsSigned.signed role key sig m k b r kr sr i ki si v) =
    verified_of p (read_from p o role m r i) (hex_from key k kr ki) (hex_from sig b sr si) v

signed_not-null : (p : Platform) (o : Fields) (s : Value) → IsSigned p o s → is_null s ≡ false
signed_not-null p o null (IsSigned.signed role key sig m k b r kr sr i ki si v) = cc
signed_not-null p o (bool b) h = refl
signed_not-null p o (num n) h = refl
signed_not-null p o (str t) h = refl
signed_not-null p o (arr vs) h = refl
signed_not-null p o (obj f) h = refl

pub rows_sound :
    (p : Platform) (o : Fields) (ss : Items) (rows : List SignerRow)
    → signer_rows p o ss ≡ some rows
    → all_valid rows ≡ true
    → EveryItem (IsSigned p o) ss
unfolding signer_rows
rows_sound p o nil rows h v = tt
rows_sound p o (cons s ss) rows h v = elim (Option-cases (signer_rows p o ss)) [
  | inl e ↦ absurd (ground (arith, e))
  | inr (rest, e) ↦
      let both : (signer_valid p o s ≡ true) × (all_valid rest ≡ true) = ground (arith, e) in
      (signer_valid_sound p o s both.0, rows_sound p o ss rest e both.1)
]

pub rows_complete :
    (p : Platform) (o : Fields) (ss : Items)
    → EveryItem (IsSigned p o) ss
    → (rows : List SignerRow) × (signer_rows p o ss ≡ some rows) × (all_valid rows ≡ true)
unfolding signer_rows
rows_complete p o nil h = ([], refl, refl)
rows_complete p o (cons s ss) (h, hs) =
    let (rows, e, v) = rows_complete p o ss hs in
    let ok_s = signer_valid_complete p o s h in
    (
      record {
        role = at (some s) (codes "role");
        public_key = at (some s) (codes "public_key");
        valid = signer_valid p o s;
      }
          ∷ rows,
      rw (signed_not-null p o s h, e) refl,
      and_true (signer_valid p o s) (all_valid rows) ok_s v,
    )

pub Apart-sound :
    (p : Platform) (seen : List Str) (ss : Items)
    → first_duplicate p seen ss ≡ none
    → All (λ u. contains seen u ≡ false) (texts p ss) × Apart (texts p ss)
unfolding first_duplicate
Apart-sound p seen nil h = (tt, tt)
Apart-sound p seen (cons s ss) h =
    let t = member_text p s in
    let fresh : (contains seen t ≡ false) × (first_duplicate p (t ∷ seen) ss ≡ none) =
      ground arith in
    let (later, apart) = Apart-sound p (t ∷ seen) ss fresh.1 in
    let (old, new) = contains_cons seen (texts p ss) t later in ((fresh.0, old), (new, apart))

pub Apart-complete :
    (p : Platform) (seen : List Str) (ss : Items)
    → All (λ u. contains seen u ≡ false) (texts p ss)
    → Apart (texts p ss)
    → first_duplicate p seen ss ≡ none
unfolding first_duplicate
Apart-complete p seen nil h a = refl
Apart-complete p seen (cons s ss) (h, hs) (a, as') = rw (
  h,
  Apart-complete p (member_text p s ∷ seen) ss
      (cons_contains seen (texts p ss) (member_text p s) hs a) as',
)

text_prints : (v : Option Value) (s : Str) → as_str v ≡ some s → prints v ≡ true
unfolding has_text
text_prints none s h = cc
text_prints (some null) s h = cc
text_prints (some (bool b)) s h = cc
text_prints (some (num n)) s h = cc
text_prints (some (str t)) s h = refl
text_prints (some (arr vs)) s h = cc
text_prints (some (obj o)) s h = cc

signed_prints :
    (p : Platform) (o : Fields) (s : Value)
    → IsSigned p o s
    → prints (at (some s) (codes "role")) ≡ true
signed_prints p o s (IsSigned.signed role key sig m k b r kr sr i ki si v) =
    text_prints (at (some s) (codes "role")) role r

-- The roles of signers whose signatures verify are texts.
pub roles_print_of :
    (p : Platform) (o : Fields) (seen : List Str) (ss : Items)
    → EveryItem (IsSigned p o) ss
    → roles_print p seen ss ≡ true
unfolding roles_print
roles_print_of p o seen nil h = refl
roles_print_of p o seen (cons s ss) (h, hs) =
    ground (arith, signed_prints p o s h, roles_print_of p o (member_text p s ∷ seen) ss hs)
