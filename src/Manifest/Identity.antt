-- ===== src/Manifest/Identity.antt =====
-- What `computeCapsuleId` of manifest.js hashes.
use capsules_protocol.Json.{Value}
use capsules_protocol.Bytes.{Bytes, to_hex, from_hex}
use capsules_protocol.Bytes.Hex.{from_hex-to_hex}
use capsules_protocol.Platform.{Platform, IsDigest, Collides}
use capsules_protocol.Versions.{id_domain}
use capsules_protocol.Versions.Domains.{IsVersionText, id_domain_separates}
use capsules_protocol.Manifest.{first_hash_raw, compute_capsule_id}
use capsules_protocol.Prelude.{
  Bool-cases, ok, Str, str_eq, str_eq_sound, str_eq_iff, length, ◌≡◌, refl, sym, ap, ◌∙◌, ◌⊎◌, inl,
  inr, Option, [], ◌∷◌, ◌++◌, arith, Result-cases,
}

-- The message that is hashed.
record Named (p : Platform) (key : Bytes) (first : Option Value) (version id : Str) : Type 0 where
  raw : Bytes
  key_size : length key ≡ 32
  raw_read : first_hash_raw first ≡ ok raw
  hashed : id ≡ to_hex (p.sha256 (id_domain version ++ (key ++ raw)))

named :
    (p : Platform) (key : Bytes) (first : Option Value) (version id : Str)
    → compute_capsule_id p key first version ≡ ok id
    → Named p key first version id
unfolding compute_capsule_id
named p key first version id h = elim (Result-cases (first_hash_raw first)) [
  | inl (e, n) ↦ absurd (ground (arith, n))
  | inr (raw, n) ↦ record {
    raw = raw;
    key_size = ground (arith, n);
    raw_read = n;
    hashed = ground (arith, n);
  }
]

split_same : (a b s t : Bytes) → length a ≡ length b → (a ++ s) ≡ (b ++ t) → (a ≡ b) × (s ≡ t)
split_same [] [] s t n e = (refl, e)
split_same [] (y ∷ b) s t n e = absurd (omega arith)
split_same (x ∷ a) [] s t n e = absurd (omega arith)
split_same (x ∷ a) (y ∷ b) s t n e = ground (arith, split_same a b s t)

pub same_digest :
    (p : Platform)
    → IsDigest p
    → (x y : Bytes) → to_hex (p.sha256 x) ≡ to_hex (p.sha256 y)
    → (x ≡ y) ⊎ Collides p x y
same_digest p d x y e =
    let equal =
      sym (from_hex-to_hex (p.sha256 x) (d.bytes x))
      ∙ ap from_hex e
      ∙ from_hex-to_hex (p.sha256 y) (d.bytes y) in
    elim (Bool-cases (str_eq x y)) [
      | inl t ↦ inl (str_eq_sound x y t)
      | inr f ↦ inr ((λ s. cc ((str_eq_iff x y).1 s, f)), equal)
    ]

-- The two messages behind the ids of two capsules differ and have one digest.
pub record IdsCollide (p : Platform) (key own : Bytes) (first other : Option Value)
    (version era : Str) : Type 0 where
  pub raw : Bytes
  pub other_raw : Bytes
  pub raw_read : first_hash_raw first ≡ ok raw
  pub other_read : first_hash_raw other ≡ ok other_raw
  pub collide : Collides p (id_domain version ++ (key ++ raw)) (id_domain era ++ (own ++ other_raw))

-- Two capsules of one id declare one version, one originator key and one raw first event hash; or
-- the message of domain, key and raw hash of the one and that of the other differ and have one
-- digest. Versions are of digits and full stops, and the digest is 32 bytes.
pub capsule_id_binds :
    (p : Platform)
    → IsDigest p
    → (key own : Bytes) (first other : Option Value) (version era id : Str) → IsVersionText version
    → IsVersionText era
    → compute_capsule_id p key first version ≡ ok id
    → compute_capsule_id p own other era ≡ ok id
    → ((version ≡ era) × (key ≡ own) × (first_hash_raw first ≡ first_hash_raw other))
      ⊎ IdsCollide p key own first other version era
capsule_id_binds p d key own first other version era id hv he h k =
    let a = named p key first version id h in
    let b = named p own other era id k in
    elim (same_digest p d (id_domain version ++ (key ++ a.raw)) (id_domain era ++ (own ++ b.raw))
      (sym a.hashed ∙ b.hashed)) [
        | inr c ↦ inr (record {
          raw = a.raw;
          other_raw = b.raw;
          raw_read = a.raw_read;
          other_read = b.raw_read;
          collide = c;
        })
        | inl same ↦
            let (v, rest) =
              (id_domain_separates version era [] (key ++ a.raw) (own ++ b.raw) hv he).0 same in
            let (ks, raws) = split_same key own a.raw b.raw (a.key_size ∙ sym b.key_size) rest in
            inl (v, ks, a.raw_read ∙ ap ok raws ∙ sym b.raw_read)
      ]
