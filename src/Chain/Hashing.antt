-- ===== src/Chain/Hashing.antt =====
-- What a successful `hashEvent` read, and when it succeeds.
use capsules_protocol.Json.{Value, obj, Fields, get}
use capsules_protocol.Bytes.{Bytes, AreBytes}
use capsules_protocol.Platform.{Platform, IsDigest}
use capsules_protocol.Canonical.{CanonError, HexError, hex_to_bytes, jcs}
use capsules_protocol.Chain.{HashError, of_hex, of_canon, text64, digest, hash_event}
use capsules_protocol.Prelude.{
  Result, ok, err, ◌>>=◌, Str, codes, length, ◌≡◌, refl, Option, none, some, ◌++◌, arith,
}

-- The pieces of the message that was hashed.
pub record Hashed (p : Platform) (e : Fields) (h : Bytes) : Type 0 where
  pub named : Str
  pub prev : Bytes
  pub canon : Bytes
  pub no_hash : get e (codes "hash") ≡ none
  pub names_prev : text64 (get e (codes "prev_hash")) ≡ some named
  pub decoded : hex_to_bytes named ≡ ok prev
  pub canonical : jcs p (obj e) ≡ ok canon
  pub hash_is : h ≡ p.sha256 (prev ++ canon)

module _ (p : Platform) (e : Fields) (h : Bytes) where
  read_canon :
      (named : Str) (prev : Bytes) (c : Result CanonError Bytes)
      → get e (codes "hash") ≡ none
      → text64 (get e (codes "prev_hash")) ≡ some named
      → hex_to_bytes named ≡ ok prev
      → jcs p (obj e) ≡ c
      → (of_canon c >>= λ canon. ok (p.sha256 (prev ++ canon))) ≡ ok h
      → Hashed p e h
  read_canon named prev (ok canon) a b d q r = record {
    named = named;
    prev = prev;
    canon = canon;
    no_hash = a;
    names_prev = b;
    decoded = d;
    canonical = q;
    hash_is = ground (arith, r);
  }
  read_canon named prev (err x) a b d q r = cc

  read_hex :
      (named : Str) (x : Result HexError Bytes)
      → get e (codes "hash") ≡ none
      → text64 (get e (codes "prev_hash")) ≡ some named
      → hex_to_bytes named ≡ x
      → (of_hex x >>= λ prev. of_canon (jcs p (obj e)) >>= λ canon. ok (p.sha256 (prev ++ canon)))
        ≡ ok h
      → Hashed p e h
  read_hex named (ok prev) a b d r = read_canon named prev (jcs p (obj e)) a b d refl r
  read_hex named (err x) a b d r = cc

  read_text :
      (t : Option Str)
      → get e (codes "hash") ≡ none
      → text64 (get e (codes "prev_hash")) ≡ t
      → digest p e t ≡ ok h
      → Hashed p e h
  read_text none a b r = cc
  read_text (some named) a b r = read_hex named (hex_to_bytes named) a b refl r

  pub hash_event_ok : hash_event p e ≡ ok h → Hashed p e h
  unfolding hash_event
  hash_event_ok r = go (get e (codes "hash")) refl r
    where
      go :
          (o : Option Value)
          → get e (codes "hash") ≡ o
          → (elim o [
            | some x ↦ err HashError.has_hash
            | none ↦ digest p e (text64 (get e (codes "prev_hash")))
          ])
            ≡ ok h
          → Hashed p e h
      go none a r = read_text (text64 (get e (codes "prev_hash"))) a refl r
      go (some x) a r = cc

pub hash_event-IsDigest :
    (p : Platform) (d : IsDigest p) (e : Fields) (h : Bytes)
    → hash_event p e ≡ ok h
    → (length h ≡ 32) × AreBytes h
hash_event-IsDigest p d e h r =
    let x = hash_event_ok p e h r in
    rw x.hash_is (d.size (x.prev ++ x.canon), d.bytes (x.prev ++ x.canon))
