-- ===== src/Platform.antt =====
-- The code that sdk-js calls and does not hold: the `canonicalize` package, node:crypto.
use capsules_protocol.Prelude.{Str, length, ◌≡◌, ◌≢◌, Bool, Option}
use capsules_protocol.Json.{Value, Num}
use capsules_protocol.Bytes.{Bytes, AreBytes}

pub record Platform : Type 0 where
  -- RFC 8785 text of a value; `none` where the package returns no string.
  pub canonicalize : Value → Option Str
  pub sha256 : Bytes → Bytes
  -- Public key, message, signature.
  pub ed25519_verify : Bytes → Bytes → Bytes → Bool
  -- Seed, message.
  pub ed25519_sign : Bytes → Bytes → Bytes
  -- ECMAScript's text of a number.
  pub number_text : Num → Str

-- What the source relies on: a SHA-256 digest is 32 bytes.
pub record IsDigest (p : Platform) : Type 0 where
  pub size : (m : Bytes) → length (p.sha256 m) ≡ 32
  pub bytes : (m : Bytes) → AreBytes (p.sha256 m)

-- Two messages with one digest.
abbrev pub Collides : Platform → Bytes → Bytes → Type 0
Collides p x y = (x ≢ y) × (p.sha256 x ≡ p.sha256 y)
