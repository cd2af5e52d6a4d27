-- ===== src/Chain/Evidence.antt =====
-- Two accepted chains, compared by their entry hash.
use capsules_protocol.Json.{Value, obj, str, Fields, get, without}
use capsules_protocol.Bytes.{Bytes, to_hex}
use capsules_protocol.Platform.{Platform, Collides}
use capsules_protocol.Canonical.{jcs}
use capsules_protocol.Chain.Sound.{IsChain}
use capsules_protocol.Prelude.{ok, Str, codes, ℕ, suc, ◌≡◌, ◌⊎◌, some, List, [], ◌∷◌, ◌++◌}

-- The same canonical bytes under the same hash, event by event.
abbrev pub SameEvents : Platform → List Value → List Value → Type 0
SameEvents p (obj e ∷ vs) (obj f ∷ ws) =
    (jcs p (obj (without e (codes "hash"))) ≡ jcs p (obj (without f (codes "hash"))))
    × (get e (codes "hash") ≡ get f (codes "hash"))
    × SameEvents p vs ws
SameEvents p [] [] = Unit
SameEvents p _ _ = ⊥

-- The message that an event names: the bytes of its `prev_hash`, then its canonical bytes.
abbrev pub IsMessage : Platform → Fields → Bytes → Type 0
IsMessage p e x =
    (prev : Bytes) × (canon : Bytes) × (get e (codes "prev_hash") ≡ some (str (to_hex prev)))
    × (jcs p (obj (without e (codes "hash"))) ≡ ok canon)
    × (x ≡ prev ++ canon)

-- Two events whose messages differ and have one digest.
abbrev pub EventsCollide : Platform → Fields → Fields → Type 0
EventsCollide p e f = (x : Bytes) × (y : Bytes) × IsMessage p e x × IsMessage p f y × Collides p x y

-- The events at one position of two chains collide.
abbrev pub ChainsCollide : Platform → List Value → List Value → Type 0
ChainsCollide p (obj e ∷ vs) (obj f ∷ ws) = EventsCollide p e f ⊎ ChainsCollide p vs ws
ChainsCollide p _ _ = ⊥

-- The hash after the last event.
abbrev final :
    (p : Platform) (ids : List Str) (i : ℕ) (prev : Bytes) (vs : List Value)
    → IsChain p ids i prev vs
    → Bytes
final p ids i prev [] c = prev
final p ids i prev (obj e ∷ vs) (h, r, s, c) = final p ids (suc i) h vs c
final p ids i prev (_ ∷ vs) c = absurd c
