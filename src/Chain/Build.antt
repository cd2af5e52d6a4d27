-- ===== src/Chain/Build.antt =====
-- `buildChainEvents`, `eventsToJsonl` apart.
use capsules_protocol.Json.{
  Value, null, str, arr, obj, Items, nil, cons, Fields, end, field, of_ℕ, get, set, spread, at,
}
use capsules_protocol.Bytes.{Bytes, to_hex}
use capsules_protocol.Platform.{Platform}
use capsules_protocol.Versions.Numeral.{decimal}
use capsules_protocol.Chain.{genesis_prev, HashError, hash_event}
use capsules_protocol.Prelude.{
  Result, ok, ◌>>=◌, Str, codes, ℕ, suc, ◌+◌, String, Option, none, some, List, [], ◌∷◌, ◌++◌,
}

-- `s.padStart(3, "0")`.
unfoldable pub pad3 : Str → Str
pad3 [] = codes "000"
pad3 (a ∷ []) = b'0' ∷ b'0' ∷ a ∷ []
pad3 (a ∷ b ∷ []) = b'0' ∷ a ∷ b ∷ []
pad3 (a ∷ b ∷ c ∷ s) = a ∷ b ∷ c ∷ s

-- `v ?? d`.
abbrev pub coalesce : Option Value → Value → Value
coalesce none d = d
coalesce (some null) d = d
coalesce (some v) d = v

unfoldable pub default_event_id : ℕ → Value
default_event_id seq = str (codes "evt_" ++ pad3 (decimal seq))

abbrev pub with_default : Option Value → Fields → Str → Value → Fields
with_default none o k d = set o k d
with_default (some v) o k d = o

abbrev pub marking : Option Value → String → Items → Items
marking (some (str s)) path rest = cons (str (codes path)) rest
marking _ path rest = rest

-- The fields that a model commonly narrates in, where they are text.
unfoldable pub candidates : Option Value → Items
candidates payload =
    marking (at payload (codes "summary")) "payload.summary"
      (marking (at payload (codes "statement")) "payload.statement" nil)

abbrev pub with_markings : Option Value → Fields → Fields
with_markings (some (arr xs)) o = o
with_markings _ o =
    set o (codes "untrusted_payload_fields") (arr (candidates (get o (codes "payload"))))

-- `{ seq, event_id, … }`; `i` counts from 0.
abbrev pub start : ℕ → Fields → Fields
start i bare = field (codes "seq") (of_ℕ (i + 1)) (
    field (codes "event_id") (coalesce (get bare (codes "event_id")) (default_event_id (i + 1)))
      end)

-- `{ seq, event_id, ...bare, prev_hash }`.
unfoldable pub linked : ℕ → Bytes → Fields → Fields
linked i prev bare = set (spread (start i bare) bare) (codes "prev_hash") (str (to_hex prev))

unfoldable pub with_payload : Fields → Fields
with_payload e = with_default (get e (codes "payload")) e (codes "payload") (obj end)

-- The object `e` just before it is hashed.
unfoldable pub assemble : ℕ → Bytes → Fields → Fields
assemble i prev bare =
    let e = with_payload (linked i prev bare) in
    with_markings (get e (codes "untrusted_payload_fields")) e

unfoldable pub build_from : Platform → ℕ → Bytes → List Fields → Result HashError (List Fields)
build_from p i prev [] = ok []
build_from p i prev (bare ∷ rest) = do
  let e = assemble i prev bare
  h ← hash_event p e
  more ← build_from p (suc i) h rest
  ok (set e (codes "hash") (str (to_hex h)) ∷ more)

unfoldable pub build_chain_events : Platform → List Fields → Result HashError (List Fields)
unfolding build_from
build_chain_events p bares = build_from p 0 genesis_prev bares
