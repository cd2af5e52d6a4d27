-- ===== src/Chain/Total.antt =====
-- When `buildChainEvents` returns.
use capsules_protocol.Json.{
  Value, null, str, arr, obj, nil, Fields, end, field, get, set, spread, without, at,
}
use capsules_protocol.Json.Laws.{Distinct, without-set, get-set_ne, get-set_self}
use capsules_protocol.Bytes.{Bytes, AreBytes, utf8, to_hex, from_hex, hex_digit}
use capsules_protocol.Platform.{Platform, IsDigest}
use capsules_protocol.Versions.Numeral.{decimal, decimal-All}
use capsules_protocol.Canonical.{jcs, max_safe_integer}
use capsules_protocol.Canonical.Boundary.{WellFormed, IsIJson, MembersIJson, assert_i_json_iff}
use capsules_protocol.Canonical.Digests.{hex_to_bytes-hex64, is_hex64-to_hex, length_hex64}
use capsules_protocol.Chain.{text64, hash_event, genesis_prev}
use capsules_protocol.Chain.Hashing.{hash_event_ok, hash_event-IsDigest}
use capsules_protocol.Chain.Build.{
  pad3, coalesce, default_event_id, with_default, with_markings, marking, candidates, start, linked,
  with_payload, assemble, build_from, build_chain_events,
}
use capsules_protocol.Chain.Assembled.{get-assemble, get-linked, or_else-none, prev_given}
use capsules_protocol.Prelude.{
  Bool-cases, ok, Str, codes, str_eq, is_digit, length, All, All-append, ℕ, suc, ◌+◌, ◌≤◌, ◌<◌, ◌≡◌,
  refl, ap, ◌∙◌, inl, inr, true, Option, none, some, List, [], ◌∷◌, ◌++◌, arith,
}

abbrev IsPlain : Str → Type 0
IsPlain = All (λ c. c < 128)

plain-WellFormed : (s : Str) → IsPlain s → WellFormed s
plain-WellFormed [] h = WellFormed.empty
plain-WellFormed (c ∷ s) (hc, hs) =
    WellFormed.unit c s (ground arith) (ground arith) (plain-WellFormed s hs)

to_hex-IsPlain : (b : Bytes) → AreBytes b → IsPlain (to_hex b)
unfolding to_hex hex_digit
to_hex-IsPlain [] h = tt
to_hex-IsPlain (x ∷ b) (hx, hb) = (ground arith, (ground arith, to_hex-IsPlain b hb))

digits-IsPlain : (s : Str) → All (λ d. is_digit d ≡ true) s → IsPlain s
digits-IsPlain [] h = tt
digits-IsPlain (c ∷ s) (hc, hs) = (ground arith, digits-IsPlain s hs)

pad3-IsPlain : (s : Str) → IsPlain s → IsPlain (pad3 s)
unfolding pad3
pad3-IsPlain [] h = omega arith
pad3-IsPlain (a ∷ []) h = omega arith
pad3-IsPlain (a ∷ b ∷ []) h = omega arith
pad3-IsPlain (a ∷ b ∷ c ∷ s) h = h

MembersIJson-set :
    (o : Fields) (k : Str) (v : Value)
    → MembersIJson o
    → WellFormed k
    → IsIJson v
    → MembersIJson (set o k v)
unfolding MembersIJson set
MembersIJson-set end k v h wk wv = (wk, wv, tt)
MembersIJson-set (field j w o) k v (wj, ww, wo) wk wv = elim (Bool-cases (str_eq j k)) [
  | inl same ↦ rw (same, set) (wj, wv, wo)
  | inr other ↦ rw (other, set) (wj, ww, MembersIJson-set o k v wo wk wv)
]

MembersIJson-spread : (a b : Fields) → MembersIJson a → MembersIJson b → MembersIJson (spread a b)
unfolding MembersIJson spread
MembersIJson-spread a end ha hb = ha
MembersIJson-spread a (field k v b) ha (wk, wv, wb) =
    MembersIJson-spread (set a k v) b (MembersIJson-set a k v ha wk wv) wb

get-IsIJson : (o : Fields) (k : Str) (v : Value) → MembersIJson o → get o k ≡ some v → IsIJson v
unfolding MembersIJson get
get-IsIJson end k v h e = cc
get-IsIJson (field j w o) k v (wj, ww, wo) e = elim (Bool-cases (str_eq j k)) [
  | inl same ↦ let q : w ≡ v = ground (arith, same, e) in rw (← q) ww
  | inr other ↦ get-IsIJson o k v wo (ground (arith, other, e))
]

coalesce-IsIJson :
    (o : Option Value) (d : Value)
    → ((v : Value) → o ≡ some v → IsIJson v)
    → IsIJson d
    → IsIJson (coalesce o d)
coalesce-IsIJson none d h hd = hd
coalesce-IsIJson (some null) d h hd = hd
coalesce-IsIJson (some v) d h hd = h v refl

candidates-IsIJson : (q : Option Value) → IsIJson (arr (candidates q))
unfolding candidates MembersIJson
candidates-IsIJson q = go (at q (codes "summary")) (at q (codes "statement"))
  where
    go :
        (a b : Option Value)
        → IsIJson (arr (marking a "payload.summary" (marking b "payload.statement" nil)))
    go (some (str s)) (some (str t)) =
        (plain-WellFormed _ (omega arith), (plain-WellFormed _ (omega arith), tt))
    go (some (str s)) _ = (plain-WellFormed _ (omega arith), tt)
    go _ (some (str t)) = (plain-WellFormed _ (omega arith), tt)
    go _ _ = tt

with_default-IsIJson :
    (v : Option Value) (o : Fields) (k : Str) (d : Value)
    → MembersIJson o
    → WellFormed k
    → IsIJson d
    → MembersIJson (with_default v o k d)
with_default-IsIJson none o k d ho wk hd = MembersIJson-set o k d ho wk hd
with_default-IsIJson (some v) o k d ho wk hd = ho

with_markings-IsIJson :
    (v : Option Value) (o : Fields) → MembersIJson o → MembersIJson (with_markings v o)
with_markings-IsIJson (some (arr xs)) o h = h
with_markings-IsIJson _ o h =
    MembersIJson-set o (codes "untrusted_payload_fields") _ h (plain-WellFormed _ (omega arith))
      (candidates-IsIJson (get o (codes "payload")))

assemble-IsIJson :
    (i : ℕ) (prev : Bytes) (bare : Fields)
    → i < max_safe_integer
    → AreBytes prev
    → MembersIJson bare
    → MembersIJson (assemble i prev bare)
unfolding assemble linked with_payload MembersIJson default_event_id
assemble-IsIJson i prev bare hi hp h =
    let id =
      coalesce-IsIJson (get bare (codes "event_id")) (default_event_id (i + 1))
        (λ v e. get-IsIJson bare (codes "event_id") v h e)
        (plain-WellFormed _ (
          All-append _ (codes "evt_") (pad3 (decimal (i + 1))) (omega arith) (
            pad3-IsPlain (decimal (i + 1))
              (digits-IsPlain (decimal (i + 1)) (decimal-All (i + 1)))))) in
    let first : MembersIJson (start i bare) = (
      plain-WellFormed _ (omega arith),
      inl (omega arith),
      (plain-WellFormed _ (omega arith), id, tt),
    ) in
    let e =
      MembersIJson-set (spread (start i bare) bare) (codes "prev_hash") (str (to_hex prev))
        (MembersIJson-spread (start i bare) bare first h) (plain-WellFormed _ (omega arith))
        (plain-WellFormed _ (to_hex-IsPlain prev hp)) in
    with_markings-IsIJson
      (get (with_payload (linked i prev bare)) (codes "untrusted_payload_fields"))
      (with_payload (linked i prev bare))
      (with_default-IsIJson (get (linked i prev bare) (codes "payload")) (linked i prev bare)
        (codes "payload") (obj end) e (plain-WellFormed _ (omega arith)) tt)

-- The package gives a text for every value inside the boundary.
abbrev pub Canonicalizes : Platform → Type 0
Canonicalizes p = (v : Value) → IsIJson v → (s : Str) × (p.canonicalize v ≡ some s)

-- What the builder is given: I-JSON members, none of them twice, and no hash.
pub record IsBare (bare : Fields) : Type 0 where
  pub distinct : Distinct bare
  pub members : MembersIJson bare
  pub unsealed : get bare (codes "hash") ≡ none

jcs_total :
    (p : Platform) → Canonicalizes p → (v : Value) → IsIJson v → (b : Bytes) × (jcs p v ≡ ok b)
unfolding jcs
jcs_total p c v h =
    let (s, e) = c v h in let good = (assert_i_json_iff v).1 h in (utf8 s, rw (good, jcs, e))

-- Each event stores the hash of its own members without it, and names the hash that the event
-- before it stores.
abbrev pub IsSealedFrom : Platform → Bytes → List Fields → Type 0
IsSealedFrom p prev [] = Unit
IsSealedFrom p prev (e ∷ es) =
    (h : Bytes) × (get e (codes "hash") ≡ some (str (to_hex h)))
    × (get e (codes "prev_hash") ≡ some (str (to_hex prev)))
    × (hash_event p (without e (codes "hash")) ≡ ok h)
    × IsSealedFrom p h es

module _ (p : Platform) (digest : IsDigest p) (canon : Canonicalizes p) where
  hash_total :
      (i : ℕ) (prev : Bytes) (bare : Fields)
      → i < max_safe_integer
      → length prev ≡ 32
      → AreBytes prev
      → IsBare bare
      → (h : Bytes) × (hash_event p (assemble i prev bare) ≡ ok h)
  unfolding hash_event str_eq get MembersIJson
  hash_total i prev bare hi n b w =
      let e = assemble i prev bare in
      let none_yet =
        get-assemble i prev bare (codes "hash") refl refl
        ∙ get-linked i prev bare (codes "hash") refl w.distinct
        ∙ or_else-none (get bare (codes "hash"))
        ∙ w.unsealed in
      let hex = is_hex64-to_hex prev n b in
      let own : text64 (some (str (to_hex prev))) ≡ some (to_hex prev) =
        rw (length_hex64 (to_hex prev) hex) in
      let text = ap text64 (prev_given i prev bare w.distinct) ∙ own in
      let (bytes, done) = jcs_total p canon (obj e) (assemble-IsIJson i prev bare hi b w.members) in
      (
        p.sha256 (from_hex (to_hex prev) ++ bytes),
        rw (none_yet, hash_event, text, hex_to_bytes-hex64 (to_hex prev) hex, done),
      )

  build_from_total :
      (i : ℕ) (prev : Bytes) (bares : List Fields)
      → i + length bares ≤ max_safe_integer
      → length prev ≡ 32
      → AreBytes prev
      → All IsBare bares
      → (events : List Fields) × (build_from p i prev bares ≡ ok events)
        × (length events ≡ length bares)
        × IsSealedFrom p prev events
  unfolding build_from str_eq
  build_from_total i prev [] hi n b w = ([], refl, refl, tt)
  build_from_total i prev (bare ∷ rest) hi n b (w, ws) =
      let (h, q) = hash_total i prev bare (omega arith) n b w in
      let (nh, bh) = hash_event-IsDigest p digest (assemble i prev bare) h q in
      let e = assemble i prev bare in
      let sealed = set e (codes "hash") (str (to_hex h)) in
      let (more, r, same, own) = build_from_total (suc i) h rest (omega arith) nh bh ws in
      (
        sealed ∷ more,
        rw (q, r),
        ap suc same,
        (
          h,
          get-set_self e (codes "hash") (str (to_hex h)),
          get-set_ne e (codes "hash") (codes "prev_hash") (str (to_hex h)) refl
              ∙ prev_given i prev bare w.distinct,
          ap (hash_event p)
                (without-set e (codes "hash") (str (to_hex h)) (hash_event_ok p e h q).no_hash)
              ∙ q,
          own,
        ),
      )

-- The builder succeeds on bare events within the I-JSON boundary, with one event for each, which
-- stores the hash of its other members and names the hash of the event before it, or 32 zero
-- bytes; the digest is 32 bytes, the package has a text for each I-JSON value, and positions are
-- exact.
pub build_total :
    (p : Platform) (digest : IsDigest p) (canon : Canonicalizes p) (bares : List Fields)
    → length bares ≤ max_safe_integer
    → All IsBare bares
    → (events : List Fields) × (build_chain_events p bares ≡ ok events)
      × (length events ≡ length bares)
      × IsSealedFrom p genesis_prev events
unfolding build_chain_events
build_total p digest canon bares n w =
    build_from_total p digest canon 0 genesis_prev bares (omega arith) refl (omega arith) w
