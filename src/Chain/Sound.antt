-- ===== src/Chain/Sound.antt =====
-- What an accepted chain is, event by event, stated without the walk.
use capsules_protocol.Json.{Value, null, bool, num, str, arr, obj, Fields, get, without}
use capsules_protocol.Bytes.{Bytes, to_hex, from_hex}
use capsules_protocol.Bytes.Hex.{from_hex-to_hex}
use capsules_protocol.Platform.{Platform, IsDigest}
use capsules_protocol.Canonical.{is_hex64}
use capsules_protocol.Chain.{
  has, event_kinds, genesis_prev, participant_actor_ids, HashError, text64, hash_event,
}
use capsules_protocol.Chain.Hashing.{hash_event-IsDigest}
use capsules_protocol.Chain.Walk.{
  ChainError, error_if, is_host, seq_is, markings_errors, rule_errors, seal_errors, link_errors,
  verify_event, walk, verify_chain,
}
use capsules_protocol.Prelude.{
  Bool-cases, Result, ok, err, Str, codes, str_eq, str_eq_sound, is_nil, append-eq-nil, ℕ, suc, ◌+◌,
  ◌≡◌, refl, sym, ap, inl, inr, Bool, true, ◌&&◌, ◌||◌, not, Option, none, some, List, [], ◌∷◌,
  ◌++◌, map, arith,
}

-- The field rules of spec/chain.md for the event at position `i`.
pub record Ruled (ids : List Str) (i : ℕ) (e : Fields) : Type 0 where
  pub actor :
      (is_nil ids || (is_host (get e (codes "actor")) || has ids (get e (codes "actor")))) ≡ true
  pub kind : has event_kinds (get e (codes "kind")) ≡ true
  pub seq : seq_is (get e (codes "seq")) (i + 1) ≡ true
  pub markings : markings_errors (get e (codes "untrusted_payload_fields")) ≡ []

-- An event sealed behind `prev`, whose own hash is `h`.
pub record Sealed (p : Platform) (prev : Bytes) (e : Fields) (h : Bytes) : Type 0 where
  pub names_prev : get e (codes "prev_hash") ≡ some (str (to_hex prev))
  pub stores : get e (codes "hash") ≡ some (str (to_hex h))
  pub recomputes : hash_event p (without e (codes "hash")) ≡ ok h

abbrev pub IsChain : Platform → List Str → ℕ → Bytes → List Value → Type 0
IsChain p ids i prev [] = Unit
IsChain p ids i prev (obj e ∷ vs) =
    (h : Bytes) × Ruled ids i e × Sealed p prev e h × IsChain p ids (suc i) h vs
IsChain p ids i prev (_ ∷ vs) = ⊥

text64_sound : (o : Option Value) (s : Str) → text64 o ≡ some s → o ≡ some (str s)
text64_sound (some (str t)) s h = ground arith
text64_sound none s h = cc
text64_sound (some null) s h = cc
text64_sound (some (bool b)) s h = cc
text64_sound (some (num n)) s h = cc
text64_sound (some (arr xs)) s h = cc
text64_sound (some (obj o)) s h = cc

error_if_nil : (b : Bool) (x : ChainError) → error_if (not b) x ≡ [] → b ≡ true
error_if_nil b x h = ground arith

actor_nil :
    (x y z : Bool) (a : ChainError)
    → error_if (not x && (not y && not z)) a ≡ []
    → (x || (y || z)) ≡ true
actor_nil x y z a h = ground arith

rules_sound : (ids : List Str) (i : ℕ) (e : Fields) → rule_errors ids i e ≡ [] → Ruled ids i e
unfolding rule_errors
rules_sound ids i e h =
    let (a, h1) = append-eq-nil (error_if _ _) _ h in
    let (k, h2) = append-eq-nil (error_if _ _) _ h1 in
    let (s, m) = append-eq-nil (error_if _ _) _ h2 in
    record {
      actor =
          actor_nil (is_nil ids) (is_host (get e (codes "actor"))) (has ids (get e (codes "actor")))
            _ a;
      kind = error_if_nil (has event_kinds (get e (codes "kind"))) _ k;
      seq = error_if_nil (seq_is (get e (codes "seq")) (i + 1)) _ s;
      markings = m;
    }

-- What a sealed event that shows no error holds, in terms of its stored text `t`.
record Sealing (p : Platform) (prev : Bytes) (e : Fields) (t : Option Str) : Type 0 where
  next : Bytes
  text : t ≡ some (to_hex next)
  hash : hash_event p (without e (codes "hash")) ≡ ok next
  carries : (seal_errors p prev e t).1 ≡ next

module _ (p : Platform) (digest : IsDigest p) (prev : Bytes) (e : Fields) where
  seal_reading :
      (s : Str) (x : Result HashError Bytes)
      → hash_event p (without e (codes "hash")) ≡ x
      → is_hex64 s ≡ true
      → (seal_errors p prev e (some s)).0 ≡ []
      → Sealing p prev e (some s)
  unfolding seal_errors
  seal_reading s (err x) q hex r = absurd (ground (arith, q, hex, r))
  seal_reading s (ok h) q hex r =
      let (n, b) = hash_event-IsDigest p digest (without e (codes "hash")) h q in
      let same : str_eq (to_hex h) s ≡ true = ground (arith, q, hex, r) in
      let t = str_eq_sound (to_hex h) s same in
      record {
        next = h;
        text = ap some (sym t);
        hash = q;
        carries = ground (arith, q, hex, ap from_hex t, from_hex-to_hex h b);
      }

  seal_text : (t : Option Str) → (seal_errors p prev e t).0 ≡ [] → Sealing p prev e t
  unfolding seal_errors
  seal_text none r = cc
  seal_text (some s) r = elim (Bool-cases (is_hex64 s)) [
    | inl hex ↦ seal_reading s (hash_event p (without e (codes "hash"))) refl hex r
    | inr other ↦ absurd (ground (arith, other, r))
  ]

  linking :
      (t : Option Str)
      → (link_errors p prev e t).0 ≡ []
      → (t ≡ some (to_hex prev))
        × ((seal_errors p prev e (text64 (get e (codes "hash")))).0 ≡ [])
        × ((link_errors p prev e t).1 ≡ (seal_errors p prev e (text64 (get e (codes "hash")))).1)
  unfolding link_errors
  linking none r = cc
  linking (some s) r = elim (Bool-cases (is_hex64 s)) [
    | inl hex ↦
        let parts : (error_if (not (str_eq s (to_hex prev)))
                (ChainError.prev_hash_mismatch s (to_hex prev))
              ++ (seal_errors p prev e (text64 (get e (codes "hash")))).0)
            ≡ [] =
          ground (arith, hex, r) in
        let (a, b) = append-eq-nil (error_if _ _) _ parts in
        (
          ap some (str_eq_sound s (to_hex prev) (error_if_nil (str_eq s (to_hex prev)) _ a)),
          b,
          ground (arith, hex),
        )
    | inr other ↦ absurd (ground (arith, other, r))
  ]

  linked_sound :
      (link_errors p prev e (text64 (get e (codes "prev_hash")))).0 ≡ []
      → Sealed p prev e (link_errors p prev e (text64 (get e (codes "prev_hash")))).1
  linked_sound r =
      let (named, clean, next) = linking (text64 (get e (codes "prev_hash"))) r in
      let s = seal_text (text64 (get e (codes "hash"))) clean in
      rw (next, s.carries)
        (record {
          names_prev = text64_sound (get e (codes "prev_hash")) (to_hex prev) named;
          stores = text64_sound (get e (codes "hash")) (to_hex s.next) s.text;
          recomputes = s.hash;
        })

map-eq-nil {ℓ κ} : {A : Type ℓ} {B : Type κ} (f : A → B) (xs : List A) → map f xs ≡ [] → xs ≡ []
map-eq-nil f [] h = refl
map-eq-nil f (x ∷ xs) h = cc

walk_sound :
    (p : Platform) (digest : IsDigest p) (ids : List Str) (i : ℕ) (prev : Bytes) (vs : List Value)
    → walk p ids i prev vs ≡ []
    → IsChain p ids i prev vs
unfolding walk verify_event
walk_sound p d ids i prev [] r = tt
walk_sound p d ids i prev (obj e ∷ vs) r =
    let (one, rest) = append-eq-nil (map _ _) _ r in
    let clean = map-eq-nil _ _ one in
    let (rules, links) = append-eq-nil (rule_errors ids i e) _ clean in
    (
      (link_errors p prev e (text64 (get e (codes "prev_hash")))).1,
      rules_sound ids i e rules,
      linked_sound p d prev e links,
      walk_sound p d ids (suc i) _ vs rest,
    )
walk_sound p d ids i prev (_ ∷ vs) r = cc

-- An accepted chain is sealed event by event from the genesis value: each event obeys the field
-- rules at its position, names the hash of the one before it, and stores its own recomputed hash.
pub verify_chain_sound :
    (p : Platform) (digest : IsDigest p) (participants : Option Value) (vs : List Value)
    → verify_chain p participants vs ≡ []
    → IsChain p (participant_actor_ids participants) 0 genesis_prev vs
unfolding verify_chain
verify_chain_sound p d participants vs r =
    walk_sound p d (participant_actor_ids participants) 0 genesis_prev vs r
