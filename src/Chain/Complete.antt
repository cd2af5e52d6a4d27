-- ===== src/Chain/Complete.antt =====
-- `verifyChain`, from the description of chains to the walk.
use capsules_protocol.Json.{Value, str, obj, Fields, get, without}
use capsules_protocol.Bytes.{Bytes, AreBytes, to_hex}
use capsules_protocol.Bytes.Hex.{from_hex-to_hex}
use capsules_protocol.Platform.{Platform, IsDigest}
use capsules_protocol.Canonical.{is_hex64}
use capsules_protocol.Canonical.Digests.{is_hex64-to_hex, length_hex64}
use capsules_protocol.Chain.{has, event_kinds, genesis_prev, participant_actor_ids, text64}
use capsules_protocol.Chain.Hashing.{hash_event-IsDigest}
use capsules_protocol.Chain.Walk.{
  ChainError, error_if, is_host, seq_is, rule_errors, seal_errors, link_errors, verify_event, walk,
  verify_chain,
}
use capsules_protocol.Chain.Sound.{Ruled, Sealed, IsChain, verify_chain_sound}
use capsules_protocol.Prelude.{
  Str, codes, str_eq_refl, length, is_nil, ℕ, suc, ◌+◌, ◌≡◌, refl, ap, ◌∙◌, ◌↔◌, Bool, true, ◌&&◌,
  ◌||◌, not, Option, some, List, [], ◌∷◌, ◌++◌, arith,
}

no_rule_errors :
    (x y z k q : Bool) (l : List ChainError) (a b c : ChainError)
    → (x || (y || z)) ≡ true
    → k ≡ true
    → q ≡ true
    → l ≡ []
    → error_if (not x && (not y && not z)) a ++ (error_if (not k) b ++ (error_if (not q) c ++ l))
      ≡ []
no_rule_errors x y z k q l a b c hx hk hq hl = ground arith

rules_complete : (ids : List Str) (i : ℕ) (e : Fields) → Ruled ids i e → rule_errors ids i e ≡ []
unfolding rule_errors
rules_complete ids i e r =
    no_rule_errors (is_nil ids) (is_host (get e (codes "actor"))) (has ids (get e (codes "actor")))
      (has event_kinds (get e (codes "kind"))) (seq_is (get e (codes "seq")) (i + 1)) _ _ _ _
      r.actor r.kind r.seq r.markings

text64_own : (s : Str) → is_hex64 s ≡ true → text64 (some (str s)) ≡ some s
text64_own s h = rw (length_hex64 s h)

module _ (p : Platform) (prev : Bytes) (e : Fields) (h : Bytes) (s : Sealed p prev e h) where
  seal_complete :
      length h ≡ 32 → AreBytes h → seal_errors p prev e (text64 (get e (codes "hash"))) ≡ ([], h)
  unfolding seal_errors
  seal_complete n b =
      let hex = is_hex64-to_hex h n b in
      let stored = ap text64 s.stores ∙ text64_own (to_hex h) hex in
      rw (stored, hex, s.recomputes, str_eq_refl (to_hex h), from_hex-to_hex h b)

  link_complete :
      length prev ≡ 32
      → AreBytes prev
      → length h ≡ 32
      → AreBytes h
      → link_errors p prev e (text64 (get e (codes "prev_hash"))) ≡ ([], h)
  unfolding link_errors
  link_complete np bp nh bh =
      let hex = is_hex64-to_hex prev np bp in
      let text = ap text64 s.names_prev ∙ text64_own (to_hex prev) hex in
      rw (text, hex, str_eq_refl (to_hex prev), seal_complete nh bh)

walk_complete :
    (p : Platform) (digest : IsDigest p) (ids : List Str) (i : ℕ) (prev : Bytes) (vs : List Value)
    → length prev ≡ 32
    → AreBytes prev
    → IsChain p ids i prev vs
    → walk p ids i prev vs ≡ []
unfolding walk verify_event
walk_complete p d ids i prev [] n b c = refl
walk_complete p d ids i prev (obj e ∷ vs) n b (h, r, s, c) =
    let (nh, bh) = hash_event-IsDigest p d (without e (codes "hash")) h s.recomputes in
    rw (rules_complete ids i e r, link_complete p prev e h s n b nh bh)
      (walk_complete p d ids (suc i) h vs nh bh c)
walk_complete p d ids i prev (_ ∷ vs) n b c = absurd c

-- `verifyChain` finds no error exactly in the chains of the description: events under the field
-- rules at their positions, sealed one behind the other from 32 zero bytes. The digest is 32 bytes.
pub verify_chain_iff :
    (p : Platform) (digest : IsDigest p) (participants : Option Value) (vs : List Value)
    → (verify_chain p participants vs ≡ [])
      ↔ IsChain p (participant_actor_ids participants) 0 genesis_prev vs
unfolding verify_chain
verify_chain_iff p d participants vs = (
  verify_chain_sound p d participants vs,
  walk_complete p d (participant_actor_ids participants) 0 genesis_prev vs refl (omega arith),
)
