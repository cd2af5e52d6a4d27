-- ===== src/Chain/RoundTrip.antt =====
-- `buildChainEvents` followed by `verifyChain`.
use capsules_protocol.Json.{Value, str, obj, Fields, of_ℕ, get, set}
use capsules_protocol.Json.Laws.{without-set, Distinct, get-set_ne, get-set_self}
use capsules_protocol.Bytes.{Bytes, to_hex}
use capsules_protocol.Platform.{Platform, IsDigest}
use capsules_protocol.Chain.{
  has, event_kinds, genesis_prev, participant_actor_ids, HashError, hash_event,
}
use capsules_protocol.Chain.Build.{linked, with_payload, assemble, build_from, build_chain_events}
use capsules_protocol.Chain.Hashing.{hash_event_ok}
use capsules_protocol.Chain.Walk.{is_host, seq_is, markings_errors, verify_chain}
use capsules_protocol.Prelude.{
  Result, ok, err, ◌>>=◌, Str, codes, str_eq, is_nil, All, ℕ, suc, ◌+◌, ◌≡◌, refl, sym, ap, ◌∙◌,
  true, false, ◌||◌, Option, none, some, List, [], ◌∷◌, map, arith,
}
use capsules_protocol.Chain.Sound.{Ruled, Sealed, IsChain}
use capsules_protocol.Chain.Complete.{verify_chain_iff}
use capsules_protocol.Chain.Assembled.{
  markings_key, MarkingsValid, kind_kept, actor_kept, seq_given, prev_given, markings_before,
  markings_written,
}

-- What an author writes: nothing that the builder sets itself, a known kind, an actor of the set
-- (if there is a set), and well-formed markings.
pub record IsAuthored (ids : List Str) (bare : Fields) : Type 0 where
  pub distinct : Distinct bare
  pub no_seq : get bare (codes "seq") ≡ none
  pub kind : has event_kinds (get bare (codes "kind")) ≡ true
  pub actor :
      (is_nil ids || (is_host (get bare (codes "actor")) || has ids (get bare (codes "actor"))))
      ≡ true
  pub markings : MarkingsValid (get bare (codes "untrusted_payload_fields"))

seq_is_own : (n : ℕ) → seq_is (some (of_ℕ n)) n ≡ true
seq_is_own n = ground arith

-- The event as it is sealed.
module _ (e : Fields) (h : Bytes) where
  abbrev sealed : Fields
  sealed = set e (codes "hash") (str (to_hex h))

  sealed_member : (j : Str) → str_eq (codes "hash") j ≡ false → get sealed j ≡ get e j
  sealed_member j ne = get-set_ne e (codes "hash") j (str (to_hex h)) ne

module _ (ids : List Str) (i : ℕ) (prev : Bytes) (bare : Fields) (w : IsAuthored ids bare)
    (h : Bytes) where
  assembled-Ruled : Ruled ids i (sealed (assemble i prev bare) h)
  unfolding str_eq assemble
  assembled-Ruled =
      let e = assemble i prev bare in
      let actor = sealed_member e h (codes "actor") refl ∙ actor_kept i prev bare w.distinct in
      let kind = sealed_member e h (codes "kind") refl ∙ kind_kept i prev bare w.distinct in
      let seq = sealed_member e h (codes "seq") refl ∙ seq_given i prev bare w.distinct w.no_seq in
      let before = markings_before i prev bare w.distinct in
      record {
        actor = ap (λ a. is_nil ids || (is_host a || has ids a)) actor ∙ w.actor;
        kind = ap (has event_kinds) kind ∙ w.kind;
        seq = ap (λ o. seq_is o (i + 1)) seq ∙ seq_is_own (i + 1);
        markings =
            ap markings_errors (sealed_member e h markings_key refl)
            ∙ markings_written _ (with_payload (linked i prev bare)) refl
                (λ xs r. w.markings xs (sym before ∙ r));
      }

  assembled-Sealed :
      (p : Platform)
      → hash_event p (assemble i prev bare) ≡ ok h
      → Sealed p prev (sealed (assemble i prev bare) h) h
  unfolding str_eq
  assembled-Sealed p q =
      let e = assemble i prev bare in
      record {
        names_prev = sealed_member e h (codes "prev_hash") refl ∙ prev_given i prev bare w.distinct;
        stores = get-set_self e (codes "hash") (str (to_hex h));
        recomputes =
            ap (hash_event p)
              (without-set e (codes "hash") (str (to_hex h)) (hash_event_ok p e h q).no_hash)
            ∙ q;
      }

module _ (p : Platform) (ids : List Str) where
  abbrev Kept : ℕ → List Fields → Type 0
  Kept i rest =
      (h : Bytes) (es : List Fields)
      → build_from p (suc i) h rest ≡ ok es
      → IsChain p ids (suc i) h (map obj es)

  built_rest :
      (i : ℕ) (prev : Bytes) (bare : Fields) (rest events : List Fields) (h : Bytes)
      (x : Result HashError (List Fields))
      → IsAuthored ids bare
      → hash_event p (assemble i prev bare) ≡ ok h
      → build_from p (suc i) h rest ≡ x
      → (x >>= λ more. ok (sealed (assemble i prev bare) h ∷ more)) ≡ ok events
      → Kept i rest
      → IsChain p ids i prev (map obj events)
  built_rest i prev bare rest events h (err x) w q b s ih = cc
  built_rest i prev bare rest events h (ok more) w q b s ih =
      let e : (sealed (assemble i prev bare) h ∷ more) ≡ events = ground (arith, s) in
      rw (← e) (
        h,
        assembled-Ruled ids i prev bare w h,
        assembled-Sealed ids i prev bare w h p q,
        ih h more b,
      )

  built_first :
      (i : ℕ) (prev : Bytes) (bare : Fields) (rest events : List Fields)
      (x : Result HashError Bytes)
      → IsAuthored ids bare
      → hash_event p (assemble i prev bare) ≡ x
      → (x >>= λ h.
          build_from p (suc i) h rest >>= λ more. ok (sealed (assemble i prev bare) h ∷ more))
        ≡ ok events
      → Kept i rest
      → IsChain p ids i prev (map obj events)
  built_first i prev bare rest events (err x) w q s ih = cc
  built_first i prev bare rest events (ok h) w q s ih =
      built_rest i prev bare rest events h (build_from p (suc i) h rest) w q refl s ih

  build_from-IsChain :
      (i : ℕ) (prev : Bytes) (bares events : List Fields)
      → All (IsAuthored ids) bares
      → build_from p i prev bares ≡ ok events
      → IsChain p ids i prev (map obj events)
  unfolding build_from
  build_from-IsChain i prev [] [] w r = tt
  build_from-IsChain i prev [] (x ∷ xs) w r = cc
  build_from-IsChain i prev (bare ∷ rest) events (w, ws) r =
      built_first i prev bare rest events (hash_event p (assemble i prev bare)) w refl r
        (λ h es b. build_from-IsChain (suc i) h rest es ws b)

-- A chain built from authored events is accepted by the walk, under the same participants: the
-- list of errors is empty. The digest is 32 bytes.
pub verify-build :
    (p : Platform) (digest : IsDigest p) (participants : Option Value) (bares events : List Fields)
    → All (IsAuthored (participant_actor_ids participants)) bares
    → build_chain_events p bares ≡ ok events
    → verify_chain p participants (map obj events) ≡ []
unfolding build_chain_events
verify-build p digest participants bares events w r =
    (verify_chain_iff p digest participants (map obj events)).1
      (build_from-IsChain p (participant_actor_ids participants) 0 genesis_prev bares events w r)
