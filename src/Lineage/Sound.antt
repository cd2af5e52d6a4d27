-- ===== src/Lineage/Sound.antt =====
-- The rounds of the walk of sdk-js/src/lineage.js keep every entry sound.
use capsules_protocol.Json.{Value, null, bool, num, str, arr, obj, at}
use capsules_protocol.Platform.{Platform}
use capsules_protocol.Manifest.Predecessors.{predecessors_problems}
use capsules_protocol.Lineage.{
  Kind, verifiable, encrypted, unsupported_version, unsupported_profile, unreadable, Entry,
  Artifact, equality_diffs,
}
use capsules_protocol.Lineage.Walk.{
  State, has_hash, place_unverified, match_verifiable, children, era_defines_lineage, declare,
  expand, walk_on, moved, moved_or_not, place_verifiable, place, ended, rounds,
}
use capsules_protocol.Lineage.Rounds.{rounds_keep}
use capsules_protocol.Lineage.Linked.{
  IsSound, AllSound, place_unverified_keeps, match_keeps, children-IsSound,
}
use mathlib.Core.Path.{subst}
use capsules_protocol.Prelude.{
  leb, Bool-cases, Option-cases, Option, none, Str, codes, contains, is_nil, All, All-append, ℕ,
  ◌+◌, ◌≡◌, refl, sym, ◌⊎◌, inl, inr, true, false, ◌&&◌, not, some, List, ◌∷◌, ◌++◌, arith,
}

module _ {κ} (Q : Artifact → Type κ) (p : Platform) (hops : ℕ) where
  declare_keeps :
      (e : Entry) (d : Value) (s : State) → AllSound Q hops s → AllSound Q hops (declare hops e d s)
  unfolding declare
  declare_keeps e null s h = h
  declare_keeps e (bool b) s h = h
  declare_keeps e (num n) s h = h
  declare_keeps e (str t) s h = h
  declare_keeps e (obj o) s h = h
  declare_keeps e (arr vs) s h = elim (Bool-cases (leb (e.hop + 1) hops)) [
    | inr f ↦ subst (All (IsSound Q hops)) (sym (same f)) h
    | inl t ↦ subst (All (IsSound Q hops)) (sym (more t)) (
        All-append (IsSound Q hops) s.entries (children (e.hop + 1) vs) h
          (children-IsSound Q hops (e.hop + 1) vs (omega arith) (inr (ground (arith, t)))))
  ]
    where
      same : leb (e.hop + 1) hops ≡ false → (declare hops e (arr vs) s).entries ≡ s.entries
      same f = ground (arith, f)

      more :
          leb (e.hop + 1) hops ≡ true
          → (declare hops e (arr vs) s).entries ≡ s.entries ++ children (e.hop + 1) vs
      more t = ground (arith, t)

  expand_entries :
      (a : Artifact) (e : Entry) (s : State)
      → ((expand p hops a e s).entries ≡ s.entries)
        ⊎ ((d : Value) × ((expand p hops a e s).entries ≡ (declare hops e d s).entries))
  unfolding expand
  expand_entries a e s = elim (Option-cases (at (some a.manifest) (codes "predecessors"))) [
    | inl n ↦ inl (ground (arith, n))
    | inr (d, k) ↦ elim (Bool-cases (era_defines_lineage a.version)) [
      | inr f ↦ inl (ground (arith, k, f))
      | inl t ↦ elim (Bool-cases (is_nil (predecessors_problems p d))) [
        | inl b ↦ inr (d, ground (arith, k, t, b))
        | inr b ↦ inl (ground (arith, k, t, b))
      ]
    ]
  ]

  expand_keeps :
      (a : Artifact) (e : Entry) (s : State)
      → AllSound Q hops s
      → AllSound Q hops (expand p hops a e s)
  expand_keeps a e s h = elim (expand_entries a e s) [
    | inl q ↦ subst (All (IsSound Q hops)) (sym q) h
    | inr (d, q) ↦ subst (All (IsSound Q hops)) (sym q) (declare_keeps e d s h)
  ]

  walk_on_cases :
      (a : Artifact) (e : Entry) (s : State)
      → (walk_on p hops a e s ≡ s)
        ⊎ ((h : Str) × (walk_on p hops a e s
              ≡ expand p hops a e (record s { walked = h ∷ s.walked })))
  walk_on_cases a e s = elim (Option-cases a.recomputed_hash) [
    | inl n ↦ inl (ground (arith, n))
    | inr (g, k) ↦ elim (Bool-cases (has_hash g e && not (contains s.walked g))) [
      | inl t ↦ inr (g, ground (arith, k, t))
      | inr f ↦ inl (ground (arith, k, f))
    ]
  ]

  walk_on_keeps :
      (a : Artifact) (e : Entry) (s : State)
      → AllSound Q hops s
      → AllSound Q hops (walk_on p hops a e s)
  walk_on_keeps a e s h = elim (walk_on_cases a e s) [
    | inl q ↦ subst (AllSound Q hops) (sym q) h
    | inr (g, q) ↦
        subst (AllSound Q hops) (sym q) (expand_keeps a e (record s { walked = g ∷ s.walked }) h)
  ]

  place_verifiable_keeps :
      (a : Artifact) (s t : State)
      → Q a
      → a.kind ≡ verifiable
      → AllSound Q hops s
      → place_verifiable p hops a s ≡ moved t
      → AllSound Q hops t
  unfolding place_verifiable
  place_verifiable_keeps a s t q k h m = elim (Option-cases (match_verifiable a s.entries)) [
    | inl n ↦ absurd (ground (arith, n))
    | inr ((e, es), c) ↦ elim (Option-cases (equality_diffs e a)) [
      | inl n ↦ absurd (ground (arith, c, n))
      | inr (d, n) ↦
          let (x, y) = match_keeps Q hops a s.entries es e q k h c in
          let same : walk_on p hops a e (record s { entries = es }) ≡ t = ground (arith, c, n) in
          subst (AllSound Q hops) same (walk_on_keeps a e (record s { entries = es }) y)
    ]
  ]

  was_moved : (o : Option State) (t : State) → moved_or_not o ≡ moved t → o ≡ some t
  was_moved none t h = cc
  was_moved (some u) t h = ground arith

  place_of :
      (k : Kind) (a : Artifact) (s t : State)
      → a.kind ≡ k
      → place p hops a s ≡ moved t
      → ((k ≡ verifiable) × (place_verifiable p hops a s ≡ moved t))
        ⊎ (place_unverified a s ≡ some t)
  unfolding place
  place_of verifiable a s t e h = inl (refl, ground (arith, e))
  place_of encrypted a s t e h = inr (was_moved (place_unverified a s) t (ground (arith, e)))
  place_of unsupported_version a s t e h =
      inr (was_moved (place_unverified a s) t (ground (arith, e)))
  place_of unsupported_profile a s t e h =
      inr (was_moved (place_unverified a s) t (ground (arith, e)))
  place_of unreadable a s t e h = absurd (ground (arith, e))

  place_keeps :
      (a : Artifact) (s t : State)
      → Q a
      → AllSound Q hops s
      → place p hops a s ≡ moved t
      → AllSound Q hops t
  place_keeps a s t q h m = elim (place_of a.kind a s t refl m) [
    | inl (k, v) ↦ place_verifiable_keeps a s t q k h v
    | inr u ↦ place_unverified_keeps Q hops a s t h u
  ]

  -- The rounds keep every entry sound.
  pub rounds_sound :
      ((a : Artifact) → Q a → Q (record a { assigned = true }))
      → (fuel : ℕ) (as' : List Artifact) (s : State) (r : List Artifact × State) → All Q as'
      → AllSound Q hops s
      → rounds p hops fuel as' s ≡ ended r
      → AllSound Q hops (r.1)
  rounds_sound keep' fuel as' s r q h e =
      (rounds_keep p hops Q (AllSound Q hops) keep' place_keeps fuel as' s r q h e).1
