-- ===== src/Lineage/Rounds.antt =====
-- A round of the walk of sdk-js/src/lineage.js, and what all rounds keep.
use capsules_protocol.Platform.{Platform}
use capsules_protocol.Lineage.{Artifact}
use capsules_protocol.Lineage.Walk.{
  State, Placing, unplaced, threw, moved, place, Round, keep_in, place_in, kept, placed, round,
  ended, rounds,
}
use mathlib.Core.Path.{subst}
use capsules_protocol.Prelude.{
  Bool-cases, Option, refl, Option-cases, All, ℕ, zero, suc, ◌≡◌, inl, inr, true, false, none, some,
  List, [], ◌∷◌, arith,
}

-- A round of which an artifact is kept or placed at the head.
pub kept_inv :
    (a : Artifact) (x : Option Round) (r : Round)
    → kept a x ≡ some r
    → (q : Round) × (x ≡ some q) × (keep_in a q ≡ r)
kept_inv a none r h = cc
kept_inv a (some q) r h = (q, refl, ground arith)

pub placed_inv :
    (a : Artifact) (x : Option Round) (r : Round)
    → placed a x ≡ some r
    → (q : Round) × (x ≡ some q) × (place_in a q ≡ r)
placed_inv a none r h = cc
placed_inv a (some q) r h = (q, refl, ground arith)

pub data PlacingCase (x : Placing) : Type 0 where
  stays : x ≡ unplaced → PlacingCase x
  throws : x ≡ threw → PlacingCase x
  moves : (t : State) → x ≡ moved t → PlacingCase x

pub placing_case : (x : Placing) → PlacingCase x
placing_case unplaced = PlacingCase.stays refl
placing_case threw = PlacingCase.throws refl
placing_case (moved t) = PlacingCase.moves t refl

module _ (p : Platform) (hops : ℕ) where
  -- An artifact of a round that does not throw is kept as it was, or placed.
  pub data IsTried (a : Artifact) (as' : List Artifact) (s : State) (r : Round) : Type 0 where
    passed_over :
        (q : Round)
        → a.assigned ≡ true
        → round p hops as' s ≡ some q
        → keep_in a q ≡ r
        → IsTried a as' s r
    unmatched :
        (q : Round)
        → a.assigned ≡ false
        → place p hops a s ≡ unplaced
        → round p hops as' s ≡ some q
        → keep_in a q ≡ r
        → IsTried a as' s r
    matched :
        (t : State) (q : Round)
        → a.assigned ≡ false
        → place p hops a s ≡ moved t
        → round p hops as' t ≡ some q
        → place_in a q ≡ r
        → IsTried a as' s r

  pub tries :
      (a : Artifact) (as' : List Artifact) (s : State) (r : Round)
      → round p hops (a ∷ as') s ≡ some r
      → IsTried a as' s r
  unfolding round
  tries a as' s r h = elim (Bool-cases a.assigned) [
    | inl t ↦
        let (q, e, k) = kept_inv a (round p hops as' s) r (ground (arith, t)) in
        IsTried.passed_over q t e k
    | inr f ↦ elim (placing_case (place p hops a s)) [
      | PlacingCase.stays n ↦
          let (q, e, k) = kept_inv a (round p hops as' s) r (ground (arith, f, n)) in
          IsTried.unmatched q f n e k
      | PlacingCase.throws n ↦ absurd (ground (arith, f, n))
      | PlacingCase.moves u m ↦
          let (q, e, k) = placed_inv a (round p hops as' u) r (ground (arith, f, m)) in
          IsTried.matched u q f m e k
    ]
  ]

  -- What every placing keeps of the state, for artifacts of a kind that assigning keeps.
  module _ {κ μ} (Q : Artifact → Type κ) (P : State → Type μ)
      (assigned : (a : Artifact) → Q a → Q (record a { assigned = true }))
      (step : (a : Artifact) (s t : State) → Q a → P s → place p hops a s ≡ moved t → P t) where
    round_keeps :
        (as' : List Artifact) (s : State) (r : Round)
        → All Q as'
        → P s
        → round p hops as' s ≡ some r
        → All Q r.artifacts × P r.state
    unfolding round
    round_keeps [] s r q h e =
        let same : record { changed = false; artifacts = []; state = s } ≡ r = ground arith in
        subst (λ x. All Q x.artifacts × P x.state) same (tt, h)
    round_keeps (a ∷ as') s r (q, qs) h e = elim (tries a as' s r e) [
      | IsTried.passed_over z t k m ↦
          let (x, y) = round_keeps as' s z qs h k in
          subst (λ r'. All Q r'.artifacts × P r'.state) m ((q, x), y)
      | IsTried.unmatched z f n k m ↦
          let (x, y) = round_keeps as' s z qs h k in
          subst (λ r'. All Q r'.artifacts × P r'.state) m ((q, x), y)
      | IsTried.matched u z f n k m ↦
          let (x, y) = round_keeps as' u z qs (step a s u q h n) k in
          subst (λ r'. All Q r'.artifacts × P r'.state) m ((assigned a q, x), y)
    ]

    pub rounds_keep :
        (fuel : ℕ) (as' : List Artifact) (s : State) (r : List Artifact × State)
        → All Q as'
        → P s
        → rounds p hops fuel as' s ≡ ended r
        → All Q (r.0) × P (r.1)
    unfolding rounds
    rounds_keep zero as' s r q h e = cc
    rounds_keep (suc fuel) as' s r q h e = elim (Option-cases (round p hops as' s)) [
      | inl n ↦ absurd (ground (arith, n))
      | inr (z, k) ↦
          let (x, y) = round_keeps as' s z q h k in
          elim (Bool-cases z.changed) [
            | inl t ↦ rounds_keep fuel z.artifacts z.state r x y (ground (arith, k, t))
            | inr f ↦
                let same : (z.artifacts, z.state) ≡ r = ground (arith, k, f) in
                subst (λ w. All Q (w.0) × P (w.1)) same (x, y)
          ]
    ]
