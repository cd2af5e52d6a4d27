-- ===== src/Lineage/Depth.antt =====
-- The depth that sdk-js/src/lineage.js reports.
use capsules_protocol.Lineage.{Entry}
use capsules_protocol.Lineage.Evaluate.{
  some_at, verified_within, depth_from, top_hop, verified_depth,
}
use mathlib.Core.Path.{subst}
use capsules_protocol.Prelude.{
  Bool-cases, ℕ, zero, suc, ◌+◌, ◌≤◌, ◌<◌, ◌≡◌, sym, ◌↔◌, ◌⊎◌, inl, inr, true, List, [], ◌∷◌, arith,
}

-- A hop with entries, where every entry up to it is verified.
abbrev pub IsPassed : List Entry → ℕ → Type 0
IsPassed es h = (some_at h es ≡ true) × (verified_within h es ≡ true)

at_or_behind : (d h : ℕ) → d < h → (h ≡ d + 1) ⊎ (d + 1 < h)
at_or_behind d h l = ground arith

at_most_or_above : (a c : ℕ) → (a ≤ c) ⊎ (c < a)
at_most_or_above a c = ground arith

depth_low : (es : List Entry) (fuel d : ℕ) → d ≤ depth_from es fuel d
unfolding depth_from
depth_low es zero d = omega arith
depth_low es (suc fuel) d = ground (
  arith,
  depth_low es fuel (d + 1),
  Bool-cases (some_at (d + 1) es),
  Bool-cases (verified_within (d + 1) es),
)

depth_sound : (es : List Entry) (fuel d h : ℕ) → d < h → h ≤ depth_from es fuel d → IsPassed es h
unfolding depth_from
depth_sound es zero d h l u = absurd (omega arith)
depth_sound es (suc fuel) d h l u = elim (Bool-cases (some_at (d + 1) es)) [
  | inr f ↦ absurd (ground (arith, f))
  | inl t ↦ elim (Bool-cases (verified_within (d + 1) es)) [
    | inr g ↦ absurd (ground (arith, t, g))
    | inl v ↦
        let u' : h ≤ depth_from es fuel (d + 1) = ground (arith, t, v) in
        elim (at_or_behind d h l) [
          | inl e ↦ subst (IsPassed es) (sym e) (t, v)
          | inr b ↦ depth_sound es fuel (d + 1) h b u'
        ]
  ]
]

depth_complete :
    (es : List Entry) (fuel d m : ℕ)
    → m ≤ d + fuel
    → ((h : ℕ) → d < h → h ≤ m → IsPassed es h)
    → m ≤ depth_from es fuel d
unfolding depth_from
depth_complete es zero d m l p = omega arith
depth_complete es (suc fuel) d m l p = elim (at_most_or_above m d) [
  | inl s ↦ omega (arith, s, depth_low es (suc fuel) d)
  | inr b ↦
      let (t, v) = p (d + 1) (omega arith) (omega arith) in
      let next =
        depth_complete es fuel (d + 1) m (omega arith) (λ h k u. p h (omega (arith, k)) u) in
      ground (arith, t, v, next)
]

some_at_bound : (h : ℕ) (es : List Entry) → some_at h es ≡ true → h ≤ top_hop es
some_at_bound h [] e = absurd (cc)
some_at_bound h (e ∷ es) t = ground (arith, t, some_at_bound h es)

-- The depth is the greatest number of hops within which the entries, of which each hop has some,
-- are all verified: `m` is at most the depth exactly when each hop from 1 to `m` has an entry and
-- every entry up to that hop is verified.
pub verified_depth_iff :
    (es : List Entry) (m : ℕ) → (m ≤ verified_depth es) ↔ ((h : ℕ) → 1 ≤ h → h ≤ m → IsPassed es h)
unfolding verified_depth
verified_depth_iff es m = (
  λ u h l k. depth_sound es (top_hop es) 0 h (omega arith) (omega arith),
  λ p. elim (at_most_or_above m 0) [
    | inl z ↦ omega arith
    | inr b ↦
        depth_complete es (top_hop es) 0 m
          (omega (arith, some_at_bound m es ((p m (omega arith) (omega arith)).0)))
          (λ h k u. p h (omega arith) u)
  ],
)
