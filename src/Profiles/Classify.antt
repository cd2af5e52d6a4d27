-- ===== src/Profiles/Classify.antt =====
-- Which class a dyad of declarations falls into, and what the gate lets through.
use capsules_protocol.Json.{Value}
use capsules_protocol.Profiles.{
  Pair, default_profile, pair_eq, opt_eq, manifest, envelope, ProfileProblem, member_problems,
  ProfileStatus, ProfileClass, normalize, look_up, classify_profile, require_supported_profile,
}
use capsules_protocol.Prelude.{
  Bool-cases, &&_both, and_true, ok, Str, str_eq_refl, str_eq_sound, is_nil, append-eq-nil, ◌≡◌,
  refl, sym, ap, ◌∙◌, ◌≢◌, ◌↔◌, inl, inr, true, false, Option, none, some, List, [], ◌∷◌, ◌++◌,
  arith,
}

opt_eq_sound : (a b : Option Str) → opt_eq a b ≡ true → a ≡ b
opt_eq_sound (some s) (some t) h = ap some (str_eq_sound s t h)
opt_eq_sound none none h = refl
opt_eq_sound (some s) none h = cc
opt_eq_sound none (some t) h = cc

opt_eq_refl : (a : Option Str) → opt_eq a a ≡ true
opt_eq_refl none = refl
opt_eq_refl (some s) = str_eq_refl s

pub pair_eq_iff : (a b : Pair) → (pair_eq a b ≡ true) ↔ (a ≡ b)
unfolding pair_eq
pair_eq_iff a b = (
  λ h.
      let (p, q) = &&_both (opt_eq a.0 b.0) (opt_eq a.1 b.1) h in
      λ i. (opt_eq_sound a.0 b.0 p i, opt_eq_sound a.1 b.1 q i),
  λ e. rw e (and_true _ _ (opt_eq_refl b.0) (opt_eq_refl b.1)),
)

-- Both documents are read without a problem.
abbrev pub AreWellFormed : Option Value → Option Value → Type 0
AreWellFormed md ed = (member_problems manifest md ≡ []) × (member_problems envelope ed ≡ [])

-- What the four classes mean, and what each reports.
pub data Classified (md ed : Option Value) (c : ProfileClass) : Type 0 where
  malformed :
      c.status ≡ ProfileStatus.invalid
      → ¬ AreWellFormed md ed
      → c.problems ≡ member_problems manifest md ++ member_problems envelope ed
      → c.is_supported ≡ false
      → Classified md ed c
  disagree :
      c.status ≡ ProfileStatus.mismatched
      → AreWellFormed md ed
      → normalize md ≢ normalize ed
      → c.normalized ≡ some (normalize md, normalize ed)
      → c.is_supported ≡ false
      → Classified md ed c
  alternate :
      c.status ≡ ProfileStatus.unsupported
      → AreWellFormed md ed
      → normalize md ≡ normalize ed
      → normalize md ≢ default_profile
      → c.observed ≡ normalize md
      → c.is_supported ≡ false
      → Classified md ed c
  by_default :
      c.status ≡ ProfileStatus.default
      → AreWellFormed md ed
      → normalize md ≡ default_profile
      → normalize ed ≡ default_profile
      → c.effective ≡ default_profile
      → c.is_supported ≡ true
      → Classified md ed c

is_nil_iff {ℓ} : {A : Type ℓ} (xs : List A) → (is_nil xs ≡ true) ↔ (xs ≡ [])
is_nil_iff [] = (λ h. refl, λ h. refl)
is_nil_iff (x ∷ xs) = (λ h. cc, λ h. cc)

module _ (md ed : Option Value) where
  abbrev problems : List ProfileProblem
  problems = member_problems manifest md ++ member_problems envelope ed

  looked_up :
      AreWellFormed md ed
      → normalize md ≡ normalize ed
      → Classified md ed (look_up md ed (normalize md))
  unfolding look_up
  looked_up w same = elim (Bool-cases (pair_eq (normalize md) default_profile)) [
    | inl is ↦
        let e = (pair_eq_iff (normalize md) default_profile).0 is in
        let is' = (pair_eq_iff default_profile (normalize md)).1 (sym e) in
        rw (is', is) (by_default refl w e (sym same ∙ e) e refl)
    | inr other ↦
        let ne : normalize md ≢ default_profile =
          λ e. cc (other, (pair_eq_iff (normalize md) default_profile).1 e) in
        let other' : pair_eq default_profile (normalize md) ≡ false =
          elim (Bool-cases (pair_eq default_profile (normalize md))) [
            | inl eq ↦ absurd (ne (sym ((pair_eq_iff default_profile (normalize md)).0 eq)))
            | inr f ↦ f
          ] in
        rw other' (alternate refl w same ne refl refl)
  ]

  -- Every dyad is of one class: malformed (some document is), in disagreement (well-formed, but the
  -- normalized pairs differ), an alternate (they agree on a pair that is not the era default), or
  -- under the default rules; each reports its facts, and only the last is supported.
  pub classify_profile_cases : Classified md ed (classify_profile md ed)
  unfolding classify_profile
  classify_profile_cases = elim (Bool-cases (is_nil problems)) [
    | inr some_problem ↦
        rw some_problem (
          malformed refl (λ w. cc (some_problem, (is_nil_iff problems).1 (rw (w.0, w.1)))) refl
            refl)
    | inl clean ↦
        let w = append-eq-nil (member_problems manifest md) _ ((is_nil_iff problems).0 clean) in
        elim (Bool-cases (pair_eq (normalize md) (normalize ed))) [
          | inl agree ↦ rw (clean, agree) (looked_up w ((pair_eq_iff _ _).0 agree))
          | inr differ ↦
              rw (clean, differ)
                (disagree refl w (λ e. cc (differ, (pair_eq_iff (normalize md) (normalize ed)).1 e))
                  refl refl)
        ]
  ]

  -- The gate opens exactly for two well-formed documents that each declare the era default or
  -- nothing; what it returns is the classification.
  pub require_supported_profile_iff :
      ((c : ProfileClass) × (require_supported_profile md ed ≡ ok c))
      ↔ (AreWellFormed md ed × (normalize md ≡ default_profile) × (normalize ed ≡ default_profile))
  unfolding require_supported_profile
  require_supported_profile_iff = elim classify_profile_cases [
    | malformed s bad p f ↦ (λ (c, h). absurd (ground (arith, s, h)), λ (w, x, y). absurd (bad w))
    | disagree s w ne n f ↦
        (λ (c, h). absurd (ground (arith, s, h)), λ (w', x, y). absurd (ne (x ∙ sym y)))
    | alternate s w e ne o f ↦
        (λ (c, h). absurd (ground (arith, s, h)), λ (w', x, y). absurd (ne x))
    | by_default s w e1 e2 eff f ↦
        (λ h. (w, e1, e2), λ h. (classify_profile md ed, ground (arith, s)))
  ]
