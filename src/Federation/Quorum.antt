-- ===== src/Federation/Quorum.antt =====
-- What a satisfied signer policy says.
use capsules_protocol.Platform.{Platform}
use capsules_protocol.Verifier.Signers.{TrustedRow, key_text}
use capsules_protocol.Federation.{
  Attestation, Requirement, valid_keys, set_of, attestation_for, org_fits, opt_is, attested_key,
  binding_errors, counts, hits, quorum_of, unmet_errors, evaluate_signer_policy,
}
use mathlib.Core.Path.{subst}
use capsules_protocol.Prelude.{
  Apart, Bool-cases, Option-cases, &&_both, Option, str_eq, str_eq_sound, sym, ap, ◌∙◌, ◌&&◌, Str,
  str_eq_refl, str_eq_iff, contains, length, All, append-eq-nil, ◌≤◌, ◌≡◌, refl, ◌⊎◌, inl, inr,
  true, false, none, some, List, [], ◌∷◌, ◌++◌, arith,
}

-- Some member of the list has the property.
abbrev pub Has {ℓ} : {A : Type ℓ} → (A → Type 0) → List A → Type 0
Has P [] = ⊥
Has P (x ∷ xs) = P x ⊎ Has P xs

-- A valid row of a trusted signer under the key.
pub record IsTrusted (p : Platform) (k : Str) (t : TrustedRow) : Type 0 where
  pub valid : t.row.valid ≡ true
  pub trusted : t.trusted ≡ true
  pub key : key_text p t.row.public_key ≡ k

-- An attestation for the key that is bound to the capsule and names the required role, and the
-- required role in the organization where the requirement has one.
pub record IsAttested (id : Str) (req : Requirement) (k : Str) (a : Attestation) : Type 0 where
  pub key : attested_key a ≡ some k
  pub capsule : a.capsule_id ≡ some id
  pub role : a.signer_role ≡ some req.role
  pub org : (req.org_role ≡ none) ⊎ ((req.org_role ≡ some []) ⊎ (a.org_role ≡ req.org_role))

-- Keys of a quorum: no two alike, each a trusted signer's, and each attested for the requirement.
pub record IsQuorum (p : Platform) (rows : List TrustedRow) (as' : List Attestation) (id : Str)
    (req : Requirement) : Type 0 where
  pub keys : List Str
  pub enough : quorum_of req ≤ length keys
  pub apart : Apart keys
  pub trusted : All (λ k. Has (IsTrusted p k) rows) keys
  pub attested : All (λ k. Has (IsAttested id req k) as') keys

contains_tail :
    (k : Str) (ks : List Str) (t : Str) → contains ks t ≡ true → contains (k ∷ ks) t ≡ true
unfolding contains
contains_tail k ks t h = ground arith

contains-All :
    (k : Str) (ks l : List Str)
    → All (λ t. contains ks t ≡ true) l
    → All (λ t. contains (k ∷ ks) t ≡ true) l
contains-All k ks [] h = tt
contains-All k ks (t ∷ l) (h, hs) = (contains_tail k ks t h, contains-All k ks l hs)

set_of-All : (seen ks : List Str) → All (λ t. contains ks t ≡ true) (set_of seen ks)
unfolding set_of contains
set_of-All seen [] = tt
set_of-All seen (k ∷ ks) = elim (Bool-cases (contains seen k)) [
  | inl t ↦ rw t (contains-All k ks (set_of seen ks) (set_of-All seen ks))
  | inr f ↦ rw f (
    ground (arith, str_eq_refl k),
    contains-All k ks (set_of (k ∷ seen) ks) (set_of-All (k ∷ seen) ks),
  )
]

set_of_fresh :
    (seen ks : List Str) → (t : Str) → contains seen t ≡ true → contains (set_of seen ks) t ≡ false
unfolding set_of contains
set_of_fresh seen [] t h = refl
set_of_fresh seen (k ∷ ks) t h =
    ground (arith, str_eq_iff k t, set_of_fresh seen ks t h, set_of_fresh (k ∷ seen) ks t)

own : (k : Str) (seen : List Str) → contains (k ∷ seen) k ≡ true
unfolding contains
own k seen = ground (arith, str_eq_refl k)

set_of-Apart : (seen ks : List Str) → Apart (set_of seen ks)
unfolding set_of
set_of-Apart seen [] = tt
set_of-Apart seen (k ∷ ks) = elim (Bool-cases (contains seen k)) [
  | inl t ↦ rw t (set_of-Apart seen ks)
  | inr f ↦ rw f (set_of_fresh (k ∷ seen) ks k (own k seen), set_of-Apart (k ∷ seen) ks)
]

module _ (id : Str) (as' : List Attestation) (req : Requirement) where
  absent-hits :
      (ks : List Str) (t : Str) → contains ks t ≡ false → contains (hits id as' req ks) t ≡ false
  unfolding hits contains
  absent-hits [] t h = refl
  absent-hits (k ∷ ks) t h = ground (arith, absent-hits ks t)

  hits-Apart : (ks : List Str) → Apart ks → Apart (hits id as' req ks)
  unfolding hits
  hits-Apart [] a = tt
  hits-Apart (k ∷ ks) (a, as'') = elim (Bool-cases (counts id as' req k)) [
    | inl t ↦ rw t (absent-hits ks k a, hits-Apart ks as'')
    | inr f ↦ rw f (hits-Apart ks as'')
  ]

  hits-All : (P : Str → Type 0) (ks : List Str) → All P ks → All P (hits id as' req ks)
  unfolding hits
  hits-All P [] a = tt
  hits-All P (k ∷ ks) (a, as'') = elim (Bool-cases (counts id as' req k)) [
    | inl t ↦ rw t (a, hits-All P ks as'')
    | inr f ↦ rw f (hits-All P ks as'')
  ]

  hits_counted : (ks : List Str) → All (λ k. counts id as' req k ≡ true) (hits id as' req ks)
  unfolding hits
  hits_counted [] = tt
  hits_counted (k ∷ ks) = elim (Bool-cases (counts id as' req k)) [
    | inl t ↦ rw t (t, hits_counted ks)
    | inr f ↦ rw f (hits_counted ks)
  ]

opt_is_sound : (o : Option Str) (s : Str) → opt_is o s ≡ true → o ≡ some s
opt_is_sound none s h = cc
opt_is_sound (some t) s h = ap some (str_eq_sound t s h)

valid_keys-IsTrusted :
    (p : Platform) (rows : List TrustedRow) (k : Str)
    → contains (valid_keys p rows) k ≡ true
    → Has (IsTrusted p k) rows
unfolding valid_keys contains
valid_keys-IsTrusted p [] k h = cc
valid_keys-IsTrusted p (t ∷ ts) k h = elim (Bool-cases (t.row.valid && t.trusted)) [
  | inr f ↦ inr (valid_keys-IsTrusted p ts k (ground (arith, f)))
  | inl b ↦ elim (Bool-cases (str_eq (key_text p t.row.public_key) k)) [
    | inl s ↦
        let (v, u) = &&_both t.row.valid t.trusted b in
        inl (record { valid = v; trusted = u; key = str_eq_sound _ k s })
    | inr s ↦ inr (valid_keys-IsTrusted p ts k (ground (arith, b, s)))
  ]
]

-- The attestation that is found is one of the list, for the key and the capsule.
found_bound :
    (P : Attestation → Type 0) (id k : Str) (as' : List Attestation) (a : Attestation)
    → attestation_for id k as' ≡ some a
    → (attested_key a ≡ some k → a.capsule_id ≡ some id → P a)
    → Has P as'
unfolding attestation_for
found_bound P id k [] a h f = cc
found_bound P id k (b ∷ as') a h f = elim (Option-cases (attestation_for id k as')) [
  | inr (c, e) ↦
      let same : c ≡ a = ground (arith, e) in inr (found_bound P id k as' a (e ∙ ap some same) f)
  | inl n ↦ elim (Bool-cases (opt_is (attested_key b) k && opt_is b.capsule_id id)) [
    | inr o ↦ absurd (ground (arith, n, o))
    | inl t ↦
        let (x, y) = &&_both (opt_is (attested_key b) k) (opt_is b.capsule_id id) t in
        let same : a ≡ b = ground (arith, n, t) in
        inl (
          subst P same (
            f (subst (λ z. attested_key z ≡ some k) (sym same) (opt_is_sound _ k x))
              (subst (λ z. z.capsule_id ≡ some id) (sym same) (opt_is_sound _ id y))))
  ]
]

org_sound : (r o : Option Str) → org_fits r o ≡ true → (r ≡ none) ⊎ ((r ≡ some []) ⊎ (o ≡ r))
org_sound none o h = inl refl
org_sound (some []) o h = inr (inl refl)
org_sound (some (c ∷ s)) o h = inr (inr (opt_is_sound o (c ∷ s) h))

counts-IsAttested :
    (id : Str) (as' : List Attestation) (req : Requirement) (k : Str)
    → counts id as' req k ≡ true
    → Has (IsAttested id req k) as'
counts-IsAttested id as' req k h = elim (Option-cases (attestation_for id k as')) [
  | inl n ↦ absurd (ground (arith, n))
  | inr (a, e) ↦
      let both : (opt_is a.signer_role req.role && org_fits req.org_role a.org_role) ≡ true =
        ground (arith, e) in
      let (r, o) =
        &&_both (opt_is a.signer_role req.role) (org_fits req.org_role a.org_role) both in
      found_bound (IsAttested id req k) id k as' a e (λ x y. record {
        key = x;
        capsule = y;
        role = opt_is_sound a.signer_role req.role r;
        org = org_sound req.org_role a.org_role o;
      })
]

All-map {ℓ κ μ} :
    {A : Type ℓ} (P : A → Type κ) (Q : A → Type μ) (l : List A)
    → ((x : A) → P x → Q x)
    → All P l
    → All Q l
All-map P Q [] f h = tt
All-map P Q (x ∷ xs) f (h, hs) = (f x h, All-map P Q xs f hs)

module _ (p : Platform) (rows : List TrustedRow) (as' : List Attestation) (id : Str) where
  every_met :
      (reqs : List Requirement)
      → unmet_errors id as' (set_of [] (valid_keys p rows)) reqs ≡ []
      → All (IsQuorum p rows as' id) reqs
  unfolding unmet_errors
  every_met [] h = tt
  every_met (req ∷ reqs) h =
      let keys = set_of [] (valid_keys p rows) in
      let both : (quorum_of req ≤ length (hits id as' req keys))
          × (unmet_errors id as' keys reqs ≡ []) =
        ground arith in
      (
        record {
          keys = hits id as' req keys;
          enough = both.0;
          apart = hits-Apart id as' req keys (set_of-Apart [] (valid_keys p rows));
          trusted =
              All-map _ _ (hits id as' req keys) (λ k c. valid_keys-IsTrusted p rows k c)
                (hits-All id as' req (λ k. contains (valid_keys p rows) k ≡ true) keys
                  (set_of-All [] (valid_keys p rows)));
          attested =
              All-map _ _ (hits id as' req keys) (λ k c. counts-IsAttested id as' req k c)
                (hits_counted id as' req keys);
        },
        every_met reqs both.1,
      )

  bound_here :
      (l : List Attestation)
      → binding_errors id l ≡ []
      → All (λ a. (attested_key a ≡ none) ⊎ (a.capsule_id ≡ some id)) l
  unfolding binding_errors
  bound_here [] h = tt
  bound_here (a ∷ l) h = elim (Option-cases (attested_key a)) [
    | inl n ↦ (inl n, bound_here l (ground (arith, n)))
    | inr (k, n) ↦
        let both : (opt_is a.capsule_id id ≡ true) × (binding_errors id l ≡ []) =
          ground (arith, n) in
        (inr (opt_is_sound a.capsule_id id both.0), bound_here l both.1)
  ]

-- Where the policy is satisfied, each requirement has its quorum of distinct keys of trusted
-- signers with a valid signature, each with an attestation of this capsule for the required role,
-- and every attestation with a key is bound to this capsule.
pub policy_satisfied :
    (p : Platform) (rows : List TrustedRow) (as' : List Attestation) (reqs : List Requirement)
    (id : Str)
    → evaluate_signer_policy p rows as' reqs id ≡ some []
    → All (IsQuorum p rows as' id) reqs
      × All (λ a. (attested_key a ≡ none) ⊎ (a.capsule_id ≡ some id)) as'
unfolding evaluate_signer_policy
policy_satisfied p rows as' reqs id h =
    let none_left : (binding_errors id as'
          ++ unmet_errors id as' (set_of [] (valid_keys p rows)) reqs)
        ≡ [] =
      ground arith in
    let (a, b) = append-eq-nil (binding_errors id as') _ none_left in
    (every_met p rows as' id reqs b, bound_here p rows as' id as' a)
