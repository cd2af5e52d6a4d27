-- ===== src/Lineage/Linked.antt =====
-- What the walk of sdk-js/src/lineage.js says of an entry: what a verified one rests on, and how
-- deep an entry stands.
use capsules_protocol.Json.{Value, null, bool, num, str, arr, obj, Items, nil, cons}
use capsules_protocol.Verifier.{same}
use capsules_protocol.Verifier.Verdict.{
  HopStatus, predecessor_unverifiable, verified, mismatch, predecessor_invalid,
}
use capsules_protocol.Lineage.{
  verifiable, EntryError, Entry, make_entry, Artifact, text_or_null, diff_unless, both_diffs,
  equality_diffs,
}
use capsules_protocol.Lineage.Walk.{
  State, is_open, change_first, has_id, has_hash, unverifiable, assign, place_unverified,
  match_verifiable, children,
}
use capsules_protocol.Verifier.Gates.{is_nil_sound, is_text_sound}
use mathlib.Core.Path.{subst}
use capsules_protocol.Prelude.{
  Bool-cases, Option-cases, Option, none, Str, append-eq-nil, ◌++◌, ap, &&_both, is_nil, All, ℕ,
  ◌≤◌, ◌≡◌, refl, sym, ◌∙◌, ◌≢◌, ◌⊎◌, inl, inr, Bool, true, ◌&&◌, some, List, [], ◌∷◌, arith,
}

-- An artifact that passes its own verification and has all six members that the entry declares:
-- its version, recomputed id, originator key and recomputed hash are those of the entry, null where
-- it has none, and the hash of its first event and its entry hash are equal to the entry's by `===`.
pub record IsDeclared {κ} (Q : Artifact → Type κ) (e : Entry) : Type κ where
  pub artifact : Artifact
  pub supplied : Q artifact
  pub kind : artifact.kind ≡ verifiable
  pub is_ok : artifact.is_ok ≡ true
  pub version : e.format_version ≡ text_or_null artifact.version
  pub id : e.capsule_id ≡ text_or_null artifact.recomputed_id
  pub key : e.originator_public_key ≡ text_or_null artifact.originator_key
  pub first : same (some e.first_event_hash) (some artifact.first_event_hash) ≡ true
  pub last : same (some e.entry_hash) (some artifact.entry_hash) ≡ true
  pub hash : e.manifest_hash ≡ text_or_null artifact.recomputed_hash

diff_passes :
    (name : Str) (d s : Value) → diff_unless name d s ≡ some [] → same (some d) (some s) ≡ true
diff_passes name d s h = elim (Bool-cases (same (some d) (some s))) [
  | inl t ↦ t
  | inr f ↦ absurd (ground (arith, f))
]

both_pass :
    (c d : Option (List EntryError)) → both_diffs c d ≡ some [] → (c ≡ some []) × (d ≡ some [])
both_pass none d h = cc
both_pass (some c) none h = cc
both_pass (some c) (some d) h =
    let nothing : (c ++ d) ≡ [] = ground arith in
    let (x, y) = append-eq-nil c d nothing in (ap some x, ap some y)

same_text :
    (v : Value) (o : Option Str) → same (some v) (some (text_or_null o)) ≡ true → v ≡ text_or_null o
unfolding same
same_text null none h = refl
same_text (bool b) none h = cc
same_text (num n) none h = cc
same_text (str t) none h = cc
same_text (arr vs) none h = cc
same_text (obj m) none h = cc
same_text v (some s) h = let e = is_text_sound (some v) s h in ground arith

module _ {κ} (Q : Artifact → Type κ) where
  no_diffs-IsDeclared :
      (e : Entry) (a : Artifact)
      → Q a
      → a.kind ≡ verifiable
      → a.is_ok ≡ true
      → equality_diffs e a ≡ some []
      → IsDeclared Q e
  unfolding equality_diffs
  no_diffs-IsDeclared e a q k o h =
      let (h1, r1) = both_pass _ _ h in
      let (h2, r2) = both_pass _ _ r1 in
      let (h3, r3) = both_pass _ _ r2 in
      let (h4, r4) = both_pass _ _ r3 in
      let (h5, h6) = both_pass _ _ r4 in
      record {
        artifact = a;
        supplied = q;
        kind = k;
        is_ok = o;
        version = same_text e.format_version a.version (diff_passes _ _ _ h1);
        id = same_text e.capsule_id a.recomputed_id (diff_passes _ _ _ h2);
        key = same_text e.originator_public_key a.originator_key (diff_passes _ _ _ h3);
        first = diff_passes _ _ _ h4;
        last = diff_passes _ _ _ h5;
        hash = same_text e.manifest_hash a.recomputed_hash (diff_passes _ _ _ h6);
      }

-- A verified entry rests on such an artifact, and an entry stands at a hop within the cap.
pub record IsSound {κ} (Q : Artifact → Type κ) (hops : ℕ) (e : Entry) : Type κ where
  pub backed : e.status ≡ verified → IsDeclared Q e
  pub low : 1 ≤ e.hop
  pub capped : (e.hop ≡ 1) ⊎ (e.hop ≤ hops)

change_first-All {κ} :
    (P : Entry → Type κ) (test : Entry → Bool) (change : Entry → Entry) (es fs : List Entry)
    (e : Entry)
    → ((f : Entry) → is_open f ≡ true → P f → P (change f))
    → All P es
    → change_first test change es ≡ some (e, fs)
    → P e × All P fs
unfolding change_first
change_first-All P test change [] fs e k h q = cc
change_first-All P test change (f ∷ es) fs e k (h, hs) q = elim (Bool-cases (is_open f && test f)) [
  | inl t ↦
      let same : (f ≡ e) × ((change f ∷ es) ≡ fs) = ground (arith, t) in
      (subst P (same.0) h, subst (All P) (same.1) (k f ((&&_both (is_open f) (test f) t).0) h, hs))
  | inr n ↦ elim (Option-cases (change_first test change es)) [
    | inl o ↦ absurd (ground (arith, n, o))
    | inr ((g, gs), o) ↦
        let same : (g ≡ e) × ((f ∷ gs) ≡ fs) = ground (arith, n, o) in
        let (x, y) = change_first-All P test change es gs g k hs o in
        (subst P (same.0) x, subst (All P) (same.1) (h, y))
  ]
]

module _ {κ} (Q : Artifact → Type κ) (hops : ℕ) where
  not_verified :
      (e : Entry)
      → IsSound Q hops e
      → (s : HopStatus) → s ≢ verified
      → (f : Entry) → f.status ≡ s
      → f.hop ≡ e.hop
      → IsSound Q hops f
  not_verified e i s n f q h = record {
    backed = λ v. absurd (n (sym q ∙ v));
    low = omega (arith, i.low, h);
    capped = subst (λ x. (x ≡ 1) ⊎ (x ≤ hops)) (sym h) i.capped;
  }

  assign-IsSound :
      (a : Artifact) (e : Entry)
      → Q a
      → a.kind ≡ verifiable
      → IsSound Q hops e
      → IsSound Q hops (assign a e)
  unfolding assign
  assign-IsSound a e q k i = elim (Option-cases (equality_diffs e a)) [
    | inl n ↦ let left : e ≡ assign a e = ground (arith, n) in subst (IsSound Q hops) left i
    | inr (d, x) ↦ elim (Bool-cases a.is_ok) [
      | inr f ↦
          not_verified e i predecessor_invalid (λ z. cc) (assign a e) (ground (arith, x, f))
            (ground (arith, x, f))
      | inl t ↦ elim (Bool-cases (is_nil d)) [
        | inr m ↦
            not_verified e i mismatch (λ z. cc) (assign a e) (ground (arith, x, t, m))
              (ground (arith, x, t, m))
        | inl nil_d ↦
            let made : assign a e ≡ record e { artifact = a.summary; status = verified } =
              ground (arith, x, t, nil_d) in
            let r = no_diffs-IsDeclared Q e a q k t (x ∙ ap some (is_nil_sound d nil_d)) in
            subst (IsSound Q hops) (sym made) (record {
              backed = λ v. record {
                artifact = r.artifact;
                supplied = r.supplied;
                kind = r.kind;
                is_ok = r.is_ok;
                version = r.version;
                id = r.id;
                key = r.key;
                first = r.first;
                last = r.last;
                hash = r.hash;
              };
              low = i.low;
              capped = i.capped;
            })
      ]
    ]
  ]

  -- The entries of a state.
  abbrev pub AllSound : State → Type κ
  AllSound s = All (IsSound Q hops) s.entries

  pub place_unverified_keeps :
      (a : Artifact) (s t : State) → AllSound s → place_unverified a s ≡ some t → AllSound t
  unfolding place_unverified
  place_unverified_keeps a s t h q = elim (Option-cases a.claimed_id) [
    | inl n ↦ absurd (ground (arith, n))
    | inr (id, c) ↦ elim (Option-cases (change_first (has_id id) (unverifiable a.kind) s.entries)) [
      | inl n ↦ absurd (ground (arith, c, n))
      | inr ((e, es), k) ↦
          let same : es ≡ t.entries = ground (arith, c, k) in
          subst (All (IsSound Q hops)) same (
            (change_first-All (IsSound Q hops) (has_id id) (unverifiable a.kind) s.entries es e
              (λ f o i.
                not_verified f i predecessor_unverifiable (λ z. cc) (unverifiable a.kind f) refl
                  refl)
              h k).1)
    ]
  ]

  pub match_keeps :
      (a : Artifact) (es fs : List Entry) (e : Entry)
      → Q a
      → a.kind ≡ verifiable
      → All (IsSound Q hops) es
      → match_verifiable a es ≡ some (e, fs)
      → IsSound Q hops e × All (IsSound Q hops) fs
  unfolding match_verifiable
  match_keeps a es fs e q k h m = elim (Option-cases a.recomputed_id) [
    | inl n ↦ absurd (ground (arith, n))
    | inr (id, c) ↦ elim (Option-cases a.recomputed_hash) [
      | inl n ↦
          change_first-All (IsSound Q hops) (has_id id) (assign a) es fs e
            (λ f o i. assign-IsSound a f q k i) h (ground (arith, c, n))
      | inr (hash, g) ↦
          elim (Option-cases (change_first (λ f. has_id id f && has_hash hash f) (assign a) es)) [
            | inl n ↦
                change_first-All (IsSound Q hops) (has_id id) (assign a) es fs e
                  (λ f o i. assign-IsSound a f q k i) h (ground (arith, c, g, n))
            | inr (found, o) ↦
                change_first-All (IsSound Q hops) (λ f. has_id id f && has_hash hash f) (assign a)
                  es fs e (λ f o i. assign-IsSound a f q k i) h (ground (arith, c, g, o))
          ]
    ]
  ]

  pub children-IsSound :
      (hop : ℕ) (vs : Items)
      → 1 ≤ hop
      → (hop ≡ 1) ⊎ (hop ≤ hops)
      → All (IsSound Q hops) (children hop vs)
  unfolding make_entry
  children-IsSound hop nil l c = tt
  children-IsSound hop (cons v vs) l c =
      (record { backed = λ z. absurd (cc); low = l; capped = c }, children-IsSound hop vs l c)
