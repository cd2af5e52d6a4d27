-- ===== src/Verifier/Described.antt =====
-- What each stage of sdk-js/src/verifier.js accepts, said without the stage.
use capsules_protocol.Json.{
  Value, null, bool, num, str, arr, obj, Items, nil, cons, Fields, get, at, as_str,
}
use capsules_protocol.Bytes.{Bytes}
use capsules_protocol.Platform.{Platform}
use capsules_protocol.Manifest.{
  Files, file, sha256_hex, content_index_exclusions, sort_entries, hashed_files,
}
use capsules_protocol.Manifest.Commitment.{
  signer_commitment_problems, shape_problems, members, order_of, differences, sort_members,
}
use capsules_protocol.Manifest.Commitment.Bound.{signer_set_iff}
use capsules_protocol.Chain.Walk.{hash_of, last_from, first_and_entry_hash}
use capsules_protocol.Verifier.{
  unless, same, is_text, is_plain, is_null_value, null_for_undefined, has_file, some_path,
  metadata_errors, encrypted_errors, blob_errors, encryption_errors, first_hash_errors,
  commitment_differs, commitment_malformed, encryption_cipher,
}
use capsules_protocol.Verifier.Index.{
  stored_hash, listed_files, index_files, file_problems, content_problems,
}
use capsules_protocol.Verifier.Signers.{
  actual_members, committed_members, signer_set_errors, set_errors,
}
use capsules_protocol.Verifier.Stages.{Options, events_stage, outer_errors}
use capsules_protocol.Verifier.Gates.{is_text_sound, unless_nil, is_nil_sound}
use capsules_protocol.Verifier.Indexed.{
  indexed, hashed_at, stored_passes, packaged-sort, entry_of_packaged,
}
use capsules_protocol.Verifier.Contents.{stored_of}
use mathlib.Core.Path.{subst}
use mathlib.Core.List.{Perm}
use capsules_protocol.Prelude.{
  Bool-cases, Option-cases, Str, str_eq_refl, codes, contains, is_nil, append-eq-nil, ◌≡◌, refl,
  sym, ◌∙◌, ◌≢◌, inl, inr, Bool, true, false, not, Option, none, some, List, [], ◌∷◌, ◌++◌, map,
  arith,
}

-- The package against the listed files: each file that is not excluded has its hash at its path, and
-- each path with a hash has its file.
pub record IsListed (p : Platform) (m e : Fields) (fs : Files) : Type 0 where
  pub listed : Items
  pub of_manifest : listed_files m ≡ some listed
  pub hashed :
      (path : Str) (b : Bytes)
      → contains (content_index_exclusions (not (is_plain e))) path ≡ false
      → file fs path ≡ some b
      → stored_hash listed path none ≡ some (str (sha256_hex p b))
  pub present : (path : Str) → stored_hash listed path none ≢ none → file fs path ≢ none

pub content-IsListed :
    (p : Platform) (m e : Fields) (fs : Files)
    → content_problems p m e fs ≡ some []
    → IsListed p m e fs
content-IsListed p m e fs h =
    let ex = content_index_exclusions (not (is_plain e)) in
    let (stored, l, i) = indexed p m e fs h in
    record {
      listed = stored;
      of_manifest = l;
      hashed = λ path b n f.
          stored_of p stored path b
            (hashed_at (λ x. file_problems stored x ≡ []) p ex fs path b n f i.each);
      present = λ path s.
          elim (stored_passes (sort_entries (hashed_files p ex (index_files ex fs))) stored path
            none i.listed) [
              | inl q ↦ absurd (s q)
              | inr q ↦ entry_of_packaged p ex fs path (
                  sym (packaged-sort (hashed_files p ex (index_files ex fs)) (some (str path))) ∙ q)
            ];
    }

is_null_sound : (v : Option Value) → is_null_value v ≡ true → v ≡ some null
unfolding same
is_null_sound (some null) h = refl
is_null_sound none h = cc
is_null_sound (some (bool b)) h = cc
is_null_sound (some (num n)) h = cc
is_null_sound (some (str t)) h = cc
is_null_sound (some (arr vs)) h = cc
is_null_sound (some (obj o)) h = cc

text_given : (v : Option Value) (s : Str) → null_for_undefined v ≡ some (str s) → v ≡ some (str s)
text_given none s h = cc
text_given (some v) s h = h

-- A plain capsule has no blob and a null hash of it; an encrypted one has a blob and its hash.
pub data HasFittingBlob (p : Platform) (e : Fields) (fs : Files) : Type 0 where
  plain_capsule :
      file fs (codes "content.enc") ≡ none
      → get e (codes "cipher") ≡ some (str (codes "none"))
      → get e (codes "encrypted_blob_hash") ≡ some null
      → HasFittingBlob p e fs
  encrypted_capsule :
      (b : Bytes)
      → file fs (codes "content.enc") ≡ some b
      → get e (codes "cipher") ≢ some (str (codes "none"))
      → get e (codes "encrypted_blob_hash") ≡ some (str (sha256_hex p b))
      → HasFittingBlob p e fs

plain_of : (e : Fields) → get e (codes "cipher") ≡ some (str (codes "none")) → is_plain e ≡ true
unfolding same
plain_of e h = subst (λ v. is_text v (codes "none") ≡ true) (sym h) (str_eq_refl (codes "none"))

pub blob_errors-HasFittingBlob :
    (p : Platform) (e : Fields) (fs : Files) → blob_errors p e fs ≡ [] → HasFittingBlob p e fs
unfolding blob_errors
blob_errors-HasFittingBlob p e fs h = elim (Option-cases (file fs (codes "content.enc"))) [
  | inl n ↦
      let both : (is_null_value (get e (codes "encrypted_blob_hash")) ≡ true)
          × (is_plain e ≡ true) =
        ground (arith, n) in
      HasFittingBlob.plain_capsule n (is_text_sound _ _ (both.1)) (is_null_sound _ (both.0))
  | inr (b, n) ↦
      let stored = null_for_undefined (get e (codes "encrypted_blob_hash")) in
      let both : (is_text stored (sha256_hex p b) ≡ true) × (is_plain e ≡ false) =
        ground (arith, n) in
      HasFittingBlob.encrypted_capsule b n (λ q. true_not_false (sym (plain_of e q) ∙ both.1))
        (text_given _ _ (is_text_sound stored (sha256_hex p b) (both.0)))
]
  where
    true_not_false : ◌≢◌ {A = Bool} true false
    true_not_false q = cc

-- A plain capsule declares no encryption; an encrypted one declares its cipher, and metadata under a
-- path that is in the package and listed.
pub data HasFittingEncryption (m e : Fields) (fs : Files) (listed : Items) : Type 0 where
  not_encrypted :
      is_plain e ≡ true
      → null_for_undefined (get m (codes "encryption")) ≡ some null
      → HasFittingEncryption m e fs listed
  declares :
      (d : Value) (path : Str)
      → get m (codes "encryption") ≡ some d
      → same (at (some d) (codes "cipher")) (get e (codes "cipher")) ≡ true
      → at (some d) (codes "metadata_path") ≡ some (str path)
      → path ≢ []
      → has_file fs path ≡ true
      → some_path listed path ≡ true
      → HasFittingEncryption m e fs listed

as_str_sound : (v : Option Value) (s : Str) → as_str v ≡ some s → v ≡ some (str s)
as_str_sound none s h = cc
as_str_sound (some null) s h = cc
as_str_sound (some (bool b)) s h = cc
as_str_sound (some (num n)) s h = cc
as_str_sound (some (str t)) s h = ground arith
as_str_sound (some (arr vs)) s h = cc
as_str_sound (some (obj o)) s h = cc

metadata_sound :
    (fs : Files) (listed : Items) (o : Option Str)
    → metadata_errors fs listed o ≡ []
    → (path : Str) × (o ≡ some path)
      × (path ≢ [])
      × (has_file fs path ≡ true)
      × (some_path listed path ≡ true)
metadata_sound fs listed none h = cc
metadata_sound fs listed (some []) h = cc
metadata_sound fs listed (some (c ∷ s)) h = (
  c ∷ s,
  refl,
  (λ q. cc),
  ground (arith, Bool-cases (has_file fs (c ∷ s))),
  ground (arith, Bool-cases (has_file fs (c ∷ s))),
)

-- The anchors of a chain: none of an empty one, else the hashes of its first and its last event.
pub data IsAnchored (m e : Fields) : List Value → Type 0 where
  no_events :
      get e (codes "first_event_hash") ≡ some null
      → get e (codes "entry_hash") ≡ some null
      → get m (codes "first_event_hash") ≡ some null
      → IsAnchored m e []
  some_events :
      {v : Value} {vs : List Value}
      → same (hash_of v) (get e (codes "first_event_hash")) ≡ true
      → same (hash_of (last_from v vs)) (get e (codes "entry_hash")) ≡ true
      → null_for_undefined (get m (codes "first_event_hash")) ≢ some null
      → IsAnchored m e (v ∷ vs)

not_null : (o : Option Value) → o ≡ some null → not (is_null_value o) ≡ true → ⊥
unfolding same
not_null (some null) q n = cc
not_null none q n = cc
not_null (some (bool b)) q n = cc
not_null (some (num k)) q n = cc
not_null (some (str t)) q n = cc
not_null (some (arr us)) q n = cc
not_null (some (obj o)) q n = cc

pub anchors-IsAnchored :
    (p : Platform) (m e : Fields) (events : List Value)
    → (events_stage p m e events).anchor_errors ≡ []
    → IsAnchored m e events
unfolding events_stage first_and_entry_hash
anchors-IsAnchored p m e [] h =
    let (a, rest) = append-eq-nil _ _ h in
    let (b, c) = append-eq-nil _ _ rest in
    IsAnchored.no_events (is_null_sound _ (unless_nil _ _ a)) (is_null_sound _ (unless_nil _ _ b))
      (is_null_sound _ (unless_nil _ _ c))
anchors-IsAnchored p m e (v ∷ vs) h =
    let (a, rest) = append-eq-nil _ _ h in
    let (b, c) = append-eq-nil _ _ rest in
    IsAnchored.some_events (unless_nil _ _ a) (unless_nil _ _ b)
      (λ q. not_null (null_for_undefined (get m (codes "first_event_hash"))) q (unless_nil _ _ c))

declared_sound :
    (m e : Fields) (fs : Files) (listed : Items) (d : Value)
    → null_for_undefined (get m (codes "encryption")) ≡ some d
    → d ≢ null
    → (unless (same (at (some d) (codes "cipher")) (get e (codes "cipher"))) encryption_cipher
        ++ metadata_errors fs listed (as_str (at (some d) (codes "metadata_path"))))
      ≡ []
    → HasFittingEncryption m e fs listed
declared_sound m e fs listed d g n h =
    let (a, b) = append-eq-nil _ _ h in
    let (path, o, ne, there, indexed') = metadata_sound fs listed _ b in
    HasFittingEncryption.declares d path (given (get m (codes "encryption")) d g n)
      (unless_nil _ _ a) (as_str_sound _ path o) ne there indexed'
  where
    given :
        (o : Option Value) (d' : Value) → null_for_undefined o ≡ some d' → d' ≢ null → o ≡ some d'
    given none d' q k = absurd (k (ground arith))
    given (some v) d' q k = q

encrypted_sound :
    (m e : Fields) (fs : Files) (listed : Items) (o : Option Value)
    → null_for_undefined (get m (codes "encryption")) ≡ o
    → encrypted_errors e fs listed o ≡ []
    → HasFittingEncryption m e fs listed
encrypted_sound m e fs listed (some (obj d)) g h =
    declared_sound m e fs listed (obj d) g (λ q. cc) h
encrypted_sound m e fs listed (some (arr d)) g h =
    declared_sound m e fs listed (arr d) g (λ q. cc) h
encrypted_sound m e fs listed none g h = cc
encrypted_sound m e fs listed (some null) g h = cc
encrypted_sound m e fs listed (some (bool b)) g h = cc
encrypted_sound m e fs listed (some (num n)) g h = cc
encrypted_sound m e fs listed (some (str s)) g h = cc

pub encryption-HasFittingEncryption :
    (m e : Fields) (fs : Files) (listed : Items)
    → encryption_errors m e fs listed ≡ []
    → HasFittingEncryption m e fs listed
unfolding encryption_errors
encryption-HasFittingEncryption m e fs listed h = elim (Bool-cases (is_plain e)) [
  | inl t ↦
      let none_declared : is_null_value (null_for_undefined (get m (codes "encryption"))) ≡ true =
        ground (arith, t) in
      HasFittingEncryption.not_encrypted t (is_null_sound _ none_declared)
  | inr f ↦
      encrypted_sound m e fs listed (null_for_undefined (get m (codes "encryption"))) refl
        (ground (arith, f))
]

-- A commitment is an array of the members that sign the envelope, each as often, in any order.
abbrev pub IsCommitted : Fields → Option Value → Type 0
IsCommitted e none = Unit
IsCommitted e (some c) =
    (vs : Items) × (c ≡ arr vs) × Perm (actual_members (get e (codes "signers"))) (members vs)

pub map-nil : {A B : Type 0} (f : A → B) (l : List A) → map f l ≡ [] → l ≡ []
unfolding map
map-nil f [] h = refl
map-nil f (x ∷ l) h = cc

commitment_shape :
    (c : Value)
    → signer_commitment_problems c ≡ []
    → (vs : Items) × (c ≡ arr vs) × (order_of (members vs) ≡ [])
unfolding signer_commitment_problems
commitment_shape (arr nil) h = cc
commitment_shape (arr (cons v vs)) h = (
  cons v vs,
  refl,
  elim (Bool-cases (is_nil (shape_problems 0 (cons v vs)))) [
    | inl t ↦ ground (arith, t)
    | inr f ↦ absurd (not_nil (shape_problems 0 (cons v vs)) f (ground (arith, f)))
  ],
)
  where
    not_nil : {A : Type 0} (l : List A) → is_nil l ≡ false → l ≡ [] → ⊥
    not_nil [] f q = cc
    not_nil (x ∷ l) f q = cc
commitment_shape null h = cc
commitment_shape (bool b) h = cc
commitment_shape (num n) h = cc
commitment_shape (str s) h = cc
commitment_shape (obj o) h = cc

set_problems :
    (e : Fields) (c : Value)
    → signer_set_errors e c ≡ []
    → (signer_commitment_problems c ≡ [])
      × (differences (committed_members c) (sort_members (actual_members (get e (codes "signers"))))
          ≡ [])
unfolding signer_set_errors
set_problems e c h = elim (Bool-cases (is_nil (signer_commitment_problems c))) [
  | inl t ↦ (is_nil_sound _ t, map-nil commitment_differs _ (ground (arith, t)))
  | inr f ↦
      let none_left =
        map-nil commitment_malformed (signer_commitment_problems c) (ground (arith, f)) in
      absurd (ground (arith, f, none_left))
]

pub set_errors-IsCommitted : (e : Fields) (o : Option Value) → set_errors e o ≡ [] → IsCommitted e o
set_errors-IsCommitted e none h = tt
set_errors-IsCommitted e (some c) h =
    let (shape, same_set) = set_problems e c h in
    let (vs, q, o) = commitment_shape c shape in
    (
      vs,
      q,
      (signer_set_iff (members vs) (actual_members (get e (codes "signers"))) o).0 (
          subst
            (λ x.
              differences (committed_members x)
                (sort_members (actual_members (get e (codes "signers"))))
              ≡ [])
            q same_set),
    )

-- An inner envelope repeats the id and the anchors of the outer one.
pub record AgreesWithOuter (x e : Fields) : Type 0 where
  pub id : same (get x (codes "capsule_id")) (get e (codes "capsule_id")) ≡ true
  pub first : same (get x (codes "first_event_hash")) (get e (codes "first_event_hash")) ≡ true
  pub last : same (get x (codes "entry_hash")) (get e (codes "entry_hash")) ≡ true

pub outer_errors-AgreesWithOuter :
    (p : Platform) (o : Options) (m e : Fields) (version : Str) (x : Fields)
    → o.outer_envelope ≡ some x
    → outer_errors p o m e version ≡ []
    → AgreesWithOuter x e
unfolding outer_errors
outer_errors-AgreesWithOuter p o m e version x q h = record {
  id = ground (arith, q);
  first = ground (arith, q);
  last = ground (arith, q);
}

pub first_hash_same :
    (m e : Fields)
    → first_hash_errors m e ≡ []
    → same
        (null_for_undefined (get m (codes "first_event_hash")))
        (null_for_undefined (get e (codes "first_event_hash")))
      ≡ true
unfolding first_hash_errors
first_hash_same m e h = unless_nil _ _ h
