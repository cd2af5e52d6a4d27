-- ===== src/Verifier/Indexed.antt =====
-- What holds of a package in which the content index check of sdk-js/src/verifier.js finds nothing.
use capsules_protocol.Json.{Value, str, arr, Items, nil, cons, Fields, at}
use capsules_protocol.Bytes.{Bytes}
use capsules_protocol.Platform.{Platform}
use capsules_protocol.Canonical.{jcs}
use capsules_protocol.Manifest.{
  Files, file, sha256_hex, IndexEntry, entry_value, to_items, ContentIndex, hashed_files,
  insert_entry, sort_entries, build_content_index, content_index_exclusions,
}
use capsules_protocol.Verifier.{is_text, is_plain, same}
use capsules_protocol.Verifier.Index.{
  ContentProblem, problem_unless, stored_hash, file_problems, files_problems, packaged,
  missing_problems, index_prints, index_files, listed_files, all_problems, content_problems,
}
use capsules_protocol.Verifier.Gates.{is_text_sound}
use mathlib.Core.Path.{subst}
use capsules_protocol.Prelude.{
  if◌then◌else◌, Bool-cases, Option-cases, ok, Str, codes, str_eq, str_eq_sound, str_eq_iff,
  contains, str_before, All, append-eq-nil, ◌≡◌, refl, sym, ap, ◌≢◌, ◌⊎◌, inl, inr, Bool, true,
  false, not, Option, none, some, List, [], ◌∷◌, map, arith, Result-cases,
}

abbrev pub record_of : Platform → Str → Bytes → IndexEntry
record_of p path b = record { path = path; sha256 = sha256_hex p b }

-- What holds of the recomputed index, against the listed files.
pub record IsIndexed (p : Platform) (stored : Items) (ex : List Str) (fs : Files) : Type 0 where
  pub each : All (λ f. file_problems stored f ≡ []) (hashed_files p ex (index_files ex fs))
  pub listed : missing_problems (sort_entries (hashed_files p ex (index_files ex fs))) stored ≡ []

files_pass :
    (stored : Items) (es : List IndexEntry)
    → files_problems stored es ≡ []
    → All (λ f. file_problems stored f ≡ []) es
unfolding files_problems
files_pass stored [] h = tt
files_pass stored (f ∷ es) h =
    let (a, b) = append-eq-nil (file_problems stored f) (files_problems stored es) h in
    (a, files_pass stored es b)

insert_entry-All {κ} :
    (P : IndexEntry → Type κ) (e : IndexEntry) (es : List IndexEntry)
    → All P (insert_entry e es)
    → All P (e ∷ es)
unfolding insert_entry
insert_entry-All P e [] h = h
insert_entry-All P e (f ∷ es) h = elim (Bool-cases (str_before f.path e.path)) [
  | inl t ↦
      let (a, b) : P f × All P (insert_entry e es) = subst (All P) (later t) h in
      let (c, d) = insert_entry-All P e es b in (c, (a, d))
  | inr n ↦ subst (All P) (here n) h
]
  where
    later : str_before f.path e.path ≡ true → insert_entry e (f ∷ es) ≡ f ∷ insert_entry e es
    later t = rw t refl

    here : str_before f.path e.path ≡ false → insert_entry e (f ∷ es) ≡ e ∷ f ∷ es
    here n = rw n refl

sort_entries-All {κ} :
    (P : IndexEntry → Type κ) (es : List IndexEntry) → All P (sort_entries es) → All P es
unfolding sort_entries
sort_entries-All P [] h = tt
sort_entries-All P (e ∷ es) h =
    let (a, b) = insert_entry-All P e (sort_entries es) h in (a, sort_entries-All P es b)

hashed_skip :
    (p : Platform) (ex : List Str) (q : Str) (c : Bytes) (fs : Files)
    → contains ex q ≡ true
    → hashed_files p ex (index_files ex ((q, c) ∷ fs)) ≡ hashed_files p ex (index_files ex fs)
unfolding hashed_files index_files
hashed_skip p ex q c fs x = ground (arith, x)

hashed_keep :
    (p : Platform) (ex : List Str) (q : Str) (c : Bytes) (fs : Files)
    → contains ex q ≡ false
    → hashed_files p ex (index_files ex ((q, c) ∷ fs))
      ≡ record_of p q c ∷ hashed_files p ex (index_files ex fs)
unfolding hashed_files index_files
hashed_keep p ex q c fs y = ground (arith, y)

pub hashed_at {κ} :
    (P : IndexEntry → Type κ) (p : Platform) (ex : List Str) (fs : Files) (path : Str) (b : Bytes)
    → contains ex path ≡ false
    → file fs path ≡ some b
    → All P (hashed_files p ex (index_files ex fs))
    → P (record_of p path b)
unfolding hashed_files index_files file
hashed_at P p ex [] path b n h a = cc
hashed_at P p ex ((q, c) ∷ fs) path b n h a = elim (Bool-cases (contains ex q)) [
  | inl x ↦
      hashed_at P p ex fs path b n (ground (arith, h, n, x, str_eq_iff q path))
        (subst (All P) (hashed_skip p ex q c fs x) a)
  | inr y ↦
      let (head, rest) : P (record_of p q c) × All P (hashed_files p ex (index_files ex fs)) =
        subst (All P) (hashed_keep p ex q c fs y) a in
      elim (Bool-cases (str_eq q path)) [
        | inl s ↦
            let same_path = str_eq_sound q path s in
            let same_bytes : c ≡ b = ground (arith, h, s) in
            subst (λ z. P (record_of p path z)) same_bytes
              (subst (λ z. P (record_of p z c)) same_path head)
        | inr d ↦ hashed_at P p ex fs path b n (ground (arith, h, d)) rest
      ]
]

packaged-insert :
    (e : IndexEntry) (es : List IndexEntry) (v : Option Value)
    → packaged (insert_entry e es) v ≡ packaged (e ∷ es) v
unfolding insert_entry packaged
packaged-insert e [] v = refl
packaged-insert e (f ∷ es) v = ground (arith, packaged-insert e es v)

pub packaged-sort :
    (es : List IndexEntry) (v : Option Value) → packaged (sort_entries es) v ≡ packaged es v
unfolding sort_entries packaged
packaged-sort [] v = refl
packaged-sort (e ∷ es) v = ground (arith, packaged-insert e (sort_entries es) v, packaged-sort es v)

pub entry_of_packaged :
    (p : Platform) (ex : List Str) (fs : Files) (path : Str)
    → packaged (hashed_files p ex (index_files ex fs)) (some (str path)) ≡ true
    → file fs path ≢ none
unfolding packaged hashed_files index_files file same
entry_of_packaged p ex [] path h n = cc
entry_of_packaged p ex ((q, c) ∷ fs) path h n = ground (
  arith,
  entry_of_packaged p ex fs path,
  str_eq_iff q path,
  str_eq_iff path q,
  Bool-cases (contains ex q),
)

pub no_problem : (x : Bool) (e : ContentProblem) → problem_unless x e ≡ [] → x ≡ true
no_problem true e h = refl
no_problem false e h = cc

pub stored_passes :
    (es : List IndexEntry) (stored : Items) (path : Str) (before : Option Value)
    → missing_problems es stored ≡ []
    → (stored_hash stored path before ≡ before) ⊎ (packaged es (some (str path)) ≡ true)
unfolding missing_problems stored_hash
stored_passes es nil path before h = inl refl
stored_passes es (cons v vs) path before h =
    let (a, b) = append-eq-nil _ (missing_problems es vs) h in
    elim (Bool-cases (is_text (at (some v) (codes "path")) path)) [
      | inl t ↦ inr (
          subst (λ x. packaged es x ≡ true) (is_text_sound (at (some v) (codes "path")) path t)
            (no_problem _ _ a))
      | inr f ↦ elim (stored_passes es vs path before b) [
        | inl e ↦ inl (ground (arith, f, e))
        | inr q ↦ inr q
      ]
    ]

built_files :
    (p : Platform) (ex : List Str) (fs : Files) (index : ContentIndex)
    → build_content_index p fs ex ≡ ok index
    → index.files ≡ sort_entries (hashed_files p ex fs)
unfolding build_content_index sha256_hex
built_files p ex fs index h =
    elim (Result-cases
      (jcs p (arr (to_items (map entry_value (sort_entries (hashed_files p ex fs))))))) [
        | inl (x, k) ↦ absurd (ground (arith, k))
        | inr (bytes, k) ↦
            let made : record {
              files = sort_entries (hashed_files p ex fs);
              index_hash = sha256_hex p bytes;
            }
                ≡ index =
              ground (arith, k) in
            sym (ap (λ i. i.files) made)
      ]

unprinted :
    (e : Fields) (stored : Items) (index : ContentIndex) (l : List ContentProblem)
    → (if index_prints e stored index then some l else none) ≡ some []
    → l ≡ []
unprinted e stored index l h = elim (Bool-cases (index_prints e stored index)) [
  | inl t ↦ ground (arith, t)
  | inr f ↦ absurd (ground (arith, f))
]

pub indexed :
    (p : Platform) (m e : Fields) (fs : Files)
    → content_problems p m e fs ≡ some []
    → (stored : Items) × (listed_files m ≡ some stored)
      × IsIndexed p stored (content_index_exclusions (not (is_plain e))) fs
unfolding content_problems build_content_index
indexed p m e fs h =
    let ex = content_index_exclusions (not (is_plain e)) in
    elim (Result-cases (build_content_index p (index_files ex fs) ex)) [
      | inl (x, b) ↦ absurd (ground (arith, b))
      | inr (index, b) ↦ elim (Option-cases (listed_files m)) [
        | inl n ↦ absurd (ground (arith, b, n))
        | inr (stored, l) ↦
            let none_left =
              unprinted e stored index (all_problems m e stored index) (ground (arith, b, l)) in
            let (first, r1) = append-eq-nil _ _ none_left in
            let (files, r2) = append-eq-nil _ _ r1 in
            let (missing, last) = append-eq-nil _ _ r2 in
            let same_files : index.files ≡ sort_entries (hashed_files p ex (index_files ex fs)) =
              built_files p ex (index_files ex fs) index b in
            (
              stored,
              l,
              record {
                each = sort_entries-All _ _ (
                    files_pass stored _
                      (subst (λ x. files_problems stored x ≡ []) same_files files));
                listed = subst (λ x. missing_problems x stored ≡ []) same_files missing;
              },
            )
      ]
    ]
