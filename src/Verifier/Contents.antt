-- ===== src/Verifier/Contents.antt =====
-- What the content index check of sdk-js/src/verifier.js fixes of a package.
use capsules_protocol.Json.{Value, str, Items, Fields}
use capsules_protocol.Bytes.{Bytes}
use capsules_protocol.Platform.{Platform, IsDigest, Collides}
use capsules_protocol.Manifest.{
  Files, file, sha256_hex, hashed_files, sort_entries, content_index_exclusions,
}
use capsules_protocol.Manifest.Identity.{same_digest}
use capsules_protocol.Verifier.{is_text, is_plain}
use capsules_protocol.Verifier.Index.{
  hash_differs, truthy, stored_hash, file_problems, index_files, content_problems,
}
use capsules_protocol.Verifier.Gates.{is_text_sound}
use capsules_protocol.Verifier.Indexed.{
  record_of, IsIndexed, hashed_at, packaged-sort, entry_of_packaged, no_problem, stored_passes,
  indexed,
}
use mathlib.Core.Path.{subst}
use capsules_protocol.Prelude.{
  Bool-cases, Option-cases, Str, contains, ◌≡◌, sym, ap, ◌∙◌, ◌≢◌, ◌⊎◌, inl, inr, true, false, not,
  Option, none, some, List, [], arith,
}

none_some : {s : Str} → ◌≢◌ {A = Option Value} none (some (str s))
none_some h = cc

some_same : {xs ys : Items} → ◌≡◌ {A = Option Items} (some xs) (some ys) → xs ≡ ys
some_same h = cc

text_same : {s t : Str} → ◌≡◌ {A = Option Value} (some (str s)) (some (str t)) → s ≡ t
text_same h = cc

pub stored_of :
    (p : Platform) (stored : Items) (path : Str) (b : Bytes)
    → file_problems stored (record_of p path b) ≡ []
    → stored_hash stored path none ≡ some (str (sha256_hex p b))
stored_of p stored path b h = elim (Bool-cases (truthy (stored_hash stored path none))) [
  | inr f ↦ absurd (ground (arith, f))
  | inl t ↦
      let fits : is_text (stored_hash stored path none) (sha256_hex p b) ≡ true =
        no_problem (is_text (stored_hash stored path none) (sha256_hex p b)) (hash_differs path)
          (ground (arith, t)) in
      is_text_sound (stored_hash stored path none) (sha256_hex p b) fits
]

-- A file that one package has, the other has too.
not_missing :
    (p : Platform) (stored : Items) (ex : List Str) (fs gs : Files) (path : Str) (b : Bytes)
    → contains ex path ≡ false
    → IsIndexed p stored ex fs
    → IsIndexed p stored ex gs
    → file fs path ≡ some b
    → file gs path ≢ none
not_missing p stored ex fs gs path b n i j h g =
    let at_path =
      stored_of p stored path b
        (hashed_at (λ f. file_problems stored f ≡ []) p ex fs path b n h i.each) in
    elim (stored_passes (sort_entries (hashed_files p ex (index_files ex gs))) stored path none
      j.listed) [
        | inl e ↦ none_some (sym e ∙ at_path)
        | inr q ↦
            entry_of_packaged p ex gs path
              (sym (packaged-sort (hashed_files p ex (index_files ex gs)) (some (str path))) ∙ q) g
      ]

-- The files of two packages at a path differ and have one digest.
abbrev pub FilesCollide : Platform → Files → Files → Str → Type 0
FilesCollide p fs gs path =
    (b : Bytes) × (c : Bytes) × (file fs path ≡ some b) × (file gs path ≡ some c) × Collides p b c

-- Two packages that one content index fits have the same bytes, or neither has any, at every path
-- that is not excluded from the index; or the bytes of the one and of the other there differ and
-- have one digest. The digest is 32 bytes.
pub content_binds :
    (p : Platform) (m e : Fields) (fs gs : Files) (path : Str)
    → IsDigest p
    → content_problems p m e fs ≡ some []
    → content_problems p m e gs ≡ some []
    → contains (content_index_exclusions (not (is_plain e))) path ≡ false
    → (file fs path ≡ file gs path) ⊎ FilesCollide p fs gs path
unfolding sha256_hex
content_binds p m e fs gs path d hf hg n =
    let ex = content_index_exclusions (not (is_plain e)) in
    let (stored, l, i) = indexed p m e fs hf in
    let (stored', l', j') = indexed p m e gs hg in
    let one : stored' ≡ stored = some_same (sym l' ∙ l) in
    let j = subst (λ s. IsIndexed p s ex gs) one j' in
    elim (Option-cases (file fs path)) [
      | inl no_f ↦ elim (Option-cases (file gs path)) [
        | inl no_g ↦ inl (no_f ∙ sym no_g)
        | inr (c, g) ↦ absurd (not_missing p stored ex gs fs path c n j i g no_f)
      ]
      | inr (b, f) ↦ elim (Option-cases (file gs path)) [
        | inl no_g ↦ absurd (not_missing p stored ex fs gs path b n i j f no_g)
        | inr (c, g) ↦
            let own =
              stored_of p stored path b
                (hashed_at (λ x. file_problems stored x ≡ []) p ex fs path b n f i.each) in
            let other =
              stored_of p stored path c
                (hashed_at (λ x. file_problems stored x ≡ []) p ex gs path c n g j.each) in
            elim (same_digest p d b c (text_same (sym own ∙ other))) [
              | inl q ↦ inl (f ∙ (ap some q ∙ sym g))
              | inr k ↦ inr (b, c, f, g, k)
            ]
      ]
    ]
