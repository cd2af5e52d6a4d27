-- ===== src/Verifier/Index.antt =====
-- The content index check of sdk-js/src/verifier.js.
use capsules_protocol.Json.{
  prints, integral, nan, Value, null, bool, num, str, arr, Items, nil, cons, Fields, get, at,
}
use capsules_protocol.Platform.{Platform}
use capsules_protocol.Manifest.{
  Files, content_index_exclusions, IndexEntry, ContentIndex, build_content_index,
}
use capsules_protocol.Verifier.{is_text, is_plain}
use capsules_protocol.Prelude.{
  ◌==◌, if◌then◌else◌, ok, err, Str, codes, contains, is_nil, Bool, true, false, ◌&&◌, ◌||◌, not,
  Option, none, some, List, [], ◌∷◌, ◌++◌,
}

pub data ContentProblem : Type 0 where
  index_hash_differs envelope_index_differs : ContentProblem
  not_indexed hash_differs : Str → ContentProblem
  not_packaged : Option Value → ContentProblem

abbrev pub problem_unless : Bool → ContentProblem → List ContentProblem
problem_unless true e = []
problem_unless false e = e ∷ []

-- JavaScript's truth of a value; `none` is `undefined`.
unfoldable pub truthy : Option Value → Bool
truthy none = false
truthy (some null) = false
truthy (some (bool b)) = b
truthy (some (num (integral s m))) = not (m == 0)
truthy (some (num nan)) = false
truthy (some (num n)) = true
truthy (some (str s)) = not (is_nil s)
truthy (some v) = true

-- `stored.get(path)` of the Map by path: the last entry with the path.
unfoldable pub stored_hash : Items → Str → Option Value → Option Value
stored_hash nil path before = before
stored_hash (cons v vs) path before =
    let found = stored_hash vs path (at (some v) (codes "sha256")) in
    let rest = stored_hash vs path before in
    if is_text (at (some v) (codes "path")) path then found else rest

-- Reading a member of null throws.
unfoldable pub has_null : Items → Bool
has_null nil = false
has_null (cons null vs) = true
has_null (cons v vs) = has_null vs

abbrev pub file_problems : Items → IndexEntry → List ContentProblem
file_problems stored f =
    let expected = stored_hash stored f.path none in
    if not (truthy expected)
    then not_indexed f.path ∷ []
    else problem_unless (is_text expected f.sha256) (hash_differs f.path)

unfoldable pub files_problems : Items → List IndexEntry → List ContentProblem
files_problems stored [] = []
files_problems stored (f ∷ fs) = file_problems stored f ++ files_problems stored fs

-- Whether a recomputed entry has the path of the listed one.
unfoldable pub packaged : List IndexEntry → Option Value → Bool
packaged [] path = false
packaged (f ∷ fs) path = is_text path f.path || packaged fs path

unfoldable pub missing_problems : List IndexEntry → Items → List ContentProblem
missing_problems fs nil = []
missing_problems fs (cons v vs) =
    problem_unless (packaged fs (at (some v) (codes "path")))
      (not_packaged (at (some v) (codes "path")))
    ++ missing_problems fs vs

-- `indexFiles`: the package without the excluded paths.
unfoldable pub index_files : List Str → Files → Files
index_files excluded [] = []
index_files excluded ((path, b) ∷ fs) =
    let rest = index_files excluded fs in if contains excluded path then rest else (path, b) ∷ rest

-- `manifest.content_index.files`, which must be an array without null.
abbrev pub listed_files : Fields → Option Items
listed_files m = elim (at (get m (codes "content_index")) (codes "files")) [
  | some (arr vs) ↦ if has_null vs then none else some vs
  | none ↦ none
  | some v ↦ none
]

abbrev pub all_problems : Fields → Fields → Items → ContentIndex → List ContentProblem
all_problems m e stored index =
    problem_unless
      (is_text (at (get m (codes "content_index")) (codes "index_hash")) index.index_hash)
      index_hash_differs
    ++ (files_problems stored index.files
        ++ (missing_problems index.files stored
            ++ problem_unless (is_text (get e (codes "content_index_hash")) index.index_hash)
                envelope_index_differs))

-- The messages on listed files that are not in the package, and on the index hash of the envelope.
unfoldable pub paths_print : List IndexEntry → Items → Bool
paths_print fs nil = true
paths_print fs (cons v vs) =
    (packaged fs (at (some v) (codes "path")) || prints (at (some v) (codes "path")))
    && paths_print fs vs

abbrev pub index_prints : Fields → Items → ContentIndex → Bool
index_prints e stored index =
    paths_print index.files stored
    && (is_text (get e (codes "content_index_hash")) index.index_hash
        || prints (get e (codes "content_index_hash")))

-- The content index stage; `none` where it throws.
unfoldable pub content_problems : Platform → Fields → Fields → Files → Option (List ContentProblem)
content_problems p m e fs =
    let excluded = content_index_exclusions (not (is_plain e)) in
    elim (build_content_index p (index_files excluded fs) excluded) [
      | err x ↦ none
      | ok index ↦ elim (listed_files m) [
        | none ↦ none
        | some stored ↦
            if index_prints e stored index then some (all_problems m e stored index) else none
      ]
    ]
