-- ===== src/Zip/Unpack.antt =====
-- `packZip` and `unpackZip` of sdk-js/src/zip.js.
use capsules_protocol.Bytes.{Bytes}
use capsules_protocol.Manifest.{Files, file}
use capsules_protocol.Zip.{
  ZipError, too_many_entries, not_a_zip, not_in_directory, unreadable_entry, entry_limit,
  size_limit, not_extracted, Limits, unsafe_path,
}
use capsules_protocol.Zip.Strict.{strict_entries}
use capsules_protocol.Prelude.{
  ltb, ◌==◌, if◌then◌else◌, Result, ok, err, ◌>>=◌, Str, str_eq, contains, str_before, length, keep,
  ℕ, ◌+◌, Bool, true, false, Option, none, some, List, [], ◌∷◌,
}

-- An entry of JSZip's `zip.files`; its data is `none` where `entry.async` rejects.
pub record Loaded : Type 0 where
  pub path : Str
  pub dir : Bool
  pub bytes : Option Bytes

-- JSZip: what `loadAsync` gives, `none` where it rejects, and the archive that `generateAsync` makes.
pub record Zipper : Type 0 where
  pub load : Bytes → Option (List Loaded)
  pub generate : Files → Bytes
  pub decode : Bytes → Str

unfoldable pub insert_loaded : Loaded → List Loaded → List Loaded
insert_loaded e [] = e ∷ []
insert_loaded e (f ∷ fs) =
    let later = f ∷ insert_loaded e fs in if str_before f.path e.path then later else e ∷ f ∷ fs

-- `entries.sort(...)`: by path.
unfoldable pub sort_loaded : List Loaded → List Loaded
sort_loaded [] = []
sort_loaded (e ∷ es) = insert_loaded e (sort_loaded es)

-- `out.set(path, data)`.
unfoldable pub put : Files → Str → Bytes → Files
put [] path b = (path, b) ∷ []
put ((q, c) ∷ fs) path b = if str_eq q path then (q, b) ∷ fs else (q, c) ∷ put fs path b

-- The loop over JSZip's entries, with the files, the count and the size so far.
unfoldable pub extract : List Str → Limits → Files → ℕ → ℕ → List Loaded → Result ZipError Files
extract expected limits out count total [] = ok out
extract expected limits out count total (e ∷ es) =
    let skip = extract expected limits out count total es in
    let take : Bytes → Result ZipError Files = λ data'.
      let next =
        extract expected limits (put out e.path data') (count + 1) (total + length data') es in
      if ltb limits.max_entries (count + 1)
      then err entry_limit
      else if ltb limits.max_total_bytes (total + length data')
      then err size_limit
      else next in
    let read : Result ZipError Files = elim e.bytes [
      | none ↦ err (unreadable_entry e.path)
      | some b ↦ take b
    ] in
    let safe : Result ZipError Files = elim (unsafe_path e.path) [
      | some x ↦ err x
      | none ↦ if contains expected e.path then read else err (not_in_directory e.path)
    ] in
    if e.dir then skip else safe

abbrev pub missing : List Str → Files → List Str
missing expected out = keep (λ n. elim (file out n) [ none ↦ true | some b ↦ false ]) expected

abbrev complete : List Str → Files → Result ZipError Files
complete expected out =
    if length out == length expected then ok out else err (not_extracted (missing expected out))

-- `unpackZip(bytes, options)` under resolved limits.
unfoldable pub unpack_zip : Zipper → Bytes → Limits → Result ZipError Files
unpack_zip z b limits = strict_entries z.decode b limits.max_entries >>= λ expected.
    elim (z.load b) [
      | none ↦ err not_a_zip
      | some loaded ↦
          if ltb limits.max_entries (length loaded)
          then err (too_many_entries (length loaded))
          else (extract expected limits [] 0 0 (sort_loaded loaded) >>= complete expected)
    ]

unfoldable pub insert_file : Str × Bytes → Files → Files
insert_file f [] = f ∷ []
insert_file f (g ∷ gs) =
    let later = g ∷ insert_file f gs in if str_before (g.0) (f.0) then later else f ∷ g ∷ gs

unfoldable pub sort_files : Files → Files
sort_files [] = []
sort_files (f ∷ fs) = insert_file f (sort_files fs)

-- The first error of `assertSafePath` over the sorted files.
unfoldable pub first_unsafe : Files → Option ZipError
first_unsafe [] = none
first_unsafe ((path, b) ∷ fs) = elim (unsafe_path path) [ some e ↦ some e | none ↦ first_unsafe fs ]

-- `packZip(files, options)` under resolved limits.
unfoldable pub pack_zip : Zipper → Files → Limits → Result ZipError Bytes
pack_zip z fs limits =
    if ltb limits.max_entries (length fs)
    then err (too_many_entries (length fs))
    else elim (first_unsafe (sort_files fs)) [
      | some e ↦ err e
      | none ↦ ok (z.generate (sort_files fs))
    ]
