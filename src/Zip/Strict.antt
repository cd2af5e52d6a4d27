-- ===== src/Zip/Strict.antt =====
-- `assertStrictEntries` of sdk-js/src/zip.js.
use capsules_protocol.Bytes.{Bytes}
use capsules_protocol.Zip.{
  ZipError, duplicate_entry, name_mismatch, dir_attribute, dir_content, not_stored, symlink,
  unsafe_path, Entry,
}
use capsules_protocol.Zip.Scan.{scan_central_directory}
use capsules_protocol.Prelude.{
  ◌==◌, if◌then◌else◌, Result, ok, err, ◌>>=◌, Str, str_eq, contains, ℕ, ◌/◌, ◌%◌, ◌^◌, Bool, true,
  false, ◌&&◌, not, none, some, List, [], ◌∷◌,
}

-- `name.endsWith("/")`.
unfoldable pub ends_with_slash : Str → Bool
ends_with_slash [] = false
ends_with_slash (c ∷ []) = c == b'/'
ends_with_slash (c ∷ d ∷ s) = ends_with_slash (d ∷ s)

-- `(attrs & 0x10) !== 0`: the fifth bit.
abbrev pub has_dir_bit : ℕ → Bool
has_dir_bit attrs = attrs / 16 % 2 == 1

-- `(((attrs >>> 16) & 0xffff) & 0o170000) === 0o120000`: the upper four of 32 bits are ten.
abbrev pub is_symlink : ℕ → Bool
is_symlink attrs = attrs / 2 ^ 28 % 16 == 10

-- The tests of an entry behind those of its name and path; true for a directory marker.
unfoldable pub file_or_dir : Entry → Result ZipError Bool
file_or_dir e =
    if has_dir_bit e.external_attrs && not (ends_with_slash e.name)
    then err (dir_attribute e.name)
    else if ends_with_slash e.name
    then (if e.size == 0 && e.compressed_size == 0 then ok true else err (dir_content e.name))
    else if not (e.method == 0)
    then err (not_stored e.name)
    else if is_symlink e.external_attrs
    then err (symlink e.name)
    else ok false

-- One round of the loop.
unfoldable pub check_entry : List Str → Entry → Result ZipError Bool
check_entry seen e =
    if contains seen e.name then err (duplicate_entry e.name) else elim (unsafe_path e.name) [
      | some x ↦ err x
      | none ↦ if str_eq e.local_name e.name then file_or_dir e else err (name_mismatch e.name)
    ]

-- The names of files, behind the names seen so far.
unfoldable pub strict_from : List Str → List Entry → Result ZipError (List Str)
strict_from seen [] = ok []
strict_from seen (e ∷ es) =
    let rest = strict_from (e.name ∷ seen) es in
    check_entry seen e >>= λ dir. rest >>= λ names. ok (if dir then names else e.name ∷ names)

-- `assertStrictEntries(bytes, limits)`.
unfoldable pub strict_entries : (Bytes → Str) → Bytes → ℕ → Result ZipError (List Str)
strict_entries decode b max = scan_central_directory decode b max >>= strict_from []
