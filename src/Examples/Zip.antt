-- ===== src/Examples/Zip.antt =====
-- An archive of one file and one directory marker, byte by byte.
use mathlib.Core.List.{Permᴰ}
use capsules_protocol.Bytes.{Bytes}
use capsules_protocol.Manifest.{Files}
use capsules_protocol.Zip.{
  out_of_fuel, Entry, unsafe_path, segments, byte_at, read16, read32, slice, default_limits,
}
use capsules_protocol.Zip.Scan.{
  find_eocd, signature_after, read_local_name, record_end, read_record, scan_records,
  scan_directory, scan_central_directory,
}
use capsules_protocol.Zip.Strict.{
  ends_with_slash, file_or_dir, check_entry, strict_from, strict_entries,
}
use capsules_protocol.Zip.Unpack.{
  Loaded, Zipper, insert_loaded, sort_loaded, put, extract, unpack_zip, insert_file, sort_files,
  pack_zip,
}
use capsules_protocol.Zip.Admitted.{IsStrict, names, file_names, strict_entries_iff}
use capsules_protocol.Zip.Directory.{IsDirectory, scan_terminates, scan_central_directory_iff}
use capsules_protocol.Zip.Contents.{IsUnpacked, unpack_zip_sound}
use capsules_protocol.Zip.Extracted.{paths}
use capsules_protocol.Zip.Order.{IsSorted}
use capsules_protocol.Zip.Packed.{pack_zip_iff}
use capsules_protocol.Prelude.{
  ok, err, str_eq, contains, starts_with, str_compare, length, All, ℕ, zero, suc, ◌≤◌, ◌≡◌, refl,
  ◌≢◌, ◌↔◌, false, none, some, List, [], ◌∷◌, ◌++◌, Apart,
}

abbrev zeros : ℕ → Bytes
zeros zero = []
zeros (suc n) = 0 ∷ zeros n

-- The local header of a file `a` of the two bytes `hi`.
abbrev local_header : Bytes
local_header =
    b'P' ∷ b'K' ∷ 3 ∷ 4 ∷ zeros 14
    ++ (2 ∷ 0 ∷ 0 ∷ 0 ∷ 2 ∷ 0 ∷ 0 ∷ 0 ∷ 1 ∷ 0 ∷ 0 ∷ 0 ∷ b'a' ∷ b'h' ∷ b'i' ∷ [])

-- Its record in the directory, stored by the method that is given.
abbrev record_of : ℕ → Bytes
record_of method =
    b'P' ∷ b'K' ∷ 1 ∷ 2 ∷ zeros 6
    ++ (method ∷ 0 ∷ zeros 8 ++ (2 ∷ 0 ∷ 0 ∷ 0 ∷ 2 ∷ 0 ∷ 0 ∷ 0 ∷ 1 ∷ 0 ∷ zeros 16 ++ b'a' ∷ []))

-- The end record of a directory of one record behind 33 bytes.
abbrev end_record : Bytes
end_record =
    b'P' ∷ b'K' ∷ 5 ∷ 6 ∷ zeros 4 ++ (1 ∷ 0 ∷ 1 ∷ 0 ∷ 47 ∷ 0 ∷ 0 ∷ 0 ∷ 33 ∷ 0 ∷ 0 ∷ 0 ∷ 0 ∷ 0 ∷ [])

abbrev archive_of : ℕ → Bytes
archive_of method = local_header ++ (record_of method ++ end_record)

abbrev own_entry : Entry
own_entry = record {
  name = b'a' ∷ [];
  local_name = b'a' ∷ [];
  method = 0;
  compressed_size = 2;
  size = 2;
  external_attrs = 0;
  local_header_offset = 0;
}

abbrev pub zipper : Zipper
zipper = record {
  load = λ b. some (record { path = b'a' ∷ []; dir = false; bytes = some (b'h' ∷ b'i' ∷ []) } ∷ []);
  generate = λ fs. archive_of 0;
  decode = λ b. b;
}

abbrev own_files : Files
own_files = (b'a' ∷ [], b'h' ∷ b'i' ∷ []) ∷ []

scan_test : scan_central_directory (λ b. b) (archive_of 0) 10 ≡ ok (own_entry ∷ [])
unfolding scan_central_directory find_eocd signature_after scan_directory scan_records read_record
    read_local_name record_end read16 read32 byte_at slice
scan_test = refl

unpack_test : unpack_zip zipper (archive_of 0) default_limits ≡ ok own_files
unfolding unpack_zip strict_entries strict_from check_entry file_or_dir ends_with_slash unsafe_path
    segments starts_with contains str_eq extract put sort_loaded insert_loaded
    scan_central_directory find_eocd signature_after scan_directory scan_records read_record
    read_local_name record_end read16 read32 byte_at slice
unpack_test = refl

scan_central_directory_iff_example :
    (scan_central_directory (λ b. b) (archive_of 0) 10 ≡ ok (own_entry ∷ []))
    ↔ ((eocd : ℕ) × IsDirectory (λ b. b) (archive_of 0) 10 eocd (own_entry ∷ []))
scan_central_directory_iff_example =
    scan_central_directory_iff (λ b. b) (archive_of 0) 10 (own_entry ∷ [])

scan_terminates_example : scan_central_directory (λ b. b) (archive_of 8) 10 ≢ err out_of_fuel
scan_terminates_example = scan_terminates (λ b. b) (archive_of 8) 10

strict_entries_iff_example : (strict_entries (λ b. b) (archive_of 0) 10 ≡ ok ((b'a' ∷ []) ∷ [])) ↔ (
    (es : List Entry) × (scan_central_directory (λ b. b) (archive_of 0) 10 ≡ ok es)
    × Apart (names es)
    × All IsStrict es
    × (((b'a' ∷ []) ∷ []) ≡ file_names es))
strict_entries_iff_example = strict_entries_iff (λ b. b) (archive_of 0) 10 ((b'a' ∷ []) ∷ [])

unpack_zip_sound_example :
    (es : List Entry) × (loaded : List Loaded) × (scan_central_directory zipper.decode
        (archive_of 0)
        default_limits.max_entries
      ≡ ok es)
    × (zipper.load (archive_of 0) ≡ some loaded)
    × IsUnpacked es loaded default_limits own_files
unpack_zip_sound_example =
    unpack_zip_sound zipper (archive_of 0) default_limits own_files unpack_test

abbrev two_files : Files
two_files = (b'b' ∷ [], []) ∷ (b'a' ∷ [], b'h' ∷ []) ∷ []

two-Apart : Apart (paths two_files)
unfolding contains str_eq
two-Apart = (refl, (refl, tt))

pack_test : sort_files two_files ≡ (b'a' ∷ [], b'h' ∷ []) ∷ (b'b' ∷ [], []) ∷ []
unfolding sort_files insert_file str_compare
pack_test = refl

pack_zip_iff_example : (pack_zip zipper two_files default_limits ≡ ok (archive_of 0)) ↔ (
    (length two_files ≤ default_limits.max_entries)
    × ((gs : Files) × Permᴰ gs two_files
        × IsSorted (paths gs)
        × All (λ q. unsafe_path q ≡ none) (paths gs)
        × (archive_of 0 ≡ zipper.generate gs)))
pack_zip_iff_example = pack_zip_iff zipper two_files default_limits (archive_of 0) two-Apart
