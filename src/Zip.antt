-- ===== src/Zip.antt =====
-- sdk-js/src/zip.js: names, limits and entries of a package.
-- Messages are constructors; the JSZip package and the decoder of names are parameters.
pub mod Scan
pub mod Strict
pub mod Unpack
pub mod Admitted
pub mod Extracted
pub mod Contents
pub mod Walk
pub mod Directory
pub mod Order
pub mod Packed
use capsules_protocol.Json.{Num, integral, fractional, infinite, nan}
use capsules_protocol.Bytes.{Bytes}
use capsules_protocol.Prelude.{
  ltb, leb, ◌==◌, if◌then◌else◌, ==_iff, Bool-cases, Option-cases, &&_both, and_true, Result, ok,
  err, ◌>>=◌, Str, codes, str_eq, str_eq_refl, str_eq_sound, str_eq_iff, contains, all_in, is_digit,
  is_lower, is_upper, is_lower_hex, is_hex, starts_with, cut_at, str_before, lower_code, to_lower,
  str_compare, length, is_nil, All, any, every, keep, length-append, All-append, append-eq-nil, ℕ,
  zero, suc, ◌+◌, ◌-◌, ◌*◌, ◌/◌, ◌%◌, ◌^◌, ◌≤◌, ◌<◌, String, ◌≡◌, refl, sym, ap, ◌∙◌, ◌≢◌, ◌↔◌, ◌⊎◌,
  inl, inr, Bool, true, false, ◌&&◌, ◌||◌, not, Option, none, some, List, [], ◌∷◌, ◌++◌, map,
  append_assoc, append-nil, arith, Result-cases, concat, concat-nil,
}

pub data ZipError : Type 0 where
  bad_limit : ZipError
  too_small no_eocd many_eocds zip64 cd_not_at_eocd : ZipError
  too_many_entries : ℕ → ZipError
  malformed_record truncated_record no_local_header truncated_local_header : ℕ → ZipError
  count_mismatch : ℕ → ℕ → ZipError
  -- The fuel of the walk over the records ran out.
  out_of_fuel : ZipError
  duplicate_entry name_mismatch dir_attribute dir_content not_stored symlink : Str → ZipError
  empty_path : ZipError
  nul_in_path absolute_path parent_traversal : Str → ZipError
  not_a_zip : ZipError
  not_in_directory unreadable_entry : Str → ZipError
  entry_limit size_limit : ZipError
  not_extracted : List Str → ZipError

pub record Limits : Type 0 where
  pub max_entries : ℕ
  pub max_total_bytes : ℕ

abbrev pub default_limits : Limits
default_limits = record { max_entries = 10000; max_total_bytes = 2 ^ 30 }

-- A limit of the caller: a positive integer, or its default.
unfoldable pub resolve_limit : ℕ → Option Num → Result ZipError ℕ
resolve_limit d none = ok d
resolve_limit d (some (integral false m)) = if leb 1 m then ok m else err bad_limit
resolve_limit d (some n) = err bad_limit

-- `resolveLimits(options)`.
unfoldable pub resolve_limits : Option Num → Option Num → Result ZipError Limits
resolve_limits entries bytes = resolve_limit default_limits.max_entries entries >>= λ e.
    resolve_limit default_limits.max_total_bytes bytes >>= λ b.
    ok (record { max_entries = e; max_total_bytes = b })

-- A byte; each read in the source stands behind a test of the length.
unfoldable pub byte_at : Bytes → ℕ → ℕ
byte_at [] p = 0
byte_at (b ∷ bs) zero = b
byte_at (b ∷ bs) (suc p) = byte_at bs p

-- `readUInt16LE` and `readUInt32LE`.
unfoldable pub read16 : Bytes → ℕ → ℕ
read16 b p = byte_at b p + 256 * byte_at b (p + 1)

unfoldable pub read32 : Bytes → ℕ → ℕ
read32 b p = read16 b p + 65536 * read16 b (p + 2)

-- `buf.subarray(p, p + n)`.
unfoldable pub slice : Bytes → ℕ → ℕ → Bytes
slice [] p n = []
slice (b ∷ bs) zero zero = []
slice (b ∷ bs) zero (suc n) = b ∷ slice bs zero n
slice (b ∷ bs) (suc p) n = slice bs p n

abbrev is_separator : ℕ → Bool
is_separator c = c == b'/' || c == b'\\'

-- A character before the first of some segments.
abbrev pub onto_first : ℕ → List Str → List Str
onto_first c [] = (c ∷ []) ∷ []
onto_first c (s ∷ ss) = (c ∷ s) ∷ ss

-- `p.split(/[\\/]/)`.
unfoldable pub segments : Str → List Str
segments [] = [] ∷ []
segments (c ∷ s) = let rest = segments s in if is_separator c then [] ∷ rest else onto_first c rest

abbrev has_nul : Str → Bool
has_nul = any (λ c. c == 0)

-- `/^[A-Za-z]:[\\/]/`.
abbrev has_drive : Str → Bool
has_drive (c ∷ d ∷ e ∷ s) = (is_upper c || is_lower c) && (d == b':' && is_separator e)
has_drive s = false

abbrev pub is_absolute : Str → Bool
is_absolute p = starts_with (b'/' ∷ []) p || has_drive p

-- `assertSafePath(p)`; `none` where it returns.
unfoldable pub unsafe_path : Str → Option ZipError
unsafe_path p =
    if is_nil p
    then some empty_path
    else if has_nul p
    then some (nul_in_path p)
    else if is_absolute p
    then some (absolute_path p)
    else if contains (segments p) (codes "..")
    then some (parent_traversal p)
    else none

-- What a central-directory record says, with the name in its local header.
pub record Entry : Type 0 where
  pub name : Str
  pub local_name : Str
  pub method : ℕ
  pub compressed_size : ℕ
  pub size : ℕ
  pub external_attrs : ℕ
  pub local_header_offset : ℕ
