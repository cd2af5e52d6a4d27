-- ===== src/Zip/Scan.antt =====
-- `scanCentralDirectory` of sdk-js/src/zip.js.
use capsules_protocol.Bytes.{Bytes}
use capsules_protocol.Zip.{
  ZipError, too_small, no_eocd, many_eocds, zip64, cd_not_at_eocd, too_many_entries,
  malformed_record, truncated_record, no_local_header, truncated_local_header, count_mismatch,
  out_of_fuel, read16, read32, slice, Entry,
}
use capsules_protocol.Prelude.{
  ltb, ◌==◌, if◌then◌else◌, Result, ok, err, ◌>>=◌, Str, length, ℕ, zero, suc, ◌+◌, ◌-◌, Bool, true,
  false, ◌&&◌, ◌||◌, not, Option, none, some, List, [], ◌∷◌,
}

abbrev pub eocd_sig : ℕ
eocd_sig = 0x06054b50

abbrev pub cdh_sig : ℕ
cdh_sig = 0x02014b50

abbrev pub lfh_sig : ℕ
lfh_sig = 0x04034b50

abbrev pub eocd_min : ℕ
eocd_min = 22

abbrev pub max_comment : ℕ
max_comment = 0xffff

-- A signature whose comment ends with the file.
abbrev pub is_eocd : Bytes → ℕ → Bool
is_eocd b p = read32 b p == eocd_sig && p + eocd_min + read16 b (p + 20) == length b

-- The loop back from `lowest + k` to `lowest`.
unfoldable pub find_eocd : Bytes → ℕ → ℕ → Option ℕ
find_eocd b lowest zero = if is_eocd b lowest then some lowest else none
find_eocd b lowest (suc k) =
    let rest = find_eocd b lowest k in
    if is_eocd b (lowest + suc k) then some (lowest + suc k) else rest

-- Whether a signature stands at one of the `k` positions behind `eocd`.
unfoldable pub signature_after : Bytes → ℕ → ℕ → Bool
signature_after b eocd zero = false
signature_after b eocd (suc k) =
    let rest = signature_after b eocd k in
    if read32 b (eocd + suc k) == eocd_sig then true else rest

-- `readLocalName(buf, offset, index)`.
unfoldable pub read_local_name : (Bytes → Str) → Bytes → ℕ → ℕ → Result ZipError Str
read_local_name decode b offset index =
    if ltb (length b) (offset + 30)
    then err (no_local_header index)
    else if not (read32 b offset == lfh_sig)
    then err (no_local_header index)
    else let end = offset + 30 + read16 b (offset + 26) in
      if ltb (length b) end
      then err (truncated_local_header index)
      else ok (decode (slice b (offset + 30) (read16 b (offset + 26))))

-- Where the record at `p` ends.
unfoldable pub record_end : Bytes → ℕ → ℕ
record_end b p = p + 46 + read16 b (p + 28) + read16 b (p + 30) + read16 b (p + 32)

-- The record at `p`, the `i`-th; its tests come in the source's order.
unfoldable pub read_record : (Bytes → Str) → Bytes → ℕ → ℕ → ℕ → Result ZipError Entry
read_record decode b cd_end i p =
    if ltb cd_end (p + 46)
    then err (malformed_record i)
    else if not (read32 b p == cdh_sig)
    then err (malformed_record i)
    else if ltb cd_end (record_end b p)
    then err (truncated_record i)
    else (read_local_name decode b (read32 b (p + 42)) i >>= λ local. ok (record {
      name = decode (slice b (p + 46) (read16 b (p + 28)));
      local_name = local;
      method = read16 b (p + 10);
      compressed_size = read32 b (p + 20);
      size = read32 b (p + 24);
      external_attrs = read32 b (p + 38);
      local_header_offset = read32 b (p + 42);
    }))

-- The walk from `p` to the end of the directory, behind `i` records.
unfoldable pub scan_records :
    (Bytes → Str) → Bytes → ℕ → ℕ → ℕ → ℕ → ℕ → Result ZipError (List Entry)
scan_records decode b cd_end max zero i p = if ltb p cd_end then err out_of_fuel else ok []
scan_records decode b cd_end max (suc fuel) i p =
    let next = scan_records decode b cd_end max fuel (i + 1) (record_end b p) in
    let here : Result ZipError (List Entry) = read_record decode b cd_end i p >>= λ e.
    if ltb max (i + 1) then err (too_many_entries (i + 1)) else (next >>= λ es. ok (e ∷ es)) in
    if ltb p cd_end then here else ok []

abbrev counted : ℕ → List Entry → Result ZipError (List Entry)
counted total es = if length es == total then ok es else err (count_mismatch total (length es))

-- The directory of the record at `eocd`. Each record of the walk takes 46 bytes or more, so the
-- fuel, one more than the bytes of the directory, is not used up.
unfoldable pub scan_directory : (Bytes → Str) → Bytes → ℕ → ℕ → Result ZipError (List Entry)
scan_directory decode b max eocd =
    let total = read16 b (eocd + 10) in
    let size = read32 b (eocd + 12) in
    let offset = read32 b (eocd + 16) in
    if total == 0xffff || (size == 0xffffffff || offset == 0xffffffff)
    then err zip64
    else if ltb max total
    then err (too_many_entries total)
    else if not (offset + size == eocd)
    then err cd_not_at_eocd
    else (scan_records decode b eocd max (size + 1) 0 offset >>= counted total)

-- `Math.max(0, buf.length - EOCD_MIN - MAX_COMMENT)`.
abbrev pub lowest_eocd : Bytes → ℕ
lowest_eocd b = length b - eocd_min - max_comment

-- `scanCentralDirectory(bytes, { maxEntries })`.
unfoldable pub scan_central_directory : (Bytes → Str) → Bytes → ℕ → Result ZipError (List Entry)
scan_central_directory decode b max =
    if ltb (length b) eocd_min
    then err too_small
    else elim (find_eocd b (lowest_eocd b) (length b - eocd_min - lowest_eocd b)) [
      | none ↦ err no_eocd
      | some eocd ↦
          if signature_after b eocd (length b - 4 - eocd)
          then err many_eocds
          else scan_directory decode b max eocd
    ]
