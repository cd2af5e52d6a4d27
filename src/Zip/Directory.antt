-- ===== src/Zip/Directory.antt =====
-- The archives that `scanCentralDirectory` of sdk-js/src/zip.js accepts.
use capsules_protocol.Bytes.{Bytes}
use capsules_protocol.Zip.{out_of_fuel, read16, read32, Entry}
use capsules_protocol.Zip.Scan.{
  eocd_sig, eocd_min, is_eocd, find_eocd, signature_after, lowest_eocd, scan_records,
  scan_directory, scan_central_directory,
}
use capsules_protocol.Zip.Walk.{
  find_eocd_sound, find_eocd_complete, signature_after_sound, signature_after_complete, Walk,
  scan_records_fuel, scan_records_sound, scan_records_complete,
}
use capsules_protocol.Prelude.{
  ◌==◌, Option-cases, ok, err, Str, length, ℕ, ◌+◌, ◌-◌, ◌≤◌, ◌<◌, ◌≡◌, ◌≢◌, ◌↔◌, inl, inr, true,
  false, some, List, arith, Result-cases,
}

-- The end record at `eocd`: its comment ends with the file, no signature follows it, it is no
-- ZIP64 record, and its directory, of `es` records, ends where it starts.
pub record IsDirectory (decode : Bytes → Str) (b : Bytes) (max eocd : ℕ) (es : List Entry)
    : Type 0 where
  pub ends : is_eocd b eocd ≡ true
  pub low : lowest_eocd b ≤ eocd
  pub fits : eocd + eocd_min ≤ length b
  pub last : (q : ℕ) → eocd < q → q + 4 ≤ length b → (read32 b q == eocd_sig) ≡ false
  pub not_zip64 :
      (read16 b (eocd + 10) ≢ 0xffff)
      × (read32 b (eocd + 12) ≢ 0xffffffff)
      × (read32 b (eocd + 16) ≢ 0xffffffff)
  pub few : read16 b (eocd + 10) ≤ max
  pub at_end : read32 b (eocd + 16) + read32 b (eocd + 12) ≡ eocd
  pub walk : Walk decode b eocd 0 (read32 b (eocd + 16)) es
  pub count : length es ≡ read16 b (eocd + 10)

module _ (decode : Bytes → Str) (b : Bytes) (max : ℕ) where
  directory_sound :
      (eocd : ℕ) (es : List Entry)
      → scan_directory decode b max eocd ≡ ok es
      → ((read16 b (eocd + 10) ≢ 0xffff)
          × (read32 b (eocd + 12) ≢ 0xffffffff)
          × (read32 b (eocd + 16) ≢ 0xffffffff))
        × (read16 b (eocd + 10) ≤ max)
        × (read32 b (eocd + 16) + read32 b (eocd + 12) ≡ eocd)
        × Walk decode b eocd 0 (read32 b (eocd + 16)) es
        × (length es ≡ read16 b (eocd + 10))
  unfolding scan_directory
  directory_sound eocd es h =
      let total = read16 b (eocd + 10) in
      let size = read32 b (eocd + 12) in
      let offset = read32 b (eocd + 16) in
      let facts : ((total ≢ 0xffff) × (size ≢ 0xffffffff) × (offset ≢ 0xffffffff))
          × (total ≤ max)
          × (offset + size ≡ eocd)
          × (scan_records decode b eocd max (size + 1) 0 offset ≡ ok es)
          × (length es ≡ total) =
        ground (arith, Result-cases (scan_records decode b eocd max (size + 1) 0 offset)) in
      (
        facts.0,
        facts.1,
        facts.2,
        scan_records_sound decode b eocd max (size + 1) 0 offset es (omega (arith, facts.2))
            facts.3,
        facts.4,
      )

  directory_complete :
      (eocd : ℕ) (es : List Entry)
      → IsDirectory decode b max eocd es
      → scan_directory decode b max eocd ≡ ok es
  unfolding scan_directory
  directory_complete eocd es d = ground (
    arith,
    d.not_zip64,
    d.few,
    d.at_end,
    d.count,
    scan_records_complete decode b eocd max (read32 b (eocd + 12) + 1) 0 (read32 b (eocd + 16)) es
        (omega (arith, d.at_end)) (omega (arith, d.few, d.count)) d.walk,
  )

  directory_fuel : (eocd : ℕ) → scan_directory decode b max eocd ≢ err out_of_fuel
  unfolding scan_directory
  directory_fuel eocd h =
      let size = read32 b (eocd + 12) in
      let offset = read32 b (eocd + 16) in
      ground (
        arith,
        scan_records_fuel decode b eocd max (size + 1) 0 offset,
        Result-cases (scan_records decode b eocd max (size + 1) 0 offset),
      )

  -- The walk over the central directory never runs out of its fuel: the scan of any bytes ends
  -- with the entries or with an error of the source.
  pub scan_terminates : scan_central_directory decode b max ≢ err out_of_fuel
  unfolding scan_central_directory
  scan_terminates h =
      elim (Option-cases (find_eocd b (lowest_eocd b) (length b - eocd_min - lowest_eocd b))) [
        | inl n ↦ ground (arith, n)
        | inr (eocd, s) ↦ ground (arith, s, directory_fuel eocd)
      ]

  scan_sound :
      (es : List Entry)
      → scan_central_directory decode b max ≡ ok es
      → (eocd : ℕ) × IsDirectory decode b max eocd es
  unfolding scan_central_directory
  scan_sound es h =
      elim (Option-cases (find_eocd b (lowest_eocd b) (length b - eocd_min - lowest_eocd b))) [
        | inl n ↦ absurd (ground (arith, n))
        | inr (eocd, s) ↦
            let facts : (eocd_min ≤ length b)
                × (signature_after b eocd (length b - 4 - eocd) ≡ false)
                × (scan_directory decode b max eocd ≡ ok es) =
              ground (arith, s) in
            let (i, l, u) =
              find_eocd_sound b (lowest_eocd b) (length b - eocd_min - lowest_eocd b) eocd s in
            let (z, f, a, w, c) = directory_sound eocd es facts.2 in
            (
              eocd,
              record {
                ends = i;
                low = l;
                fits = omega (arith, u, facts.0);
                last = λ q m n.
                    signature_after_sound b eocd (length b - 4 - eocd) facts.1 q m (omega arith);
                not_zip64 = z;
                few = f;
                at_end = a;
                walk = w;
                count = c;
              },
            )
      ]

  scan_complete :
      (es : List Entry) (eocd : ℕ)
      → IsDirectory decode b max eocd es
      → scan_central_directory decode b max ≡ ok es
  unfolding scan_central_directory
  scan_complete es eocd d =
      let found : find_eocd b (lowest_eocd b) (length b - eocd_min - lowest_eocd b) ≡ some eocd =
        find_eocd_complete b (lowest_eocd b) (length b - eocd_min - lowest_eocd b) eocd d.ends d.low
          (omega (arith, d.fits)) (λ q m n. ground (arith, d.last q m (omega (arith, d.fits)))) in
      let alone : signature_after b eocd (length b - 4 - eocd) ≡ false =
        signature_after_complete b eocd (length b - 4 - eocd)
          (λ q m n. d.last q m (omega (arith, d.fits))) in
      ground (arith, found, alone, directory_complete eocd es d, d.fits)

  -- The scan gives entries exactly when the bytes have an end record whose comment ends with them
  -- and that no signature follows, which is no ZIP64 record, and whose directory, of as many
  -- records as it says and as the limit allows, ends where it starts: the entries are read from
  -- records that fill the directory one behind the other.
  pub scan_central_directory_iff :
      (es : List Entry)
      → (scan_central_directory decode b max ≡ ok es)
        ↔ ((eocd : ℕ) × IsDirectory decode b max eocd es)
  scan_central_directory_iff es = (scan_sound es, λ (eocd, d). scan_complete es eocd d)
