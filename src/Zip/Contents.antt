-- ===== src/Zip/Contents.antt =====
-- What `unpackZip` of sdk-js/src/zip.js gives back, against the central directory.
use capsules_protocol.Bytes.{Bytes}
use capsules_protocol.Manifest.{Files}
use capsules_protocol.Zip.{Limits, unsafe_path, Entry}
use capsules_protocol.Zip.Scan.{scan_central_directory}
use capsules_protocol.Zip.Strict.{strict_entries}
use capsules_protocol.Zip.Unpack.{Loaded, Zipper, sort_loaded, extract, unpack_zip}
use capsules_protocol.Zip.Admitted.{IsStrict, names, file_names, strict_entries_iff}
use capsules_protocol.Zip.Extracted.{paths, total_bytes, AllLoaded, extract-IsExtracted}
use mathlib.Core.Path.{subst}
use capsules_protocol.Prelude.{
  Bool-cases, Option-cases, ok, Str, contains, length, All, ◌≤◌, ◌≡◌, refl, ◌∙◌, inl, inr, true,
  none, some, List, [], ◌∷◌, arith, Result-cases, Apart, Apart-exhausts, contains_of,
}

-- Files against the entries of the central directory, those of JSZip and the limits.
pub record IsUnpacked (es : List Entry) (loaded : List Loaded) (limits : Limits) (fs : Files)
    : Type 0 where
  pub strict : All IsStrict es
  pub no_duplicate : Apart (names es)
  pub apart : Apart (paths fs)
  pub safe : All (λ q. unsafe_path q ≡ none) (paths fs)
  pub same_files : (q : Str) → contains (paths fs) q ≡ contains (file_names es) q
  pub from_archive : AllLoaded loaded fs
  pub count : length fs ≤ limits.max_entries
  pub size : total_bytes fs ≤ limits.max_total_bytes

length-paths : (fs : Files) → length (paths fs) ≡ length fs
length-paths [] = refl
length-paths ((q, b) ∷ fs) = omega (arith, length-paths fs)

same-contains :
    (xs ys : List Str)
    → Apart xs
    → All (λ u. contains ys u ≡ true) xs
    → length xs ≡ length ys
    → (q : Str) → contains xs q ≡ contains ys q
same-contains xs ys a h l q = ground (
  arith,
  contains_of xs ys q h,
  Apart-exhausts xs ys q a h l,
  Bool-cases (contains xs q),
  Bool-cases (contains ys q),
)

-- A package that unpacks has a central directory of strict entries, none twice; its files are the
-- files of that directory, each once and each with the bytes that JSZip read, under safe paths
-- and within the limits on their number and on their bytes in total.
pub unpack_zip_sound :
    (z : Zipper) (b : Bytes) (limits : Limits) (fs : Files)
    → unpack_zip z b limits ≡ ok fs
    → (es : List Entry) × (loaded : List Loaded) × (scan_central_directory z.decode b
          limits.max_entries
        ≡ ok es)
      × (z.load b ≡ some loaded)
      × IsUnpacked es loaded limits fs
unfolding unpack_zip
unpack_zip_sound z b limits fs h =
    elim (Result-cases (strict_entries z.decode b limits.max_entries)) [
      | inl (x, e) ↦ absurd (ground (arith, e))
      | inr (ns, e) ↦
          let (es, scanned, apart, strict, q) =
            (strict_entries_iff z.decode b limits.max_entries ns).0 e in
          let (loaded, l, k, n) : (loaded : List Loaded) × (z.load b ≡ some loaded)
              × (extract ns limits [] 0 0 (sort_loaded loaded) ≡ ok fs)
              × (length fs ≡ length ns) =
            elim (Option-cases (z.load b)) [
              | inl gone ↦ absurd (ground (arith, e, gone))
              | inr (loaded, l) ↦
                  let facts : (extract ns limits [] 0 0 (sort_loaded loaded) ≡ ok fs)
                      × (length fs ≡ length ns) =
                    ground
                      (arith, e, l, Result-cases (extract ns limits [] 0 0 (sort_loaded loaded))) in
                  (loaded, l, facts.0, facts.1)
            ] in
          let (c, t, i) = extract-IsExtracted loaded ns limits fs k in
          (
            es,
            loaded,
            scanned,
            l,
            record {
              strict = strict;
              no_duplicate = apart;
              apart = i.apart;
              safe = i.safe;
              same_files =
                  subst (λ x. (r : Str) → contains (paths fs) r ≡ contains x r) q
                    (same-contains (paths fs) ns i.apart i.admitted (length-paths fs ∙ n));
              from_archive = i.loaded;
              count = omega (arith, i.counted, i.few);
              size = omega (arith, i.sized, i.small);
            },
          )
    ]
