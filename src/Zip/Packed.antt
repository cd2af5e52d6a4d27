-- ===== src/Zip/Packed.antt =====
-- What `packZip` of sdk-js/src/zip.js writes.
use mathlib.Core.List.{Permᴰ}
use capsules_protocol.Bytes.{Bytes}
use capsules_protocol.Manifest.{Files}
use capsules_protocol.Zip.{Limits, unsafe_path}
use capsules_protocol.Zip.Unpack.{Zipper, sort_files, first_unsafe, pack_zip}
use capsules_protocol.Zip.Extracted.{paths}
use capsules_protocol.Zip.Order.{
  IsSorted, IsSorted-Apart, sort_files-IsSorted_id, sort_files-IsSorted, sort_files-Permᴰ,
  sort_files-alike,
}
use capsules_protocol.Prelude.{
  Option-cases, ok, Str, length, All, ◌≤◌, ◌≡◌, refl, sym, ◌∙◌, ◌↔◌, inl, inr, none, [], ◌∷◌, arith,
  Apart,
}

first_unsafe-head :
    (q : Str) (b : Bytes) (fs : Files)
    → first_unsafe ((q, b) ∷ fs) ≡ none
    → (unsafe_path q ≡ none) × (first_unsafe fs ≡ none)
unfolding first_unsafe
first_unsafe-head q b fs h = elim (Option-cases (unsafe_path q)) [
  | inl e ↦ (e, ground (arith, e))
  | inr (x, e) ↦ absurd (ground (arith, e))
]

first_unsafe-cons :
    (q : Str) (b : Bytes) (fs : Files)
    → unsafe_path q ≡ none
    → first_unsafe fs ≡ none
    → first_unsafe ((q, b) ∷ fs) ≡ none
unfolding first_unsafe
first_unsafe-cons q b fs h k = ground (arith, h, k)

first_unsafe_iff :
    (fs : Files) → (first_unsafe fs ≡ none) ↔ All (λ q. unsafe_path q ≡ none) (paths fs)
unfolding first_unsafe
first_unsafe_iff [] = (λ h. tt, λ h. refl)
first_unsafe_iff ((q, b) ∷ fs) = (
  λ h. let (e, k) = first_unsafe-head q b fs h in (e, (first_unsafe_iff fs).0 k),
  λ (h, hs). first_unsafe-cons q b fs h ((first_unsafe_iff fs).1 hs),
)

-- Where the paths of the files differ, a package is written exactly when the files are as many as
-- the limit allows and their paths are safe, and it is the archive that JSZip makes of the files
-- put in the order of their paths: the order in which the map lists them does not matter.
pub pack_zip_iff :
    (z : Zipper) (fs : Files) (limits : Limits) (b : Bytes)
    → Apart (paths fs)
    → (pack_zip z fs limits ≡ ok b) ↔ (
        (length fs ≤ limits.max_entries)
        × ((gs : Files) × Permᴰ gs fs
            × IsSorted (paths gs)
            × All (λ q. unsafe_path q ≡ none) (paths gs)
            × (b ≡ z.generate gs)))
unfolding pack_zip
pack_zip_iff z fs limits b a = (
  λ h.
      let facts : (length fs ≤ limits.max_entries)
          × (first_unsafe (sort_files fs) ≡ none)
          × (b ≡ z.generate (sort_files fs)) =
        ground (arith, Option-cases (first_unsafe (sort_files fs))) in
      (
        facts.0,
        (
          sort_files fs,
          sort_files-Permᴰ fs,
          sort_files-IsSorted fs a,
          (first_unsafe_iff (sort_files fs)).0 facts.1,
          facts.2,
        ),
      ),
  λ (l, (gs, p, s, safe, e)).
      let same : sort_files fs ≡ gs =
        sym (sort_files-alike gs fs p (IsSorted-Apart (paths gs) s))
        ∙ sort_files-IsSorted_id gs s in
      ground (arith, l, same, e, (first_unsafe_iff gs).1 safe),
)
