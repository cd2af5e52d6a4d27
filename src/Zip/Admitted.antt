-- ===== src/Zip/Admitted.antt =====
-- The archives whose entries `assertStrictEntries` of sdk-js/src/zip.js admits.
use capsules_protocol.Bytes.{Bytes}
use capsules_protocol.Zip.{unsafe_path, Entry}
use capsules_protocol.Zip.Scan.{scan_central_directory}
use capsules_protocol.Zip.Strict.{
  ends_with_slash, has_dir_bit, is_symlink, file_or_dir, check_entry, strict_from, strict_entries,
}
use capsules_protocol.Prelude.{
  if◌then◌else◌, Bool-cases, Option-cases, ok, Str, str_eq, str_eq_sound, str_eq_iff, contains, All,
  keep, ℕ, ◌≡◌, refl, ◌↔◌, ◌⊎◌, inl, inr, Bool, true, false, not, none, List, [], ◌∷◌, map, arith,
  Result-cases, Apart, contains_cons, cons_contains, nothing_seen,
}

-- A directory marker ends with a slash and is empty.
pub data IsMarker (e : Entry) : Type 0 where
  marker : ends_with_slash e.name ≡ true → e.size ≡ 0 → e.compressed_size ≡ 0 → IsMarker e

-- A file is stored, no symbolic link and no directory, by its name and by its attributes.
pub data IsStored (e : Entry) : Type 0 where
  stored :
      ends_with_slash e.name ≡ false
      → has_dir_bit e.external_attrs ≡ false
      → e.method ≡ 0
      → is_symlink e.external_attrs ≡ false
      → IsStored e

-- An entry with a safe path, the same in both headers, that is a marker or a file.
pub record IsStrict (e : Entry) : Type 0 where
  pub safe : unsafe_path e.name ≡ none
  pub agrees : e.local_name ≡ e.name
  pub shape : IsMarker e ⊎ IsStored e

abbrev pub names : List Entry → List Str
names = map (λ e. e.name)

abbrev pub file_names : List Entry → List Str
file_names es = names (keep (λ e. not (ends_with_slash e.name)) es)

shape_sound :
    (e : Entry) (d : Bool)
    → file_or_dir e ≡ ok d
    → (IsMarker e ⊎ IsStored e) × (d ≡ ends_with_slash e.name)
unfolding file_or_dir
shape_sound e d h = elim (Bool-cases (ends_with_slash e.name)) [
  | inl t ↦
      let sizes : (e.size ≡ 0) × (e.compressed_size ≡ 0) × (d ≡ true) = ground (arith, t) in
      (inl (IsMarker.marker t sizes.0 sizes.1), rw t (sizes.2))
  | inr f ↦
      let facts : (has_dir_bit e.external_attrs ≡ false)
          × (e.method ≡ 0)
          × (is_symlink e.external_attrs ≡ false)
          × (d ≡ false) =
        ground (arith, f) in
      (inr (IsStored.stored f facts.0 facts.1 facts.2), rw f (facts.3))
]

shape_complete : (e : Entry) → IsMarker e ⊎ IsStored e → file_or_dir e ≡ ok (ends_with_slash e.name)
unfolding file_or_dir
shape_complete e (inl (IsMarker.marker t s c)) = ground (arith, t, s, c)
shape_complete e (inr (IsStored.stored f d m l)) = ground (arith, f, d, m, l)

entry_sound :
    (seen : List Str) (e : Entry) (d : Bool)
    → check_entry seen e ≡ ok d
    → (contains seen e.name ≡ false) × IsStrict e × (d ≡ ends_with_slash e.name)
unfolding check_entry
entry_sound seen e d h =
    let facts : (contains seen e.name ≡ false)
        × (unsafe_path e.name ≡ none)
        × (str_eq e.local_name e.name ≡ true)
        × (file_or_dir e ≡ ok d) =
      ground (arith, Option-cases (unsafe_path e.name)) in
    let (s, q) = shape_sound e d facts.3 in
    (
      facts.0,
      record { safe = facts.1; agrees = str_eq_sound e.local_name e.name facts.2; shape = s },
      q,
    )

entry_complete :
    (seen : List Str) (e : Entry)
    → contains seen e.name ≡ false
    → IsStrict e
    → check_entry seen e ≡ ok (ends_with_slash e.name)
unfolding check_entry
entry_complete seen e n s =
    ground (arith, n, s.safe, s.agrees, shape_complete e s.shape, str_eq_iff e.local_name e.name)

pub strict_from_sound :
    (seen : List Str) (es : List Entry) (ns : List Str)
    → strict_from seen es ≡ ok ns
    → All (λ u. contains seen u ≡ false) (names es)
      × Apart (names es)
      × All IsStrict es
      × (ns ≡ file_names es)
unfolding strict_from
strict_from_sound seen [] ns h = (tt, tt, tt, ground arith)
strict_from_sound seen (e ∷ es) ns h =
    let (d, rest, k, l, q) : (d : Bool) × (rest : List Str) × (check_entry seen e ≡ ok d)
        × (strict_from (e.name ∷ seen) es ≡ ok rest)
        × (ns ≡ (if d then rest else e.name ∷ rest)) =
      ground
        (arith, Result-cases (check_entry seen e), Result-cases (strict_from (e.name ∷ seen) es)) in
    let (n, s, dq) = entry_sound seen e d k in
    let (later, apart, strict, rq) = strict_from_sound (e.name ∷ seen) es rest l in
    let (old, new) = contains_cons seen (names es) e.name later in
    ((n, old), (new, apart), (s, strict), ground (arith, q, dq, rq))

pub strict_from_complete :
    (seen : List Str) (es : List Entry)
    → All (λ u. contains seen u ≡ false) (names es)
    → Apart (names es)
    → All IsStrict es
    → strict_from seen es ≡ ok (file_names es)
unfolding strict_from
strict_from_complete seen [] n a s = refl
strict_from_complete seen (e ∷ es) (n, ns) (a, as') (s, ss) = ground (
  arith,
  entry_complete seen e n s,
  strict_from_complete (e.name ∷ seen) es (cons_contains seen (names es) e.name ns a) as' ss,
)

-- The check accepts an archive with the names `ns` exactly when its central directory scans to
-- entries whose names differ pairwise, each with a safe path that its local header repeats and
-- either an empty directory marker or a stored file that is no symbolic link, and `ns` are the
-- names of the files, in order.
pub strict_entries_iff :
    (decode : Bytes → Str) (b : Bytes) (max : ℕ) (ns : List Str)
    → (strict_entries decode b max ≡ ok ns) ↔ (
        (es : List Entry) × (scan_central_directory decode b max ≡ ok es)
        × Apart (names es)
        × All IsStrict es
        × (ns ≡ file_names es))
unfolding strict_entries
strict_entries_iff decode b max ns = (
  λ h. elim (Result-cases (scan_central_directory decode b max)) [
    | inl (x, e) ↦ absurd (ground (arith, e))
    | inr (es, e) ↦
        let (old, apart, strict, q) = strict_from_sound [] es ns (ground (arith, e)) in
        (es, e, apart, strict, q)
  ],
  λ (es, e, a, s, q).
      ground (arith, e, q, strict_from_complete [] es (nothing_seen (names es)) a s),
)
