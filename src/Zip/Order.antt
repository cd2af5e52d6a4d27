-- ===== src/Zip/Order.antt =====
-- Files in the order of their paths, as `packZip` of sdk-js/src/zip.js sorts them.
use mathlib.Core.List.{Permᴰ}
use capsules_protocol.Bytes.{Bytes}
use capsules_protocol.Manifest.{Files}
use capsules_protocol.Zip.Unpack.{insert_file, sort_files}
use capsules_protocol.Zip.Extracted.{paths}
use capsules_protocol.Prelude.{
  permuted_refl, before_below, Bool-cases, Str, str_eq, str_eq_iff, contains, str_before, All, ◌≡◌,
  refl, sym, ◌∙◌, inl, inr, true, false, List, [], ◌∷◌, arith, Apart, before_asym, before_trans,
  before_total,
}

-- Paths that grow from each to the next.
abbrev pub IsSorted : List Str → Type 0
IsSorted [] = Unit
IsSorted (q ∷ qs) = All (λ r. str_before q r ≡ true) qs × IsSorted qs

before_contains :
    (q : Str) (qs : List Str) → All (λ r. str_before q r ≡ true) qs → contains qs q ≡ false
unfolding contains
before_contains q [] h = refl
before_contains q (r ∷ qs) (h, hs) =
    ground (arith, h, before_contains q qs hs, str_eq_iff r q, before_asym q r)

pub IsSorted-Apart : (qs : List Str) → IsSorted qs → Apart qs
IsSorted-Apart [] h = tt
IsSorted-Apart (q ∷ qs) (h, hs) = (before_contains q qs h, IsSorted-Apart qs hs)

insert_file-head :
    (f : Str × Bytes) (gs : Files)
    → All (λ r. str_before (f.0) r ≡ true) (paths gs)
    → insert_file f gs ≡ f ∷ gs
unfolding insert_file
insert_file-head f [] h = refl
insert_file-head f ((q, b) ∷ gs) (h, hs) = rw (before_asym (f.0) q h) refl

pub sort_files-IsSorted_id : (gs : Files) → IsSorted (paths gs) → sort_files gs ≡ gs
unfolding sort_files
sort_files-IsSorted_id [] h = refl
sort_files-IsSorted_id ((q, b) ∷ gs) (h, hs) =
    rw (sort_files-IsSorted_id gs hs) (insert_file-head (q, b) gs h)

insert_file-All {κ} :
    (P : Str → Type κ) (f : Str × Bytes) (gs : Files)
    → P (f.0)
    → All P (paths gs)
    → All P (paths (insert_file f gs))
unfolding insert_file
insert_file-All P f [] p h = (p, tt)
insert_file-All P f ((q, b) ∷ gs) p (h, hs) = elim (Bool-cases (str_before q (f.0))) [
  | inl t ↦ rw t (h, insert_file-All P f gs p hs)
  | inr n ↦ rw n (p, (h, hs))
]

All-before :
    (a q : Str) (qs : List Str)
    → str_before a q ≡ true
    → All (λ r. str_before q r ≡ true) qs
    → All (λ r. str_before a r ≡ true) qs
All-before a q [] h k = tt
All-before a q (r ∷ rs) h (k, ks) = (before_trans a q r h k, All-before a q rs h ks)

insert_file-IsSorted :
    (f : Str × Bytes) (gs : Files)
    → contains (paths gs) (f.0) ≡ false
    → IsSorted (paths gs)
    → IsSorted (paths (insert_file f gs))
unfolding insert_file contains
insert_file-IsSorted f [] n s = (tt, tt)
insert_file-IsSorted f ((q, b) ∷ gs) n (h, s) =
    let apart : (str_eq q (f.0) ≡ false) × (contains (paths gs) (f.0) ≡ false) = ground arith in
    elim (Bool-cases (str_before q (f.0))) [
      | inl t ↦ rw t (
        insert_file-All (λ r. str_before q r ≡ true) f gs t h,
        insert_file-IsSorted f gs apart.1 s,
      )
      | inr m ↦
          let first = before_total q (f.0) m apart.0 in
          rw m ((first, All-before (f.0) q (paths gs) first h), (h, s))
    ]

contains_insert :
    (f : Str × Bytes) (gs : Files) (u : Str)
    → contains (paths (insert_file f gs)) u ≡ contains (f.0 ∷ paths gs) u
unfolding insert_file contains
contains_insert f [] u = refl
contains_insert f ((q, b) ∷ gs) u = ground (arith, contains_insert f gs u)

contains_sort : (gs : Files) (u : Str) → contains (paths (sort_files gs)) u ≡ contains (paths gs) u
unfolding sort_files contains
contains_sort [] u = refl
contains_sort ((q, b) ∷ gs) u =
    ground (arith, contains_insert (q, b) (sort_files gs) u, contains_sort gs u)

pub sort_files-IsSorted : (gs : Files) → Apart (paths gs) → IsSorted (paths (sort_files gs))
unfolding sort_files
sort_files-IsSorted [] a = tt
sort_files-IsSorted ((q, b) ∷ gs) (n, a) =
    insert_file-IsSorted (q, b) (sort_files gs) (contains_sort gs q ∙ n) (sort_files-IsSorted gs a)

insert_file-Permᴰ : (f : Str × Bytes) (gs : Files) → Permᴰ (insert_file f gs) (f ∷ gs)
unfolding insert_file
insert_file-Permᴰ f [] = permuted_refl (f ∷ [])
insert_file-Permᴰ f (g ∷ gs) = elim (Bool-cases (str_before (g.0) (f.0))) [
  | inl t ↦ rw t (Permᴰ.trans (Permᴰ.cons refl (insert_file-Permᴰ f gs)) (Permᴰ.swap refl refl))
  | inr n ↦ rw n (permuted_refl (f ∷ g ∷ gs))
]

pub sort_files-Permᴰ : (gs : Files) → Permᴰ (sort_files gs) gs
unfolding sort_files
sort_files-Permᴰ [] = Permᴰ.nil
sort_files-Permᴰ (g ∷ gs) =
    Permᴰ.trans (insert_file-Permᴰ g (sort_files gs)) (Permᴰ.cons refl (sort_files-Permᴰ gs))

insert_past :
    (f h : Str × Bytes) (l : Files)
    → str_before (h.0) (f.0) ≡ true
    → insert_file f (h ∷ l) ≡ h ∷ insert_file f l
unfolding insert_file
insert_past f h l t = rw t refl

insert_here :
    (f h : Str × Bytes) (l : Files)
    → str_before (h.0) (f.0) ≡ false
    → insert_file f (h ∷ l) ≡ f ∷ h ∷ l
unfolding insert_file
insert_here f h l n = rw n refl

-- Behind the head, before it, or one of them on each side.
insert_across :
    (f g h : Str × Bytes) (l : Files)
    → str_before (h.0) (f.0) ≡ true
    → str_before (h.0) (g.0) ≡ false
    → insert_file f (insert_file g (h ∷ l)) ≡ insert_file g (insert_file f (h ∷ l))
insert_across f g h l hf hg =
    rw
      (
        insert_here g h l hg,
        insert_past f g (h ∷ l) (before_below (g.0) (h.0) (f.0) hg hf),
        insert_past f h l hf,
        insert_here g h (insert_file f l) hg,
      )
      refl

insert_both :
    (f g h : Str × Bytes) (l : Files)
    → str_before (h.0) (f.0) ≡ false
    → str_before (h.0) (g.0) ≡ false
    → str_before (f.0) (g.0) ≡ true
    → insert_file f (insert_file g (h ∷ l)) ≡ insert_file g (insert_file f (h ∷ l))
insert_both f g h l hf hg fg =
    rw
      (
        insert_here g h l hg,
        insert_here f g (h ∷ l) (before_asym (f.0) (g.0) fg),
        insert_here f h l hf,
        insert_past g f (h ∷ l) fg,
        insert_here g h l hg,
      )
      refl

insert_file-commute :
    (f g : Str × Bytes) (l : Files)
    → str_eq (f.0) (g.0) ≡ false
    → insert_file f (insert_file g l) ≡ insert_file g (insert_file f l)
unfolding insert_file
insert_file-commute f g [] n = ground (
  arith,
  before_total (f.0) (g.0),
  before_asym (f.0) (g.0),
  before_asym (g.0) (f.0),
  Bool-cases (str_before (f.0) (g.0)),
)
insert_file-commute f g (h ∷ l) n = elim (Bool-cases (str_before (h.0) (f.0))) [
  | inl hf ↦ elim (Bool-cases (str_before (h.0) (g.0))) [
    | inl hg ↦
        rw
          (
            insert_past g h l hg,
            insert_past f h (insert_file g l) hf,
            insert_past f h l hf,
            insert_past g h (insert_file f l) hg,
            insert_file-commute f g l n,
          )
          refl
    | inr hg ↦ insert_across f g h l hf hg
  ]
  | inr hf ↦ elim (Bool-cases (str_before (h.0) (g.0))) [
    | inl hg ↦ sym (insert_across g f h l hg hf)
    | inr hg ↦ elim (Bool-cases (str_before (f.0) (g.0))) [
      | inl fg ↦ insert_both f g h l hf hg fg
      | inr gf ↦ sym (insert_both g f h l hg hf (before_total (f.0) (g.0) gf n))
    ]
  ]
]

contains_permuted :
    (xs ys : Files) (u : Str) → Permᴰ xs ys → contains (paths xs) u ≡ contains (paths ys) u
unfolding contains
contains_permuted [] [] u Permᴰ.nil = refl
contains_permuted (x ∷ xs) (y ∷ ys) u (Permᴰ.cons p r) =
    ground (arith, p, contains_permuted xs ys u r)
contains_permuted (a ∷ b ∷ xs) (b' ∷ a' ∷ ys) u (Permᴰ.swap p q) = ground (arith, p, q)
contains_permuted xs zs u (Permᴰ.trans {l₂ = ys} r s) =
    contains_permuted xs ys u r ∙ contains_permuted ys zs u s

permuted-Apart : (xs ys : Files) → Permᴰ xs ys → Apart (paths xs) → Apart (paths ys)
unfolding contains
permuted-Apart [] [] Permᴰ.nil a = a
permuted-Apart (x ∷ xs) (y ∷ ys) (Permᴰ.cons p r) (n, a) =
    (ground (arith, p, n, contains_permuted xs ys (y.0) r), permuted-Apart xs ys r a)
permuted-Apart (a ∷ b ∷ xs) (b' ∷ a' ∷ ys) (Permᴰ.swap p q) (n, (m, s)) =
    ground (arith, p, q, n, m, s, str_eq_iff (b.0) (a.0), str_eq_iff (a.0) (b.0))
permuted-Apart xs zs (Permᴰ.trans {l₂ = ys} r s) a =
    permuted-Apart ys zs s (permuted-Apart xs ys r a)

pub sort_files-alike :
    (xs ys : Files) → Permᴰ xs ys → Apart (paths xs) → sort_files xs ≡ sort_files ys
unfolding sort_files contains
sort_files-alike [] [] Permᴰ.nil a = refl
sort_files-alike (x ∷ xs) (y ∷ ys) (Permᴰ.cons p r) (n, a) = rw (p, sort_files-alike xs ys r a) refl
sort_files-alike (a ∷ b ∷ xs) (b' ∷ a' ∷ ys) (Permᴰ.swap p q) (n, m) =
    rw (p, q)
      (insert_file-commute a' b' (sort_files xs)
        (ground (arith, p, q, n, str_eq_iff (a'.0) (b'.0), str_eq_iff (b'.0) (a'.0))))
sort_files-alike xs zs (Permᴰ.trans {l₂ = ys} r s) a =
    sort_files-alike xs ys r a ∙ sort_files-alike ys zs s (permuted-Apart xs ys r a)
