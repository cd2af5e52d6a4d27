-- ===== src/Zip/Extracted.antt =====
-- The files that `unpackZip` of sdk-js/src/zip.js gives back.
use capsules_protocol.Bytes.{Bytes}
use capsules_protocol.Manifest.{Files}
use capsules_protocol.Zip.{Limits, unsafe_path}
use capsules_protocol.Zip.Unpack.{Loaded, insert_loaded, sort_loaded, put, extract}
use mathlib.Core.Path.{subst}
use capsules_protocol.Prelude.{
  Bool-cases, Option-cases, ok, Str, str_eq, str_eq_refl, str_eq_sound, str_eq_iff, contains,
  str_before, length, All, ℕ, ◌+◌, ◌≤◌, ◌≡◌, refl, ◌⊎◌, inl, inr, true, false, ◌||◌, none, some,
  List, [], ◌∷◌, arith, Apart,
}

abbrev pub paths : Files → List Str
paths [] = []
paths ((q, b) ∷ fs) = q ∷ paths fs

abbrev pub total_bytes : Files → ℕ
total_bytes [] = 0
total_bytes ((q, b) ∷ fs) = length b + total_bytes fs

-- A file of JSZip's entries, with its path and its bytes.
pub data IsLoaded (q : Str) (b : Bytes) : List Loaded → Type 0 where
  here :
      {e : Loaded} {es : List Loaded}
      → e.path ≡ q
      → e.dir ≡ false
      → e.bytes ≡ some b
      → IsLoaded q b (e ∷ es)
  there : {e : Loaded} {es : List Loaded} → IsLoaded q b es → IsLoaded q b (e ∷ es)

-- Files, none twice, that JSZip loaded.
abbrev pub AllLoaded : List Loaded → Files → Type 0
AllLoaded es [] = Unit
AllLoaded es ((q, b) ∷ fs) = IsLoaded q b es × AllLoaded es fs

contains-put :
    (fs : Files) (q u : Str) (b : Bytes)
    → contains (paths (put fs q b)) u ≡ (str_eq q u || contains (paths fs) u)
unfolding put contains
contains-put [] q u b = refl
contains-put ((r, c) ∷ fs) q u b = ground (arith, contains-put fs q u b, str_eq_iff r q)

put-Apart : (fs : Files) (q : Str) (b : Bytes) → Apart (paths fs) → Apart (paths (put fs q b))
unfolding put contains
put-Apart [] q b a = (refl, tt)
put-Apart ((r, c) ∷ fs) q b (n, a) = elim (Bool-cases (str_eq r q)) [
  | inl t ↦ rw t (n, a)
  | inr f ↦ rw f (
    ground (arith, f, n, contains-put fs q r b, str_eq_iff q r, str_eq_refl r),
    put-Apart fs q b a,
  )
]

put-All {κ} :
    (P : Str → Type κ) (fs : Files) (q : Str) (b : Bytes)
    → All P (paths fs)
    → P q
    → All P (paths (put fs q b))
unfolding put
put-All P [] q b h p = (p, tt)
put-All P ((r, c) ∷ fs) q b (h, hs) p = elim (Bool-cases (str_eq r q)) [
  | inl t ↦ rw t (h, hs)
  | inr f ↦ rw f (h, put-All P fs q b hs p)
]

put_loaded :
    (es : List Loaded) (fs : Files) (q : Str) (b : Bytes)
    → AllLoaded es fs
    → IsLoaded q b es
    → AllLoaded es (put fs q b)
unfolding put
put_loaded es [] q b h p = (p, tt)
put_loaded es ((r, c) ∷ fs) q b (h, hs) p = elim (Bool-cases (str_eq r q)) [
  | inl t ↦ rw (t, str_eq_sound r q t) (p, hs)
  | inr f ↦ rw f (h, put_loaded es fs q b hs p)
]

length-put : (fs : Files) (q : Str) (b : Bytes) → length (put fs q b) ≤ length fs + 1
unfolding put
length-put [] q b = omega arith
length-put ((r, c) ∷ fs) q b = ground (arith, length-put fs q b)

total_bytes-put :
    (fs : Files) (q : Str) (b : Bytes) → total_bytes (put fs q b) ≤ total_bytes fs + length b
unfolding put
total_bytes-put [] q b = omega arith
total_bytes-put ((r, c) ∷ fs) q b = ground (arith, total_bytes-put fs q b)

-- What holds of the files so far, with their count and size.
pub record IsExtracted (es : List Loaded) (expected : List Str) (limits : Limits) (out : Files)
    (count total : ℕ) : Type 0 where
  pub apart : Apart (paths out)
  pub safe : All (λ q. unsafe_path q ≡ none) (paths out)
  pub admitted : All (λ q. contains expected q ≡ true) (paths out)
  pub loaded : AllLoaded es out
  pub counted : length out ≤ count
  pub few : count ≤ limits.max_entries
  pub sized : total_bytes out ≤ total
  pub small : total ≤ limits.max_total_bytes

put-IsExtracted :
    {es : List Loaded} {expected : List Str} {limits : Limits} {out : Files} {count total : ℕ}
    (q : Str) (b : Bytes)
    → IsExtracted es expected limits out count total
    → unsafe_path q ≡ none
    → contains expected q ≡ true
    → IsLoaded q b es
    → count + 1 ≤ limits.max_entries
    → total + length b ≤ limits.max_total_bytes
    → IsExtracted es expected limits (put out q b) (count + 1) (total + length b)
put-IsExtracted {es} {expected} {limits} {out} q b i s m l few small = record {
  apart = put-Apart out q b i.apart;
  safe = put-All (λ r. unsafe_path r ≡ none) out q b i.safe s;
  admitted = put-All (λ r. contains expected r ≡ true) out q b i.admitted m;
  loaded = put_loaded es out q b i.loaded l;
  counted = omega (arith, length-put out q b, i.counted);
  few = few;
  sized = omega (arith, total_bytes-put out q b, i.sized);
  small = small;
}

extract_step :
    (expected : List Str) (limits : Limits) (out fs : Files) (count total : ℕ) (e : Loaded)
    (rest : List Loaded)
    → extract expected limits out count total (e ∷ rest) ≡ ok fs
    → ((e.dir ≡ true) × (extract expected limits out count total rest ≡ ok fs))
      ⊎ ((b : Bytes) × (e.dir ≡ false)
          × (e.bytes ≡ some b)
          × (unsafe_path e.path ≡ none)
          × (contains expected e.path ≡ true)
          × (count + 1 ≤ limits.max_entries)
          × (total + length b ≤ limits.max_total_bytes)
          × (extract expected limits (put out e.path b) (count + 1) (total + length b) rest
              ≡ ok fs))
unfolding extract
extract_step expected limits out fs count total e rest h = elim (Bool-cases e.dir) [
  | inl t ↦ inl (ground (arith, t))
  | inr f ↦ elim (Option-cases e.bytes) [
    | inl n ↦ absurd (ground (arith, f, n, Option-cases (unsafe_path e.path)))
    | inr (b, k) ↦
        let facts : (unsafe_path e.path ≡ none)
            × (contains expected e.path ≡ true)
            × (count + 1 ≤ limits.max_entries)
            × (total + length b ≤ limits.max_total_bytes)
            × (extract expected limits (put out e.path b) (count + 1) (total + length b) rest
                ≡ ok fs) =
          ground (arith, f, k, Option-cases (unsafe_path e.path)) in
        inr (b, f, k, facts.0, facts.1, facts.2, facts.3, facts.4)
  ]
]

extract_sound :
    {es : List Loaded} {expected : List Str} {limits : Limits} {fs : Files} (rest : List Loaded)
    {out : Files} {count total : ℕ}
    → ((q : Str) (b : Bytes) → IsLoaded q b rest → IsLoaded q b es)
    → IsExtracted es expected limits out count total
    → extract expected limits out count total rest ≡ ok fs
    → (c : ℕ) × (t : ℕ) × IsExtracted es expected limits fs c t
unfolding extract
extract_sound {es} {expected} {limits} [] {out} {count} {total} sub i h =
    (count, total, subst (λ x. IsExtracted es expected limits x count total) (ground arith) i)
extract_sound {es} {expected} {limits} {fs} (e ∷ rest) {out} {count} {total} sub i h =
    elim (extract_step expected limits out fs count total e rest h) [
      | inl (d, k) ↦ extract_sound rest (λ q b l. sub q b (IsLoaded.there l)) i k
      | inr (b, d, k, s, m, few, small, next) ↦
          extract_sound rest (λ q c l. sub q c (IsLoaded.there l))
            (put-IsExtracted e.path b i s m (sub e.path b (IsLoaded.here refl d k)) few small) next
    ]

swapped :
    {q : Str} {b : Bytes} {e f : Loaded} {fs ms : List Loaded}
    → (IsLoaded q b ms → IsLoaded q b (e ∷ fs))
    → IsLoaded q b (f ∷ ms)
    → IsLoaded q b (e ∷ f ∷ fs)
swapped sub (IsLoaded.here p d k) = IsLoaded.there (IsLoaded.here p d k)
swapped sub (IsLoaded.there m) = elim (sub m) [
  | IsLoaded.here p d k ↦ IsLoaded.here p d k
  | IsLoaded.there m' ↦ IsLoaded.there (IsLoaded.there m')
]

insert-IsLoaded :
    (q : Str) (b : Bytes) (e : Loaded) (es : List Loaded)
    → IsLoaded q b (insert_loaded e es)
    → IsLoaded q b (e ∷ es)
unfolding insert_loaded
insert-IsLoaded q b e [] l = l
insert-IsLoaded q b e (f ∷ fs) l = elim (Bool-cases (str_before f.path e.path)) [
  | inr n ↦ subst (IsLoaded q b) (rw n refl) l
  | inl y ↦ swapped (insert-IsLoaded q b e fs) (subst (IsLoaded q b) (rw y refl) l)
]

sort-IsLoaded :
    (q : Str) (b : Bytes) (es : List Loaded) → IsLoaded q b (sort_loaded es) → IsLoaded q b es
unfolding sort_loaded
sort-IsLoaded q b [] l = l
sort-IsLoaded q b (e ∷ es) l = elim (insert-IsLoaded q b e (sort_loaded es) l) [
  | IsLoaded.here p d k ↦ IsLoaded.here p d k
  | IsLoaded.there m ↦ IsLoaded.there (sort-IsLoaded q b es m)
]

pub extract-IsExtracted :
    (es : List Loaded) (expected : List Str) (limits : Limits) (fs : Files)
    → extract expected limits [] 0 0 (sort_loaded es) ≡ ok fs
    → (c : ℕ) × (t : ℕ) × IsExtracted es expected limits fs c t
extract-IsExtracted es expected limits fs h =
    extract_sound (sort_loaded es) (λ q b l. sort-IsLoaded q b es l)
      (record {
        apart = tt;
        safe = tt;
        admitted = tt;
        loaded = tt;
        counted = omega arith;
        few = omega arith;
        sized = omega arith;
        small = omega arith;
      })
      h
