-- ===== src/Zip/Walk.antt =====
-- The loops of `scanCentralDirectory` of sdk-js/src/zip.js.
use capsules_protocol.Bytes.{Bytes}
use capsules_protocol.Zip.{out_of_fuel, read32, Entry}
use capsules_protocol.Zip.Scan.{
  eocd_sig, is_eocd, find_eocd, signature_after, read_local_name, record_end, read_record,
  scan_records,
}
use mathlib.Core.Path.{subst}
use capsules_protocol.Prelude.{
  ◌==◌, if◌then◌else◌, Bool-cases, ok, err, Str, length, ℕ, zero, suc, ◌+◌, ◌≤◌, ◌<◌, ◌≡◌, refl,
  sym, ap, ◌≢◌, ◌⊎◌, inl, inr, true, false, some, List, [], ◌∷◌, arith, Result-cases,
}

at_most_suc : (x a k : ℕ) → x ≤ a + suc k → (x ≤ a + k) ⊎ (x ≡ a + suc k)
at_most_suc x a k h = ground arith

module _ (b : Bytes) where
  pub find_eocd_sound :
      (lowest k p : ℕ)
      → find_eocd b lowest k ≡ some p
      → (is_eocd b p ≡ true) × (lowest ≤ p) × (p ≤ lowest + k)
  unfolding find_eocd
  find_eocd_sound lowest zero p h =
      let both : (is_eocd b lowest ≡ true) × (lowest ≡ p) =
        ground (arith, Bool-cases (is_eocd b lowest)) in
      (subst (λ q. is_eocd b q ≡ true) both.1 both.0, omega (arith, both.1), omega (arith, both.1))
  find_eocd_sound lowest (suc k) p h = elim (Bool-cases (is_eocd b (lowest + suc k))) [
    | inl t ↦
        let e : lowest + suc k ≡ p = ground (
          arith,
          subst (λ x. (if x then some (lowest + suc k) else find_eocd b lowest k) ≡ some p) t h,
        ) in
        (subst (λ q. is_eocd b q ≡ true) e t, omega (arith, e), omega (arith, e))
    | inr f ↦
        let (i, l, u) =
          find_eocd_sound lowest k p (
            subst (λ x. (if x then some (lowest + suc k) else find_eocd b lowest k) ≡ some p) f
              h) in
        (i, l, omega (arith, u))
  ]

  pub find_eocd_complete :
      (lowest k p : ℕ)
      → is_eocd b p ≡ true
      → lowest ≤ p
      → p ≤ lowest + k
      → ((q : ℕ) → p < q → q ≤ lowest + k → is_eocd b q ≡ false)
      → find_eocd b lowest k ≡ some p
  unfolding find_eocd
  find_eocd_complete lowest zero p i l u last =
      let e : p ≡ lowest = omega arith in rw (subst (λ q. is_eocd b q ≡ true) e i) (ap some (sym e))
  find_eocd_complete lowest (suc k) p i l u last = elim (at_most_suc p lowest k u) [
    | inl below ↦
        rw (last (lowest + suc k) (omega arith) (omega arith))
          (find_eocd_complete lowest k p i l below (λ q a c. last q a (omega arith)))
    | inr e ↦ rw (subst (λ q. is_eocd b q ≡ true) e i) (ap some (sym e))
  ]

  pub signature_after_sound :
      (eocd k : ℕ)
      → signature_after b eocd k ≡ false
      → (q : ℕ) → eocd < q
      → q ≤ eocd + k
      → (read32 b q == eocd_sig) ≡ false
  unfolding signature_after
  signature_after_sound eocd zero h q l u = absurd (omega arith)
  signature_after_sound eocd (suc k) h q l u =
      let both : ((read32 b (eocd + suc k) == eocd_sig) ≡ false)
          × (signature_after b eocd k ≡ false) =
        ground arith in
      elim (at_most_suc q eocd k u) [
        | inl below ↦ signature_after_sound eocd k both.1 q l below
        | inr top ↦ subst (λ x. (read32 b x == eocd_sig) ≡ false) (sym top) both.0
      ]

  pub signature_after_complete :
      (eocd k : ℕ)
      → ((q : ℕ) → eocd < q → q ≤ eocd + k → (read32 b q == eocd_sig) ≡ false)
      → signature_after b eocd k ≡ false
  unfolding signature_after
  signature_after_complete eocd zero h = refl
  signature_after_complete eocd (suc k) h =
      rw
        (
          h (eocd + suc k) (omega arith) (omega arith),
          signature_after_complete eocd k (λ q l u. h q l (omega arith)),
        )
        refl

module _ (decode : Bytes → Str) (b : Bytes) (cd_end : ℕ) where
  -- Records that stand one behind the other from `p` to the end, the first of them the `i`-th.
  abbrev pub Walk : ℕ → ℕ → List Entry → Type 0
  Walk i p [] = p ≡ cd_end
  Walk i p (e ∷ es) =
      (p < cd_end) × (read_record decode b cd_end i p ≡ ok e) × Walk (i + 1) (record_end b p) es

  record_end_bound : (p : ℕ) → p + 46 ≤ record_end b p
  unfolding record_end
  record_end_bound p = omega arith

  record_inside :
      (i p : ℕ) (e : Entry) → read_record decode b cd_end i p ≡ ok e → record_end b p ≤ cd_end
  unfolding read_record
  record_inside i p e h = ground arith

  read_record_error : (i p : ℕ) → read_record decode b cd_end i p ≢ err out_of_fuel
  unfolding read_record read_local_name
  read_record_error i p h = ground arith

  -- The fuel of the bytes that are left is enough.
  pub scan_records_fuel :
      (max fuel i p : ℕ)
      → cd_end ≤ p + fuel
      → scan_records decode b cd_end max fuel i p ≢ err out_of_fuel
  unfolding scan_records
  scan_records_fuel max zero i p u h = ground arith
  scan_records_fuel max (suc fuel) i p u h = ground (
    arith,
    read_record_error i p,
    scan_records_fuel max fuel (i + 1) (record_end b p) (omega (arith, u, record_end_bound p)),
    Result-cases (read_record decode b cd_end i p),
    Result-cases (scan_records decode b cd_end max fuel (i + 1) (record_end b p)),
  )

  pub scan_records_sound :
      (max fuel i p : ℕ) (es : List Entry)
      → p ≤ cd_end
      → scan_records decode b cd_end max fuel i p ≡ ok es
      → Walk i p es
  unfolding scan_records
  scan_records_sound max zero i p [] u h = ground arith
  scan_records_sound max zero i p (e ∷ es) u h = absurd (ground arith)
  scan_records_sound max (suc fuel) i p [] u h = ground (
    arith,
    Result-cases (read_record decode b cd_end i p),
    Result-cases (scan_records decode b cd_end max fuel (i + 1) (record_end b p)),
  )
  scan_records_sound max (suc fuel) i p (e ∷ es) u h =
      let facts : (p < cd_end)
          × (read_record decode b cd_end i p ≡ ok e)
          × (scan_records decode b cd_end max fuel (i + 1) (record_end b p) ≡ ok es) =
        ground (
          arith,
          Result-cases (read_record decode b cd_end i p),
          Result-cases (scan_records decode b cd_end max fuel (i + 1) (record_end b p)),
        ) in
      (
        facts.0,
        facts.1,
        scan_records_sound max fuel (i + 1) (record_end b p) es (record_inside i p e facts.1)
            facts.2,
      )

  pub scan_records_complete :
      (max fuel i p : ℕ) (es : List Entry)
      → cd_end ≤ p + fuel
      → i + length es ≤ max
      → Walk i p es
      → scan_records decode b cd_end max fuel i p ≡ ok es
  unfolding scan_records
  scan_records_complete max zero i p [] u m w = ground (arith, w)
  scan_records_complete max zero i p (e ∷ es) u m (l, r, w) = absurd (omega arith)
  scan_records_complete max (suc fuel) i p [] u m w = ground (arith, w)
  scan_records_complete max (suc fuel) i p (e ∷ es) u m (l, r, w) = ground (
    arith,
    r,
    scan_records_complete max fuel (i + 1) (record_end b p) es
        (omega (arith, u, record_end_bound p)) (omega arith) w,
  )
