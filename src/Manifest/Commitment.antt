-- ===== src/Manifest/Commitment.antt =====
-- The signer commitment of manifest.js, and its comparison with the envelope in verifier.js.
pub mod Order
pub mod Bound
use Prim.Native.Nat.{Ordering}
use capsules_protocol.Json.{
  Value, null, str, arr, obj, Items, nil, cons, Fields, get, keys, as_str, at,
}
use capsules_protocol.Canonical.{is_hex64}
use capsules_protocol.Prelude.{
  ltb, leb, ◌==◌, if◌then◌else◌, ==_iff, Bool-cases, Option-cases, &&_both, and_true, Result, ok,
  err, ◌>>=◌, Str, codes, str_eq, str_eq_refl, str_eq_sound, str_eq_iff, contains, all_in, is_digit,
  is_lower, is_upper, is_lower_hex, is_hex, starts_with, cut_at, str_before, lower_code, to_lower,
  str_compare, length, is_nil, All, any, every, keep, length-append, All-append, append-eq-nil, ℕ,
  zero, suc, ◌+◌, ◌-◌, ◌*◌, ◌/◌, ◌%◌, ◌^◌, ◌≤◌, ◌<◌, String, ◌≡◌, refl, sym, ap, ◌∙◌, ◌≢◌, ◌↔◌, ◌⊎◌,
  inl, inr, Bool, true, false, ◌&&◌, ◌||◌, not, Option, none, some, List, [], ◌∷◌, ◌++◌, map,
  append_assoc, append-nil, arith,
}

pub record Member : Type 0 where
  pub role : Str
  pub public_key : Str

-- `compareCommitmentMembers(a, b)`: by public_key, then by role.
unfoldable pub compare_members : Member → Member → Ordering
compare_members a b = elim (str_compare a.public_key b.public_key) [
  | Ordering.lt ↦ Ordering.lt
  | Ordering.gt ↦ Ordering.gt
  | Ordering.eq ↦ str_compare a.role b.role
]

pub data CommitmentProblem : Type 0 where
  not_an_array : CommitmentProblem
  empty : CommitmentProblem
  not_an_object : ℕ → CommitmentProblem
  not_exact : ℕ → CommitmentProblem
  bad_role : ℕ → CommitmentProblem
  bad_public_key : ℕ → CommitmentProblem
  duplicate : Member → CommitmentProblem
  not_sorted : CommitmentProblem

abbrev two_keys : List Str → Bool
two_keys (a ∷ b ∷ []) =
    (str_eq a (codes "public_key") && str_eq b (codes "role"))
    || (str_eq a (codes "role") && str_eq b (codes "public_key"))
two_keys _ = false

abbrev role_problem : ℕ → Option Str → List CommitmentProblem
role_problem i none = bad_role i ∷ []
role_problem i (some r) = if is_nil r then bad_role i ∷ [] else []

abbrev key_problem : ℕ → Option Str → List CommitmentProblem
key_problem i none = bad_public_key i ∷ []
key_problem i (some k) = if is_hex64 k then [] else bad_public_key i ∷ []

unfoldable pub member_problems : ℕ → Value → List CommitmentProblem
member_problems i (obj o) =
    if two_keys (keys o)
    then role_problem i (as_str (get o (codes "role")))
      ++ key_problem i (as_str (get o (codes "public_key")))
    else not_exact i ∷ []
member_problems i v = not_an_object i ∷ []

unfoldable pub shape_problems : ℕ → Items → List CommitmentProblem
shape_problems i nil = []
shape_problems i (cons v vs) = member_problems i v ++ shape_problems (suc i) vs

-- A string, or the empty one where it is missing.
abbrev pub text_or_empty : Option Value → Str
text_or_empty (some (str s)) = s
text_or_empty _ = []

abbrev pub member_of : Value → Member
member_of v = record {
  role = text_or_empty (at (some v) (codes "role"));
  public_key = text_or_empty (at (some v) (codes "public_key"));
}

abbrev pub members : Items → List Member
members nil = []
members (cons v vs) = member_of v ∷ members vs

-- The second loop: neighbours in order, and no two alike.
unfoldable pub order_problems : Member → List Member → List CommitmentProblem
order_problems a [] = []
order_problems a (b ∷ bs) =
    let rest = order_problems b bs in
    elim (compare_members a b) [
      | Ordering.lt ↦ rest
      | Ordering.eq ↦ duplicate b ∷ rest
      | Ordering.gt ↦ not_sorted ∷ []
    ]

abbrev pub order_of : List Member → List CommitmentProblem
order_of [] = []
order_of (m ∷ ms) = order_problems m ms

-- `signerCommitmentProblems(commitment)`.
unfoldable pub signer_commitment_problems : Value → List CommitmentProblem
signer_commitment_problems (arr nil) = empty ∷ []
signer_commitment_problems (arr (cons v vs)) =
    let shape = shape_problems 0 (cons v vs) in
    if is_nil shape then order_of (members (cons v vs)) else shape
signer_commitment_problems v = not_an_array ∷ []

unfoldable pub insert_member : Member → List Member → List Member
insert_member m [] = m ∷ []
insert_member m (n ∷ ns) =
    let later = n ∷ insert_member m ns in
    elim (compare_members n m) [
      | Ordering.lt ↦ later
      | Ordering.eq ↦ m ∷ n ∷ ns
      | Ordering.gt ↦ m ∷ n ∷ ns
    ]

-- `.sort(compareCommitmentMembers)`.
unfoldable pub sort_members : List Member → List Member
sort_members [] = []
sort_members (m ∷ ms) = insert_member m (sort_members ms)

-- What the merge of the committed and the actual members reports.
pub data Difference : Type 0 where
  no_signer : Member → Difference
  not_committed : Member → Difference

-- The merge-walk of both sorted lists, with fuel for its rounds.
unfoldable pub merge_walk : ℕ → List Member → List Member → List Difference
merge_walk zero cs as' = []
merge_walk (suc fuel) [] [] = []
merge_walk (suc fuel) (c ∷ cs) [] = no_signer c ∷ merge_walk fuel cs []
merge_walk (suc fuel) [] (a ∷ as') = not_committed a ∷ merge_walk fuel [] as'
merge_walk (suc fuel) (c ∷ cs) (a ∷ as') = elim (compare_members c a) [
  | Ordering.eq ↦ merge_walk fuel cs as'
  | Ordering.lt ↦ no_signer c ∷ merge_walk fuel cs (a ∷ as')
  | Ordering.gt ↦ not_committed a ∷ merge_walk fuel (c ∷ cs) as'
]

-- The member of an envelope signer: its key is lowered.
abbrev pub signer_member : Value → Member
signer_member v = record {
  role = text_or_empty (at (some v) (codes "role"));
  public_key = to_lower (text_or_empty (at (some v) (codes "public_key")));
}

abbrev pub signer_members : Items → List Member
signer_members nil = []
signer_members (cons v vs) = signer_member v ∷ signer_members vs

-- Each round takes one member from a list or one from both, so the fuel is never used up.
unfoldable pub differences : List Member → List Member → List Difference
differences cs as' = merge_walk (length cs + length as') cs as'

-- `buildSignerCommitment(members)`; `none` where it throws on a duplicate.
abbrev pub lowered : Member → Member
lowered m = record m { public_key = to_lower m.public_key }

unfoldable pub neighbours_alike : Member → List Member → Bool
neighbours_alike a [] = false
neighbours_alike a (b ∷ bs) =
    let rest = neighbours_alike b bs in
    elim (compare_members a b) [ Ordering.eq ↦ true | Ordering.lt ↦ rest | Ordering.gt ↦ rest ]

abbrev pub twins : List Member → Bool
twins [] = false
twins (m ∷ ms) = neighbours_alike m ms

unfoldable pub build_signer_commitment : List Member → Option (List Member)
build_signer_commitment ms =
    let out = sort_members (map lowered ms) in if twins out then none else some out
