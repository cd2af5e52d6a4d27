-- ===== src/Manifest/Commitment/Bound.antt =====
-- The signer-set check of verifier.js, by permutations of the committed members.
use Prim.Native.Nat.{Ordering}
use mathlib.Core.Logic.{∥∥₁_elim}
use mathlib.Core.Path.{subst}
use mathlib.Core.List.{Permᴰ, Perm}
use mathlib.Core.List.Perm
use native.Mathlib.Decide.{ℕ_discrete}
use capsules_protocol.Manifest.Commitment.{
  Member, compare_members, order_problems, order_of, insert_member, sort_members, merge_walk,
  differences,
}
use capsules_protocol.Manifest.Commitment.Order.{
  compare_members-flip, compare_members_eq, compare_members_refl, compare_members_trans,
}
use capsules_protocol.Prelude.{
  permuted_refl, length, ℕ, zero, suc, ◌+◌, ◌≤◌, ◌≡◌, refl, sym, ◌∙◌, ◌↔◌, List, [], ◌∷◌, arith,
}

merge_sound :
    (f : ℕ) (cs ms : List Member) → length cs + length ms ≤ f → merge_walk f cs ms ≡ [] → cs ≡ ms
unfolding merge_walk
merge_sound zero [] [] n h = refl
merge_sound zero (c ∷ cs) ms n h = absurd (omega arith)
merge_sound zero [] (m ∷ ms) n h = absurd (omega arith)
merge_sound (suc f) [] [] n h = refl
merge_sound (suc f) (c ∷ cs) [] n h = cc
merge_sound (suc f) [] (m ∷ ms) n h = cc
merge_sound (suc f) (c ∷ cs) (m ∷ ms) n h =
    ground (arith, compare_members_eq c m, merge_sound f cs ms)

merge_complete : (f : ℕ) (cs : List Member) → merge_walk f cs cs ≡ []
unfolding merge_walk
merge_complete zero cs = refl
merge_complete (suc f) [] = refl
merge_complete (suc f) (c ∷ cs) = ground (arith, compare_members_refl c, merge_complete f cs)

differences_iff : (cs ms : List Member) → (differences cs ms ≡ []) ↔ (cs ≡ ms)
unfolding differences
differences_iff cs ms = (
  merge_sound (length cs + length ms) cs ms (omega arith),
  λ e. rw e (merge_complete (length ms + length ms) ms),
)

insert_comm :
    (a b : Member) (l : List Member)
    → insert_member a (insert_member b l) ≡ insert_member b (insert_member a l)
unfolding insert_member
insert_comm a b [] = ground (arith, compare_members-flip a b, compare_members_eq a b)
insert_comm a b (c ∷ l) = ground (
  arith,
  insert_comm a b l,
  compare_members-flip a b,
  compare_members-flip a c,
  compare_members-flip b c,
  compare_members_eq a b,
  compare_members_eq a c,
  compare_members_eq b c,
  compare_members_trans a b c,
  compare_members_trans b a c,
  compare_members_trans a c b,
  compare_members_trans b c a,
  compare_members_trans c a b,
  compare_members_trans c b a,
)

Member-discrete : Discrete Member
Member-discrete = hlevel ℕ_discrete

members-set : IsSet (List Member)
members-set = hlevel

sort-alike : (xs ys : List Member) → Permᴰ xs ys → sort_members xs ≡ sort_members ys
unfolding sort_members
sort-alike [] [] Permᴰ.nil = refl
sort-alike (x ∷ xs) (y ∷ ys) (Permᴰ.cons p r) = rw (p, sort-alike xs ys r) refl
sort-alike (a ∷ b ∷ xs) (b' ∷ a' ∷ ys) (Permᴰ.swap p q) =
    rw (p, q) (insert_comm a' b' (sort_members xs))
sort-alike xs zs (Permᴰ.trans {l₂ = ys} r s) = sort-alike xs ys r ∙ sort-alike ys zs s

insert-permuted : (m : Member) (l : List Member) → Permᴰ (insert_member m l) (m ∷ l)
unfolding insert_member
insert-permuted m [] = permuted_refl (m ∷ [])
insert-permuted m (n ∷ l) =
    elim (compare_members n m)
      as (λ c.
        Permᴰ
          (elim c [
            | Ordering.lt ↦ n ∷ insert_member m l
            | Ordering.eq ↦ m ∷ n ∷ l
            | Ordering.gt ↦ m ∷ n ∷ l
          ])
          (m ∷ n ∷ l)) [
            | Ordering.lt ↦
                Permᴰ.trans (Permᴰ.cons refl (insert-permuted m l)) (Permᴰ.swap refl refl)
            | Ordering.eq ↦ permuted_refl (m ∷ n ∷ l)
            | Ordering.gt ↦ permuted_refl (m ∷ n ∷ l)
          ]

sort-permuted : (l : List Member) → Permᴰ (sort_members l) l
unfolding sort_members
sort-permuted [] = Permᴰ.nil
sort-permuted (m ∷ l) =
    Permᴰ.trans (insert-permuted m (sort_members l)) (Permᴰ.cons refl (sort-permuted l))

sort-ordered_cons :
    (a : Member) (l : List Member) → order_problems a l ≡ [] → sort_members (a ∷ l) ≡ a ∷ l
unfolding order_problems sort_members insert_member
sort-ordered_cons a [] h = refl
sort-ordered_cons a (b ∷ l) h = ground (arith, compare_members-flip a b, sort-ordered_cons b l)

sort-ordered : (l : List Member) → order_of l ≡ [] → sort_members l ≡ l
unfolding sort_members
sort-ordered [] h = refl
sort-ordered (a ∷ l) h = sort-ordered_cons a l h

sorted : (l : List Member) → Perm l (sort_members l)
sorted l = Perm.symm ∣ sort-permuted l ∣₁

-- The verifier's merge of a well-ordered commitment with the sorted members of the envelope reports
-- no difference exactly when the envelope has the committed members, each as often, in any order.
pub signer_set_iff :
    (cs ms : List Member) → order_of cs ≡ [] → (differences cs (sort_members ms) ≡ []) ↔ Perm ms cs
signer_set_iff cs ms o = (
  λ h. subst (λ l. Perm ms l) (sym ((differences_iff cs (sort_members ms)).0 h)) (sorted ms),
  λ p. (differences_iff cs (sort_members ms)).1 (
      ∥∥₁_elim p (members-set cs (sort_members ms))
        (λ r. sym (sort-alike ms cs r ∙ sort-ordered cs o))),
)
