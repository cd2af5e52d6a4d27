-- ===== src/Manifest/Commitment/Order.antt =====
-- `compareCommitmentMembers` as an order.
use Prim.Native.Nat.{Ordering}
use capsules_protocol.Manifest.Commitment.{Member, compare_members}
use capsules_protocol.Prelude.{
  flip, str_compare-flip, str_compare_eq, str_compare_refl, str_compare_trans, ◌≡◌, arith,
}

pub compare_members-flip : (a b : Member) → compare_members b a ≡ flip (compare_members a b)
unfolding compare_members
compare_members-flip a b =
    ground (arith, str_compare-flip a.public_key b.public_key, str_compare-flip a.role b.role)

pub compare_members_eq : (a b : Member) → compare_members a b ≡ Ordering.eq → a ≡ b
unfolding compare_members
compare_members_eq a b h =
    ground (arith, str_compare_eq a.public_key b.public_key, str_compare_eq a.role b.role)

pub compare_members_refl : (a : Member) → compare_members a a ≡ Ordering.eq
unfolding compare_members
compare_members_refl a = ground (arith, str_compare_refl a.public_key, str_compare_refl a.role)

pub compare_members_trans :
    (a b c : Member)
    → compare_members a b ≡ Ordering.lt
    → compare_members b c ≡ Ordering.lt
    → compare_members a c ≡ Ordering.lt
unfolding compare_members
compare_members_trans a b c h k = ground (
  arith,
  str_compare_trans a.public_key b.public_key c.public_key,
  str_compare_trans a.role b.role c.role,
  str_compare_eq a.public_key b.public_key,
  str_compare_eq b.public_key c.public_key,
)
