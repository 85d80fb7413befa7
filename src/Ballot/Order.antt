-- ===== src/Ballot/Order.antt =====
-- The comparison operators of `struct Ballot` (src/paxos_node.h), as an order.
use multi_paxos_distributed.Prelude.{◌≡◌, true, false, ◌||◌, arith}
use multi_paxos_distributed.Ballot.{Ballot, gt, lt, eq, ge}

-- A strict linear order whose tests are `gt`, `lt` and `eq`: irreflexive, transitive, and of two
-- ballots exactly one of the three tests holds, `ge` holds exactly when `lt` fails, and `eq` is equality.
pub record IsLinear (a b c : Ballot) : Type 0 where
  pub irreflexive : gt a a ≡ false
  pub transitive : gt a b ≡ true → gt b c ≡ true → gt a c ≡ true
  pub converse : lt a b ≡ gt b a
  pub asymmetric : gt a b ≡ true → gt b a ≡ false
  pub total : (gt a b || lt a b || eq a b) ≡ true
  pub exclusive : eq a b ≡ true → (gt a b ≡ false) × (lt a b ≡ false)
  pub ge_of_not_lt : lt a b ≡ false → ge a b ≡ true
  pub not_ge_of_lt : lt a b ≡ true → ge a b ≡ false
  pub same : eq a b ≡ true → a ≡ b

-- The comparison operators form a strict linear order on ballots: by counter, ties by node id.
gt-IsLinear : (a b c : Ballot) → IsLinear a b c
unfolding gt lt eq ge
gt-IsLinear a b c = record {
  irreflexive = ground arith;
  transitive = ground arith;
  converse = ground arith;
  asymmetric = ground arith;
  total = ground arith;
  exclusive = ground arith;
  ge_of_not_lt = ground arith;
  not_ge_of_lt = ground arith;
  same = ground arith;
}

pub gt-asym : (a b : Ballot) → gt a b ≡ true → lt a b ≡ false
unfolding gt lt
gt-asym a b h = ground arith

-- `ge` is a preorder, used for "the promised ballot never falls".
pub ge_refl : (a : Ballot) → ge a a ≡ true
unfolding gt eq ge
ge_refl a = ground arith

pub ge_trans : (a b c : Ballot) → ge a b ≡ true → ge b c ≡ true → ge a c ≡ true
unfolding gt eq ge
ge_trans a b c h k = ground arith

pub gt→ge : (a b : Ballot) → gt a b ≡ true → ge a b ≡ true
unfolding ge
gt→ge a b h = ground arith

pub not_lt→ge : (a b : Ballot) → lt a b ≡ false → ge a b ≡ true
unfolding gt lt eq ge
not_lt→ge a b h = ground arith

pub lt_of_ge : (a b c : Ballot) → ge a b ≡ true → lt c b ≡ true → lt c a ≡ true
unfolding gt lt eq ge
lt_of_ge a b c h k = ground arith

pub eq_of_neither : (a b : Ballot) → gt a b ≡ false → lt a b ≡ false → a ≡ b
unfolding gt lt
eq_of_neither a b h k = ground arith
