-- ===== src/Ballot.antt =====
-- Ballots: `struct Ballot` of src/paxos_node.h, which is also the message `Ballot` of
-- grpc/paxos.proto. The two `int` fields are natural numbers: counters start at 0 and only grow
-- by 1, node ids start at 1.
pub mod Order
use multi_paxos_distributed.Prelude.{ℕ, Bool, ◌&&◌, ◌||◌, ltb, ◌==◌}

pub record Ballot : Type 0 where
  pub counter : ℕ
  pub node_id : ℕ

-- `operator>`.
unfoldable pub gt : Ballot → Ballot → Bool
gt a b = ltb b.counter a.counter || a.counter == b.counter && ltb b.node_id a.node_id

-- `operator<`.
unfoldable pub lt : Ballot → Ballot → Bool
lt a b = ltb a.counter b.counter || a.counter == b.counter && ltb a.node_id b.node_id

-- `operator==`.
unfoldable pub eq : Ballot → Ballot → Bool
eq a b = a.counter == b.counter && a.node_id == b.node_id

-- `operator>=`.
unfoldable pub ge : Ballot → Ballot → Bool
unfolding gt eq
ge a b = gt a b || eq a b
