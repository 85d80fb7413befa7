-- ===== src/Leadership/Leaders.antt =====
-- `DemoteToBackup` and `SetNewLeader` (src/paxos_node.cpp): the coordinator whose
-- slots are gone, and the leader that a node believes in.
use multi_paxos_distributed.Prelude.{ℕ, ◌≡◌, refl, arith, false, none, some, ◌==◌, update}
use multi_paxos_distributed.Account.{stoi}
use multi_paxos_distributed.Message.{TwoPcMsg}
use multi_paxos_distributed.Node.{Node}
use multi_paxos_distributed.TwoPc.{start_second_phase, handle_committed_and_aborted}
use multi_paxos_distributed.Leadership.{set_new_leader}

-- A coordinator whose vector of in-flight transactions has size 0, as `DemoteToBackup` leaves it,
-- faults when it starts the second phase for a receiver of another cluster, and when it handles
-- the answer of that cluster.
cleared_slots_fault :
    (now receiver : ℕ) (msg : TwoPcMsg) (s : Node)
    → s.in_flight_transactions.size ≡ 0
    → stoi msg.m.to_account ≡ some receiver
    → (s.ledger.shard_map receiver == s.cluster_id) ≡ false
    → (start_second_phase now msg s ≡ none) × (handle_committed_and_aborted msg s ≡ none)
unfolding start_second_phase handle_committed_and_aborted
cleared_slots_fault now receiver msg s size e coord = (ground arith, ground arith)

-- A backup whose own node id, read as an account, lies in another cluster's shard records a new
-- leader of its own cluster as the leader of that other cluster, and keeps the old leader of its
-- own.
set_new_leader-wrong_cluster :
    (id counter : ℕ) (s : Node)
    → (s.ledger.shard_map s.node_id == s.cluster_id) ≡ false
    → let s' = set_new_leader id counter s in
      (s'.leader_id ≡ some id)
      × (s'.cluster_leaders (s.ledger.shard_map s.node_id) ≡ id)
      × (s'.cluster_leaders s.cluster_id ≡ s.cluster_leaders s.cluster_id)
unfolding set_new_leader update
set_new_leader-wrong_cluster id counter s other = (refl, ground arith, ground arith)
