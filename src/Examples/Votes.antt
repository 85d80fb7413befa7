-- ===== src/Examples/Votes.antt =====
-- The theorems on the second phase, at a transfer of 3 from account 1 to account 6.
use multi_paxos_distributed.Prelude.{[], ◌∷◌, pos}
use multi_paxos_distributed.Message.{coord, prep, prepared, TwoPcMsg, no_two_pc_msg}
use multi_paxos_distributed.Ledger.{execute_between}
use multi_paxos_distributed.Topology.{make_topology}
use multi_paxos_distributed.Node.{Node}
use multi_paxos_distributed.Examples.Data.{two_shards, across, chief}

abbrev vote : TwoPcMsg
vote = record no_two_pc_msg { kind = prepared; s = "1"; r = "6"; amt = pos 3; m = across }

-- Node 1 has executed its part at 0, node 4 at 5.
abbrev asking : Node
asking = record chief { ledger = (execute_between 1 6 across 0 coord two_shards).0 }

abbrev voting : Node
voting = record chief {
  ledger = (execute_between 1 6 across 5 prep two_shards).0;
  topology = make_topology 4 (1 ∷ 2 ∷ 3 ∷ 4 ∷ 5 ∷ 6 ∷ []) 2;
}
