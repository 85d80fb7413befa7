-- ===== src/Topology.antt =====
-- The clusters: the part of the constructor of `PaxosNode` (src/paxos_node.cpp) that finds the
-- node's own cluster, and the first leaders of all clusters.
pub mod Clusters
use multi_paxos_distributed.Prelude.{ℕ, zero, suc, ◌+◌, ◌-◌, ◌*◌, ◌/◌, List, length, update}
use multi_paxos_distributed.Node.{Topology}

-- `peer_addresses_` has the nodes `nodes`, the node itself among them. The code divides by
-- `num_clusters_` and by `divisor_`, which must not be 0.
unfoldable pub make_topology : ℕ → List ℕ → ℕ → Topology
make_topology id nodes num_clusters =
    let divisor = length nodes / num_clusters in
    let low = (id - 1) / divisor * divisor + 1 in
    record {
      node_id = id;
      peers = nodes;
      num_clusters = num_clusters;
      divisor = divisor;
      low = low;
      high = low + divisor - 1;
      cluster_id = (id - 1) / divisor + 1;
      f = (divisor - 1) / 2;
    }

-- `cluster_leaders_[i] = divisor_ * (i - 1) + 1` for the clusters `i` from 1 to `rounds`.
unfoldable pub first_leaders : ℕ → ℕ → (ℕ → ℕ) → ℕ → ℕ
first_leaders zero divisor leaders = leaders
first_leaders (suc i) divisor leaders =
    update (first_leaders i divisor leaders) (suc i) (divisor * i + 1)
