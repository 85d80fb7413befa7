-- ===== src/Topology/Clusters.antt =====
-- The range of node ids of a cluster, `intra_c_nid_range_` (constructor in src/paxos_node.cpp).
use multi_paxos_distributed.Prelude.{ℕ, ◌≤◌, ◌≡◌, ◌↔◌, arith, true, List}
use multi_paxos_distributed.Node.{in_cluster}
use multi_paxos_distributed.Topology.{make_topology}

-- If node ids count from 1 and no cluster is empty, a node is in the range that another node
-- computes for its cluster exactly when both compute the same cluster number.
in_cluster-same :
    (id peer num_clusters : ℕ) (nodes : List ℕ)
    → 1 ≤ (make_topology id nodes num_clusters).divisor
    → 1 ≤ id
    → 1 ≤ peer
    → (in_cluster (make_topology id nodes num_clusters) peer ≡ true) ↔ (
        (make_topology peer nodes num_clusters).cluster_id
        ≡ (make_topology id nodes num_clusters).cluster_id)
unfolding make_topology in_cluster
in_cluster-same id peer num_clusters nodes one h k = (λ e. grind arith, λ e. grind arith)
