-- ===== src/Client/Routing.antt =====
-- Where the client (src/paxos_client.cpp) sends its requests, against the clusters that the nodes
-- compute (the constructor in src/paxos_node.cpp).
use native.Mathlib.Nat.{mul-div_cancel_left}
use multi_paxos_distributed.Prelude.{
  ℕ, zero, suc, ◌+◌, ◌-◌, ◌*◌, ◌/◌, ◌≤◌, ◌<◌, ◌≡◌, refl, ap, ◌∙◌, arith, Bool-cases, inl, inr, List,
  leb, ◌==◌, ◌&&◌, update, length,
}
use multi_paxos_distributed.Node.{select, in_cluster}
use multi_paxos_distributed.Topology.{make_topology, first_leaders}
use multi_paxos_distributed.Client.{Client, initial_leaders, leader_key, set_leader}
use multi_paxos_distributed.Client.Calls.{broadcast_nodes}

low_end : (k d : ℕ) → (k + 1 - 1) * d + 1 ≡ k * d + 1
low_end k d = ap (λ i. i * d + 1) (omega arith)

high_end : (k d : ℕ) → (k + 1) * d ≡ k * d + 1 + d - 1
high_end k d = grind arith

even : (n per k : ℕ) → 1 ≤ n → k * (n * per) / n ≡ per * k
even n per k one =
    let same : (k * (n * per) ≡ n * (per * k)) = grind arith in
    ap (◌/ n) same ∙ mul-div_cancel_left (per * k) (omega arith)

-- A retry for the cluster of the node `id` goes to the nodes of `nodes` that `id` takes for the
-- nodes of its own cluster, itself among them, and in the same order. The client and the node know
-- the same nodes and number of clusters.
pub broadcast_nodes-in_cluster :
    (id : ℕ) (c : Client)
    → broadcast_nodes (make_topology id c.nodes c.num_clusters).cluster_id c
      ≡ select (in_cluster (make_topology id c.nodes c.num_clusters)) c.nodes
unfolding broadcast_nodes make_topology in_cluster
broadcast_nodes-in_cluster id c =
    let d = length c.nodes / c.num_clusters in
    let k = (id - 1) / d in
    ap (λ low. select (λ p. leb low p && leb p ((k + 1) * d)) c.nodes) (low_end k d)
    ∙ ap (λ high. select (λ p. leb (k * d + 1) p && leb p high) c.nodes) (high_end k d)

-- With as many nodes in each cluster as there are clusters, the key of `HandleLeaderReply` is the
-- cluster of the node that the reply names.
leader_key-cluster_id :
    (id n : ℕ) (nodes : List ℕ)
    → 1 ≤ n
    → 1 ≤ id
    → length nodes ≡ n * n
    → leader_key id n ≡ (make_topology id nodes n).cluster_id
unfolding leader_key make_topology
leader_key-cluster_id zero n nodes one some_id square = absurd (omega arith)
leader_key-cluster_id (suc id) n nodes one some_id square =
    let per : (length nodes / n ≡ n) = grind arith in rw per (ap (λ i. i / n + 1) (omega arith))

-- With more nodes in a cluster than there are clusters, it is not: a reply that names the node
-- n + 1, of the first cluster, makes this node the leader of the second one.
set_leader-foreign :
    (n : ℕ) (c : Client)
    → 1 ≤ n
    → c.num_clusters ≡ n
    → n < length c.nodes / n
    → ((make_topology (suc n) c.nodes n).cluster_id ≡ 1)
      × ((set_leader (suc n) c).leader_per_cluster 2 ≡ suc n)
unfolding make_topology set_leader leader_key update
set_leader-foreign n c one clusters large =
    let first : ((suc n - 1) / (length c.nodes / n) ≡ 0) = grind arith in
    let second : (n / c.num_clusters + 1 ≡ 2) = grind (arith, clusters, one) in
    (omega (arith, first), rw second refl)

-- The first leaders of the client are those of the nodes, in a system of `n` clusters with `per`
-- nodes each.
initial_leaders-first_leaders :
    (n per k cluster : ℕ) (f g : ℕ → ℕ)
    → 1 ≤ n
    → 1 ≤ cluster
    → cluster ≤ k
    → initial_leaders k (n * per) n f cluster ≡ first_leaders k per g cluster
unfolding initial_leaders first_leaders update
initial_leaders-first_leaders n per zero cluster f g one low high = absurd (omega arith)
initial_leaders-first_leaders n per (suc k) cluster f g one low high =
    elim (Bool-cases (suc k == cluster)) [
      | inl here ↦ rw here (ap (◌+ 1) (even n per k one))
      | inr there ↦
          rw there (initial_leaders-first_leaders n per k cluster f g one low (ground arith))
    ]
