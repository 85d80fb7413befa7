-- ===== src/Examples/Clients.antt =====
-- The theorems on the client, of a system with two clusters of three nodes.
use multi_paxos_distributed.Prelude.{
  ◌+◌, ◌≡◌, refl, true, false, none, some, ◌*◌, ◌-◌, ◌/◌, update, [], ◌∷◌, contains, pos,
}
use multi_paxos_distributed.Node.{select, in_cluster}
use multi_paxos_distributed.Topology.{make_topology}
use multi_paxos_distributed.Client.{Client, PendingRequest}
use multi_paxos_distributed.Client.Calls.{Due, collect_due, send_due, broadcast_nodes}
use multi_paxos_distributed.Account.{stoi}
use multi_paxos_distributed.Client.Round.{RoundOutcome, send_due-RoundOutcome}
use multi_paxos_distributed.Client.Routing.{broadcast_nodes-in_cluster}
use multi_paxos_distributed.Examples.Data.{inside}

abbrev no_object : PendingRequest
no_object = record { request = inside; expiry = 0; active = false; completed = false }

abbrev idle : Client
idle = record {
  nodes = 1 ∷ 2 ∷ 3 ∷ 4 ∷ 5 ∷ 6 ∷ [];
  num_clusters = 2;
  leader_per_cluster = λ c. c * 3 - 2;
  sharding_map = λ account. account / 5 + 1;
  objects = λ i. no_object;
  created = 0;
  inflight = [];
  timer_heap = [];
  stop_timer = false;
  remaining = pos 0;
  sent = [];
}

abbrev queued : PendingRequest
queued = record { request = inside; expiry = 40; active = true; completed = false }

abbrev waiting : Client
waiting = record idle { objects = λ i. queued; created = 1; timer_heap = 0 ∷ [] }

abbrev retried : Due
retried = record { req = 0; first_send = false }

abbrev rearmed : Client
rearmed = record waiting {
  objects = update (λ i. queued) 0 (record queued { expiry = 145 });
  timer_heap = 0 ∷ [];
}

one_due : collect_due 45 waiting ≡ some (rearmed, retried ∷ [])
unfolding collect_due
one_due = refl

in_heap : contains waiting.timer_heap 0 ≡ true
unfolding contains
in_heap = refl

-- The request is sent again, to all nodes of cluster 1.
abbrev resent : Client
resent = elim (send_due (retried ∷ []) rearmed) [ none ↦ rearmed | some e ↦ e ]

all_sent : send_due (retried ∷ []) rearmed ≡ some resent
unfolding send_due stoi update
all_sent = refl

send_due-RoundOutcome_example :
    (contains resent.timer_heap 0 ≡ true) × RoundOutcome 45 0 waiting resent
send_due-RoundOutcome_example =
    send_due-RoundOutcome 45 0 waiting rearmed resent (retried ∷ []) in_heap refl one_due all_sent

broadcast_nodes-in_cluster_example :
    broadcast_nodes (make_topology 5 idle.nodes 2).cluster_id idle
    ≡ select (in_cluster (make_topology 5 idle.nodes 2)) idle.nodes
broadcast_nodes-in_cluster_example = broadcast_nodes-in_cluster 5 idle
