-- ===== src/Client.antt =====
-- The client: src/paxos_client.cpp and src/paxos_client.h. A `shared_ptr` is the number of an object in a
-- store. The readings of the clock are arguments, in milliseconds.
pub mod Calls
pub mod Heap
pub mod Timer
pub mod Round
pub mod Count
pub mod Routing
use multi_paxos_distributed.Prelude.{
  ℕ, zero, suc, ◌+◌, ◌-◌, ◌*◌, ◌/◌, Bool, true, false, Option, none, some, List, [], ◌∷◌, ◌++◌, leb,
  ltb, ◌==◌, if◌then◌else◌, update, length, ℤ, pos, ◌+ℤ◌, ◌-ℤ◌,
}
use multi_paxos_distributed.Prelude.Map.{Map, find, erase}
use multi_paxos_distributed.Message.{ClientRequest}
use multi_paxos_distributed.Launch.Shards.{assign}

-- `struct PendingRequest`.
pub record PendingRequest : Type 0 where
  pub request : ClientRequest
  pub expiry : ℕ
  pub active : Bool
  pub completed : Bool

-- A call that is sent to a node.
pub record Sent : Type 0 where
  pub node : ℕ
  pub message : ClientRequest

-- `class PaxosClient`, and the global `remaining_transactions`. `inflight` gives the object of a
-- timestamp; `nodes` are the keys of `node_stubs_`; `objects` below `created` are in use.
pub record Client : Type 0 where
  pub nodes : List ℕ
  pub num_clusters : ℕ
  pub leader_per_cluster : ℕ → ℕ
  pub sharding_map : ℕ → ℕ
  pub objects : ℕ → PendingRequest
  pub created : ℕ
  pub inflight : Map ℕ
  pub timer_heap : List ℕ
  pub stop_timer : Bool
  pub remaining : ℤ
  pub sent : List Sent

-- `retry_interval_`.
abbrev pub retry_interval : ℕ
retry_interval = 100

-- The loop of the constructor and of `reset_leaders_per_cluster`.
unfoldable pub initial_leaders : ℕ → ℕ → ℕ → (ℕ → ℕ) → ℕ → ℕ
initial_leaders zero size num_clusters leaders = leaders
initial_leaders (suc c) size num_clusters leaders =
    update (initial_leaders c size num_clusters leaders) (suc c) (c * size / num_clusters + 1)

unfoldable pub reset_leaders_per_cluster : Client → Client
unfolding initial_leaders
reset_leaders_per_cluster c = record c {
  leader_per_cluster =
      initial_leaders c.num_clusters (length c.nodes) c.num_clusters c.leader_per_cluster;
}

-- `SendRequest`: a new object, under its timestamp and in the heap.
unfoldable pub send_request : ℕ → ClientRequest → Client → Client
unfolding assign
send_request now request c = record c {
  objects =
      update c.objects c.created
        (record { request = request; expiry = now; active = false; completed = false });
  created = c.created + 1;
  inflight = assign request.timestamp c.created c.inflight;
  timer_heap = c.created ∷ c.timer_heap;
}

unfoldable pub complete : ℕ → Client → Client
complete i c = record c { objects = update c.objects i (record (c.objects i) { completed = true }) }

-- The key `((new_leader_id - 1) / num_clusters_) + 1`; the division of a negative number rounds
-- towards 0.
unfoldable pub leader_key : ℕ → ℕ → ℕ
leader_key zero num_clusters = if num_clusters == 1 then 0 else 1
leader_key (suc id) num_clusters = id / num_clusters + 1

unfoldable pub set_leader : ℕ → Client → Client
unfolding leader_key
set_leader id c = record c {
  leader_per_cluster = update c.leader_per_cluster (leader_key id c.num_clusters) id;
}

-- What a reply does where `inflight_.find` gives `found`.
unfoldable pub answer : Option ℕ → ℕ → ℕ → Client → Client
unfolding erase complete set_leader ◌-ℤ◌
answer none timestamp leader c = set_leader leader c
answer (some i) timestamp leader c =
    let d = set_leader leader (record (complete i c) { inflight = erase timestamp c.inflight }) in
    record d { remaining = d.remaining -ℤ pos 1 }

-- `HandleLeaderReply` for a reply with this timestamp and the node of its ballot.
unfoldable pub handle_leader_reply : ℕ → ℕ → Client → Client
unfolding find answer
handle_leader_reply timestamp new_leader_id c =
    answer (find timestamp c.inflight) timestamp new_leader_id c

unfoldable pub complete_inflight : Map ℕ → Client → Client
unfolding complete
complete_inflight [] c = c
complete_inflight ((timestamp, i) ∷ m) c = complete_inflight m (complete i c)

unfoldable pub complete_heap : List ℕ → Client → Client
unfolding complete
complete_heap [] c = c
complete_heap (i ∷ heap) c = complete_heap heap (complete i c)

-- `HandleMoveOn`.
unfoldable pub handle_move_on : Client → Client
unfolding complete_inflight complete_heap ◌-ℤ◌
handle_move_on c =
    let d = complete_heap c.timer_heap (complete_inflight c.inflight c) in
    record d { inflight = []; timer_heap = []; remaining = d.remaining -ℤ pos (length c.inflight) }

-- `StopTimerThread`.
unfoldable pub stop_timer_thread : Client → Client
stop_timer_thread c = record c { stop_timer = true }

-- How src/node_launch.cpp sends a transaction: it counts it, and queues the request.
unfoldable pub submit : ℕ → ClientRequest → Client → Client
unfolding send_request ◌+ℤ◌
submit now request c = send_request now request (record c { remaining = c.remaining +ℤ pos 1 })
