-- ===== src/Client/Calls.antt =====
-- The calls of the client to the nodes, and a round of its timer thread (src/paxos_client.cpp).
use multi_paxos_distributed.Prelude.{
  ℕ, zero, suc, ◌+◌, ◌-◌, ◌*◌, ◌/◌, ◌>>=◌, Bool, true, not, ◌&&◌, Option, none, some, List, [], ◌∷◌,
  ◌++◌, leb, ltb, if◌then◌else◌, update, length, contains,
}
use multi_paxos_distributed.Account.{stoi}
use multi_paxos_distributed.Message.{ClientRequest}
use multi_paxos_distributed.Node.{select}
use multi_paxos_distributed.Client.{Client, PendingRequest, Sent, retry_interval}

-- `SendToLeader`; `none` where `std::stoi` throws, and for a negative account, which is in no cluster.
unfoldable pub send_to_leader : ClientRequest → Client → Option Client
unfolding stoi contains
send_to_leader request c = stoi request.from_account >>= λ account.
    let leader = c.leader_per_cluster (c.sharding_map account) in
    if contains c.nodes leader
    then some (record c { sent = c.sent ++ record { node = leader; message = request } ∷ [] })
    else some c

-- The nodes with `node_id >= start_node && node_id <= end_node`. A cluster 0, of an account without
-- one, has none.
unfoldable pub broadcast_nodes : ℕ → Client → List ℕ
unfolding select
broadcast_nodes cluster c =
    let per_cluster = length c.nodes / c.num_clusters in
    select (λ p. leb ((cluster - 1) * per_cluster + 1) p && leb p (cluster * per_cluster)) c.nodes

unfoldable pub to_each : ClientRequest → List ℕ → List Sent
to_each request [] = []
to_each request (p ∷ ps) = record { node = p; message = request } ∷ to_each request ps

-- `BroadcastRequest`.
unfoldable pub broadcast_request : ClientRequest → Client → Option Client
unfolding stoi broadcast_nodes to_each
broadcast_request request c = stoi request.from_account >>= λ account.
    some
      (record c { sent = c.sent ++ to_each request (broadcast_nodes (c.sharding_map account) c) })

-- The top of the heap, one with the least expiry, and the rest: `timer_heap.top()` and `pop()`.
unfoldable pub pop_top : (ℕ → PendingRequest) → ℕ → List ℕ → ℕ × List ℕ
pop_top objects i [] = (i, [])
pop_top objects i (j ∷ heap) =
    let less = leb (objects i).expiry (objects j).expiry in
    let r = pop_top objects (if less then i else j) heap in (r.0, (if less then j else i) ∷ r.1)

-- `struct Due`.
pub record Due : Type 0 where
  pub req : ℕ
  pub first_send : Bool

-- What a due request becomes.
unfoldable pub rearm : ℕ → PendingRequest → PendingRequest
rearm now r = record r { active = true; expiry = now + retry_interval }

-- The inner loop of `TimerLoop`: the objects after it, the rest of the heap, and `due`. A round
-- takes one element from the heap, so `fuel` is the size of the heap.
unfoldable pub collect :
    ℕ → ℕ → (ℕ → PendingRequest) → List ℕ → ((ℕ → PendingRequest) × (List ℕ × List Due))
unfolding pop_top rearm
collect zero now objects heap = (objects, (heap, []))
collect (suc fuel) now objects [] = (objects, ([], []))
collect (suc fuel) now objects (j ∷ js) =
    let t = pop_top objects j js in
    let r = objects t.0 in
    let rest =
      collect fuel now (if r.completed then objects else update objects t.0 (rearm now r)) t.1 in
    if r.completed
    then rest
    else if ltb now r.expiry
    then (objects, (j ∷ js, []))
    else (rest.0, (rest.1.0, record { req = t.0; first_send = not r.active } ∷ rest.1.1))

unfoldable pub reqs : List Due → List ℕ
reqs [] = []
reqs (d ∷ ds) = d.req ∷ reqs ds

-- The part of a round under the lock; `none` ends the thread.
unfoldable pub collect_due : ℕ → Client → Option (Client × List Due)
unfolding collect reqs
collect_due now c =
    let r = collect (length c.timer_heap) now c.objects c.timer_heap in
    if c.stop_timer
    then none
    else some (record c { objects = r.0; timer_heap = reqs r.1.1 ++ r.1.0 }, r.1.1)

-- The part of a round after it: replies may come before it and in between.
unfoldable pub send_one : Due → Client → Option Client
unfolding send_to_leader broadcast_request
send_one d c =
    let r = c.objects d.req in
    if r.completed
    then some c
    else if d.first_send
    then send_to_leader r.request c
    else broadcast_request r.request c

unfoldable pub send_due : List Due → Client → Option Client
unfolding send_one
send_due [] c = some c
send_due (d ∷ ds) c = send_one d c >>= send_due ds
