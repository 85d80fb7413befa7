-- ===== src/Request.antt =====
-- Client requests: `HandleClientRequest` and `ProcessClientRequest` of src/paxos_node.cpp. Each is
-- one step: the races between two threads in `ProcessClientRequest` are left out.
pub mod Locks
pub mod Dedup
use multi_paxos_distributed.Prelude.Map.{Map, find, insert, erase, has}
use multi_paxos_distributed.Prelude.{
  ℕ, zero, suc, ◌+◌, ◌≤◌, ◌%◌, Bool, true, false, ◌&&◌, ◌||◌, not, Option, none, some, List, [],
  ◌∷◌, ◌++◌, pos, ltb, leb, ◌==◌, if◌then◌else◌, ◌>>=◌, update, insert_set, length, str_eq,
}
use multi_paxos_distributed.Account.{stoi}
use multi_paxos_distributed.Message.{
  Status, unset, coord, prep, abort_vote, AcceptedEntry, ClientRequest, ClientReply, TwoPcMsg,
  no_request, no_type, no_entry, no_two_pc_msg,
}
use multi_paxos_distributed.Ledger.{Ledger, try_lock, unlock}
use multi_paxos_distributed.Node.{
  Node, Call, emit, respond, reply_client, send_request, send_accept, broadcast, cluster_peers,
  is_leader, Role, leader, backup,
}
use multi_paxos_distributed.Quorum.{add_vote}
use multi_paxos_distributed.Reply.{cache_reply}
use multi_paxos_distributed.Timer.{start_election_timer}
use multi_paxos_distributed.TwoPc.{write_slot}

-- A request that is answered and dropped.
unfoldable pub drop_request : Call → Node → Option Node
unfolding emit
drop_request call s = some (emit (respond call) s)

-- A backup hands the request to the leader. `none` is `std::abort`.
unfoldable pub forward : ClientRequest → Call → Node → Option Node
unfolding emit
forward request call s = elim s.leader_id [
  | none ↦ some s
  | some l ↦
      if l == s.node_id then none else some (emit (respond call) (emit (send_request l request) s))
]

-- The latest reply to the client is to this very request.
unfoldable pub is_answered : ClientRequest → Node → Bool
is_answered request s = elim (s.last_reply_per_client request.from_account) [
  | none ↦ false
  | some r ↦ r.timestamp == request.timestamp
]

-- The read-only branch.
unfoldable pub read_balance : ClientRequest → Call → Node → Option Node
unfolding emit cache_reply drop_request
read_balance request call s = stoi request.from_account >>= λ account.
    let reply : ClientReply = record {
      counter = pos s.current_ballot.counter;
      node_id = s.current_ballot.node_id;
      timestamp = request.timestamp;
      client_id = request.from_account;
      success = true;
      from_this_term = true;
      read_only_balance = s.ledger.accounts account;
    } in
    let cached = cache_reply request.from_account reply s in
    if s.handled_ro_requests request.timestamp
    then drop_request call s
    else drop_request call (
        emit (reply_client reply) (record cached {
          handled_ro_requests = update s.handled_ro_requests request.timestamp true;
        }))

-- How the attempt on the account locks ends: refused, or with the status of the entry to propose.
pub data Locking : Type 0 where
  refused : Node → Locking
  locked : Status → Node → Locking

unfoldable pub with_ledger : Ledger → Node → Node
with_ledger l s = record s { ledger = l }

-- The coordinator of a cross-shard request asks the participant's cluster to prepare.
unfoldable pub ask_participant : ℕ → ℕ → ClientRequest → Node → Option Node
unfolding emit write_slot
ask_participant now receiver request s =
    let asked : ClientRequest = record request { two_pc_msg = "PREPARE"; from_node = s.node_id } in
    let msg : TwoPcMsg = record no_two_pc_msg { m = asked } in
    write_slot request.timestamp (λ e. record e { msg = msg; last_send = now; sent = true })
      s.in_flight_prepares
    >>= λ prepares. some (
        emit (send_request (s.cluster_leaders (s.ledger.shard_map receiver)) asked)
          (record s { in_flight_prepares = prepares }))

-- A request of this cluster: lock the sender, and the receiver if it is of the same shard.
unfoldable pub lock_own : ℕ → ℕ → ℕ → ClientRequest → Node → Option Locking
unfolding try_lock unlock with_ledger ask_participant
lock_own now sender receiver request s = elim (try_lock sender s.ledger) [
  | none ↦ some (refused s)
  | some l ↦
      if s.ledger.shard_map sender == s.ledger.shard_map receiver
      then elim (try_lock receiver l) [
        | none ↦ some (refused (with_ledger (unlock sender l) s))
        | some l' ↦ some (locked unset (with_ledger l' s))
      ]
      else if s.dedup.seen request.timestamp
      then some (locked coord (with_ledger l s))
      else (ask_participant now receiver request (with_ledger l s) >>= λ s₁. some (locked coord s₁))
]

-- A PREPARE of another cluster: learn its leader, and lock the receiver or vote to abort.
unfoldable pub lock_participant : ℕ → ℕ → ClientRequest → Node → Locking
unfolding try_lock with_ledger
lock_participant sender receiver request s =
    let cluster = s.ledger.shard_map sender in
    let learned : Node =
      if request.from_node == s.cluster_leaders cluster
      then s
      else record s { cluster_leaders = update s.cluster_leaders cluster request.from_node } in
    elim (try_lock receiver s.ledger) [
      | none ↦ locked abort_vote learned
      | some l ↦ locked prep (with_ledger l learned)
    ]

-- The field `m` of the entry: set for P and COORD.
unfoldable pub entry_m : Status → ClientRequest → ClientRequest
entry_m prep request = request
entry_m coord request = request
entry_m _ request = no_request

-- The entry that is proposed at `seqnum`.
unfoldable pub make_entry : Status → ClientRequest → ℕ → Node → AcceptedEntry
unfolding entry_m
make_entry status request seqnum s = record no_entry {
  ballot = s.current_ballot;
  seqnum = seqnum;
  request = request;
  node_id = s.node_id;
  two_pc_status = status;
  m = entry_m status request;
}

-- Claim the timestamp, take the next sequence number, log the entry and broadcast it.
unfoldable pub proposed : Status → ClientRequest → Call → Node → Node
unfolding make_entry add_vote broadcast cluster_peers
proposed status request call s =
    let seqnum = s.last_seqnum + 1 in
    let entry = make_entry status request seqnum s in
    let seeded = s.dedup in
    broadcast (λ peer. send_accept peer entry) (cluster_peers s.topology)
      (record s {
        last_seqnum = seqnum;
        pending_entries = insert seqnum entry s.pending_entries;
        pending_client_calls = insert seqnum call s.pending_client_calls;
        accepted_count = add_vote seqnum s.current_ballot.counter s.node_id s.accepted_count;
        accept_log = insert seqnum entry s.accept_log;
        dedup = record seeded {
          seen = update seeded.seen request.timestamp true;
          digest = update seeded.digest request.timestamp seqnum;
        };
      })

-- Unless another request has claimed the timestamp.
unfoldable pub propose : Status → ClientRequest → Call → Node → Option Node
unfolding proposed drop_request
propose status request call s =
    if s.dedup.seen request.timestamp
    then drop_request call s
    else some (proposed status request call s)

unfoldable pub propose_locked : ClientRequest → Call → Locking → Option Node
unfolding propose drop_request
propose_locked request call (refused s) = drop_request call s
propose_locked request call (locked status s) = propose status request call s

-- `request.two_pc_msg() == "PREPARE"`.
unfoldable pub is_prepare : ClientRequest → Bool
is_prepare request = str_eq request.two_pc_msg "PREPARE"

-- A transfer at the leader.
unfoldable pub transfer_request : ℕ → ClientRequest → Call → Node → Option Node
unfolding lock_own lock_participant propose_locked is_prepare
transfer_request now request call s = stoi request.from_account >>= λ sender.
    stoi request.to_account >>= λ receiver.
    let locking =
      if is_prepare request
      then some (lock_participant sender receiver request s)
      else lock_own now sender receiver request s in
    locking >>= propose_locked request call

-- `ProcessClientRequest`.
unfoldable pub process_client_request : ℕ → ClientRequest → Call → Node → Option Node
unfolding forward is_answered read_balance transfer_request drop_request is_leader
process_client_request now request call s =
    if str_eq request.from_account ""
    then drop_request call s
    else if is_leader s.role
    then (if is_answered request s
        then drop_request call s
        else if s.dedup.seen request.timestamp
        then drop_request call s
        else if request.read_only
        then read_balance request call s
        else transfer_request now request call s)
    else forward request call s

-- `queued_client_requests_.push_back`.
unfoldable pub enqueue : ClientRequest → Call → Node → Node
enqueue request call s = record s {
  queued_client_requests =
      s.queued_client_requests ++ record { request = request; call_data = call } ∷ [];
}

-- The first request at the first node of a cluster forces an election.
unfoldable pub forces_election : Node → Bool
forces_election s =
    s.current_ballot.node_id % s.divisor == 1
    && (s.current_ballot.counter == 0 && s.first_txn_received)

-- `HandleClientRequest`.
unfoldable pub handle_client_request : ℕ → ClientRequest → Call → Node → Option Node
unfolding drop_request enqueue forces_election start_election_timer process_client_request is_leader
handle_client_request now request call s =
    let no_leader : Bool = elim s.leader_id [
      | none ↦ (if is_leader s.role then false else true)
      | some l ↦ false
    ] in
    if s.alive
    then (if forces_election s
        then some
            (start_election_timer (enqueue request call (record s { first_txn_received = false })))
        else if s.in_election || no_leader
        then some (enqueue request call s)
        else process_client_request now request call s)
    else drop_request call s
