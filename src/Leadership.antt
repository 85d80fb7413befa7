-- ===== src/Leadership.antt =====
-- Changes of role: `BecomeLeader`, `DemoteToBackup`, `SetNewLeader`, `kill` and `revive` of
-- src/paxos_node.cpp.
pub mod Leaders
use multi_paxos_distributed.Prelude.Map.{Map}
use multi_paxos_distributed.Prelude.{
  ℕ, Bool, true, false, Option, none, some, List, [], ◌∷◌, ◌++◌, if◌then◌else◌, ◌>>=◌, update,
}
use multi_paxos_distributed.Ballot.{Ballot}
use multi_paxos_distributed.Message.{no_two_pc_msg}
use multi_paxos_distributed.Ledger.{Ledger}
use multi_paxos_distributed.Ledger.Recovery.{demote_wal}
use multi_paxos_distributed.Node.{
  Node, Role, leader, backup, Call, Slots, Effect, respond, is_leader,
}
use multi_paxos_distributed.Timer.{stop_election_timer, start_heartbeat, stop_heartbeat}

-- `BecomeLeader`.
unfoldable pub become_leader : Ballot → Node → Node
unfolding stop_election_timer start_heartbeat
become_leader ballot s =
    let stopped = stop_election_timer s in
    start_heartbeat
      (record stopped { role = leader; current_ballot = ballot; leader_id = some s.node_id })

-- Empty answers to all waiting calls.
unfoldable pub answers : Map Call → List Effect
answers [] = []
answers ((seqnum, call) ∷ rest) = respond call ∷ answers rest

-- The loop over `in_flight_two_pc_prepares_`, which keeps the number of retries.
unfoldable pub reset_slots : Slots → Slots
reset_slots v = record v {
  slot = λ i. record (v.slot i) {
    msg = no_two_pc_msg;
    last_send = 0;
    completed = false;
    sent = false;
  };
}

-- `vector::clear`.
unfoldable pub clear_slots : Slots → Slots
clear_slots v = record v { size = 0 }

-- The fields that `DemoteToBackup` resets, and its answers; `settled` is the ledger after its loop.
unfoldable pub demoted : Ledger → Node → Node
unfolding stop_heartbeat answers reset_slots clear_slots
demoted settled s = record (stop_heartbeat s) {
  role = backup;
  leader_id = none;
  waiting_for_promises = false;
  accepted_count = λ i j. [];
  entries_to_commit = [];
  pending_entries = [];
  pending_client_calls = [];
  in_flight_prepares = reset_slots s.in_flight_prepares;
  in_flight_transactions = clear_slots s.in_flight_transactions;
  ledger = settled;
  out = s.out ++ answers s.pending_client_calls;
}

-- `DemoteToBackup`.
unfoldable pub demote_to_backup : Node → Option Node
unfolding demoted
demote_to_backup s =
    demote_wal s.cluster_id s.accept_log s.ledger >>= λ settled. some (demoted settled s)

-- `SetNewLeader`. The key of the cluster is looked up in the map of accounts.
unfoldable pub set_new_leader : ℕ → ℕ → Node → Node
set_new_leader id counter s =
    let ballot : Ballot = record { counter = counter; node_id = id } in
    record s {
      leader_id = some id;
      cluster_leaders = update s.cluster_leaders (s.ledger.shard_map s.node_id) id;
      current_ballot = ballot;
      highest_promised_ballot = ballot;
    }

-- `kill`.
unfoldable pub kill : Node → Option Node
unfolding stop_election_timer demote_to_backup is_leader
kill s =
    let dead : Node = record s { alive = false } in
    if is_leader s.role then demote_to_backup dead else some (stop_election_timer dead)

-- `revive`.
unfoldable pub revive : Node → Node
revive s = record s { alive = true }
