-- ===== src/Admin.antt =====
-- Test control: `HandleSetAlive`, `ResetNode`, `HandleMoveOn` and the status query of
-- `HandleSendNodeInfo`, of src/paxos_node.cpp.
pub mod Queries
pub mod Modified
pub mod Marked
pub mod Shown
use multi_paxos_distributed.Prelude.Map.{Map, has}
use multi_paxos_distributed.Prelude.{
  ℕ, Bool, true, false, ◌&&◌, Option, none, some, List, [], ◌∷◌, ◌++◌, pos, leb, ◌==◌,
  if◌then◌else◌, ◌>>=◌, update,
}
use multi_paxos_distributed.Account.{stoi}
use multi_paxos_distributed.Message.{AcceptedEntry}
use multi_paxos_distributed.Ledger.{Ledger, unlock}
use multi_paxos_distributed.Ledger.Recovery.{entry_at}
use multi_paxos_distributed.Node.{
  Node, backup, Call, Effect, respond, QueuedClientRequest, is_leader,
}
use multi_paxos_distributed.Topology.{first_leaders}
use multi_paxos_distributed.Timer.{stop_heartbeat}
use multi_paxos_distributed.Leadership.{
  answers, reset_slots, clear_slots, demote_to_backup, kill, revive,
}
use multi_paxos_distributed.NewView.{respond_and_clear_new_view}

-- Every account from 1 to 9000 has a balance of 10.
unfoldable pub reset_ledger : Ledger → Ledger
reset_ledger l = record l {
  accounts = λ i. if leb 1 i && leb i 9000 then pos 10 else l.accounts i;
  wal = [];
  modified_accounts = λ i. false;
  executed_entries = λ i. false;
}

-- `ResetNode`. The SQLite database is left out.
unfoldable pub reset_node : Node → Node
unfolding stop_heartbeat answers reset_slots clear_slots reset_ledger first_leaders
reset_node s =
    let stopped = stop_heartbeat s in
    let seeded = s.dedup in
    record stopped {
      role = backup;
      current_ballot = record { counter = 0; node_id = s.node_id };
      highest_promised_ballot = record { counter = 0; node_id = 0 };
      leader_id = none;
      waiting_for_promises = false;
      promises_received = [];
      new_view_logs = [];
      in_election = true;
      accept_log = [];
      last_seqnum = 0;
      last_executed_seq = 0;
      max_seqnum_in_new_view = 0;
      accepted_count = λ i j. [];
      accepted_count_two_pc_commit = λ i j. [];
      entries_to_commit = [];
      pending_entries = [];
      pending_client_calls = [];
      handled_ro_requests = λ i. false;
      first_txn_received = true;
      dedup = record seeded { digest = λ i. 0 };
      in_flight_prepares = reset_slots s.in_flight_prepares;
      in_flight_transactions = clear_slots s.in_flight_transactions;
      cluster_leaders = first_leaders s.num_clusters s.divisor s.cluster_leaders;
      ledger = reset_ledger s.ledger;
      out = s.out ++ answers s.pending_client_calls;
    }

-- `AliveUpdateRequest`.
pub record AliveUpdateRequest : Type 0 where
  pub is_alive : Bool
  pub kill_leader : Bool
  pub prompt_pause : Bool
  pub recover : Bool
  pub reset_state : Bool
  pub reshard : Bool
  pub shard_map : List (ℕ × ℕ)

unfoldable pub reshard_all : List (ℕ × ℕ) → (ℕ → ℕ) → ℕ → ℕ
reshard_all [] shards = shards
reshard_all ((item, cluster) ∷ rest) shards = reshard_all rest (update shards item cluster)

-- `HandleSetAlive` after the pause, resharding and reset are dealt with.
unfoldable pub change_alive : AliveUpdateRequest → Bool → Node → Option Node
unfolding is_leader kill revive demote_to_backup respond_and_clear_new_view
change_alive r was_alive s =
    let killed = kill s >>= λ k. some (record k {
      leader_id = if is_leader s.role then none else k.leader_id;
      alive_before_prompt = false;
    }) in
    let rejoined = demote_to_backup s >>= λ d. some (revive (record d { leader_id = none })) in
    if r.kill_leader
    then killed
    else if r.recover
    then some (revive s)
    else if (if r.prompt_pause then false else true)
        && (r.is_alive && (if s.alive_before_prompt then false else true))
    then rejoined
    else if r.is_alive
    then (if was_alive then some s else some (revive s))
    else if was_alive
    then kill (respond_and_clear_new_view s)
    else some s

-- `HandleSetAlive`.
unfoldable pub handle_set_alive : AliveUpdateRequest → Node → Option Node
unfolding reshard_all change_alive reset_node
handle_set_alive r s =
    let paused : Node = if r.prompt_pause then record s { alive_before_prompt = s.alive } else s in
    let l = s.ledger in
    let shards = reshard_all r.shard_map l.shard_map in
    if r.reshard
    then some (record paused { ledger = record l { shard_map = shards } })
    else change_alive r s.alive (if r.reset_state then reset_node paused else paused)

-- The locks of the waiting transfers, in `HandleMoveOn`.
unfoldable pub release_calls : Map Call → Map AcceptedEntry → Ledger → Option Ledger
unfolding unlock entry_at
release_calls [] pending l = some l
release_calls ((seqnum, call) ∷ rest) pending l =
    let request = (entry_at seqnum pending).request in
    stoi request.from_account >>= λ from. stoi request.to_account >>= λ to.
    release_calls rest pending
      (if l.shard_map from == l.shard_map to then unlock to (unlock from l) else l)

unfoldable pub queue_answers : List QueuedClientRequest → List Effect
queue_answers [] = []
queue_answers (q ∷ rest) = respond q.call_data ∷ queue_answers rest

-- `HandleMoveOn`.
unfoldable pub handle_move_on : Node → Option Node
unfolding answers release_calls queue_answers reset_slots clear_slots
handle_move_on s = release_calls s.pending_client_calls s.pending_entries s.ledger >>= λ released.
    some (record s {
      ledger = released;
      pending_client_calls = [];
      queued_client_requests = [];
      in_flight_prepares = reset_slots s.in_flight_prepares;
      in_flight_transactions = clear_slots s.in_flight_transactions;
      out = s.out ++ (answers s.pending_client_calls ++ queue_answers s.queued_client_requests);
    })

-- The status letters of `PrintStatus`.
pub data EntryStatus : Type 0 where
  executed committed accepted unknown : EntryStatus

-- `HandleSendNodeInfo`, for `print_status`.
unfoldable pub entry_status : ℕ → Node → EntryStatus
entry_status seqnum s =
    if s.ledger.executed_entries seqnum
    then executed
    else if has seqnum s.entries_to_commit
    then committed
    else if has seqnum s.accept_log
    then accepted
    else unknown
