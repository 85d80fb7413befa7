-- ===== src/TwoPc.antt =====
-- Two-phase commit between clusters: `StartSecondPhase`, `ExecuteRepeatedTwoPCEntry`,
-- `HandlePreparedAndAborted` and `HandleCommittedAndAborted` of src/paxos_node.cpp, and the dispatch
-- of `TwoPCCallData::Proceed` in src/call_data.cpp. An index at or past the size of a vector is
-- undefined behaviour: `none`.
pub mod Retry
pub mod Patience
pub mod Decision
pub mod Late
use multi_paxos_distributed.Prelude.Map.{find, insert}
use multi_paxos_distributed.Prelude.{
  ℕ, Bool, true, false, ◌&&◌, Option, none, some, ltb, ◌==◌, if◌then◌else◌, ◌>>=◌, update,
  insert_set,
}
use multi_paxos_distributed.Account.{stoi}
use multi_paxos_distributed.Message.{
  Status, c_coord, c_part, a_coord, a_part_commit, is_phase2, is_unset, MsgType, prepared, abort,
  commit, committed, abort_done, no_type, AcceptedEntry, CommitEntry, TwoPcMsg, no_entry,
}
use multi_paxos_distributed.Ledger.{second_phase}
use multi_paxos_distributed.Ledger.Recovery.{entry_at}
use multi_paxos_distributed.Node.{
  Node, Slots, InFlightTransaction, emit, broadcast, cluster_peers, send_accept, send_two_pc,
  is_leader,
}
use multi_paxos_distributed.Reply.{send_client_reply_two_pc, send_reply_to_coord_leader}

-- `vector[index] = …`, within the size.
unfoldable pub write_slot : ℕ → (InFlightTransaction → InFlightTransaction) → Slots → Option Slots
write_slot index change v =
    if ltb index v.size
    then some (record v { slot = update v.slot index (change (v.slot index)) })
    else none

-- Record the outcome on the log entry, once.
unfoldable pub record_outcome : ℕ → Status → Node → Node
unfolding is_unset is_phase2
record_outcome seqnum status s = elim (find seqnum s.accept_log) [
  | none ↦ s
  | some e ↦
      if is_phase2 status && is_unset e.phase2_result
      then record s {
        accept_log = insert seqnum (record e { phase2_result = status }) s.accept_log;
      }
      else s
]

-- The replies at the end of `ExecuteRepeatedTwoPCEntry`, which a leader sends.
unfoldable pub reply_outcome : Status → CommitEntry → Node → Option Node
unfolding send_client_reply_two_pc send_reply_to_coord_leader
reply_outcome c_coord entry s = some (send_client_reply_two_pc entry entry.seqnum true s)
reply_outcome c_part entry s = send_reply_to_coord_leader none entry.m entry.seqnum c_part s
reply_outcome a_coord entry s = some (send_client_reply_two_pc entry entry.seqnum false s)
reply_outcome a_part_commit entry s =
    send_reply_to_coord_leader none entry.m entry.seqnum a_part_commit s
reply_outcome _ entry s = some s

-- `ExecuteRepeatedTwoPCEntry`.
unfoldable pub execute_repeated_two_pc_entry : CommitEntry → Node → Option Node
unfolding record_outcome reply_outcome is_leader
execute_repeated_two_pc_entry entry s = stoi entry.m.from_account >>= λ from.
    stoi entry.m.to_account >>= λ to.
    let recorded = record_outcome entry.seqnum entry.two_pc_status s in
    let done : Node = record recorded {
      ledger = second_phase entry.two_pc_status from to entry.seqnum s.ledger;
    } in
    if is_leader s.role then reply_outcome entry.two_pc_status entry done else some done

-- `msg.type() == "ABORT"`.
unfoldable pub is_abort : MsgType → Bool
is_abort abort = true
is_abort _ = false

-- The status that the second phase has consensus on.
unfoldable pub second_phase_status : Bool → Bool → Status
second_phase_status aborted participant =
    if aborted
    then (if participant then a_part_commit else a_coord)
    else (if participant then c_part else c_coord)

-- The coordinator's part of `StartSecondPhase`: tell the participant, and note that it was told.
unfoldable pub inform_participant : ℕ → ℕ → TwoPcMsg → Node → Option Node
unfolding write_slot is_abort emit
inform_participant now receiver msg s =
    let ts = msg.m.timestamp in
    let told : TwoPcMsg = record msg { kind = if is_abort msg.kind then abort else commit } in
    write_slot ts (λ e. record e { completed = true }) s.in_flight_prepares >>= λ prepares.
    write_slot ts (λ e. record e { last_send = now; msg = told }) s.in_flight_transactions
    >>= λ txns. some (
        emit (send_two_pc (s.cluster_leaders (s.ledger.shard_map receiver)) told)
          (record s { in_flight_prepares = prepares; in_flight_transactions = txns }))

-- The consensus part of `StartSecondPhase`, for a status.
unfoldable pub propose_outcome : Status → TwoPcMsg → Node → Node
unfolding broadcast cluster_peers entry_at insert_set
propose_outcome status msg s =
    let old_accept = entry_at (s.dedup.digest msg.m.timestamp) s.accept_log in
    let accept_msg : AcceptedEntry = record no_entry {
      ballot = old_accept.ballot;
      seqnum = old_accept.seqnum;
      request = msg.m;
      node_id = s.node_id;
      two_pc_status = status;
      m = msg.m;
    } in
    let seq = old_accept.seqnum in
    let counter = old_accept.ballot.counter in
    let acks = insert_set s.node_id (s.accepted_count_two_pc_commit seq counter) in
    broadcast (λ peer. send_accept peer accept_msg) (cluster_peers s.topology)
      (record s {
        accept_log = insert seq accept_msg s.accept_log;
        accepted_count_two_pc_commit =
            update s.accepted_count_two_pc_commit seq
              (update (s.accepted_count_two_pc_commit seq) counter acks);
      })

-- `StartSecondPhase`.
unfoldable pub start_second_phase : ℕ → TwoPcMsg → Node → Option Node
unfolding inform_participant propose_outcome second_phase_status is_abort
start_second_phase now msg s = stoi msg.m.to_account >>= λ receiver.
    let participant = s.ledger.shard_map receiver == s.cluster_id in
    let informed = if participant then some s else inform_participant now receiver msg s in
    informed >>= λ s₁.
    some (propose_outcome (second_phase_status (is_abort msg.kind) participant) msg s₁)

-- `HandlePreparedAndAborted`.
unfoldable pub handle_prepared_and_aborted : ℕ → TwoPcMsg → Node → Option Node
unfolding start_second_phase
handle_prepared_and_aborted now msg s = stoi msg.s >>= λ sender.
    let ts = msg.m.timestamp in
    if s.ledger.shard_map sender == s.cluster_id
    then (if s.ledger.executed_entries (s.dedup.digest ts)
        then start_second_phase now msg s
        else some (record s {
          prepare_and_aborted_queue = update s.prepare_and_aborted_queue ts (some msg);
        }))
    else start_second_phase now msg s

-- `HandleCommittedAndAborted`.
unfoldable pub handle_committed_and_aborted : TwoPcMsg → Node → Option Node
unfolding write_slot
handle_committed_and_aborted msg s =
    write_slot msg.m.timestamp (λ e. record e { completed = true }) s.in_flight_transactions
    >>= λ txns. some (record s { in_flight_transactions = txns })

-- The dispatch of `TwoPCCallData::Proceed`.
unfoldable pub receive_two_pc : ℕ → TwoPcMsg → Node → Option Node
unfolding handle_prepared_and_aborted handle_committed_and_aborted
receive_two_pc now msg s = elim msg.kind [
  | prepared ↦ handle_prepared_and_aborted now msg s
  | abort ↦ handle_prepared_and_aborted now msg s
  | commit ↦ handle_prepared_and_aborted now msg s
  | committed ↦ handle_committed_and_aborted msg s
  | abort_done ↦ handle_committed_and_aborted msg s
  | no_type ↦ some s
]
