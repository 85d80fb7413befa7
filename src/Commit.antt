-- ===== src/Commit.antt =====
-- Commitment and execution in sequence: `CommitEntry`, `BroadcastCommit`,
-- `SequentiallyExecuteCommittedEntries`, and `HandleCommit` of src/paxos_node.cpp.
pub mod Frame
pub mod Rounds
pub mod Order
use multi_paxos_distributed.Prelude.Map.{find, insert, erase, has}
use multi_paxos_distributed.Prelude.{
  ℕ, zero, suc, ◌+◌, Bool, true, false, ◌&&◌, Option, none, some, ltb, ◌==◌, if◌then◌else◌, ◌>>=◌,
  update, length, str_eq,
}
use multi_paxos_distributed.Message.{
  Status, coord, prep, abort_vote, is_phase2, Ack, AcceptedEntry, CommitEntry, ClientRequest,
  no_ballot, no_request, no_entry,
}
use multi_paxos_distributed.Ledger.{execute_transaction}
use multi_paxos_distributed.Ledger.Recovery.{entry_at}
use multi_paxos_distributed.Node.{Node, Call, broadcast, cluster_peers, send_commit, is_leader}
use multi_paxos_distributed.Timer.{reset_election_timer}
use multi_paxos_distributed.Reply.{respond_to, send_client_reply, send_reply_to_coord_leader}
use multi_paxos_distributed.TwoPc.{execute_repeated_two_pc_entry, start_second_phase}

-- `BroadcastCommit`.
unfoldable pub broadcast_commit : CommitEntry → Node → Node
unfolding broadcast cluster_peers
broadcast_commit entry s = broadcast (λ peer. send_commit peer entry) (cluster_peers s.topology) s

-- The phase-2 outcome that the log has for an executed entry is applied with it.
unfoldable pub apply_recorded : CommitEntry → Node → Option Node
unfolding entry_at is_phase2
apply_recorded entry s =
    let p2 = (entry_at entry.seqnum s.accept_log).phase2_result in
    let ce : CommitEntry = record {
      ballot = no_ballot;
      seqnum = entry.seqnum;
      request = no_request;
      two_pc_status = p2;
      m = entry.request;
    } in
    if is_phase2 p2 then execute_repeated_two_pc_entry ce s else some s

-- The call that waits for the entry, if the entry is of this term.
unfoldable pub waiting_call : ℕ → Node → Option Call
waiting_call seqnum s =
    if ltb s.max_seqnum_in_new_view seqnum then find seqnum s.pending_client_calls else none

-- Taking the waiting call out of `pending_client_calls_`.
unfoldable pub take_call : Option Call → ℕ → Node → Node
take_call none seqnum s = s
take_call (some call) seqnum s = record s {
  pending_client_calls = erase seqnum s.pending_client_calls;
  pending_entries = erase seqnum s.pending_entries;
}

-- A coordinator that has executed its first phase starts the second if the vote is in already.
unfoldable pub coord_executed : ℕ → Option Call → ClientRequest → Node → Option Node
unfolding respond_to
coord_executed now call_data request s =
    let s₁ = respond_to call_data s in
    elim (s₁.prepare_and_aborted_queue request.timestamp) [
      | none ↦ some s₁
      | some msg ↦ start_second_phase now msg (record s₁ {
        prepare_and_aborted_queue = update s₁.prepare_and_aborted_queue request.timestamp none;
      })
    ]

-- An executed entry of an ordinary transaction.
unfoldable pub reply_executed : Option Call → ClientRequest → ℕ → Bool → Node → Node
reply_executed (some call) request seqnum success s =
    send_client_reply (some call) request seqnum success s
reply_executed none request seqnum success s =
    if str_eq request.client_id "NO-OP" then s else send_client_reply none request seqnum success s

-- What a leader does after it has executed an entry.
unfoldable pub leader_executed :
    ℕ → Status → Option Call → ClientRequest → ℕ → Bool → Node → Option Node
unfolding coord_executed reply_executed
leader_executed now abort_vote call_data request seqnum success s =
    send_reply_to_coord_leader call_data request seqnum abort_vote s
leader_executed now prep call_data request seqnum success s =
    send_reply_to_coord_leader call_data request seqnum prep s
leader_executed now coord call_data request seqnum success s =
    coord_executed now call_data request s
leader_executed now _ call_data request seqnum success s =
    some (reply_executed call_data request seqnum success s)

unfoldable pub after_execution : ℕ → CommitEntry → Bool → Node → Option Node
unfolding waiting_call take_call leader_executed is_leader
after_execution now entry success s =
    let call_data = waiting_call entry.seqnum s in
    if is_leader s.role
    then leader_executed now entry.two_pc_status call_data entry.request entry.seqnum success
        (take_call call_data entry.seqnum s)
    else some (record s { pending_entries = erase entry.seqnum s.pending_entries })

-- One round of the loop, for the entry `entry` at the sequence number `next_seq`.
unfoldable pub execute_next : ℕ → ℕ → CommitEntry → Node → Option Node
unfolding apply_recorded after_execution
execute_next now next_seq entry s =
    execute_transaction entry.request entry.seqnum entry.two_pc_status s.ledger >>= λ (l, success).
    apply_recorded entry (record s { last_executed_seq = next_seq; ledger = l }) >>= λ s₁.
    after_execution now entry success s₁

-- `SequentiallyExecuteCommittedEntries`, for at most `fuel` rounds.
unfoldable pub execute_committed : ℕ → ℕ → Node → Option Node
unfolding execute_next
execute_committed zero now s = some s
execute_committed (suc fuel) now s = elim (find (s.last_executed_seq + 1) s.entries_to_commit) [
  | none ↦ some s
  | some entry ↦ execute_next now (s.last_executed_seq + 1) entry s >>= execute_committed fuel now
]

-- A round takes one of the committed entries, so their number suffices.
unfoldable pub sequentially_execute_committed_entries : ℕ → Node → Option Node
unfolding execute_committed
sequentially_execute_committed_entries now s =
    execute_committed (suc (length s.entries_to_commit)) now s

-- The entry that `CommitEntry` commits: from the pending entries, else from the accept log.
unfoldable pub entry_to_commit : Ack → Node → CommitEntry
unfolding entry_at
entry_to_commit ack s =
    let source : AcceptedEntry = elim (find ack.seqnum s.pending_entries) [
      | none ↦ entry_at ack.seqnum s.accept_log
      | some e ↦ e
    ] in
    record {
      ballot = source.ballot;
      seqnum = source.seqnum;
      request = source.request;
      two_pc_status = ack.status;
      m = source.m;
    }

-- `accept_log_[seqnum]`, in the branch that reads it, puts an empty entry where there was none.
unfoldable pub touch_log : ℕ → Node → Node
touch_log seqnum s =
    if has seqnum s.pending_entries
    then s
    else if has seqnum s.accept_log
    then s
    else record s { accept_log = insert seqnum no_entry s.accept_log }

-- `entries_to_commit_[seqnum] = entry`, if not already committed.
unfoldable pub add_commit : ℕ → CommitEntry → Node → Node
add_commit seqnum entry s =
    if has seqnum s.entries_to_commit
    then s
    else record s { entries_to_commit = insert seqnum entry s.entries_to_commit }

-- `CommitEntry`.
unfoldable pub commit_entry : ℕ → Ack → Node → Option Node
unfolding entry_to_commit touch_log add_commit broadcast_commit
    sequentially_execute_committed_entries
commit_entry now ack s =
    let entry = entry_to_commit ack s in
    let s₁ = broadcast_commit entry (add_commit ack.seqnum entry (touch_log ack.seqnum s)) in
    if s₁.last_executed_seq + 1 == ack.seqnum
    then sequentially_execute_committed_entries now s₁
    else if ack.phase == 2
    then execute_repeated_two_pc_entry entry s₁
    else some s₁

-- `HandleCommit`.
unfoldable pub handle_commit : ℕ → CommitEntry → Node → Option Node
unfolding is_leader add_commit sequentially_execute_committed_entries is_phase2
handle_commit now request s =
    let heard = if is_leader s.role then s else reset_election_timer now s in
    let s₁ = add_commit request.seqnum request heard in
    let ready =
      s₁.last_executed_seq + 1 == request.seqnum
      && (if s₁.ledger.executed_entries request.seqnum then false else true) in
    if s.alive
    then (if is_phase2 request.two_pc_status
        then execute_repeated_two_pc_entry request s₁
        else if ready
        then sequentially_execute_committed_entries now s₁
        else some s₁)
    else some s
