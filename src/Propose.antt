-- ===== src/Propose.antt =====
-- A backup's side of an Accept: `HandlePropose` and `FillAcceptAck` of src/paxos_node.cpp.
pub mod Acceptor
use multi_paxos_distributed.Prelude.Map.{insert, has}
use multi_paxos_distributed.Prelude.{
  ℕ, ◌+◌, ◌-◌, ◌/◌, Bool, true, false, ◌&&◌, Option, none, some, ◌==◌, if◌then◌else◌, ◌>>=◌, update,
}
use multi_paxos_distributed.Ballot.{Ballot, gt, lt}
use multi_paxos_distributed.Message.{AcceptedEntry, Ack, no_ack, is_phase2}
use multi_paxos_distributed.Node.{Node, is_leader}
use multi_paxos_distributed.Timer.{start_election_timer, reset_election_timer}
use multi_paxos_distributed.Leadership.{demote_to_backup, set_new_leader}

-- `FillAcceptAck`: every status that is set is one of those that it copies.
unfoldable pub fill_accept_ack : AcceptedEntry → ℕ → Ack
unfolding is_phase2
fill_accept_ack entry node_id = record no_ack {
  ballot = entry.ballot;
  node_id = node_id;
  seqnum = entry.seqnum;
  phase = if is_phase2 entry.two_pc_status then 2 else 0;
  status = entry.two_pc_status;
}

-- A leader of another cluster makes itself known.
unfoldable pub learn_leader : ℕ → Node → Node
learn_leader new_leader s = record s {
  cluster_leaders = update s.cluster_leaders ((new_leader - 1) / s.divisor + 1) new_leader;
}

-- A leader steps down before a higher ballot.
unfoldable pub step_down : Ballot → Node → Option Node
unfolding demote_to_backup set_new_leader start_election_timer is_leader
step_down ballot s =
    let demoted = demote_to_backup s >>= λ d.
    some (start_election_timer (set_new_leader ballot.node_id ballot.counter d)) in
    if is_leader s.role && gt ballot s.current_ballot then demoted else some s

-- Log the entry, unless the log has one at its sequence number, and keep it for its commit.
unfoldable pub store_entry : AcceptedEntry → Node → Node
store_entry request s = record s {
  accept_log =
      if has request.seqnum s.accept_log
      then s.accept_log
      else insert request.seqnum request s.accept_log;
  pending_entries = insert request.seqnum request s.pending_entries;
}

-- The ballot check, and what follows it.
unfoldable pub accept_entry : ℕ → AcceptedEntry → Node → Node × Ack
unfolding fill_accept_ack set_new_leader store_entry reset_election_timer
accept_entry now request s =
    let ballot = request.ballot in
    let promised =
      if gt ballot s.highest_promised_ballot
      then set_new_leader ballot.node_id ballot.counter s
      else s in
    if lt ballot s.highest_promised_ballot then (s, record no_ack { ballot = ballot }) else (
      reset_election_timer now (store_entry request promised),
      record (fill_accept_ack request s.node_id) { accepted = true },
    )

-- `HandlePropose`, with the reply.
unfoldable pub handle_propose : ℕ → AcceptedEntry → Node → Option (Node × Ack)
unfolding learn_leader step_down accept_entry
handle_propose now request s =
    if s.alive
    then (if request.new_leader == 0
        then (step_down request.ballot s >>= λ s₁. some (accept_entry now request s₁))
        else some (learn_leader request.new_leader s, no_ack))
    else some (s, no_ack)
