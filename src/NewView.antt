-- ===== src/NewView.antt =====
-- A backup's side of a view change: `HandleNewView`, `RespondAndClearNewViewCallData` and
-- `OnNewViewCallFinished` of src/paxos_node.cpp.
pub mod Adoption
pub mod Stale
use multi_paxos_distributed.Prelude.Map.{Map, find, insert}
use multi_paxos_distributed.Prelude.{
  ℕ, true, false, Option, none, some, List, [], ◌∷◌, ◌++◌, map, ltb, ◌==◌, if◌then◌else◌, ◌>>=◌,
}
use multi_paxos_distributed.Ballot.{gt}
use multi_paxos_distributed.Message.{AcceptedEntry, Ack, NewViewRequest, no_ack, is_phase2}
use multi_paxos_distributed.Node.{Node, is_leader, emit, respond_new_view, send_ack}
use multi_paxos_distributed.Timer.{start_election_timer, reset_election_timer}
use multi_paxos_distributed.Leadership.{demote_to_backup, set_new_leader}
use multi_paxos_distributed.Election.{on_election_complete}

-- `RespondAndClearNewViewCallData`.
unfoldable pub respond_and_clear_new_view : Node → Node
unfolding emit
respond_and_clear_new_view s = elim s.newview_call_data [
  | none ↦ s
  | some call ↦ emit (respond_new_view call) (record s { newview_call_data = none })
]

-- `OnNewViewCallFinished`.
unfoldable pub on_new_view_call_finished : ℕ → Node → Node
on_new_view_call_finished call s = elim s.newview_call_data [
  | none ↦ s
  | some c ↦ if c == call then record s { newview_call_data = none } else s
]

-- An entry of the new view replaces one with a lower ballot counter, or none.
unfoldable pub adopt_entry : AcceptedEntry → Map AcceptedEntry → Map AcceptedEntry
adopt_entry entry log = elim (find entry.seqnum log) [
  | none ↦ insert entry.seqnum entry log
  | some old ↦
      if ltb old.ballot.counter entry.ballot.counter then insert entry.seqnum entry log else log
]

unfoldable pub adopt_all : List AcceptedEntry → Map AcceptedEntry → Map AcceptedEntry
unfolding adopt_entry
adopt_all [] log = log
adopt_all (e ∷ es) log = adopt_all es (adopt_entry e log)

-- `entries_to_send.back().seqnum()`.
unfoldable pub last_entry : List AcceptedEntry → ℕ
last_entry [] = 0
last_entry (e ∷ []) = e.seqnum
last_entry (e ∷ e' ∷ es) = last_entry (e' ∷ es)

-- The acknowledgement of an entry of the new view.
unfoldable pub new_view_ack : Node → AcceptedEntry → Ack
unfolding is_phase2
new_view_ack s entry = record no_ack {
  ballot = s.current_ballot;
  node_id = s.node_id;
  accepted = true;
  seqnum = entry.seqnum;
  phase = if is_phase2 entry.two_pc_status then 2 else 0;
  status = entry.two_pc_status;
}

-- Step 3: log the entries of the new view and acknowledge each.
unfoldable pub replay_entries : List AcceptedEntry → ℕ → Node → Node
unfolding adopt_all last_entry new_view_ack emit
replay_entries [] call s = emit (respond_new_view call) s
replay_entries (e ∷ es) call s = record s {
  accept_log = adopt_all (e ∷ es) s.accept_log;
  newview_call_data = some call;
  in_new_view = true;
  max_seqnum_in_new_view = last_entry (e ∷ es);
  out = s.out ++ map (λ x. send_ack s.leader_id (new_view_ack s x)) (e ∷ es);
}

-- A backup adopts the leader's ballot, ends its election and replays the entries.
unfoldable pub adopt_view : ℕ → NewViewRequest → ℕ → Node → Option Node
unfolding set_new_leader replay_entries
adopt_view now request call s =
    let followed = set_new_leader request.ballot.node_id request.ballot.counter s in
    on_election_complete now (record followed { waiting_for_promises = false }) >>= λ s₁.
    some (replay_entries request.accept_log call s₁)

-- `HandleNewView`.
unfoldable pub handle_new_view : ℕ → NewViewRequest → ℕ → Node → Option Node
unfolding adopt_view demote_to_backup set_new_leader start_election_timer reset_election_timer
    is_leader emit
handle_new_view now request call s =
    let logged : Node = record s { new_view_logs = s.new_view_logs ++ request ∷ [] } in
    let ballot = request.ballot in
    let demoted = demote_to_backup logged >>= λ d.
    adopt_view now request call
      (start_election_timer (set_new_leader ballot.node_id ballot.counter d)) in
    if s.alive
    then (if is_leader s.role
        then (if gt ballot s.current_ballot
            then demoted
            else some (emit (respond_new_view call) logged))
        else adopt_view now request call (reset_election_timer now logged))
    else some s
