-- ===== src/Commit/Rounds.antt =====
-- One round of the loop of `SequentiallyExecuteCommittedEntries` (src/paxos_node.cpp).
use multi_paxos_distributed.Prelude.{
  ℕ, ◌≡◌, refl, subst, ◌∙◌, Bool, Option, none, some, ◌>>=◌, if_keeps, str_eq, update,
}
use multi_paxos_distributed.Message.{
  Status, coord, prep, abort_vote, ClientRequest, CommitEntry, TwoPcMsg, is_phase2,
}
use multi_paxos_distributed.Ledger.{Ledger, execute_transaction}
use multi_paxos_distributed.Ledger.Recovery.{entry_at}
use multi_paxos_distributed.Node.{Node, Call, is_leader}
use multi_paxos_distributed.Reply.{send_client_reply, respond_to}
use multi_paxos_distributed.TwoPc.{start_second_phase}
use multi_paxos_distributed.Commit.{
  apply_recorded, waiting_call, take_call, coord_executed, reply_executed, leader_executed,
  after_execution, execute_next,
}
use multi_paxos_distributed.Commit.Frame.{
  Frame, Frame-refl, Keeps, Keeps-bind, Keeps-from, respond_to-Frame, send_client_reply-Frame,
  send_reply_to_coord_leader-Keeps, execute_repeated_two_pc_entry-Keeps, start_second_phase-Keeps,
}

apply_recorded-Keeps : (e : CommitEntry) (s : Node) → Keeps s (apply_recorded e s)
unfolding apply_recorded
apply_recorded-Keeps e s =
    if_keeps (Keeps s) (is_phase2 (entry_at e.seqnum s.accept_log).phase2_result) _ (some s)
      (execute_repeated_two_pc_entry-Keeps _ s) (Frame-refl s)

take_call-Frame : (c : Option Call) (seq : ℕ) (s : Node) → Frame s (take_call c seq s)
unfolding take_call
take_call-Frame none seq s = Frame-refl s
take_call-Frame (some c) seq s = record { same_commits = refl; same_executed = refl }

coord_executed-Keeps :
    (now : ℕ) (c : Option Call) (r : ClientRequest) (s : Node) → Keeps s (coord_executed now c r s)
unfolding coord_executed
coord_executed-Keeps now c r s =
    queued ((respond_to c s).prepare_and_aborted_queue r.timestamp) refl
  where
    queued :
        (o : Option TwoPcMsg)
        → (respond_to c s).prepare_and_aborted_queue r.timestamp ≡ o
        → Keeps s (coord_executed now c r s)
    queued none e = rw (e, coord_executed) (respond_to-Frame c s)
    queued (some msg) e =
        let s₁ = respond_to c s in
        let f = respond_to-Frame c s in
        let t : Node = record s₁ {
          prepare_and_aborted_queue = update s₁.prepare_and_aborted_queue r.timestamp none;
        } in
        rw (e, coord_executed)
          (Keeps-from s t (start_second_phase now msg t)
            (record { same_commits = f.same_commits; same_executed = f.same_executed })
            (start_second_phase-Keeps now msg t))

reply_executed-Frame :
    (c : Option Call) (r : ClientRequest) (seq : ℕ) (ok : Bool) (s : Node)
    → Frame s (reply_executed c r seq ok s)
unfolding reply_executed
reply_executed-Frame (some c) r seq ok s = send_client_reply-Frame (some c) r seq ok s
reply_executed-Frame none r seq ok s =
    if_keeps (Frame s) (str_eq r.client_id "NO-OP") s (send_client_reply none r seq ok s)
      (Frame-refl s) (send_client_reply-Frame none r seq ok s)

leader_executed-Keeps :
    (now : ℕ) (status : Status) (c : Option Call) (r : ClientRequest) (seq : ℕ) (ok : Bool)
    (s : Node)
    → Keeps s (leader_executed now status c r seq ok s)
unfolding leader_executed
leader_executed-Keeps now abort_vote c r seq ok s =
    send_reply_to_coord_leader-Keeps c r seq abort_vote s
leader_executed-Keeps now prep c r seq ok s = send_reply_to_coord_leader-Keeps c r seq prep s
leader_executed-Keeps now coord c r seq ok s = coord_executed-Keeps now c r s
leader_executed-Keeps now _ c r seq ok s = reply_executed-Frame c r seq ok s

after_execution-Keeps :
    (now : ℕ) (e : CommitEntry) (ok : Bool) (s : Node) → Keeps s (after_execution now e ok s)
unfolding after_execution
after_execution-Keeps now e ok s =
    let c = waiting_call e.seqnum s in
    let t = take_call c e.seqnum s in
    if_keeps (Keeps s) (is_leader s.role)
      (leader_executed now e.two_pc_status c e.request e.seqnum ok t) _
      (Keeps-from s t _ (take_call-Frame c e.seqnum s)
        (leader_executed-Keeps now e.two_pc_status c e.request e.seqnum ok t))
      (record { same_commits = refl; same_executed = refl })

-- The outcome of a round at `n`, if it does not fault.
abbrev Moves : ℕ → Node → Option Node → Type 0
Moves n s none = Unit {0}
Moves n s (some t) = (t.entries_to_commit ≡ s.entries_to_commit) × (t.last_executed_seq ≡ n)

Moves-from : (n : ℕ) (s t : Node) (o : Option Node) → Moves n s (some t) → Keeps t o → Moves n s o
Moves-from n s t none m k = tt
Moves-from n s t (some u) m k = (k.same_commits ∙ m.0, k.same_executed ∙ m.1)

execute_next-Moves : (now n : ℕ) (e : CommitEntry) (s : Node) → Moves n s (execute_next now n e s)
unfolding execute_next
execute_next-Moves now n e s =
    paid (execute_transaction e.request e.seqnum e.two_pc_status s.ledger)
  where
    paid :
        (o : Option (Ledger × Bool))
        → Moves n s (
            o >>= λ (l, success).
            apply_recorded e (record s { last_executed_seq = n; ledger = l }) >>= λ s₁.
            after_execution now e success s₁)
    paid none = tt
    paid (some (l, success)) =
        let t : Node = record s { last_executed_seq = n; ledger = l } in
        Moves-from n s t _ (refl, refl)
          (Keeps-bind t (apply_recorded e t) (after_execution now e success)
            (apply_recorded-Keeps e t) (after_execution-Keeps now e success))

-- A round of the loop at `n`, unless it faults, leaves `n` as the last executed sequence number and
-- the committed entries alone.
pub execute_next-fields :
    (now n : ℕ) (e : CommitEntry) (s t : Node)
    → execute_next now n e s ≡ some t
    → (t.entries_to_commit ≡ s.entries_to_commit) × (t.last_executed_seq ≡ n)
execute_next-fields now n e s t run = subst (Moves n s) run (execute_next-Moves now n e s)
