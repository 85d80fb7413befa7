-- ===== src/Commit/Frame.antt =====
-- What the execution of an entry leaves alone: `SequentiallyExecuteCommittedEntries`
-- (src/paxos_node.cpp) and the calls that it makes.
use multi_paxos_distributed.Prelude.{
  ℕ, ◌≡◌, refl, ◌∙◌, arith, Bool, true, false, Option, none, some, ◌>>=◌, if_keeps, if◌then◌else◌,
  str_eq, ◌==◌,
}
use multi_paxos_distributed.Account.{stoi}
use multi_paxos_distributed.Message.{
  Status, c_coord, c_part, a_coord, a_part_commit, ClientRequest, CommitEntry, TwoPcMsg, abort,
  commit,
}
use multi_paxos_distributed.Ledger.{second_phase}
use multi_paxos_distributed.Node.{Node, Call, is_leader}
use multi_paxos_distributed.Reply.{
  send_client_reply, send_client_reply_two_pc, send_reply_to_coord_leader, respond_to,
}
use multi_paxos_distributed.TwoPc.{
  record_outcome, reply_outcome, execute_repeated_two_pc_entry, inform_participant,
  start_second_phase, is_abort, write_slot,
}

-- The committed entries and the last executed sequence number are the same.
pub record Frame (s s' : Node) : Type 0 where
  pub same_commits : s'.entries_to_commit ≡ s.entries_to_commit
  pub same_executed : s'.last_executed_seq ≡ s.last_executed_seq

pub Frame-refl : (s : Node) → Frame s s
Frame-refl s = record { same_commits = refl; same_executed = refl }

Frame-trans : (s t u : Node) → Frame s t → Frame t u → Frame s u
Frame-trans s t u p q = record {
  same_commits = q.same_commits ∙ p.same_commits;
  same_executed = q.same_executed ∙ p.same_executed;
}

-- The same of a step that may fault.
abbrev pub Keeps : Node → Option Node → Type 0
Keeps s none = Unit {0}
Keeps s (some t) = Frame s t

Keeps-read :
    {A : Type 0} (s : Node) (o : Option A) (f : A → Option Node)
    → ((a : A) → Keeps s (f a))
    → Keeps s (o >>= f)
Keeps-read s none f k = tt
Keeps-read s (some a) f k = k a

pub Keeps-bind :
    (s : Node) (o : Option Node) (f : Node → Option Node)
    → Keeps s o
    → ((t : Node) → Keeps t (f t))
    → Keeps s (o >>= f)
Keeps-bind s none f k g = tt
Keeps-bind s (some t) f k g = after (f t) (g t)
  where
    after : (o : Option Node) → Keeps t o → Keeps s o
    after none h = tt
    after (some u) h = Frame-trans s t u k h

-- A step from a state that differs only elsewhere.
pub Keeps-from : (s t : Node) (o : Option Node) → Frame s t → Keeps t o → Keeps s o
Keeps-from s t none f k = tt
Keeps-from s t (some u) f k = Frame-trans s t u f k

pub respond_to-Frame : (c : Option Call) (s : Node) → Frame s (respond_to c s)
unfolding respond_to
respond_to-Frame none s = Frame-refl s
respond_to-Frame (some c) s = record { same_commits = refl; same_executed = refl }

pub send_client_reply-Frame :
    (c : Option Call) (r : ClientRequest) (seq : ℕ) (ok : Bool) (s : Node)
    → Frame s (send_client_reply c r seq ok s)
unfolding send_client_reply
send_client_reply-Frame none r seq ok s = record {
  same_commits = ground arith;
  same_executed = ground arith;
}
send_client_reply-Frame (some c) r seq ok s = record {
  same_commits = ground arith;
  same_executed = ground arith;
}

send_client_reply_two_pc-Frame :
    (e : CommitEntry) (seq : ℕ) (ok : Bool) (s : Node)
    → Frame s (send_client_reply_two_pc e seq ok s)
unfolding send_client_reply_two_pc
send_client_reply_two_pc-Frame e seq ok s = record {
  same_commits = ground arith;
  same_executed = ground arith;
}

pub send_reply_to_coord_leader-Keeps :
    (c : Option Call) (r : ClientRequest) (seq : ℕ) (status : Status) (s : Node)
    → Keeps s (send_reply_to_coord_leader c r seq status s)
unfolding send_reply_to_coord_leader
send_reply_to_coord_leader-Keeps none r seq status s =
    if_keeps (Keeps s) s.alive _ (some s)
      (if_keeps (Keeps s) (str_eq r.client_id "NO-OP") (some s) _ (Frame-refl s) (
        Keeps-read s (stoi r.from_account) _
          (λ sender. record { same_commits = refl; same_executed = refl })))
      (Frame-refl s)
send_reply_to_coord_leader-Keeps (some c) r seq status s =
    if_keeps (Keeps s) s.alive _ (some s)
      (if_keeps (Keeps s) (str_eq c.request.client_id "NO-OP") (some s) _ (Frame-refl s) (
        Keeps-read s (stoi c.request.from_account) _
          (λ sender. record { same_commits = refl; same_executed = refl })))
      (Frame-refl s)

record_outcome-Frame :
    (seq : ℕ) (status : Status) (s : Node) → Frame s (record_outcome seq status s)
unfolding record_outcome
record_outcome-Frame seq status s = record {
  same_commits = ground arith;
  same_executed = ground arith;
}

reply_outcome-Keeps :
    (status : Status) (e : CommitEntry) (s : Node) → Keeps s (reply_outcome status e s)
unfolding reply_outcome
reply_outcome-Keeps c_coord e s = send_client_reply_two_pc-Frame e e.seqnum true s
reply_outcome-Keeps a_coord e s = send_client_reply_two_pc-Frame e e.seqnum false s
reply_outcome-Keeps c_part e s = send_reply_to_coord_leader-Keeps none e.m e.seqnum c_part s
reply_outcome-Keeps a_part_commit e s =
    send_reply_to_coord_leader-Keeps none e.m e.seqnum a_part_commit s
reply_outcome-Keeps _ e s = Frame-refl s

pub execute_repeated_two_pc_entry-Keeps :
    (e : CommitEntry) (s : Node) → Keeps s (execute_repeated_two_pc_entry e s)
unfolding execute_repeated_two_pc_entry
execute_repeated_two_pc_entry-Keeps e s = Keeps-read s (stoi e.m.from_account) _ (λ from.
    Keeps-read s (stoi e.m.to_account) _ (λ to.
      let r = record_outcome-Frame e.seqnum e.two_pc_status s in
      let recorded = record_outcome e.seqnum e.two_pc_status s in
      let done : Node = record recorded {
        ledger = second_phase e.two_pc_status from to e.seqnum s.ledger;
      } in
      let f : Frame s done = record {
        same_commits = r.same_commits;
        same_executed = r.same_executed;
      } in
      if_keeps (Keeps s) (is_leader s.role) (reply_outcome e.two_pc_status e done) (some done)
        (Keeps-from s done _ f (reply_outcome-Keeps e.two_pc_status e done)) f))

inform_participant-Keeps :
    (now receiver : ℕ) (msg : TwoPcMsg) (s : Node) → Keeps s (inform_participant now receiver msg s)
unfolding inform_participant
inform_participant-Keeps now receiver msg s =
    let ts = msg.m.timestamp in
    let told : TwoPcMsg = record msg { kind = if is_abort msg.kind then abort else commit } in
    Keeps-read s (write_slot ts (λ e. record e { completed = true }) s.in_flight_prepares) _ (λ p.
      Keeps-read s
        (write_slot ts (λ e. record e { last_send = now; msg = told }) s.in_flight_transactions) _
        (λ t. record { same_commits = refl; same_executed = refl }))

pub start_second_phase-Keeps :
    (now : ℕ) (msg : TwoPcMsg) (s : Node) → Keeps s (start_second_phase now msg s)
unfolding start_second_phase
start_second_phase-Keeps now msg s = Keeps-read s (stoi msg.m.to_account) _ (λ receiver.
    Keeps-bind s
      (if s.ledger.shard_map receiver == s.cluster_id
        then some s
        else inform_participant now receiver msg s)
      _
      (if_keeps (Keeps s) (s.ledger.shard_map receiver == s.cluster_id) (some s) _ (Frame-refl s)
        (inform_participant-Keeps now receiver msg s))
      (λ t. record { same_commits = refl; same_executed = refl }))
