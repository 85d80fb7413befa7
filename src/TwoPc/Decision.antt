-- ===== src/TwoPc/Decision.antt =====
-- The second phase between two leaders: the coordinator takes the participant's vote and tells it the
-- outcome (`TwoPCCallData::Proceed` in src/call_data.cpp, `HandlePreparedAndAborted` and
-- `StartSecondPhase` in src/paxos_node.cpp).
use multi_paxos_distributed.Prelude.Map.{find, find-insert_same}
use multi_paxos_distributed.Prelude.{
  ℕ, ◌<◌, ◌≡◌, refl, ap, ◌∙◌, sym, Bool, true, false, not, some, List, [], ◌∷◌, ◌++◌, ◌≤ℤ◌,
  some-injective, ◌==◌, if◌then◌else◌, update, lt→ltb,
}
use mathlib.Core.List.{append_assoc}
use multi_paxos_distributed.Account.{stoi}
use multi_paxos_distributed.Message.{
  Status, coord, prep, AcceptedEntry, TwoPcMsg, MsgType, prepared, abort, commit,
}
use multi_paxos_distributed.Ledger.{Ledger, execute_transaction, execute_between}
use multi_paxos_distributed.Ledger.Recovery.{entry_at}
use multi_paxos_distributed.Ledger.Transfer.{Reads, execute-Reads}
use multi_paxos_distributed.Ledger.TwoPhase.{CrossShard}
use multi_paxos_distributed.Ledger.Atomicity.{coord_outcome, part_outcome}
use multi_paxos_distributed.Node.{Node, Effect, emit, broadcast, send_two_pc}
use multi_paxos_distributed.TwoPc.{
  write_slot, is_abort, second_phase_status, inform_participant, propose_outcome,
  start_second_phase, handle_prepared_and_aborted, receive_two_pc,
}

-- The sequence number of the transaction of a message, in the node's log.
abbrev pub place : TwoPcMsg → Node → ℕ
place msg s = (entry_at (s.dedup.digest msg.m.timestamp) s.accept_log).seqnum

-- The message that the participant gets for a vote.
abbrev pub told : TwoPcMsg → TwoPcMsg
told msg = record msg { kind = if is_abort msg.kind then abort else commit }

-- A node of the sender's cluster that takes the vote `msg` on a transaction whose entry it has executed.
pub record Listens (msg : TwoPcMsg) (from to : ℕ) (s : Node) : Type 0 where
  pub sender_read : stoi msg.s ≡ some from
  pub to_read : stoi msg.m.to_account ≡ some to
  pub done : s.ledger.executed_entries (s.dedup.digest msg.m.timestamp) ≡ true
  pub has_sender : (s.ledger.shard_map from == s.cluster_id) ≡ true
  pub no_receiver : (s.ledger.shard_map to == s.cluster_id) ≡ false
  pub prepares_room : msg.m.timestamp < s.in_flight_prepares.size
  pub transactions_room : msg.m.timestamp < s.in_flight_transactions.size

-- A leader of the sender's cluster that has executed the first phase of the transaction of `msg`, from
-- the ledger `before`, whose copy of the sender's balance has the amount.
pub record IsCoordinator (msg : TwoPcMsg) (from to seq : ℕ) (before : Ledger) (s : Node)
    : Type 0 where
  pub listens : Listens msg from to s
  pub reads : Reads before msg.m from to
  pub apart : CrossShard before from to
  pub funds : msg.m.amount ≤ℤ before.accounts from
  pub ok : Bool
  pub ran : execute_transaction msg.m seq coord before ≡ some (s.ledger, ok)

-- The same of a leader of the receiver's cluster.
pub record IsParticipant (msg : TwoPcMsg) (from to seq : ℕ) (before : Ledger) (s : Node)
    : Type 0 where
  pub reads : Reads before msg.m from to
  pub apart : CrossShard before from to
  pub funds : msg.m.amount ≤ℤ before.accounts from
  pub ok : Bool
  pub ran : execute_transaction msg.m seq prep before ≡ some (s.ledger, ok)
  pub no_sender : (s.ledger.shard_map from == s.cluster_id) ≡ false
  pub has_receiver : (s.ledger.shard_map to == s.cluster_id) ≡ true

-- A node that has put an outcome of the message to its cluster: logged with the status, for the
-- accounts of the message, on the ledger as it was.
pub record IsProposed (status : Status) (msg : TwoPcMsg) (s s' : Node) : Type 0 where
  pub entry : AcceptedEntry
  pub logged : find (place msg s) s'.accept_log ≡ some entry
  pub has_status : entry.two_pc_status ≡ status
  pub has_request : entry.m ≡ msg.m
  pub same_ledger : s'.ledger ≡ s.ledger

pub propose_outcome-IsProposed :
    (status : Status) (msg : TwoPcMsg) (s : Node)
    → IsProposed status msg s (propose_outcome status msg s)
unfolding propose_outcome broadcast
propose_outcome-IsProposed status msg s = record {
  entry = _;
  logged = find-insert_same (place msg s) _ s.accept_log;
  has_status = refl;
  has_request = refl;
  same_ledger = refl;
}

-- The kind of the vote of a participant.
abbrev pub vote_kind : Bool → MsgType
vote_kind aborted = if aborted then abort else prepared

-- The call with which the coordinator tells the outcome.
abbrev pub tell : TwoPcMsg → ℕ → Node → Effect
tell msg to s = send_two_pc (s.cluster_leaders (s.ledger.shard_map to)) (told msg)

-- The coordinator once it has told the participant.
abbrev pub has_told : ℕ → ℕ → TwoPcMsg → Node → Node
has_told now to msg s =
    let ts = msg.m.timestamp in
    let v = s.in_flight_prepares in
    let w = s.in_flight_transactions in
    emit (tell msg to s) (record s {
      in_flight_prepares = record v {
        slot = update v.slot ts (let e = v.slot ts in record e { completed = true });
      };
      in_flight_transactions = record w {
        slot = update w.slot ts (let e = w.slot ts in record e { last_send = now; msg = told msg });
      };
    })

starts_at_coordinator :
    (now from to : ℕ) (msg : TwoPcMsg) (s : Node)
    → Listens msg from to s
    → start_second_phase now msg s
      ≡ some (
          propose_outcome
            (second_phase_status (is_abort msg.kind) false)
            msg
            (has_told now to msg s))
unfolding start_second_phase inform_participant write_slot
starts_at_coordinator now from to msg s h = rw (
  h.to_read,
  h.no_receiver,
  lt→ltb _ _ h.prepares_room,
  lt→ltb _ _ h.transactions_room,
  start_second_phase,
  inform_participant,
  write_slot,
)

pub told_first :
    (now to : ℕ) (status : Status) (msg : TwoPcMsg) (s : Node)
    → (rest : List Effect) × ((propose_outcome status msg (has_told now to msg s)).out
        ≡ s.out ++ tell msg to s ∷ rest)
unfolding propose_outcome broadcast emit
told_first now to status msg s = (_, append_assoc s.out (tell msg to s ∷ []) _)

coordinator_handles :
    (now from to : ℕ) (aborted : Bool) (msg : TwoPcMsg) (s : Node)
    → msg.kind ≡ vote_kind aborted
    → Listens msg from to s
    → receive_two_pc now msg s ≡ start_second_phase now msg s
unfolding receive_two_pc handle_prepared_and_aborted
coordinator_handles now from to true msg s k h = rw (k, h.sender_read, h.has_sender, h.done) refl
coordinator_handles now from to false msg s k h = rw (k, h.sender_read, h.has_sender, h.done) refl

-- A vote that a node listens to is handled: the participant is told, and the outcome is proposed.
pub vote_handled :
    (now from to : ℕ) (aborted : Bool) (msg : TwoPcMsg) (s : Node)
    → msg.kind ≡ vote_kind aborted
    → Listens msg from to s
    → receive_two_pc now msg s
      ≡ some (
          propose_outcome
            (second_phase_status (is_abort msg.kind) false)
            msg
            (has_told now to msg s))
vote_handled now from to aborted msg s k h =
    coordinator_handles now from to aborted msg s k h ∙ starts_at_coordinator now from to msg s h

pub participant_handles :
    (now from to seq : ℕ) (aborted : Bool) (msg : TwoPcMsg) (before : Ledger) (s : Node)
    → msg.kind ≡ vote_kind aborted
    → stoi msg.s ≡ some from
    → IsParticipant msg from to seq before s
    → receive_two_pc now (told msg) s
      ≡ some (propose_outcome (part_outcome (not aborted)) (told msg) s)
unfolding receive_two_pc handle_prepared_and_aborted start_second_phase is_abort second_phase_status
participant_handles now from to seq true msg before s k r h =
    rw (k, r, h.no_sender, h.reads.to_read, h.has_receiver) refl
participant_handles now from to seq false msg before s k r h =
    rw (k, r, h.no_sender, h.reads.to_read, h.has_receiver) refl

pub decided :
    (aborted : Bool) (kind : MsgType)
    → kind ≡ vote_kind aborted
    → second_phase_status (is_abort kind) false ≡ coord_outcome (not aborted)
unfolding second_phase_status is_abort
decided true kind k = rw k refl
decided false kind k = rw k refl

pub executed :
    {before after : Ledger} {from to : ℕ} (msg : TwoPcMsg) (seq : ℕ) (status : Status) (ok : Bool)
    → Reads before msg.m from to
    → execute_transaction msg.m seq status before ≡ some (after, ok)
    → after ≡ (execute_between from to msg.m seq status before).0
executed msg seq status ok r ran =
    ap (λ (x : Ledger × Bool). x.0) (some-injective _ _ (sym ran ∙ execute-Reads r seq status))
