-- ===== src/Node.antt =====
-- The state of `class PaxosNode` (src/paxos_node.h), and the calls that it makes.
-- Fields that hold a clock reading are in milliseconds; `steady_clock` is a parameter of the
-- handlers that read it. Locks of the program's own state, the printed log (`print_log_`), threads
-- and the gRPC objects are left out: a handler is one step. The calls that a handler makes are
-- appended to `out`, in order.
use multi_paxos_distributed.Prelude.Map.{Map}
use multi_paxos_distributed.Prelude.{
  ℕ, String, Bool, true, false, ◌&&◌, Option, List, [], ◌∷◌, ◌++◌, map, leb, ◌==◌, if◌then◌else◌,
}
use multi_paxos_distributed.Ballot.{Ballot}
use multi_paxos_distributed.Message.{
  ClientRequest, ClientReply, AcceptedEntry, CommitEntry, PrepareRequest, PromiseResponse,
  NewViewRequest, Ack, TwoPcMsg,
}
use multi_paxos_distributed.Ledger.{Ledger}
use multi_paxos_distributed.Log.{Seeded}

-- `enum class Role`.
pub data Role : Type 0 where
  leader backup : Role

unfoldable pub is_leader : Role → Bool
is_leader leader = true
is_leader backup = false

-- `SendClientRequestCallData`: its address, and what `GetRequest` returns.
pub record Call : Type 0 where
  pub id : ℕ
  pub request : ClientRequest

-- `struct QueuedClientRequest`.
pub record QueuedClientRequest : Type 0 where
  pub request : ClientRequest
  pub call_data : Call

-- `struct InFlightTransaction`; the time 0 is `time_point{}`.
pub record InFlightTransaction : Type 0 where
  pub msg : TwoPcMsg
  pub last_send : ℕ
  pub completed : Bool
  pub sent : Bool
  pub retries : ℕ

-- `std::vector<InFlightTransaction>`.
pub record Slots : Type 0 where
  pub size : ℕ
  pub slot : ℕ → InFlightTransaction

-- What a handler sends, and which RPC it answers.
pub data Effect : Type 0 where
  respond : Call → Effect
  respond_promise : ℕ → PromiseResponse → Effect
  respond_new_view : ℕ → Effect
  send_prepare : ℕ → PrepareRequest → Effect
  send_accept : ℕ → AcceptedEntry → Effect
  send_commit : ℕ → CommitEntry → Effect
  send_new_view : ℕ → NewViewRequest → Effect
  send_ack : Option ℕ → Ack → Effect
  send_request : ℕ → ClientRequest → Effect
  send_two_pc : ℕ → TwoPcMsg → Effect
  send_heartbeat : ℕ → Ballot → Effect
  reply_client : ClientReply → Effect

-- What the constructor fixes. `peers` are the keys of `peer_stubs_`, in the order of a walk.
pub record Topology : Type 0 where
  pub node_id : ℕ
  pub peers : List ℕ
  pub num_clusters : ℕ
  pub divisor : ℕ
  pub low : ℕ
  pub high : ℕ
  pub cluster_id : ℕ
  pub f : ℕ

pub record Node : Type 0 where
  pub topology : Topology
  pub open topology use *
  pub ledger : Ledger
  pub role : Role
  pub alive : Bool
  pub current_ballot : Ballot
  pub highest_promised_ballot : Ballot
  pub leader_id : Option ℕ  -- `none` is -1
  pub cluster_leaders : ℕ → ℕ
  pub accept_log : Map AcceptedEntry
  pub pending_entries : Map AcceptedEntry
  pub entries_to_commit : Map CommitEntry
  pub pending_client_calls : Map Call
  pub accepted_count : ℕ → ℕ → List ℕ
  pub accepted_count_two_pc_commit : ℕ → ℕ → List ℕ
  pub last_seqnum : ℕ
  pub last_executed_seq : ℕ
  pub max_seqnum_in_new_view : ℕ
  pub in_new_view : Bool
  pub new_view_logs : List NewViewRequest
  pub newview_call_data : Option ℕ
  pub waiting_for_promises : Bool
  pub promises_received : List ℕ
  pub received_promise_logs : Map (List AcceptedEntry)
  pub pending_promise_call : Option ℕ
  pub in_election : Bool
  pub timer_running : Bool
  pub election_reset : Bool
  pub heartbeat_running : Bool
  pub last_prepare_received : ℕ
  pub last_leader_msg_received : ℕ
  pub first_txn_received : Bool
  pub alive_before_prompt : Bool
  pub queued_client_requests : List QueuedClientRequest
  pub dedup : Seeded  -- `pending_or_completed_ts_` and `digest_to_seqnum_`
  pub handled_ro_requests : ℕ → Bool
  pub last_reply_per_client : String → Option ClientReply
  pub in_flight_prepares : Slots
  pub in_flight_transactions : Slots
  pub prepare_and_aborted_queue : ℕ → Option TwoPcMsg
  pub out : List Effect

-- `prepare_cooldown_`.
abbrev pub prepare_cooldown : ℕ
prepare_cooldown = 100

unfoldable pub emit : Effect → Node → Node
emit e s = record s { out = s.out ++ e ∷ [] }

-- `peer_id < intra_c_nid_range_.first || peer_id > intra_c_nid_range_.second`, negated.
unfoldable pub in_cluster : Topology → ℕ → Bool
in_cluster t peer = leb t.low peer && leb peer t.high

unfoldable pub select : (ℕ → Bool) → List ℕ → List ℕ
select keep [] = []
select keep (x ∷ xs) = let rest = select keep xs in if keep x then x ∷ rest else rest

-- The peers that a broadcast goes to: those of this cluster, without the node itself.
unfoldable pub cluster_peers : Topology → List ℕ
unfolding select in_cluster
cluster_peers t = select (λ p. if p == t.node_id then false else in_cluster t p) t.peers

-- The nodes of the other clusters.
unfoldable pub foreign_peers : Topology → List ℕ
unfolding select in_cluster
foreign_peers t =
    select (λ p. if p == t.node_id then false else if in_cluster t p then false else true) t.peers

-- One call to each of the peers.
unfoldable pub broadcast : (ℕ → Effect) → List ℕ → Node → Node
broadcast call peers s = record s { out = s.out ++ map call peers }
