-- ===== src/Examples/Data.antt =====
-- The data of the examples: a cluster of three nodes, two accounts of it and one of the next.
use multi_paxos_distributed.Prelude.{ℕ, String, true, false, none, [], ◌∷◌, pos, leb, if◌then◌else◌}
use multi_paxos_distributed.Ballot.{Ballot}
use multi_paxos_distributed.Message.{
  ClientRequest, AcceptedEntry, Status, no_request, no_entry, no_two_pc_msg,
}
use multi_paxos_distributed.Ledger.{Ledger}
use multi_paxos_distributed.Node.{Node, leader, backup, Call, Slots}
use multi_paxos_distributed.Topology.{make_topology}

-- Accounts below 5 are of cluster 1, the others of cluster 2; all hold 10.
abbrev pub two_shards : Ledger
two_shards = record {
  accounts = λ k. pos 10;
  locks = λ k. false;
  wal = [];
  modified_accounts = λ k. false;
  executed_entries = λ k. false;
  shard_map = λ k. if leb k 4 then 1 else 2;
}

abbrev pub pays : String → String → ℕ → ClientRequest
pays from to n = record no_request {
  client_id = from;
  timestamp = 7;
  from_account = from;
  to_account = to;
  amount = pos n;
}

abbrev pub inside : ClientRequest
inside = pays "1" "2" 3

abbrev pub across : ClientRequest
across = pays "1" "6" 3

abbrev pub ballot_of : ℕ → ℕ → Ballot
ballot_of counter id = record { counter = counter; node_id = id }

abbrev pub entry_of : ℕ → Ballot → ClientRequest → Status → AcceptedEntry
entry_of seqnum ballot request outcome = record no_entry {
  ballot = ballot;
  seqnum = seqnum;
  request = request;
  phase2_result = outcome;
}

abbrev pub slots : ℕ → Slots
slots n = record {
  size = n;
  slot = λ i. record {
    msg = no_two_pc_msg;
    last_send = 0;
    completed = false;
    sent = false;
    retries = 0;
  };
}

-- Node 2 of six nodes in two clusters, a backup that has promised ballot (3, 1).
abbrev pub follower : Node
follower = record {
  topology = make_topology 2 (1 ∷ 2 ∷ 3 ∷ 4 ∷ 5 ∷ 6 ∷ []) 2;
  ledger = two_shards;
  role = backup;
  alive = true;
  current_ballot = ballot_of 3 1;
  highest_promised_ballot = ballot_of 3 1;
  leader_id = none;
  cluster_leaders = λ k. 1;
  accept_log = [];
  pending_entries = [];
  entries_to_commit = [];
  pending_client_calls = [];
  accepted_count = λ i j. [];
  accepted_count_two_pc_commit = λ i j. [];
  last_seqnum = 0;
  last_executed_seq = 0;
  max_seqnum_in_new_view = 0;
  in_new_view = false;
  new_view_logs = [];
  newview_call_data = none;
  waiting_for_promises = false;
  promises_received = [];
  received_promise_logs = [];
  pending_promise_call = none;
  in_election = false;
  timer_running = false;
  election_reset = false;
  heartbeat_running = false;
  last_prepare_received = 0;
  last_leader_msg_received = 0;
  first_txn_received = false;
  alive_before_prompt = true;
  queued_client_requests = [];
  dedup = record { seen = λ t. false; digest = λ t. 0 };
  handled_ro_requests = λ t. false;
  last_reply_per_client = λ c. none;
  in_flight_prepares = slots 100;
  in_flight_transactions = slots 100;
  prepare_and_aborted_queue = λ t. none;
  out = [];
}

abbrev pub chief : Node
chief = record follower { role = leader }

abbrev pub waiting : Call
waiting = record { id = 1; request = inside }
