-- ===== src/Election.antt =====
-- Leader election: `HandlePrepare`, `SendPromise`, `HandlePromise`, `SendPrepare`,
-- `OnElectionTimeout`, `OnElectionComplete`, `SendNewView`, `InformClustersOfElection` and the
-- steps of the timer thread in `StartElectionTimer`, of src/paxos_node.cpp.
pub mod Promises
pub mod TimerThread
use multi_paxos_distributed.Prelude.Map.{Map, find, insert, last_key}
use multi_paxos_distributed.Prelude.{
  ℕ, zero, suc, ◌+◌, ◌-◌, ◌≤◌, Bool, true, false, ◌&&◌, ◌||◌, Option, none, some, List, [], ◌∷◌,
  ◌++◌, leb, ◌==◌, if◌then◌else◌, ◌>>=◌, length, contains,
}
use multi_paxos_distributed.Ballot.{Ballot, gt}
use multi_paxos_distributed.Message.{
  AcceptedEntry, PrepareRequest, PromiseResponse, NewViewRequest, no_entry,
}
use multi_paxos_distributed.Ledger.Recovery.{complete_wal}
use multi_paxos_distributed.Log.{merge_log, max_seqnum, fill_missing, seed_log}
use multi_paxos_distributed.Node.{
  Node, Role, is_leader, emit, broadcast, cluster_peers, foreign_peers, in_cluster, select,
  prepare_cooldown, respond_promise, respond_new_view, send_prepare, send_accept, send_new_view,
  QueuedClientRequest,
}
use multi_paxos_distributed.Timer.{start_election_timer}
use multi_paxos_distributed.Leadership.{become_leader, demote_to_backup}
use multi_paxos_distributed.Quorum.{add_vote}
use multi_paxos_distributed.Request.{process_client_request}

-- The values of the accept log, in order.
unfoldable pub entries : Map AcceptedEntry → List AcceptedEntry
entries [] = []
entries ((seq, e) ∷ log) = e ∷ entries log

-- `SendPromise`.
unfoldable pub send_promise : Node → Node
unfolding entries emit
send_promise s =
    if s.alive
    then elim s.pending_promise_call [
      | none ↦ s
      | some call ↦
          emit
            (respond_promise call (record {
              ballot = s.highest_promised_ballot;
              node_id = s.node_id;
              promised = true;
              accept_log = entries s.accept_log;
            }))
            (record s { pending_promise_call = none })
    ]
    else s

-- The rejecting branch of `HandlePrepare`.
unfoldable pub reject_prepare : ℕ → Node → Node
unfolding emit
reject_prepare call s =
    emit
      (respond_promise call (record {
        ballot = s.current_ballot;
        node_id = s.node_id;
        promised = false;
        accept_log = [];
      }))
      (record s { pending_promise_call = none })

-- The other branch, after the node has stepped down: promise now, or when the timer runs out.
unfoldable pub promise_to : Ballot → ℕ → Bool → Node → Node
unfolding send_promise
promise_to incoming call timer_expired s =
    let noted : Node = record s {
      highest_promised_ballot = incoming;
      pending_promise_call = some call;
    } in
    if timer_expired then send_promise noted else noted

-- `HandlePrepare`.
unfoldable pub handle_prepare : ℕ → PrepareRequest → ℕ → Node → Option Node
unfolding reject_prepare promise_to demote_to_backup start_election_timer is_leader
handle_prepare now request call s =
    let timer_expired = leb prepare_cooldown (now - s.last_leader_msg_received) in
    let seen : Node = record s { last_prepare_received = now } in
    let electing : Node = record s { last_prepare_received = now; in_election = true } in
    if s.alive
    then (if gt request.ballot s.highest_promised_ballot
        then (if is_leader s.role
            then (demote_to_backup electing >>= λ d.
                some (start_election_timer (promise_to request.ballot call timer_expired d)))
            else some (promise_to request.ballot call timer_expired electing))
        else some (reject_prepare call seen))
    else some s

-- `SendPrepare`.
unfoldable pub start_prepare : ℕ → Ballot → Node → Node
unfolding broadcast cluster_peers
start_prepare now ballot s =
    broadcast (λ peer. send_prepare peer (record { ballot = ballot; node_id = s.node_id }))
      (cluster_peers s.topology)
      (record s {
        current_ballot = ballot;
        highest_promised_ballot =
            if gt ballot s.highest_promised_ballot then ballot else s.highest_promised_ballot;
        last_prepare_received = now;
        in_election = true;
      })

-- `OnElectionTimeout`. A waiting promise is sent before the own Prepare.
unfoldable pub on_election_timeout : ℕ → Node → Node
on_election_timeout now s =
    let next : Ballot = record { counter = s.current_ballot.counter + 1; node_id = s.node_id } in
    let candidate : Node = record s {
      waiting_for_promises = true;
      promises_received = s.node_id ∷ [];
    } in
    if is_leader s.role
    then s
    else if s.alive
    then (if leb prepare_cooldown (now - s.last_prepare_received)
        then start_prepare now next (send_promise candidate)
        else send_promise s)
    else s

-- The logs of all promises, one after another.
unfoldable pub all_entries : Map (List AcceptedEntry) → List AcceptedEntry
all_entries [] = []
all_entries ((node, log) ∷ rest) = log ++ all_entries rest

-- `MergeAcceptLogsFromPromises`.
unfoldable pub merge_promises : Node → Node
unfolding all_entries merge_log max_seqnum seed_log last_key
merge_promises s =
    let promised = all_entries s.received_promise_logs in
    let merged = merge_log s.accept_log promised in
    record s {
      accept_log = merged;
      last_seqnum = max_seqnum (last_key s.accept_log) promised;
      received_promise_logs = [];
      dedup = seed_log merged s.dedup;
    }

-- `FillMissingNoOps`.
unfoldable pub fill_no_ops : Node → Node
unfolding fill_missing
fill_no_ops s = record s {
  accept_log = fill_missing s.current_ballot s.node_id s.last_seqnum s.accept_log;
}

-- The entries of the log at `rounds` sequence numbers from `seq` on.
unfoldable pub entries_from : ℕ → ℕ → Map AcceptedEntry → List AcceptedEntry
entries_from zero seq log = []
entries_from (suc rounds) seq log =
    let rest = entries_from rounds (seq + 1) log in
    elim (find seq log) [ none ↦ rest | some e ↦ e ∷ rest ]

-- The node's own acceptances, for the entries of a new view.
unfoldable pub self_accepts : ℕ → ℕ → Node → Node
unfolding add_vote
self_accepts zero seq s = s
self_accepts (suc rounds) seq s =
    let counted : Node = record s {
      accepted_count = add_vote seq s.current_ballot.counter s.node_id s.accepted_count;
    } in
    self_accepts rounds (seq + 1) (elim (find seq s.accept_log) [ none ↦ s | some e ↦ counted ])

-- One round of the loop of `SendNewView`, for a peer of the cluster.
unfoldable pub send_new_view_to : ℕ → Node → Node
unfolding entries_from self_accepts emit
send_new_view_to peer s =
    let request : NewViewRequest = record {
      ballot = s.current_ballot;
      accept_log = entries_from s.last_seqnum 1 s.accept_log;
    } in
    let counted = self_accepts s.last_seqnum 1 s in
    if peer == s.node_id
    then record counted { new_view_logs = s.new_view_logs ++ request ∷ [] }
    else emit (send_new_view peer request)
        (record counted { max_seqnum_in_new_view = s.last_seqnum })

unfoldable pub send_new_view_all : List ℕ → Node → Node
unfolding send_new_view_to
send_new_view_all [] s = s
send_new_view_all (peer ∷ peers) s = send_new_view_all peers (send_new_view_to peer s)

-- `SendNewView`.
unfoldable pub send_new_views : Node → Node
unfolding send_new_view_all select in_cluster is_leader
send_new_views s =
    if is_leader s.role && s.alive
    then send_new_view_all (select (in_cluster s.topology) s.peers) s
    else s

-- `InformClustersOfElection`.
unfoldable pub inform_clusters : Node → Node
unfolding broadcast foreign_peers
inform_clusters s =
    broadcast (λ peer. send_accept peer (record no_entry { new_leader = s.node_id }))
      (foreign_peers s.topology) s

unfoldable pub process_all : ℕ → List QueuedClientRequest → Node → Option Node
process_all now [] s = some s
process_all now (q ∷ rest) s =
    process_client_request now q.request q.call_data s >>= process_all now rest

-- `OnElectionComplete`.
unfoldable pub on_election_complete : ℕ → Node → Option Node
unfolding process_all
on_election_complete now s = complete_wal s.cluster_id s.accept_log s.ledger >>= λ settled.
    let calm : Node = record s { in_election = false; ledger = settled } in
    elim s.leader_id [
      | none ↦ some calm
      | some l ↦
          process_all now s.queued_client_requests (record calm { queued_client_requests = [] })
    ]

-- A quorum of promises: the sequence of `HandlePromise`.
unfoldable pub win_election : ℕ → Node → Option Node
unfolding merge_promises fill_no_ops become_leader send_new_views inform_clusters
    on_election_complete
win_election now s =
    let filled = fill_no_ops (merge_promises s) in
    on_election_complete now
      (inform_clusters (send_new_views (become_leader s.current_ballot filled)))

-- A counted promise.
unfoldable pub add_promise : PromiseResponse → Node → Node
add_promise reply s = record s {
  promises_received = reply.node_id ∷ s.promises_received;
  received_promise_logs = insert reply.node_id reply.accept_log s.received_promise_logs;
}

-- `HandlePromise`.
unfoldable pub handle_promise : ℕ → PromiseResponse → Node → Option Node
unfolding win_election add_promise is_leader
handle_promise now reply s =
    let counted = add_promise reply s in
    let quorum = leb (s.f + 1) (length counted.promises_received) in
    if s.alive && reply.promised
    then (if is_leader s.role || (if s.waiting_for_promises then false else true)
        then some s
        else if contains s.promises_received reply.node_id
        then some s
        else if quorum
        then win_election now (record counted { waiting_for_promises = false })
        else some counted)
    else some s
