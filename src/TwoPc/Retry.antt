-- ===== src/TwoPc/Retry.antt =====
-- The retries of a coordinator: `TransactionRetryLoop` and `HandlePreparedTimeout` of
-- src/paxos_node.cpp. One walk over the vector of prepares is one step.
use multi_paxos_distributed.Prelude.Map.{insert}
use multi_paxos_distributed.Prelude.{
  ℕ, zero, suc, ◌-◌, Bool, true, false, ◌&&◌, Option, none, some, leb, ltb, ◌==◌, if◌then◌else◌,
  ◌>>=◌, update, insert_set,
}
use multi_paxos_distributed.Account.{stoi}
use multi_paxos_distributed.Message.{AcceptedEntry, a_coord}
use multi_paxos_distributed.Ledger.Recovery.{entry_at}
use multi_paxos_distributed.Node.{
  Node, InFlightTransaction, broadcast, cluster_peers, emit, send_accept, send_request,
}
use multi_paxos_distributed.TwoPc.{write_slot}

-- `timeout`.
abbrev pub retry_timeout : ℕ
retry_timeout = 1000

-- `HandlePreparedTimeout`; `none` where the timestamp is past the vector of prepares.
unfoldable pub handle_prepared_timeout : ℕ → Node → Option Node
unfolding broadcast cluster_peers entry_at insert_set
handle_prepared_timeout timestamp s =
    let seq = s.dedup.digest timestamp in
    let prepares = s.in_flight_prepares in
    let in_flight = prepares.slot timestamp in
    let old = entry_at seq s.accept_log in
    let aborted : AcceptedEntry = record old {
      seqnum = seq;
      two_pc_status = a_coord;
      m = in_flight.msg.m;
    } in
    let counter = old.ballot.counter in
    let acks = insert_set s.node_id (s.accepted_count_two_pc_commit seq counter) in
    let done =
      broadcast (λ peer. send_accept peer aborted) (cluster_peers s.topology)
        (record s {
          accept_log = insert seq aborted s.accept_log;
          accepted_count_two_pc_commit =
              update s.accepted_count_two_pc_commit seq
                (update (s.accepted_count_two_pc_commit seq) counter acks);
        }) in
    if ltb timestamp prepares.size then some done else none

-- The PREPARE was sent, is not answered, and is old enough.
unfoldable pub is_due : ℕ → InFlightTransaction → Bool
is_due now e =
    e.sent
    && ((if e.last_send == 0 then false else true)
        && ((if e.completed then false else true) && leb retry_timeout (now - e.last_send)))

-- One entry of the vector, which the walk reaches by `index`, a position in it: send the PREPARE once more, or abort.
unfoldable pub retry_one : ℕ → ℕ → Node → Option Node
unfolding is_due write_slot handle_prepared_timeout emit
retry_one now index s =
    let prepares = s.in_flight_prepares in
    let entry = prepares.slot index in
    let retried =
      write_slot index (λ e. record e { retries = 1; last_send = now }) prepares >>= λ slots.
      stoi entry.msg.m.to_account >>= λ receiver. some (
        emit (send_request (s.cluster_leaders (s.ledger.shard_map receiver)) entry.msg.m)
          (record s { in_flight_prepares = slots })) in
    let given_up = write_slot index (λ e. record e { completed = true }) prepares >>= λ slots.
    handle_prepared_timeout entry.msg.m.timestamp (record s { in_flight_prepares = slots }) in
    if is_due now entry then (if entry.retries == 0 then retried else given_up) else some s

-- The walk, over the first `rounds` entries.
unfoldable pub retry_first : ℕ → ℕ → Node → Option Node
unfolding retry_one
retry_first zero now s = some s
retry_first (suc rounds) now s = retry_first rounds now s >>= retry_one now rounds

-- One round of `TransactionRetryLoop`.
unfoldable pub retry_round : ℕ → Node → Option Node
unfolding retry_first
retry_round now s = let prepares = s.in_flight_prepares in retry_first prepares.size now s
