-- ===== src/Reply.antt =====
-- Replies to clients and to the leader of the coordinator's cluster: `SendClientReply`,
-- `SendClientReplyTwoPC` and `SendReplyToCoordLeader` of src/paxos_node.cpp.
use multi_paxos_distributed.Prelude.{
  ℕ, String, Bool, Option, none, some, pos, negsuc, ltb, str_eq, if◌then◌else◌, ◌>>=◌,
}
use multi_paxos_distributed.Account.{stoi}
use multi_paxos_distributed.Message.{
  ClientRequest, ClientReply, CommitEntry, Status, abort_vote, prep, c_part, a_part_commit, MsgType,
  no_type, abort, prepared, committed, abort_done,
}
use multi_paxos_distributed.Node.{Node, Call, emit, respond, reply_client, send_two_pc}

-- `call_data ? call_data->GetRequest() : fallback_request`.
unfoldable pub request_of : Option Call → ClientRequest → ClientRequest
request_of none fallback = fallback
request_of (some call) fallback = call.request

-- `call_data->Respond(ack)` where there is a call.
unfoldable pub respond_to : Option Call → Node → Node
unfolding emit
respond_to none s = s
respond_to (some call) s = emit (respond call) s

-- `last_reply_per_client_[client] = reply`.
unfoldable pub cache_reply : String → ClientReply → Node → Node
cache_reply client reply s = record s {
  last_reply_per_client = λ k. if str_eq client k then some reply else s.last_reply_per_client k;
}

-- `SendClientReply`.
unfoldable pub send_client_reply : Option Call → ClientRequest → ℕ → Bool → Node → Node
unfolding request_of respond_to cache_reply emit
send_client_reply call_data fallback seq_num success s =
    let request = request_of call_data fallback in
    let this_term = ltb s.max_seqnum_in_new_view seq_num in
    let reply : ClientReply = record {
      counter = pos s.current_ballot.counter;
      node_id = s.current_ballot.node_id;
      timestamp = request.timestamp;
      client_id = request.from_account;
      success = success;
      from_this_term = this_term;
      read_only_balance = pos 0;
    } in
    let sent = emit (reply_client reply) (cache_reply request.from_account reply s) in
    if s.alive
    then (if str_eq request.client_id "NO-OP"
        then s
        else if this_term
        then respond_to call_data sent
        else sent)
    else s

-- `SendClientReplyTwoPC`.
unfoldable pub send_client_reply_two_pc : CommitEntry → ℕ → Bool → Node → Node
unfolding cache_reply emit
send_client_reply_two_pc entry seq_num success s =
    let request = entry.m in
    let reply : ClientReply = record {
      counter = negsuc 0;
      node_id = s.current_ballot.node_id;
      timestamp = request.timestamp;
      client_id = request.from_account;
      success = success;
      from_this_term = ltb s.max_seqnum_in_new_view seq_num;
      read_only_balance = pos 0;
    } in
    if s.alive
    then (if str_eq request.client_id "NO-OP"
        then s
        else emit (reply_client reply) (cache_reply request.from_account reply s))
    else s

-- The type that the reply to the coordinator has for a status.
unfoldable pub reply_type : Status → MsgType
reply_type abort_vote = abort
reply_type prep = prepared
reply_type c_part = committed
reply_type a_part_commit = abort_done
reply_type _ = no_type

-- `SendReplyToCoordLeader`.
unfoldable pub send_reply_to_coord_leader :
    Option Call → ClientRequest → ℕ → Status → Node → Option Node
unfolding request_of respond_to reply_type emit
send_reply_to_coord_leader call_data fallback seq_num status s =
    let request = request_of call_data fallback in
    let send : ℕ → Option Node = λ sender. some (
      respond_to call_data (
        emit
          (send_two_pc (s.cluster_leaders (s.ledger.shard_map sender)) (record {
            kind = reply_type status;
            s = request.from_account;
            r = request.to_account;
            amt = request.amount;
            m = request;
          }))
          s)) in
    if s.alive
    then (if str_eq request.client_id "NO-OP" then some s else (stoi request.from_account >>= send))
    else some s
