-- ===== src/Server.antt =====
-- The objects that serve calls: the classes on the server's side of src/call_data.cpp, and the ones
-- that `Run` of src/paxos_node.cpp makes. gRPC gives an object one event for each call of it: when a
-- request has come, after a `Request...`, and when the answer is out, after `Finish`.
pub mod Phase
pub mod Events
pub mod Pool
pub mod Completions
use multi_paxos_distributed.Prelude.{
  ℕ, zero, suc, ◌==◌, ◌&&◌, ◌++◌, Bool, true, false, Option, none, some, List, [], ◌∷◌,
  if◌then◌else◌,
}

pub data CallStatus : Type 0 where
  create : CallStatus
  process : CallStatus
  finish : CallStatus

-- The classes, by the call that they serve.
pub data Kind : Type 0 where
  prepare : Kind
  accept : Kind
  commit : Kind
  new_view : Kind
  send_client_request : Kind
  submit_transaction : Kind
  receive_accept_ack : Kind
  heartbeat : Kind
  alive_update : Kind
  get_node_info : Kind
  move_on : Kind
  two_pc : Kind
  client_reply : Kind  -- `AsyncServerCall`

-- An object, and the events that it has yet to get.
pub record Call : Type 0 where
  pub kind : Kind
  pub status : CallStatus
  pub requested : Bool  -- `Request...` was called, and no request has come yet
  pub finishing : Bool  -- `Finish` was called, and the answer is not out yet

-- What `Proceed` does: the object after it (`none`: deleted), the objects that it makes, and whether
-- the node's handler has run.
pub record Reaction : Type 0 where
  pub object : Option Call
  pub spawned : List Call
  pub handled : Bool

-- The branch `CREATE` of most classes.
unfoldable pub await_request : Kind → Reaction
await_request k = record {
  object = some (record { kind = k; status = process; requested = true; finishing = false });
  spawned = [];
  handled = false;
}

unfoldable pub deleted : Reaction
deleted = record { object = none; spawned = []; handled = false }

-- Another object of the class, the handler, and the answer.
unfoldable pub answer_at_once : Kind → List Call → Reaction
answer_at_once k spawned = record {
  object = some (record { kind = k; status = finish; requested = false; finishing = true });
  spawned = spawned;
  handled = true;
}

-- Another object of the class, and the handler, which keeps this one and calls `Respond` on it.
unfoldable pub answer_later : Kind → List Call → Reaction
answer_later k spawned = record {
  object = some (record { kind = k; status = process; requested = false; finishing = false });
  spawned = spawned;
  handled = true;
}

-- The constructors of `SendClientRequestCallData` and of `MoveOnCallData` leave the object in
-- `CREATE`; all others call `Proceed`.
unfoldable pub first_status : Kind → CallStatus
first_status send_client_request = create
first_status move_on = create
first_status _ = process

unfoldable pub construct : Kind → Call
unfolding first_status
construct k = record { kind = k; status = first_status k; requested = true; finishing = false }

unfoldable pub proceed_prepare : CallStatus → Reaction
unfolding await_request answer_later deleted construct
proceed_prepare create = await_request prepare
proceed_prepare process = answer_later prepare (construct prepare ∷ [])
proceed_prepare finish = deleted

unfoldable pub proceed_accept : CallStatus → Reaction
unfolding await_request answer_at_once deleted construct
proceed_accept create = await_request accept
proceed_accept process = answer_at_once accept (construct accept ∷ [])
proceed_accept finish = deleted

unfoldable pub proceed_commit : CallStatus → Reaction
unfolding await_request answer_at_once deleted construct
proceed_commit create = await_request commit
proceed_commit process = answer_at_once commit (construct commit ∷ [])
proceed_commit finish = deleted

unfoldable pub proceed_new_view : CallStatus → Reaction
unfolding await_request answer_later deleted construct
proceed_new_view create = await_request new_view
proceed_new_view process = answer_later new_view (construct new_view ∷ [])
proceed_new_view finish = deleted

-- In `PROCESS` this does nothing.
unfoldable pub proceed_client_request : CallStatus → Reaction
unfolding answer_later deleted construct
proceed_client_request create =
    answer_later send_client_request (construct send_client_request ∷ [])
proceed_client_request process = record {
  object = some (record {
    kind = send_client_request;
    status = process;
    requested = false;
    finishing = false;
  });
  spawned = [];
  handled = false;
}
proceed_client_request finish = deleted

unfoldable pub proceed_submit_transaction : CallStatus → Reaction
unfolding await_request answer_at_once deleted construct
proceed_submit_transaction create = await_request submit_transaction
proceed_submit_transaction process =
    answer_at_once submit_transaction (construct submit_transaction ∷ [])
proceed_submit_transaction finish = deleted

unfoldable pub proceed_accept_ack : CallStatus → Reaction
unfolding await_request answer_at_once deleted construct
proceed_accept_ack create = await_request receive_accept_ack
proceed_accept_ack process = answer_at_once receive_accept_ack (construct receive_accept_ack ∷ [])
proceed_accept_ack finish = deleted

unfoldable pub proceed_heartbeat : CallStatus → Reaction
unfolding await_request answer_at_once deleted construct
proceed_heartbeat create = await_request heartbeat
proceed_heartbeat process = answer_at_once heartbeat (construct heartbeat ∷ [])
proceed_heartbeat finish = deleted

unfoldable pub proceed_alive_update : CallStatus → Reaction
unfolding await_request answer_at_once deleted construct
proceed_alive_update create = await_request alive_update
proceed_alive_update process = answer_at_once alive_update (construct alive_update ∷ [])
proceed_alive_update finish = deleted

unfoldable pub proceed_node_info : CallStatus → Reaction
unfolding await_request answer_at_once deleted construct
proceed_node_info create = await_request get_node_info
proceed_node_info process = answer_at_once get_node_info (construct get_node_info ∷ [])
proceed_node_info finish = deleted

-- Its `Finish` stands before `status_ = FINISH`; here both are one step.
unfoldable pub proceed_move_on : CallStatus → Reaction
unfolding answer_at_once deleted construct
proceed_move_on create = answer_at_once move_on (construct move_on ∷ [])
proceed_move_on process = deleted
proceed_move_on finish = deleted

unfoldable pub proceed_two_pc : CallStatus → Reaction
unfolding await_request answer_at_once deleted construct
proceed_two_pc create = await_request two_pc
proceed_two_pc process = answer_at_once two_pc (construct two_pc ∷ [])
proceed_two_pc finish = deleted

unfoldable pub proceed_client_reply : CallStatus → Reaction
unfolding await_request answer_at_once deleted construct
proceed_client_reply create = await_request client_reply
proceed_client_reply process = answer_at_once client_reply (construct client_reply ∷ [])
proceed_client_reply finish = deleted

-- `Proceed` of the object's class.
unfoldable pub proceed : Kind → CallStatus → Reaction
unfolding proceed_prepare proceed_accept proceed_commit proceed_new_view proceed_client_request
    proceed_submit_transaction proceed_accept_ack proceed_heartbeat proceed_alive_update
    proceed_node_info proceed_move_on proceed_two_pc proceed_client_reply
proceed prepare = proceed_prepare
proceed accept = proceed_accept
proceed commit = proceed_commit
proceed new_view = proceed_new_view
proceed send_client_request = proceed_client_request
proceed submit_transaction = proceed_submit_transaction
proceed receive_accept_ack = proceed_accept_ack
proceed heartbeat = proceed_heartbeat
proceed alive_update = proceed_alive_update
proceed get_node_info = proceed_node_info
proceed move_on = proceed_move_on
proceed two_pc = proceed_two_pc
proceed client_reply = proceed_client_reply

-- `Respond`, of the three classes whose handlers answer later.
unfoldable pub respond : Call → Call
respond c = record c { status = finish; finishing = true }

-- The objects that `Run` makes, `rounds` of each class: 3 in the source.
unfoldable pub init_handlers : ℕ → List Call
unfolding construct
init_handlers zero = []
init_handlers (suc rounds) =
    construct prepare
    ∷ construct accept
    ∷ construct commit
    ∷ construct new_view
    ∷ construct send_client_request
    ∷ construct receive_accept_ack
    ∷ construct heartbeat
    ∷ construct alive_update
    ∷ construct get_node_info
    ∷ construct move_on
    ∷ construct two_pc
    ∷ init_handlers rounds
