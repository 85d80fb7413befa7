-- ===== src/Server/Phase.antt =====
-- The phases of an object that serves calls (src/call_data.cpp).
use multi_paxos_distributed.Prelude.{◌≡◌, refl, Bool, true, false, none, some, [], ◌∷◌}
use multi_paxos_distributed.Server.{
  process, finish, Kind, prepare, accept, commit, new_view, send_client_request, submit_transaction,
  receive_accept_ack, heartbeat, alive_update, get_node_info, move_on, two_pc, client_reply, Call,
  Reaction, first_status, construct, proceed,
}

-- The classes with `Respond`.
abbrev pub answers_later : Kind → Bool
answers_later prepare = true
answers_later new_view = true
answers_later send_client_request = true
answers_later _ = false

-- The phases of an object.
pub data Phase : Call → Type 0 where
  waits_for_request :
      (k : Kind)
      → Phase (record { kind = k; status = first_status k; requested = true; finishing = false })
  is_handled :
      (k : Kind)
      → answers_later k ≡ true
      → Phase (record { kind = k; status = process; requested = false; finishing = false })
  is_answered :
      (k : Kind) → Phase (record { kind = k; status = finish; requested = false; finishing = true })

-- What an object that waited for a request does when it has come.
abbrev pub Served : Kind → Reaction → Type 0
Served k r =
    (c : Call) × (Phase c
      × ((c.requested ≡ false)
          × (r ≡ record { object = some c; spawned = construct k ∷ []; handled = true })))

pub on_request : (k : Kind) → Served k (proceed k (first_status k))
unfolding proceed first_status
on_request prepare = (_, (is_handled prepare refl, (refl, refl)))
on_request accept = (_, (is_answered accept, (refl, refl)))
on_request commit = (_, (is_answered commit, (refl, refl)))
on_request new_view = (_, (is_handled new_view refl, (refl, refl)))
on_request send_client_request = (_, (is_handled send_client_request refl, (refl, refl)))
on_request submit_transaction = (_, (is_answered submit_transaction, (refl, refl)))
on_request receive_accept_ack = (_, (is_answered receive_accept_ack, (refl, refl)))
on_request heartbeat = (_, (is_answered heartbeat, (refl, refl)))
on_request alive_update = (_, (is_answered alive_update, (refl, refl)))
on_request get_node_info = (_, (is_answered get_node_info, (refl, refl)))
on_request move_on = (_, (is_answered move_on, (refl, refl)))
on_request two_pc = (_, (is_answered two_pc, (refl, refl)))
on_request client_reply = (_, (is_answered client_reply, (refl, refl)))

pub on_finish :
    (k : Kind) → proceed k finish ≡ record { object = none; spawned = []; handled = false }
unfolding proceed
on_finish prepare = refl
on_finish accept = refl
on_finish commit = refl
on_finish new_view = refl
on_finish send_client_request = refl
on_finish submit_transaction = refl
on_finish receive_accept_ack = refl
on_finish heartbeat = refl
on_finish alive_update = refl
on_finish get_node_info = refl
on_finish move_on = refl
on_finish two_pc = refl
on_finish client_reply = refl
