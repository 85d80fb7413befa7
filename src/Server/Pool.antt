-- ===== src/Server/Pool.antt =====
-- For every kind of call there is always an object that waits for the next one (src/call_data.cpp,
-- `Run` in src/paxos_node.cpp).
use multi_paxos_distributed.Prelude.{
  ℕ, zero, suc, ◌≡◌, refl, ◌∙◌, arith, Bool, true, false, List, [], ◌∷◌,
}
use multi_paxos_distributed.Server.{
  Kind, prepare, accept, commit, new_view, send_client_request, submit_transaction,
  receive_accept_ack, heartbeat, alive_update, get_node_info, move_on, two_pc, client_reply, Call,
  construct, init_handlers,
}
use multi_paxos_distributed.Server.Phase.{waits_for_request}
use multi_paxos_distributed.Server.Events.{Steps, AllPhase, waiting, waiting-append, Steps-Serves}

init_handlers-AllPhase : (n : ℕ) → AllPhase (init_handlers n)
unfolding init_handlers construct
init_handlers-AllPhase zero = tt
init_handlers-AllPhase (suc n) = (
  waits_for_request prepare,
  (
    waits_for_request accept,
    (
      waits_for_request commit,
      (
        waits_for_request new_view,
        (
          waits_for_request send_client_request,
          (
            waits_for_request receive_accept_ack,
            (
              waits_for_request heartbeat,
              (
                waits_for_request alive_update,
                (
                  waits_for_request get_node_info,
                  (waits_for_request move_on, (waits_for_request two_pc, init_handlers-AllPhase n)),
                ),
              ),
            ),
          ),
        ),
      ),
    ),
  ),
)

-- The classes of which `Run` makes objects.
abbrev pub served : Kind → Bool
served submit_transaction = false
served client_reply = false
served _ = true

row : List Call
row =
    construct prepare
    ∷ construct accept
    ∷ construct commit
    ∷ construct new_view
    ∷ construct send_client_request
    ∷ construct receive_accept_ack
    ∷ construct heartbeat
    ∷ construct alive_update
    ∷ construct get_node_info
    ∷ construct move_on
    ∷ construct two_pc
    ∷ []

waiting-row : (k : Kind) → served k ≡ true → waiting k row ≡ 1
unfolding row construct
waiting-row prepare h = refl
waiting-row accept h = refl
waiting-row commit h = refl
waiting-row new_view h = refl
waiting-row send_client_request h = refl
waiting-row submit_transaction h = absurd (cc)
waiting-row receive_accept_ack h = refl
waiting-row heartbeat h = refl
waiting-row alive_update h = refl
waiting-row get_node_info h = refl
waiting-row move_on h = refl
waiting-row two_pc h = refl
waiting-row client_reply h = absurd (cc)

waiting-made : (k : Kind) (n : ℕ) → served k ≡ true → waiting k (init_handlers n) ≡ n
unfolding init_handlers row
waiting-made k zero h = refl
waiting-made k (suc n) h =
    let parts = waiting-append k row (init_handlers n) in
    omega (arith, parts, waiting-row k h, waiting-made k n h)

-- From the start of the server with `n` objects of each class, whatever requests come, and in
-- whatever order objects answer and are deleted: `n` objects of each class wait for the next
-- request.
pub waiting-init_handlers :
    (n : ℕ) (cs : List Call) (k : Kind)
    → served k ≡ true
    → Steps (init_handlers n) cs
    → waiting k cs ≡ n
waiting-init_handlers n cs k h run =
    (Steps-Serves run (init_handlers-AllPhase n)).1 k ∙ waiting-made k n h
