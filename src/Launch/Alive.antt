-- ===== src/Launch/Alive.antt =====
-- `SendAliveUpdateAsync` of src/node_launch.cpp, and what the nodes make of it.
use multi_paxos_distributed.Prelude.{
  ℕ, ◌≡◌, refl, ap, ◌∙◌, inl, inr, Bool, Bool-cases, true, false, not, ◌||◌, Option, none, some,
  List, [], ◌∷◌, if◌then◌else◌, contains, ◌>>=◌, if_cases, if_keeps, arith, ==_iff, ◌==◌,
}
use multi_paxos_distributed.Prelude.Map.{find}
use multi_paxos_distributed.Ledger.Recovery.{demote_wal, wal_loop}
use multi_paxos_distributed.Node.{Node, is_leader, emit, respond_new_view}
use multi_paxos_distributed.Timer.{stop_heartbeat, stop_election_timer}
use multi_paxos_distributed.Leadership.{demote_to_backup, kill, revive}
use multi_paxos_distributed.NewView.{respond_and_clear_new_view}
use multi_paxos_distributed.Admin.{
  AliveUpdateRequest, reset_ledger, reset_node, change_alive, handle_set_alive,
}

-- The request of `AliveAsyncCall` (src/call_data.cpp), without a new shard map.
unfoldable pub alive_request : Bool → Bool → Bool → Bool → Bool → AliveUpdateRequest
alive_request is_alive kill_leader recover prompt_pause reset_state = record {
  is_alive = is_alive;
  kill_leader = kill_leader;
  prompt_pause = prompt_pause;
  recover = recover;
  reset_state = reset_state;
  reshard = false;
  shard_map = [];
}

-- A call to each node of `stubs`.
unfoldable pub update_all : List ℕ → List ℕ → Bool → Bool → List (ℕ × AliveUpdateRequest)
unfolding alive_request contains
update_all alive_nodes [] prompt_user reset_state = []
update_all alive_nodes (id ∷ stubs) prompt_user reset_state =
    (id, alive_request (contains alive_nodes id) false false prompt_user reset_state)
    ∷ update_all alive_nodes stubs prompt_user reset_state

-- `SendAliveUpdateAsync`; `none` where `stubs.at(mod_node)` throws.
unfoldable pub send_alive_update :
    List ℕ → List ℕ → Bool → Bool → ℕ → Bool → Bool → Option (List (ℕ × AliveUpdateRequest))
unfolding update_all alive_request contains
send_alive_update alive_nodes stubs fail recover mod_node prompt_user reset_state =
    if fail || recover
    then (if contains stubs mod_node
        then some ((mod_node, alive_request (not fail) fail recover prompt_user reset_state) ∷ [])
        else none)
    else some (update_all alive_nodes stubs prompt_user reset_state)

abbrev Becomes : Bool → Option Node → Type 0
Becomes b o = (s : Node) × ((o ≡ some s) × (s.alive ≡ b))

-- After a reset the node is a backup whose write-ahead log is empty, so that it can step down.
rejoins :
    (s : Node)
    → Becomes true
        (demote_to_backup (reset_node s) >>= λ d. some (revive (record d { leader_id = none })))
unfolding demote_to_backup demote_wal wal_loop reset_node reset_ledger revive
rejoins s = (_, (refl, refl))

stopped-alive : (u : Node) → (stop_election_timer u).alive ≡ u.alive
unfolding stop_election_timer
stopped-alive u =
    if_keeps (λ (v : Node). v.alive ≡ u.alive) u.timer_running
      (record u { timer_running = false; election_reset = true }) u refl refl

backup_leaves : (u : Node) → is_leader u.role ≡ false → Becomes false (kill u)
unfolding kill
backup_leaves u h =
    if_cases (Becomes false) (is_leader u.role) _ _ (λ leads. absurd (ground (arith, h, leads)))
      (λ follows. (
        stop_election_timer (record u { alive = false }),
        (refl, stopped-alive (record u { alive = false })),
      ))

answered-role : (s : Node) → (respond_and_clear_new_view s).role ≡ s.role
unfolding respond_and_clear_new_view emit
answered-role s =
    elim s.newview_call_data
      as (λ o.
        (elim o as (λ x. Node) [
          | none ↦ s
          | some call ↦ emit (respond_new_view call) (record s { newview_call_data = none })
        ]).role
        ≡ s.role) [ none ↦ refl | some call ↦ refl ]

leaves : (s : Node) → Becomes false (kill (respond_and_clear_new_view (reset_node s)))
unfolding reset_node is_leader
leaves s =
    backup_leaves (respond_and_clear_new_view (reset_node s))
      (ap is_leader (answered-role (reset_node s)))

reset_alive : (s : Node) → (reset_node s).alive ≡ s.alive
unfolding reset_node stop_heartbeat
reset_alive s = refl

change_alive-Becomes :
    (b : Bool) (s : Node)
    → Becomes b (change_alive (alive_request b false false false true) s.alive (reset_node s))
unfolding change_alive alive_request revive
change_alive-Becomes true s =
    if_cases (Becomes true) (if (reset_node s).alive_before_prompt then false else true) _ _
      (λ before. rejoins s)
      (λ joined.
        if_cases (Becomes true) s.alive _ _ (λ up. (reset_node s, (refl, reset_alive s ∙ up)))
          (λ down. (revive (reset_node s), (refl, refl))))
change_alive-Becomes false s =
    if_cases (Becomes false) s.alive _ _ (λ up. leaves s)
      (λ down. (reset_node s, (refl, reset_alive s ∙ down)))

find-update_all :
    (alive_nodes stubs : List ℕ) (id : ℕ) (prompt_user reset_state : Bool)
    → contains stubs id ≡ true
    → find id (update_all alive_nodes stubs prompt_user reset_state)
      ≡ some (alive_request (contains alive_nodes id) false false prompt_user reset_state)
unfolding find update_all contains
find-update_all alive_nodes [] id prompt_user reset_state h = absurd (cc)
find-update_all alive_nodes (k ∷ stubs) id prompt_user reset_state h = elim (Bool-cases (k == id)) [
  | inl here ↦ rw here (
      ap (λ i. some (alive_request (contains alive_nodes i) false false prompt_user reset_state))
        ((==_iff k id).0 here))
  | inr there ↦
      rw there (find-update_all alive_nodes stubs id prompt_user reset_state (rw there at h))
]

-- The update that starts a set of transactions goes to every node of `stubs`. A node handles it
-- without a fault, whatever its state was, and is then alive exactly if it is one of `alive_nodes`.
pub send_alive_update-handle_set_alive :
    (alive_nodes stubs : List ℕ) (mod_node id : ℕ) (s : Node)
    → contains stubs id ≡ true
    → (r : AliveUpdateRequest) × (((send_alive_update alive_nodes stubs false false mod_node false
              true
            >>= find id)
          ≡ some r)
        × ((t : Node) × ((handle_set_alive r s ≡ some t) × (t.alive ≡ contains alive_nodes id))))
unfolding send_alive_update handle_set_alive
send_alive_update-handle_set_alive alive_nodes stubs mod_node id s h =
    let b = contains alive_nodes id in
    (
      alive_request b false false false true,
      (find-update_all alive_nodes stubs id false true h, change_alive-Becomes b s),
    )
