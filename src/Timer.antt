-- ===== src/Timer.antt =====
-- The election timer and the heartbeat of src/paxos_node.cpp. The thread of the timer runs while
-- `timer_running` holds, that of the heartbeat while `heartbeat_running` does.
use multi_paxos_distributed.Prelude.{ℕ, true, false, ◌&&◌, if◌then◌else◌}
use multi_paxos_distributed.Node.{Node, is_leader, send_heartbeat, cluster_peers, broadcast}

-- `StartElectionTimer`: only a backup that is alive runs a timer, and one at most.
unfoldable pub start_election_timer : Node → Node
unfolding is_leader
start_election_timer s =
    if is_leader s.role
    then s
    else if s.alive
    then (if s.timer_running then s else record s { timer_running = true; election_reset = false })
    else s

-- `StopElectionTimer`.
unfoldable pub stop_election_timer : Node → Node
stop_election_timer s =
    if s.timer_running then record s { timer_running = false; election_reset = true } else s

-- `ResetElectionTimer`.
unfoldable pub reset_election_timer : ℕ → Node → Node
unfolding start_election_timer
reset_election_timer now s =
    let s₁ : Node = record s { last_leader_msg_received = now; election_reset = true } in
    if s.timer_running then s₁ else start_election_timer s₁

-- `HandleHeartbeat`.
unfoldable pub handle_heartbeat : ℕ → Node → Node
handle_heartbeat now s =
    if s.alive then (if is_leader s.role then s else reset_election_timer now s) else s

-- `StopHeartbeat`.
unfoldable pub stop_heartbeat : Node → Node
stop_heartbeat s = record s { heartbeat_running = false }

-- `StartHeartbeat`.
unfoldable pub start_heartbeat : Node → Node
unfolding stop_heartbeat
start_heartbeat s = record (stop_heartbeat s) { heartbeat_running = true }

-- One round of `HeartbeatLoop`.
unfoldable pub heartbeat_round : Node → Node
unfolding broadcast cluster_peers is_leader
heartbeat_round s =
    if s.heartbeat_running && (s.alive && is_leader s.role)
    then broadcast (λ peer. send_heartbeat peer s.current_ballot) (cluster_peers s.topology) s
    else s
