-- ===== src/Examples/Timers.antt =====
-- The theorems on the timer thread and on the ends of calls.
use multi_paxos_distributed.Prelude.{
  ◌+◌, ◌≤◌, ◌≡◌, refl, true, false, some, none, List, [], ◌∷◌, length, contains,
}
use multi_paxos_distributed.Prelude.Map.{insert}
use multi_paxos_distributed.Topology.{make_topology}
use multi_paxos_distributed.Ledger.Recovery.{complete_wal}
use multi_paxos_distributed.Message.{PromiseResponse}
use multi_paxos_distributed.Node.{Node, is_leader}
use multi_paxos_distributed.Election.TimerThread.{
  timer_goes_on, heard_rounds, IsFollowing, IsQuiet, is_first, heard_rounds-IsQuiet,
}
use multi_paxos_distributed.Server.Completions.{
  Event, nothing, completes, prepare_call, heartbeat_call, poll_client_completion_queue, positives,
  leads-positives,
}
use multi_paxos_distributed.Examples.Data.{follower, ballot_of}

abbrev watching : Node
watching = record follower { timer_running = true }

watching-IsFollowing : IsFollowing watching
unfolding is_leader is_first make_topology
watching-IsFollowing = record { alive = refl; follows = refl; running = refl; settled = refl }

heard_rounds-IsQuiet_example :
    IsQuiet watching (heard_rounds ((5, 70) ∷ (90, 160) ∷ []) watching)
    × (timer_goes_on (heard_rounds ((5, 70) ∷ (90, 160) ∷ []) watching) ≡ true)
heard_rounds-IsQuiet_example =
    heard_rounds-IsQuiet ((5, 70) ∷ (90, 160) ∷ []) watching watching-IsFollowing

-- Node 2 stands for election, with its own vote.
abbrev standing : Node
standing = record follower {
  current_ballot = ballot_of 4 2;
  waiting_for_promises = true;
  promises_received = 2 ∷ [];
}

abbrev promise : PromiseResponse
promise = record { ballot = ballot_of 4 2; node_id = 3; promised = true; accept_log = [] }

-- A Prepare that failed, a heartbeat, and a promise.
abbrev ends : List Event
ends =
    completes 5 true false (prepare_call promise)
    ∷ nothing
    ∷ completes 6 true true heartbeat_call
    ∷ completes 9 true true (prepare_call promise)
    ∷ []

abbrev leading : Node
leading = elim (poll_client_completion_queue ends standing) [ none ↦ standing | some t ↦ t ]

it_leads : poll_client_completion_queue ends standing ≡ some leading
unfolding poll_client_completion_queue contains make_topology complete_wal insert
it_leads = refl

has_role : is_leader leading.role ≡ true
unfolding poll_client_completion_queue is_leader contains make_topology complete_wal insert
has_role = refl

leads-positives_example : standing.f + 1 ≤ length standing.promises_received + positives ends
unfolding is_leader contains
leads-positives_example = leads-positives ends standing leading tt refl (refl, tt) it_leads has_role
