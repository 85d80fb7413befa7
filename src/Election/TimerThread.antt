-- ===== src/Election/TimerThread.antt =====
-- The thread of `StartElectionTimer` and `GetRandomizedTimeout` (src/paxos_node.cpp). A round waits
-- until `election_reset_` is set or the timeout is over; what follows the wait is one step, on the
-- state at that time. `divisor_` must not be 0, with which the code divides.
use multi_paxos_distributed.Prelude.{
  ℕ, ◌+◌, ◌%◌, ◌≡◌, refl, sym, subst, ◌∙◌, ap, if_yes, if_no, Bool, true, false, ◌&&◌, List, [],
  ◌∷◌, ◌==◌, if◌then◌else◌,
}
use multi_paxos_distributed.Node.{Node, is_leader}
use multi_paxos_distributed.Timer.{reset_election_timer, handle_heartbeat}
use multi_paxos_distributed.Election.{on_election_timeout}
use multi_paxos_distributed.NewView.{respond_and_clear_new_view}

-- `base_timeout_` and `jitter_`.
abbrev pub base_timeout : ℕ
base_timeout = 1000

abbrev pub jitter : ℕ
jitter = 300

-- The first node of a cluster, before any election: it times out soon, and at every reset.
unfoldable pub is_first : Node → Bool
is_first s = s.current_ballot.node_id % s.divisor == 1 && s.current_ballot.counter == 0

-- `GetRandomizedTimeout`, with what `std::uniform_int_distribution` gives for the bounds.
unfoldable pub get_randomized_timeout : (ℕ → ℕ → ℕ) → ℕ
get_randomized_timeout uniform = base_timeout + uniform 0 jitter

-- The timeout of a round.
unfoldable pub round_timeout : (ℕ → ℕ → ℕ) → Node → ℕ
unfolding is_first get_randomized_timeout
round_timeout uniform s = if is_first s then 70 else get_randomized_timeout uniform

-- The test of the loop.
unfoldable pub timer_goes_on : Node → Bool
timer_goes_on s = s.timer_running && s.alive

-- A round after its wait.
unfoldable pub timer_round : ℕ → Node → Node
unfolding is_first on_election_timeout respond_and_clear_new_view
timer_round now s =
    let timed_out = if s.election_reset then is_first s else true in
    let cleared : Node = record s { election_reset = false } in
    if timed_out && s.alive
    then on_election_timeout now (respond_and_clear_new_view cleared)
    else cleared

-- The leader's heartbeats come before the timeout: each round of the thread follows one, at the
-- first time, and wakes at the second.
unfoldable pub heard_rounds : List (ℕ × ℕ) → Node → Node
unfolding handle_heartbeat timer_round
heard_rounds [] s = s
heard_rounds ((heard, now) ∷ rest) s =
    heard_rounds rest (timer_round now (handle_heartbeat heard s))

-- A live backup with a running timer that has seen an election, or is not the first of its cluster.
pub record IsFollowing (s : Node) : Type 0 where
  pub alive : s.alive ≡ true
  pub follows : is_leader s.role ≡ false
  pub running : s.timer_running ≡ true
  pub settled : is_first s ≡ false

-- Nothing that an election changes has changed, and nothing was sent.
pub record IsQuiet (s t : Node) : Type 0 where
  pub ballot : t.current_ballot ≡ s.current_ballot
  pub promised : t.highest_promised_ballot ≡ s.highest_promised_ballot
  pub role : t.role ≡ s.role
  pub candidate : t.waiting_for_promises ≡ s.waiting_for_promises
  pub log : t.accept_log ≡ s.accept_log
  pub sent : t.out ≡ s.out

abbrev after_heartbeat : ℕ → Bool → Node → Node
after_heartbeat heard reset s = record s {
  last_leader_msg_received = heard;
  election_reset = reset;
}

reset-running :
    (heard : ℕ) (s : Node)
    → s.timer_running ≡ true
    → reset_election_timer heard s ≡ after_heartbeat heard true s
unfolding reset_election_timer
reset-running heard s h = if_yes s.timer_running _ _ h

heartbeat-resets :
    (heard : ℕ) (s : Node) → IsFollowing s → handle_heartbeat heard s ≡ after_heartbeat heard true s
unfolding handle_heartbeat
heartbeat-resets heard s h =
    if_yes s.alive (if is_leader s.role then s else reset_election_timer heard s) s h.alive
    ∙ if_no (is_leader s.role) s (reset_election_timer heard s) h.follows
    ∙ reset-running heard s h.running

round-waits :
    (now heard : ℕ) (s : Node)
    → IsFollowing s
    → timer_round now (after_heartbeat heard true s) ≡ after_heartbeat heard false s
unfolding timer_round is_first
round-waits now heard s h = if_no (is_first s && s.alive) _ _ (rw h.settled refl)

heard-round :
    (heard now : ℕ) (s : Node)
    → IsFollowing s
    → timer_round now (handle_heartbeat heard s) ≡ after_heartbeat heard false s
heard-round heard now s h =
    ap (timer_round now) (heartbeat-resets heard s h) ∙ round-waits now heard s h

after_heartbeat-IsFollowing :
    (heard : ℕ) (s : Node) → IsFollowing s → IsFollowing (after_heartbeat heard false s)
unfolding is_first
after_heartbeat-IsFollowing heard s h = record {
  alive = h.alive;
  follows = h.follows;
  running = h.running;
  settled = h.settled;
}

-- While the leader is heard in every round of its timer, a live backup that is not the first of its
-- cluster in the initial ballot stays one: however many rounds there are, its ballot, its promise, its
-- role, its log and whether it stands for election are unchanged, it sends nothing, and its timer runs on.
pub heard_rounds-IsQuiet :
    (times : List (ℕ × ℕ)) (s : Node)
    → IsFollowing s
    → IsQuiet s (heard_rounds times s) × (timer_goes_on (heard_rounds times s) ≡ true)
unfolding heard_rounds timer_goes_on
heard_rounds-IsQuiet [] s h = (
  record { ballot = refl; promised = refl; role = refl; candidate = refl; log = refl; sent = refl },
  rw h.running h.alive,
)
heard_rounds-IsQuiet ((heard, now) ∷ rest) s h =
    subst (λ u. IsQuiet s (heard_rounds rest u) × (timer_goes_on (heard_rounds rest u) ≡ true))
      (sym (heard-round heard now s h))
      (let ih =
          heard_rounds-IsQuiet rest (after_heartbeat heard false s)
            (after_heartbeat-IsFollowing heard s h) in
        (
          record {
            ballot = ih.0.ballot;
            promised = ih.0.promised;
            role = ih.0.role;
            candidate = ih.0.candidate;
            log = ih.0.log;
            sent = ih.0.sent;
          },
          ih.1,
        ))
