-- ===== src/Examples/Consensus.antt =====
-- The theorems on consensus, at a cluster of three nodes.
use multi_paxos_distributed.Prelude.Map.{Map}
use multi_paxos_distributed.Prelude.{
  ℕ, ◌≡◌, refl, arith, true, false, some, List, [], ◌∷◌, contains,
}
use multi_paxos_distributed.Ballot.{gt, lt}
use multi_paxos_distributed.Message.{
  AcceptedEntry, Ack, PrepareRequest, PromiseResponse, NewViewRequest, unset, no_ack,
}
use multi_paxos_distributed.Log.{merge_log, fill_missing}
use multi_paxos_distributed.Log.Merge.{IsMerge, merge_log-IsMerge}
use multi_paxos_distributed.Log.NoOps.{IsFilled, fill_missing-IsFilled}
use multi_paxos_distributed.Node.{Node, is_leader}
use multi_paxos_distributed.Topology.{make_topology}
use multi_paxos_distributed.Quorum.Votes.{IsCounted, Outcome, handle_accept-Outcome}
use multi_paxos_distributed.Quorum.Intersection.{quorums_meet}
use multi_paxos_distributed.Propose.{handle_propose}
use multi_paxos_distributed.Propose.Acceptor.{IsHandled, handle_propose-IsHandled}
use multi_paxos_distributed.Election.{fill_no_ops, merge_promises}
use multi_paxos_distributed.Election.Promises.{
  PromiseOutcome, handle_promise-PromiseOutcome, IsComplete, new_view-IsComplete,
}
use multi_paxos_distributed.Acceptor.{here, next, beats, promise_binds}
use multi_paxos_distributed.Timer.{handle_heartbeat}
use multi_paxos_distributed.NewView.{adopt_all, handle_new_view}
use multi_paxos_distributed.NewView.Adoption.{IsAdopted, adopt_all-IsAdopted}
use multi_paxos_distributed.NewView.Stale.{stale_view_lowers}
use multi_paxos_distributed.Examples.Data.{follower, chief, inside, across, ballot_of, entry_of}

abbrev six : List ℕ
six = 1 ∷ 2 ∷ 3 ∷ 4 ∷ 5 ∷ 6 ∷ []

abbrev stale : AcceptedEntry
stale = entry_of 1 (ballot_of 2 3) inside unset

abbrev fresh : AcceptedEntry
fresh = entry_of 1 (ballot_of 4 1) across unset

promise_binds_example :
    (r : Node × Ack) × (handle_propose 9 stale (handle_heartbeat 5 follower) ≡ some r)
    × (r.1.accepted ≡ false)
    × (stale.new_leader ≡ 0 → r.0 ≡ handle_heartbeat 5 follower)
unfolding is_leader lt gt
promise_binds_example =
    promise_binds 9 stale follower (handle_heartbeat 5 follower) refl (next here (beats 5)) refl

handle_propose-IsHandled_example :
    (r : Node × Ack) × (handle_propose 9 fresh follower ≡ some r) × IsHandled fresh follower r.0 r.1
unfolding is_leader
handle_propose-IsHandled_example = handle_propose-IsHandled 9 fresh follower refl

abbrev prepare : PrepareRequest
prepare = record { ballot = ballot_of 4 3; node_id = 3 }

-- A log that has another entry at the sequence number 1.
abbrev logged : Node
logged = record follower { accept_log = (1, stale) ∷ [] }

merge_log-IsMerge_example :
    IsMerge ((1, stale) ∷ []) (fresh ∷ []) (merge_log ((1, stale) ∷ []) (fresh ∷ []))
merge_log-IsMerge_example = merge_log-IsMerge ((1, stale) ∷ []) (fresh ∷ [])

abbrev gap : Map AcceptedEntry
gap = (2, entry_of 2 (ballot_of 2 3) inside unset) ∷ []

fill_missing-IsFilled_example :
    IsFilled (ballot_of 4 1) 1 2 gap (fill_missing (ballot_of 4 1) 1 2 gap)
fill_missing-IsFilled_example = fill_missing-IsFilled (ballot_of 4 1) 1 2 gap

-- A candidate that has received one promise besides its own.
abbrev candidate : Node
candidate = record logged {
  waiting_for_promises = true;
  promises_received = 2 ∷ [];
  received_promise_logs = (3, fresh ∷ []) ∷ [];
}

abbrev promise : PromiseResponse
promise = record { ballot = ballot_of 4 2; node_id = 3; promised = true; accept_log = fresh ∷ [] }

handle_promise-PromiseOutcome_example : PromiseOutcome 9 promise candidate
unfolding contains
handle_promise-PromiseOutcome_example = handle_promise-PromiseOutcome 9 promise candidate (refl, tt)

new_view-IsComplete_example : IsComplete candidate (fill_no_ops (merge_promises candidate))
new_view-IsComplete_example = new_view-IsComplete candidate

-- An acknowledgement of node 3, at a leader that has its own vote.
abbrev ack : Ack
ack = record no_ack { ballot = ballot_of 3 1; node_id = 3; accepted = true; seqnum = 1 }

abbrev one_vote : Node
one_vote = record chief { accepted_count = λ i j. 2 ∷ [] }

one_vote-IsCounted : IsCounted one_vote
unfolding contains
one_vote-IsCounted = record { first = λ i j. (refl, tt); second = λ i j. tt }

handle_accept-Outcome_example : Outcome 9 ack one_vote
handle_accept-Outcome_example = handle_accept-Outcome 9 ack one_vote one_vote-IsCounted

quorums_meet_example : (a : ℕ) × (contains (1 ∷ 2 ∷ []) a ≡ true) × (contains (2 ∷ 3 ∷ []) a ≡ true)
unfolding make_topology contains
quorums_meet_example =
    quorums_meet 2 2 six (1 ∷ 2 ∷ []) (2 ∷ 3 ∷ []) refl (refl, (refl, tt)) (refl, (refl, tt))
      (omega arith, omega arith, (omega arith, omega arith, tt))
      (omega arith, omega arith, (omega arith, omega arith, tt)) (omega arith) (omega arith)

adopt_all-IsAdopted_example :
    IsAdopted ((1, stale) ∷ []) (fresh ∷ []) (adopt_all (fresh ∷ []) ((1, stale) ∷ []))
adopt_all-IsAdopted_example = adopt_all-IsAdopted (fresh ∷ []) ((1, stale) ∷ [])

abbrev stale_view : NewViewRequest
stale_view = record { ballot = ballot_of 2 3; accept_log = stale ∷ [] }

stale_view_lowers_example :
    (s' : Node) × (handle_new_view 9 stale_view 8 follower ≡ some s')
    × (lt s'.highest_promised_ballot follower.highest_promised_ballot ≡ true)
unfolding is_leader lt
stale_view_lowers_example = stale_view_lowers 9 8 stale_view follower refl refl refl refl refl
