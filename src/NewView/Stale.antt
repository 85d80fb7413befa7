-- ===== src/NewView/Stale.antt =====
-- `HandleNewView` (src/paxos_node.cpp) at a backup, and the promise that the backup has made.
use multi_paxos_distributed.Prelude.Map.{Map}
use multi_paxos_distributed.Prelude.{
  ℕ, ◌≡◌, refl, ap, ◌∙◌, arith, true, false, Option, none, some, List, [], ◌∷◌, ◌++◌,
}
use multi_paxos_distributed.Ballot.{lt}
use multi_paxos_distributed.Message.{AcceptedEntry, NewViewRequest}
use multi_paxos_distributed.Ledger.{Ledger}
use multi_paxos_distributed.Ledger.Recovery.{complete_wal, complete_by, wal_loop}
use multi_paxos_distributed.Node.{Node, is_leader}
use multi_paxos_distributed.Timer.{reset_election_timer}
use multi_paxos_distributed.Leadership.{set_new_leader}
use multi_paxos_distributed.Election.{on_election_complete, process_all}
use multi_paxos_distributed.NewView.{replay_entries, adopt_view, handle_new_view}

reset-idle :
    (now : ℕ) (s : Node)
    → let s' = reset_election_timer now s in
      (s'.queued_client_requests ≡ s.queued_client_requests) × (s'.ledger ≡ s.ledger)
unfolding reset_election_timer
reset-idle now s = ground arith

replay-promise :
    (es : List AcceptedEntry) (call : ℕ) (s : Node)
    → (replay_entries es call s).highest_promised_ballot ≡ s.highest_promised_ballot
unfolding replay_entries
replay-promise [] call s = refl
replay-promise (e ∷ es) call s = refl

settles :
    (cluster : ℕ) (log : Map AcceptedEntry) (l : Ledger)
    → l.wal ≡ []
    → complete_wal cluster log l ≡ some l
unfolding complete_wal wal_loop
settles cluster log l wal = ap (λ ws. wal_loop log (complete_by cluster log) ws l) wal

-- The end of an election where nothing is logged or queued.
idle_completes :
    (now l : ℕ) (s : Node)
    → s.leader_id ≡ some l
    → s.queued_client_requests ≡ []
    → s.ledger.wal ≡ []
    → on_election_complete now s
      ≡ some (record s { in_election = false; queued_client_requests = [] })
unfolding on_election_complete process_all
idle_completes now l s lead queue wal =
    let calm : Node = record s { in_election = false; queued_client_requests = [] } in
    rw (settles s.cluster_id s.accept_log s.ledger wal, on_election_complete)
      (by_leader s.leader_id lead)
  where
    by_leader :
        (o : Option ℕ)
        → o ≡ some l
        → elim o [
          | none ↦ some (record s { in_election = false })
          | some x ↦
              process_all now s.queued_client_requests
                (record s { in_election = false; queued_client_requests = [] })
        ]
          ≡ some (record s { in_election = false; queued_client_requests = [] })
    by_leader none e = absurd (cc)
    by_leader (some x) e =
        ap (λ q. process_all now q (record s { in_election = false; queued_client_requests = [] }))
          queue

adopts :
    (now call : ℕ) (view : NewViewRequest) (s : Node)
    → s.queued_client_requests ≡ []
    → s.ledger.wal ≡ []
    → (s' : Node) × (adopt_view now view call s ≡ some s')
      × (s'.highest_promised_ballot ≡ view.ballot)
unfolding adopt_view
adopts now call view s queue wal =
    let followed = set_new_leader view.ballot.node_id view.ballot.counter s in
    let settled : Node = record followed {
      waiting_for_promises = false;
      in_election = false;
      queued_client_requests = [];
    } in
    (
      replay_entries view.accept_log call settled,
      rw (
        idle_completes now view.ballot.node_id (record followed { waiting_for_promises = false })
            refl queue wal,
        adopt_view,
      ),
      replay-promise view.accept_log call settled,
    )

follows :
    (now call : ℕ) (view : NewViewRequest) (s : Node)
    → is_leader s.role ≡ false
    → s.alive ≡ true
    → handle_new_view now view call s
      ≡ adopt_view now view call
          (reset_election_timer now (record s { new_view_logs = s.new_view_logs ++ view ∷ [] }))
unfolding handle_new_view
follows now call view s b live = rw (live, b)

-- A live backup with an empty write-ahead log and no queued request, which gets a new view with a
-- ballot lower than its promise, takes that ballot for its promise: the promise falls.
pub stale_view_lowers :
    (now call : ℕ) (view : NewViewRequest) (s : Node)
    → is_leader s.role ≡ false
    → s.alive ≡ true
    → s.queued_client_requests ≡ []
    → s.ledger.wal ≡ []
    → lt view.ballot s.highest_promised_ballot ≡ true
    → (s' : Node) × (handle_new_view now view call s ≡ some s')
      × (lt s'.highest_promised_ballot s.highest_promised_ballot ≡ true)
stale_view_lowers now call view s b live queue wal low =
    let logged : Node = record s { new_view_logs = s.new_view_logs ++ view ∷ [] } in
    let idle = reset-idle now logged in
    let (s', run, promise) =
      adopts now call view (reset_election_timer now logged) (idle.0 ∙ queue)
        (ap (λ (l : Ledger). l.wal) idle.1 ∙ wal) in
    (
      s',
      follows now call view s b live ∙ run,
      ap (λ p. lt p s.highest_promised_ballot) promise ∙ low,
    )
