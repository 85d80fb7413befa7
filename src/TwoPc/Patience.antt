-- ===== src/TwoPc/Patience.antt =====
-- One entry of the loop in `TransactionRetryLoop` (src/paxos_node.cpp): how often a PREPARE is sent.
use multi_paxos_distributed.Prelude.Map.{find, find-insert_same}
use multi_paxos_distributed.Prelude.{
  ℕ, ◌<◌, ◌≡◌, ◌≢◌, refl, arith, true, false, some, ◌==◌, Option, none, [], ◌∷◌, ◌++◌, map, if_yes,
  update, Bool-cases, inl, inr, lt→ltb, ==_iff,
}
use multi_paxos_distributed.Account.{stoi}
use multi_paxos_distributed.Message.{AcceptedEntry, a_coord}
use multi_paxos_distributed.Node.{
  Node, InFlightTransaction, emit, send_request, send_accept, broadcast, cluster_peers,
}
use multi_paxos_distributed.TwoPc.{write_slot}
use multi_paxos_distributed.TwoPc.Retry.{is_due, retry_one, handle_prepared_timeout}

abbrev prepare_at : ℕ → Node → InFlightTransaction
prepare_at index s = let prepares = s.in_flight_prepares in prepares.slot index

-- After a round at an overdue entry: it is not overdue any more. If it was not retried before, it has
-- been now, and its request is the one message that goes out, to the leader of the cluster of
-- `receiver`; else it is completed, the abort is logged, and an Accept of that entry is what goes out,
-- to each other node of the cluster.
pub record IsPatient (now index receiver : ℕ) (s s' : Node) : Type 0 where
  pub not_due : is_due now (prepare_at index s') ≡ false
  pub once :
      (prepare_at index s).retries ≡ 0
      → ((prepare_at index s').retries ≡ 1)
        × (s'.out
            ≡ s.out
              ++ send_request
                  (s.cluster_leaders (s.ledger.shard_map receiver))
                  (prepare_at index s).msg.m
                ∷ [])
  pub then_aborts :
      (prepare_at index s).retries ≢ 0
      → ((prepare_at index s').completed ≡ true)
        × ((e : AcceptedEntry) × (find
                (s.dedup.digest (prepare_at index s).msg.m.timestamp)
                s'.accept_log
              ≡ some e)
            × (e.two_pc_status ≡ a_coord)
            × (s'.out ≡ s.out ++ map (λ peer. send_accept peer e) (cluster_peers s.topology)))

module _ (now index receiver : ℕ) (s : Node) where
  -- The node with the entry changed.
  abbrev changed : (InFlightTransaction → InFlightTransaction) → Node
  changed change =
      let v = s.in_flight_prepares in
      record s {
        in_flight_prepares = record v { slot = update v.slot index (change (v.slot index)) };
      }

  abbrev again_sent : Node
  again_sent =
      emit
        (send_request (s.cluster_leaders (s.ledger.shard_map receiver)) (prepare_at index s).msg.m)
        (changed (λ e. record e { retries = 1; last_send = now }))

  abbrev gave_up : Option Node
  gave_up =
      handle_prepared_timeout (prepare_at index s).msg.m.timestamp
        (changed (λ e. record e { completed = true }))

  sent-IsPatient : (prepare_at index s).retries ≡ 0 → IsPatient now index receiver s again_sent
  unfolding update is_due emit
  sent-IsPatient fresh = record {
    not_due = ground arith;
    once = λ h. (ground arith, refl);
    then_aborts = λ h. absurd (h fresh);
  }

  gave_up-IsPatient :
      (prepare_at index s).msg.m.timestamp < s.in_flight_prepares.size
      → (prepare_at index s).retries ≢ 0
      → (s' : Node) × (gave_up ≡ some s') × IsPatient now index receiver s s'
  unfolding update is_due handle_prepared_timeout broadcast
  gave_up-IsPatient room old = (
    _,
    if_yes _ _ none (lt→ltb _ _ room),
    record {
      not_due = ground arith;
      once = λ h. absurd (old h);
      then_aborts = λ h. (ground arith, (_, find-insert_same _ _ _, refl, refl));
    },
  )

  -- An overdue PREPARE, to an account that can be read, with a timestamp below the size of the vector.
  -- The first time it is sent once more, to the leader that the node knows of the receiver's cluster.
  -- The next time it is given up: the abort is logged at the sequence number of its timestamp, and sent
  -- in an Accept to each other node of the cluster. Nothing else is sent, neither faults, and the entry
  -- is not overdue afterwards.
  pub retry_one-IsPatient :
      index < s.in_flight_prepares.size
      → (prepare_at index s).msg.m.timestamp < s.in_flight_prepares.size
      → stoi (prepare_at index s).msg.m.to_account ≡ some receiver
      → is_due now (prepare_at index s) ≡ true
      → (s' : Node) × (retry_one now index s ≡ some s') × IsPatient now index receiver s s'
  unfolding retry_one
  retry_one-IsPatient room known to due = elim (Bool-cases ((prepare_at index s).retries == 0)) [
    | inl fresh ↦ (
      again_sent,
      rw (due, fresh, lt→ltb _ _ room, to, retry_one, write_slot),
      sent-IsPatient ((==_iff _ _).0 fresh),
    )
    | inr old ↦
        let (s', run, done) = gave_up-IsPatient known (λ h. ground arith) in
        (s', rw (due, old, lt→ltb _ _ room, retry_one, write_slot, run), done)
  ]
