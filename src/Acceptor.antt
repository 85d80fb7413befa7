-- ===== src/Acceptor.antt =====
-- A backup over any sequence of Prepares, Accepts, heartbeats and timeouts (`HandlePrepare`,
-- `HandlePropose`, `HandleHeartbeat` and `OnElectionTimeout` of src/paxos_node.cpp), and its
-- promise. New views are left out of the sequences: they overwrite the promise.
use multi_paxos_distributed.Prelude.{
  ℕ, ◌+◌, ◌-◌, ◌≡◌, subst, [], ◌∷◌, leb, ap, ◌∙◌, arith, Bool, true, false, Option, some, inl, inr,
  Bool-cases, if_keeps,
}
use multi_paxos_distributed.Ballot.{Ballot, gt, lt, ge}
use multi_paxos_distributed.Ballot.Order.{ge_refl, gt→ge, ge_trans, lt_of_ge}
use multi_paxos_distributed.Message.{AcceptedEntry, Ack, PrepareRequest}
use multi_paxos_distributed.Node.{Node, is_leader, prepare_cooldown}
use multi_paxos_distributed.Timer.{handle_heartbeat, reset_election_timer}
use multi_paxos_distributed.Propose.{handle_propose}
use multi_paxos_distributed.Propose.Acceptor.{handle_propose-IsHandled, reset-fields}
use multi_paxos_distributed.Election.{
  handle_prepare, send_promise, promise_to, reject_prepare, start_prepare, on_election_timeout,
}

-- What a step of a backup keeps: it stays a backup, and its promise does not fall.
pub record Binds (s s' : Node) : Type 0 where
  pub backup_still : is_leader s'.role ≡ false
  pub no_lower : ge s'.highest_promised_ballot s.highest_promised_ballot ≡ true

send_promise-fields :
    (s : Node)
    → ((send_promise s).role ≡ s.role)
      × ((send_promise s).highest_promised_ballot ≡ s.highest_promised_ballot)
unfolding send_promise
send_promise-fields s = ground arith

promise_to-fields :
    (b : Ballot) (call : ℕ) (expired : Bool) (s : Node)
    → ((promise_to b call expired s).role ≡ s.role)
      × ((promise_to b call expired s).highest_promised_ballot ≡ b)
unfolding promise_to
promise_to-fields b call expired s = ground arith

Binds-refl : (s : Node) → is_leader s.role ≡ false → Binds s s
Binds-refl s b = record { backup_still = b; no_lower = ge_refl s.highest_promised_ballot }

Binds-trans : (s t u : Node) → Binds s t → Binds t u → Binds s u
Binds-trans s t u p q = record {
  backup_still = q.backup_still;
  no_lower =
      ge_trans u.highest_promised_ballot t.highest_promised_ballot s.highest_promised_ballot
        q.no_lower p.no_lower;
}

-- A step that sets the role to an equal one and the promise to a ballot no lower.
Binds-by :
    (s s' : Node) (b : Ballot)
    → is_leader s.role ≡ false
    → s'.role ≡ s.role
    → s'.highest_promised_ballot ≡ b
    → ge b s.highest_promised_ballot ≡ true
    → Binds s s'
Binds-by s s' b back role promise up = record {
  backup_still = ap is_leader role ∙ back;
  no_lower = rw promise up;
}

-- A backup handles every Prepare without a fault; alive, it promises every ballot higher than its
-- promise, and its promise never falls.
handle_prepare-Binds :
    (now call : ℕ) (request : PrepareRequest) (s : Node)
    → is_leader s.role ≡ false
    → (s' : Node) × (handle_prepare now request call s ≡ some s')
      × Binds s s'
      × (s.alive ≡ true
          → gt request.ballot s.highest_promised_ballot ≡ true
          → s'.highest_promised_ballot ≡ request.ballot)
unfolding handle_prepare
handle_prepare-Binds now call request s b = elim (Bool-cases s.alive) [
  | inr dead ↦ (s, rw dead, Binds-refl s b, λ h. absurd (cc))
  | inl live ↦ elim (Bool-cases (gt request.ballot s.highest_promised_ballot)) [
    | inr low ↦ (
      reject_prepare call (record s { last_prepare_received = now }),
      rw (live, low),
      record { backup_still = b; no_lower = ge_refl s.highest_promised_ballot },
      λ h up. absurd (cc),
    )
    | inl up ↦
        let expired = leb prepare_cooldown (now - s.last_leader_msg_received) in
        let electing : Node = record s { last_prepare_received = now; in_election = true } in
        let kept = promise_to-fields request.ballot call expired electing in
        (
          promise_to request.ballot call expired electing,
          rw (live, up, b),
          Binds-by s (promise_to request.ballot call expired electing) request.ballot b kept.0
              kept.1 (gt→ge request.ballot s.highest_promised_ballot up),
          λ h k. kept.1,
        )
  ]
]

start_prepare-Binds :
    (now : ℕ) (b : Ballot) (s : Node) → is_leader s.role ≡ false → Binds s (start_prepare now b s)
unfolding start_prepare
start_prepare-Binds now b s back = elim (Bool-cases (gt b s.highest_promised_ballot)) [
  | inl up ↦ record { backup_still = back; no_lower = rw up (gt→ge b s.highest_promised_ballot up) }
  | inr low ↦ record { backup_still = back; no_lower = rw low (ge_refl s.highest_promised_ballot) }
]

send_promise-Binds : (s : Node) → is_leader s.role ≡ false → Binds s (send_promise s)
send_promise-Binds s b =
    Binds-by s (send_promise s) s.highest_promised_ballot b (send_promise-fields s).0
      (send_promise-fields s).1 (ge_refl s.highest_promised_ballot)

on_election_timeout-Binds :
    (now : ℕ) (s : Node) → is_leader s.role ≡ false → Binds s (on_election_timeout now s)
unfolding on_election_timeout
on_election_timeout-Binds now s b =
    let next : Ballot = record { counter = s.current_ballot.counter + 1; node_id = s.node_id } in
    let candidate : Node = record s {
      waiting_for_promises = true;
      promises_received = s.node_id ∷ [];
    } in
    let sent = send_promise-Binds candidate b in
    let own = start_prepare-Binds now next (send_promise candidate) sent.backup_still in
    let chain = Binds-trans candidate (send_promise candidate) _ sent own in
    rw b (
      if_keeps (Binds s) s.alive _ s
        (if_keeps (Binds s) (leb prepare_cooldown (now - s.last_prepare_received)) _ _
          (record { backup_still = chain.backup_still; no_lower = chain.no_lower })
          (send_promise-Binds s b))
        (Binds-refl s b))

handle_heartbeat-Binds :
    (now : ℕ) (s : Node) → is_leader s.role ≡ false → Binds s (handle_heartbeat now s)
unfolding handle_heartbeat
handle_heartbeat-Binds now s b =
    if_keeps (Binds s) s.alive _ s
      (rw b (
        Binds-by s (reset_election_timer now s) s.highest_promised_ballot b (reset-fields now s).3
          (reset-fields now s).0 (ge_refl s.highest_promised_ballot)))
      (Binds-refl s b)

-- One message or timeout at a backup.
pub data BackupStep : Node → Node → Type 0 where
  prepares :
      {s s' : Node} (now call : ℕ) (request : PrepareRequest)
      → handle_prepare now request call s ≡ some s'
      → BackupStep s s'
  accepts :
      {s s' : Node} (now : ℕ) (request : AcceptedEntry) (ack : Ack)
      → handle_propose now request s ≡ some (s', ack)
      → BackupStep s s'
  beats : {s : Node} (now : ℕ) → BackupStep s (handle_heartbeat now s)
  times_out : {s : Node} (now : ℕ) → BackupStep s (on_election_timeout now s)

pub data Trace (s : Node) : Node → Type 0 where
  here : Trace s s
  next : {t u : Node} → Trace s t → BackupStep t u → Trace s u

same_result :
    {A : Type 0} (P : A → Type 0) (o : Option A) (a b : A) → o ≡ some a → o ≡ some b → P a → P b
same_result P o a b e f p = subst P (cc) p

step-Binds : {s t : Node} → BackupStep s t → is_leader s.role ≡ false → Binds s t
step-Binds {s} {t} (prepares now call request e) b =
    let (s', f, binds, up) = handle_prepare-Binds now call request s b in
    same_result (Binds s) (handle_prepare now request call s) s' t f e binds
step-Binds {s} {t} (accepts now request ack e) b =
    let (r, f, h) = handle_propose-IsHandled now request s b in
    same_result (λ (x : Node × Ack). Binds s x.0) (handle_propose now request s) r (t, ack) f e
      (record { backup_still = h.still_backup; no_lower = h.no_lower })
step-Binds {s} (beats now) b = handle_heartbeat-Binds now s b
step-Binds {s} (times_out now) b = on_election_timeout-Binds now s b

Trace-Binds : {s t : Node} → Trace s t → is_leader s.role ≡ false → Binds s t
Trace-Binds {s} here b = Binds-refl s b
Trace-Binds {s} {t} (next {t = m} r st) b =
    let first = Trace-Binds r b in Binds-trans s m t first (step-Binds st first.backup_still)

-- A promise binds: after any sequence of Prepares, Accepts, heartbeats and timeouts at a backup,
-- an Accept with a ballot lower than the promise at the start is still refused, without a fault
-- (and, unless it only announces a leader, without any change).
pub promise_binds :
    (now : ℕ) (request : AcceptedEntry) (s t : Node)
    → is_leader s.role ≡ false
    → Trace s t
    → lt request.ballot s.highest_promised_ballot ≡ true
    → (r : Node × Ack) × (handle_propose now request t ≡ some r)
      × (r.1.accepted ≡ false)
      × (request.new_leader ≡ 0 → r.0 ≡ t)
promise_binds now request s t b r low =
    let binds = Trace-Binds r b in
    let (res, e, h) = handle_propose-IsHandled now request t binds.backup_still in
    let refused = h.refuses (
      lt_of_ge t.highest_promised_ballot s.highest_promised_ballot request.ballot binds.no_lower
        low) in
    (res, e, refused, λ k. h.unchanged k refused)
