-- ===== src/Propose/Acceptor.antt =====
-- A backup as an acceptor: `HandlePropose` (src/paxos_node.cpp) against what was promised.
use multi_paxos_distributed.Prelude.Map.{find, has, find-insert, has-find, has-insert}
use multi_paxos_distributed.Prelude.{
  ℕ, ◌≡◌, refl, sym, ap, ◌∙◌, arith, true, false, some, ◌==◌, inl, inr, Bool-cases, ==_iff,
}
use multi_paxos_distributed.Ballot.{gt, lt, ge}
use multi_paxos_distributed.Ballot.Order.{ge_refl, gt-asym, not_lt→ge, eq_of_neither}
use multi_paxos_distributed.Message.{AcceptedEntry, Ack, no_ack}
use multi_paxos_distributed.Node.{Node, is_leader}
use multi_paxos_distributed.Timer.{reset_election_timer}
use multi_paxos_distributed.Leadership.{set_new_leader}
use multi_paxos_distributed.Propose.{store_entry, accept_entry, handle_propose, learn_leader}

pub reset-fields :
    (now : ℕ) (s : Node)
    → let s' = reset_election_timer now s in
      (s'.highest_promised_ballot ≡ s.highest_promised_ballot)
      × (s'.accept_log ≡ s.accept_log)
      × (s'.pending_entries ≡ s.pending_entries)
      × (s'.role ≡ s.role)
unfolding reset_election_timer
reset-fields now s = ground arith

-- The promise of a node that handles the Accept `request`: it never falls; a lower ballot is
-- refused and changes nothing; an entry that is acknowledged has a ballot no lower than the
-- promise, which becomes that ballot, and is kept for its commit; and the log keeps every entry
-- that it has.
pub record IsHandled (request : AcceptedEntry) (s s' : Node) (ack : Ack) : Type 0 where
  pub still_backup : is_leader s'.role ≡ false
  pub no_lower : ge s'.highest_promised_ballot s.highest_promised_ballot ≡ true
  pub refuses : lt request.ballot s.highest_promised_ballot ≡ true → ack.accepted ≡ false
  pub unchanged : request.new_leader ≡ 0 → ack.accepted ≡ false → s' ≡ s
  pub promised : ack.accepted ≡ true → s'.highest_promised_ballot ≡ request.ballot
  pub kept :
      ack.accepted ≡ true
      → (find request.seqnum s'.pending_entries ≡ some request)
        × (has request.seqnum s'.accept_log ≡ true)
  pub log_grows :
      (k : ℕ) (e : AcceptedEntry) → find k s.accept_log ≡ some e → find k s'.accept_log ≡ some e

refused-IsHandled :
    (request : AcceptedEntry) (s : Node) (ack : Ack)
    → is_leader s.role ≡ false
    → ack.accepted ≡ false
    → IsHandled request s s ack
refused-IsHandled request s ack b no_ack = record {
  still_backup = b;
  no_lower = ge_refl s.highest_promised_ballot;
  refuses = λ h. no_ack;
  unchanged = λ h k. refl;
  promised = λ h. absurd (cc);
  kept = λ h. absurd (cc);
  log_grows = λ k e f. f;
}

store-kept :
    (request : AcceptedEntry) (p : Node)
    → let p' = store_entry request p in
      (find request.seqnum p'.pending_entries ≡ some request)
      × (has request.seqnum p'.accept_log ≡ true)
unfolding store_entry
store-kept request p = (
  ground (arith, find-insert request.seqnum request.seqnum request p.pending_entries),
  ground (arith, has-insert request.seqnum request.seqnum request p.accept_log),
)

store-log :
    (request : AcceptedEntry) (p : Node) (k : ℕ) (e : AcceptedEntry)
    → find k p.accept_log ≡ some e
    → find k (store_entry request p).accept_log ≡ some e
unfolding store_entry
store-log request p k e f = elim (Bool-cases (has request.seqnum p.accept_log)) [
  | inl old ↦ rw old f
  | inr new ↦ elim (Bool-cases (request.seqnum == k)) [
    | inl here ↦ absurd (
        cc (
          f,
          has-find request.seqnum p.accept_log new,
          ap (λ i. find i p.accept_log) ((==_iff request.seqnum k).0 here),
        ))
    | inr there ↦ rw (new, find-insert request.seqnum k request p.accept_log, there) f
  ]
]

-- Once the ballot is promised the entry is stored.
stored-IsHandled :
    (now : ℕ) (request : AcceptedEntry) (s p : Node) (ack : Ack)
    → is_leader p.role ≡ false
    → lt request.ballot s.highest_promised_ballot ≡ false
    → p.highest_promised_ballot ≡ request.ballot
    → p.accept_log ≡ s.accept_log
    → ack.accepted ≡ true
    → IsHandled request s (reset_election_timer now (store_entry request p)) ack
unfolding store_entry
stored-IsHandled now request s p ack b low ballot log acks =
    let r = reset-fields now (store_entry request p) in
    let same = r.0 ∙ ballot in
    record {
      still_backup = ap is_leader r.3 ∙ b;
      no_lower = rw same (not_lt→ge request.ballot s.highest_promised_ballot low);
      refuses = λ h. absurd (cc);
      unchanged = λ h k. absurd (cc);
      promised = λ h. same;
      kept = λ h. (
        ap (find request.seqnum) r.2 ∙ (store-kept request p).0,
        ap (has request.seqnum) r.1 ∙ (store-kept request p).1,
      );
      log_grows = λ k e f. ap (find k) r.1 ∙ store-log request p k e (ap (find k) log ∙ f);
    }

accept-IsHandled :
    (now : ℕ) (request : AcceptedEntry) (s : Node)
    → is_leader s.role ≡ false
    → IsHandled request s (accept_entry now request s).0 (accept_entry now request s).1
unfolding accept_entry
accept-IsHandled now request s b = elim (Bool-cases (lt request.ballot s.highest_promised_ballot)) [
  | inl low ↦ rw low (refused-IsHandled request s _ b refl)
  | inr high ↦ elim (Bool-cases (gt request.ballot s.highest_promised_ballot)) [
    | inl up ↦
        rw (high, up)
          (stored-IsHandled now request s
            (set_new_leader request.ballot.node_id request.ballot.counter s) _ b high refl refl
            refl)
    | inr level ↦
        rw (high, level)
          (stored-IsHandled now request s s _ b high
            (sym (eq_of_neither request.ballot s.highest_promised_ballot level high)) refl refl)
  ]
]

learned-IsHandled :
    (request : AcceptedEntry) (s : Node)
    → is_leader s.role ≡ false
    → (request.new_leader == 0) ≡ false
    → IsHandled request s (learn_leader request.new_leader s) no_ack
unfolding learn_leader
learned-IsHandled request s b other = record {
  still_backup = b;
  no_lower = ge_refl s.highest_promised_ballot;
  refuses = λ h. refl;
  unchanged = λ h k. absurd (ground arith);
  promised = λ h. absurd (cc);
  kept = λ h. absurd (cc);
  log_grows = λ k e f. f;
}

-- A backup handles every Accept without a fault and stays a backup. Its promise never falls; a
-- ballot lower than the promise is refused; a refused Accept that announces no leader changes
-- nothing; an acknowledged entry has its ballot promised, is pending for its commit, and the log
-- has an entry at its sequence number; and no entry of the log is lost or replaced.
pub handle_propose-IsHandled :
    (now : ℕ) (request : AcceptedEntry) (s : Node)
    → is_leader s.role ≡ false
    → (r : Node × Ack) × (handle_propose now request s ≡ some r) × IsHandled request s r.0 r.1
unfolding handle_propose
handle_propose-IsHandled now request s b = elim (Bool-cases s.alive) [
  | inr dead ↦ ((s, no_ack), rw dead, refused-IsHandled request s no_ack b refl)
  | inl live ↦ elim (Bool-cases (request.new_leader == 0)) [
    | inl own ↦ (accept_entry now request s, rw (live, own, b), accept-IsHandled now request s b)
    | inr other ↦ (
      (learn_leader request.new_leader s, no_ack),
      rw (live, other),
      learned-IsHandled request s b other,
    )
  ]
]

-- A live backup whose log has an entry at a sequence number keeps that entry in its log when it
-- acknowledges another one there with a ballot higher than its promise.
acknowledged_not_logged :
    (now : ℕ) (request old : AcceptedEntry) (s : Node)
    → is_leader s.role ≡ false
    → s.alive ≡ true
    → request.new_leader ≡ 0
    → gt request.ballot s.highest_promised_ballot ≡ true
    → find request.seqnum s.accept_log ≡ some old
    → (r : Node × Ack) × (handle_propose now request s ≡ some r)
      × (r.1.accepted ≡ true)
      × (find request.seqnum r.0.accept_log ≡ some old)
unfolding handle_propose
acknowledged_not_logged now request old s b live own up f =
    let low = gt-asym request.ballot s.highest_promised_ballot up in
    let handled = accept-IsHandled now request s b in
    (accept_entry now request s, rw (live, own, b), rw low, handled.log_grows request.seqnum old f)
