-- ===== src/Request/Locks.antt =====
-- The account locks of a transfer at the leader: `ProcessClientRequest` (src/paxos_node.cpp).
use multi_paxos_distributed.Prelude.{
  ℕ, ◌<◌, ◌≡◌, ◌≢◌, refl, ap, ◌∙◌, arith, Bool, true, false, some, ◌==◌, update, ==_iff, ◌++◌, [],
  ◌∷◌, Bool-cases, inl, inr, lt→ltb,
}
use multi_paxos_distributed.Account.{stoi}
use multi_paxos_distributed.Message.{ClientRequest, TwoPcMsg, no_two_pc_msg, coord, unset}
use multi_paxos_distributed.Node.{Node, Call, emit, respond, send_request}
use multi_paxos_distributed.TwoPc.{write_slot}
use multi_paxos_distributed.Request.{
  Locking, refused, locked, lock_own, propose_locked, transfer_request, is_prepare, with_ledger,
  ask_participant,
}
use multi_paxos_distributed.Request.Dedup.{IsProposed, propose-IsProposed}

-- The state in which a request is left undone: no sequence number is taken, no timestamp learned,
-- and every lock is as it was.
pub record IsUndone (s s' : Node) : Type 0 where
  pub same_seqnum : s'.last_seqnum ≡ s.last_seqnum
  pub same_log : s'.accept_log ≡ s.accept_log
  pub same_seen : s'.dedup.seen ≡ s.dedup.seen
  pub same_locks : (k : ℕ) → s'.ledger.locks k ≡ s.ledger.locks k

-- The locks of a request between `sender` and `receiver` are taken: those that were free.
pub record IsLocked (sender receiver : ℕ) (s s' : Node) : Type 0 where
  pub was_free : s.ledger.locks sender ≡ false
  pub sender_held : s'.ledger.locks sender ≡ true
  pub both :
      (s.ledger.shard_map sender == s.ledger.shard_map receiver) ≡ true
      → (s.ledger.locks receiver ≡ false) × (s'.ledger.locks receiver ≡ true)
  pub receiver_kept :
      (s.ledger.shard_map sender == s.ledger.shard_map receiver) ≡ false
      → s'.ledger.locks receiver ≡ s.ledger.locks receiver
  pub others : (k : ℕ) → k ≢ sender → k ≢ receiver → s'.ledger.locks k ≡ s.ledger.locks k
  pub same_balances : s'.ledger.accounts ≡ s.ledger.accounts
  pub same_dedup : s'.dedup ≡ s.dedup
  pub same_seqnum : s'.last_seqnum ≡ s.last_seqnum

-- What stands in the way of a transfer: the sender is locked, or, in one shard, the receiver is, or is the
-- sender itself.
pub data Blocked (sender receiver : ℕ) (s : Node) : Type 0 where
  sender_busy : s.ledger.locks sender ≡ true → Blocked sender receiver s
  receiver_busy :
      (s.ledger.shard_map sender == s.ledger.shard_map receiver) ≡ true
      → s.ledger.locks receiver ≡ true
      → Blocked sender receiver s
  to_itself : sender ≡ receiver → Blocked sender receiver s

-- How the attempt on the locks ends: undone, or with the locks that the entry's status needs.
pub data LockOutcome (sender receiver : ℕ) (s : Node) : Locking → Type 0 where
  undone :
      {s' : Node}
      → Blocked sender receiver s
      → s'.out ≡ s.out
      → IsUndone s s'
      → LockOutcome sender receiver s (refused s')
  one_shard :
      {s' : Node}
      → (s.ledger.shard_map sender == s.ledger.shard_map receiver) ≡ true
      → IsLocked sender receiver s s'
      → LockOutcome sender receiver s (locked unset s')
  cross_shard :
      {s' : Node}
      → (s.ledger.shard_map sender == s.ledger.shard_map receiver) ≡ false
      → IsLocked sender receiver s s'
      → LockOutcome sender receiver s (locked coord s')

-- A transfer that is blocked is answered and left undone; one that is not is proposed with its locks taken.
pub data Transferred (sender receiver : ℕ) (request : ClientRequest) (call : Call) (s s' : Node)
    : Type 0 where
  dropped :
      Blocked sender receiver s
      → IsUndone s s'
      → s'.out ≡ s.out ++ respond call ∷ []
      → Transferred sender receiver request call s s'
  in_shard :
      {m : Node}
      → (s.ledger.shard_map sender == s.ledger.shard_map receiver) ≡ true
      → IsLocked sender receiver s m
      → IsProposed unset request call m s'
      → Transferred sender receiver request call s s'
  across_shards :
      {m : Node}
      → (s.ledger.shard_map sender == s.ledger.shard_map receiver) ≡ false
      → IsLocked sender receiver s m
      → IsProposed coord request call m s'
      → Transferred sender receiver request call s s'

module _ (now sender receiver : ℕ) (request : ClientRequest) (s : Node) where
  abbrev with_locks : (ℕ → Bool) → Node
  with_locks f = with_ledger (record s.ledger { locks = f }) s

  abbrev one : ℕ → Bool
  one = update s.ledger.locks sender true

  back : s.ledger.locks sender ≡ false → (k : ℕ) → update one sender false k ≡ s.ledger.locks k
  unfolding update
  back free k = ground arith

  one_sender : one sender ≡ true
  unfolding update
  one_sender = ground arith

  one_other : (k : ℕ) → k ≢ sender → one k ≡ s.ledger.locks k
  unfolding update
  one_other k not_sender = ground arith

  abbrev two : ℕ → Bool
  two = update one receiver true

  two_sender : two sender ≡ true
  unfolding update
  two_sender = ground arith

  two_receiver : two receiver ≡ true
  unfolding update
  two_receiver = ground arith

  two_other : (k : ℕ) → k ≢ sender → k ≢ receiver → two k ≡ s.ledger.locks k
  unfolding update
  two_other k not_sender not_receiver = ground arith

  two_free : one receiver ≡ false → s.ledger.locks receiver ≡ false
  unfolding update
  two_free open_lock = ground arith

  held_by :
      (s.ledger.shard_map sender == s.ledger.shard_map receiver) ≡ true
      → one receiver ≡ true
      → Blocked sender receiver s
  unfolding update
  held_by same held = elim (Bool-cases (sender == receiver)) [
    | inl itself ↦ to_itself ((==_iff sender receiver).0 itself)
    | inr other ↦ receiver_busy same (ground arith)
  ]

  -- The node once it has asked the participant.
  abbrev asked : Node
  asked =
      let m = with_locks one in
      let r : ClientRequest = record request { two_pc_msg = "PREPARE"; from_node = s.node_id } in
      let msg : TwoPcMsg = record no_two_pc_msg { m = r } in
      let slots = s.in_flight_prepares in
      emit (send_request (s.cluster_leaders (s.ledger.shard_map receiver)) r) (record m {
        in_flight_prepares = record slots {
          slot = update slots.slot request.timestamp (
              let e = slots.slot request.timestamp in
              record e { msg = msg; last_send = now; sent = true });
        };
      })

  both-IsLocked :
      s.ledger.locks sender ≡ false
      → (s.ledger.shard_map sender == s.ledger.shard_map receiver) ≡ true
      → one receiver ≡ false
      → IsLocked sender receiver s (with_locks two)
  unfolding with_ledger
  both-IsLocked free same open_lock = record {
    was_free = free;
    sender_held = two_sender;
    both = λ known. (two_free open_lock, two_receiver);
    receiver_kept = λ differ. absurd (cc (same, differ));
    others = λ k not_sender not_receiver. two_other k not_sender not_receiver;
    same_balances = refl;
    same_dedup = refl;
    same_seqnum = refl;
  }

  sender-IsLocked :
      s.ledger.locks sender ≡ false
      → (s.ledger.shard_map sender == s.ledger.shard_map receiver) ≡ false
      → (m : Node) → m.ledger.locks ≡ one
      → m.ledger.accounts ≡ s.ledger.accounts
      → m.dedup ≡ s.dedup
      → m.last_seqnum ≡ s.last_seqnum
      → IsLocked sender receiver s m
  unfolding update
  sender-IsLocked free apart m locks balances dedup seqnum =
      let not_itself : (receiver ≢ sender) = λ e. ground (arith, ap s.ledger.shard_map e) in
      record {
        was_free = free;
        sender_held = ap (λ f. f sender) locks ∙ one_sender;
        both = λ same. ground arith;
        receiver_kept = λ known. ap (λ f. f receiver) locks ∙ one_other receiver not_itself;
        others = λ k not_sender not_receiver. ap (λ f. f k) locks ∙ one_other k not_sender;
        same_balances = balances;
        same_dedup = dedup;
        same_seqnum = seqnum;
      }

  lock_own-LockOutcome :
      s.dedup.seen request.timestamp ≡ false
      → request.timestamp < s.in_flight_prepares.size
      → (l : Locking) × (lock_own now sender receiver request s ≡ some l)
        × LockOutcome sender receiver s l
  unfolding lock_own emit with_ledger
  lock_own-LockOutcome new room = elim (Bool-cases (s.ledger.locks sender)) [
    | inl busy ↦ (
      refused s,
      rw (busy, lock_own),
      undone (sender_busy busy) refl (record {
        same_seqnum = refl;
        same_log = refl;
        same_seen = refl;
        same_locks = λ k. refl;
      }),
    )
    | inr free ↦ elim (Bool-cases (s.ledger.shard_map sender == s.ledger.shard_map receiver)) [
      | inl same ↦ elim (Bool-cases (one receiver)) [
        | inl held ↦ (
          refused (with_locks (update one sender false)),
          rw (free, same, held, lock_own),
          undone (held_by same held) refl (record {
            same_seqnum = refl;
            same_log = refl;
            same_seen = refl;
            same_locks = back free;
          }),
        )
        | inr open_lock ↦ (
          locked unset (with_locks two),
          rw (free, same, open_lock, lock_own),
          one_shard same (both-IsLocked free same open_lock),
        )
      ]
      | inr apart ↦ (
        locked coord asked,
        rw (free, apart, new, lt→ltb _ _ room, lock_own, ask_participant, write_slot),
        cross_shard apart (sender-IsLocked free apart asked refl refl refl refl),
      )
    ]
  ]

  still_new :
      (m : Node)
      → m.dedup ≡ s.dedup
      → s.dedup.seen request.timestamp ≡ false
      → m.dedup.seen request.timestamp ≡ false
  still_new m same new = ap (λ d. d.seen request.timestamp) same ∙ new

  propose_locked-Transferred :
      s.dedup.seen request.timestamp ≡ false
      → (call : Call) (l : Locking) → LockOutcome sender receiver s l
      → (s' : Node) × (propose_locked request call l ≡ some s')
        × Transferred sender receiver request call s s'
  unfolding propose_locked emit
  propose_locked-Transferred new call _ (undone {s' = m} why out u) = (
    emit (respond call) m,
    refl,
    dropped why
        (record {
          same_seqnum = u.same_seqnum;
          same_log = u.same_log;
          same_seen = u.same_seen;
          same_locks = u.same_locks;
        })
        (ap (λ o. o ++ respond call ∷ []) out),
  )
  propose_locked-Transferred new call _ (one_shard {s' = m} same l) =
      let (s', run, done) =
        propose-IsProposed unset request call m (still_new m l.same_dedup new) in
      (s', run, in_shard same l done)
  propose_locked-Transferred new call _ (cross_shard {s' = m} apart l) =
      let (s', run, done) =
        propose-IsProposed coord request call m (still_new m l.same_dedup new) in
      (s', run, across_shards apart l done)

  -- A transfer that is no PREPARE, with a timestamp that is new and below the size of the vector
  -- of prepares, at accounts that can be read. Either its sender is locked, or both accounts are in one
  -- shard and the receiver is locked or is the sender; then its call is answered, nothing else is sent,
  -- and the log, the sequence number, the known timestamps and every lock are as before. Or it is proposed
  -- after the locks that it needs, which were free, were taken: both accounts in one shard, else the
  -- sender alone; every other lock, across shards the receiver's too, is as before.
  pub transfer_request-IsDone :
      stoi request.from_account ≡ some sender
      → stoi request.to_account ≡ some receiver
      → is_prepare request ≡ false
      → s.dedup.seen request.timestamp ≡ false
      → request.timestamp < s.in_flight_prepares.size
      → (call : Call)
      → (s' : Node) × (transfer_request now request call s ≡ some s')
        × Transferred sender receiver request call s s'
  unfolding transfer_request
  transfer_request-IsDone from to own new room call =
      let (l, locking, outcome) = lock_own-LockOutcome new room in
      let (s', run, done) = propose_locked-Transferred new call l outcome in
      (s', (rw (from, to, own, locking, transfer_request, run)), done)
