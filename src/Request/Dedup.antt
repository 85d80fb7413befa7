-- ===== src/Request/Dedup.antt =====
-- `ProcessClientRequest` (src/paxos_node.cpp): proposals and the timestamps that are known.
use multi_paxos_distributed.Prelude.Map.{find, find-insert}
use multi_paxos_distributed.Prelude.{ℕ, ◌+◌, ◌≡◌, refl, ap, ◌∙◌, arith, true, false, some, update}
use multi_paxos_distributed.Message.{ClientRequest, Status}
use multi_paxos_distributed.Node.{Node, Call, respond, is_leader, emit}
use multi_paxos_distributed.Request.{process_client_request, propose, proposed, make_entry}

-- A new request after it was proposed: the entry takes the next sequence number, it is
-- logged, pending, and sent to every peer of the cluster, and its timestamp is known.
pub record IsProposed (status : Status) (request : ClientRequest) (call : Call) (s s' : Node)
    : Type 0 where
  pub next_seqnum : s'.last_seqnum ≡ s.last_seqnum + 1
  pub logged :
      find s'.last_seqnum s'.accept_log ≡ some (make_entry status request (s.last_seqnum + 1) s)
  pub pending :
      find s'.last_seqnum s'.pending_entries
      ≡ some (make_entry status request (s.last_seqnum + 1) s)
  pub waits : find s'.last_seqnum s'.pending_client_calls ≡ some call
  pub known : s'.dedup.seen request.timestamp ≡ true
  pub located : s'.dedup.digest request.timestamp ≡ s'.last_seqnum
  pub same_ledger : s'.ledger ≡ s.ledger
  pub same_role : s'.role ≡ s.role

-- `propose` on a new timestamp succeeds: the entry takes the next sequence number and is logged and
-- pending there, the call waits there, the timestamp is known, and the accounts are as before.
pub propose-IsProposed :
    (status : Status) (request : ClientRequest) (call : Call) (s : Node)
    → s.dedup.seen request.timestamp ≡ false
    → (s' : Node) × (propose status request call s ≡ some s') × IsProposed status request call s s'
unfolding propose update
propose-IsProposed status request call s new =
    let seq = s.last_seqnum + 1 in
    let entry = make_entry status request seq s in
    (
      proposed status request call s,
      rw new,
      record {
        next_seqnum = refl;
        logged = ground (arith, find-insert seq seq entry s.accept_log);
        pending = ground (arith, find-insert seq seq entry s.pending_entries);
        waits = ground (arith, find-insert seq seq call s.pending_client_calls);
        known = ground arith;
        located = ground arith;
        same_ledger = refl;
        same_role = refl;
      },
    )

seen-is_dropped :
    (now : ℕ) (request : ClientRequest) (call : Call) (s : Node)
    → is_leader s.role ≡ true
    → s.dedup.seen request.timestamp ≡ true
    → process_client_request now request call s ≡ some (emit (respond call) s)
unfolding process_client_request
seen-is_dropped now request call s lead seen = ground arith

-- When a leader proposes a request with a new timestamp, a request with the same timestamp that
-- it processes right after, from any client, is answered and changes nothing else.
pub retry-is_dropped :
    (now : ℕ) (status : Status) (request retry : ClientRequest) (call again : Call) (s : Node)
    → is_leader s.role ≡ true
    → s.dedup.seen request.timestamp ≡ false
    → retry.timestamp ≡ request.timestamp
    → (s' : Node) × (propose status request call s ≡ some s')
      × (process_client_request now retry again s' ≡ some (emit (respond again) s'))
retry-is_dropped now status request retry call again s lead new same =
    let (s', run, done) = propose-IsProposed status request call s new in
    (
      s',
      run,
      seen-is_dropped now retry again s' (ap is_leader done.same_role ∙ lead)
          (ap s'.dedup.seen same ∙ done.known),
    )
