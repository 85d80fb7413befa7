-- ===== src/Election/Promises.antt =====
-- `HandlePromise` (src/paxos_node.cpp): when a candidate becomes leader, and the log that it
-- then starts from (`MergeAcceptLogsFromPromises`, `FillMissingNoOps`).
use multi_paxos_distributed.Prelude.Map.{Map, find, last_key}
use multi_paxos_distributed.Prelude.{
  ℕ, ◌+◌, ◌≤◌, ◌≡◌, refl, ◌∙◌, arith, true, false, ◌&&◌, ◌||◌, some, List, [], ◌∷◌, ◌++◌, leb, ltb,
  if◌then◌else◌, inl, inr, Bool-cases, contains, Distinct, length,
}
use multi_paxos_distributed.Message.{AcceptedEntry, PromiseResponse}
use multi_paxos_distributed.Log.{max_seqnum, merge_log, fill_missing}
use multi_paxos_distributed.Log.Merge.{Best, IsMerge, merge_log-IsMerge}
use multi_paxos_distributed.Log.NoOps.{IsFilled, fill_missing-IsFilled}
use multi_paxos_distributed.Node.{Node, is_leader}
use multi_paxos_distributed.Election.{
  add_promise, handle_promise, win_election, merge_promises, fill_no_ops, all_entries,
}

-- The state in which a candidate wins: a promise has been counted and none is waited for.
abbrev pub elected : PromiseResponse → Node → Node
elected reply s = record (add_promise reply s) { waiting_for_promises = false }

-- What a promise leads to: nothing, a count, or leadership.
pub data PromiseOutcome (now : ℕ) (reply : PromiseResponse) (s : Node) : Type 0 where
  ignored : handle_promise now reply s ≡ some s → PromiseOutcome now reply s
  counted :
      handle_promise now reply s ≡ some (add_promise reply s)
      → Distinct (add_promise reply s).promises_received
      → length (add_promise reply s).promises_received ≤ s.f
      → PromiseOutcome now reply s
  wins :
      s.alive ≡ true
      → s.waiting_for_promises ≡ true
      → reply.promised ≡ true
      → Distinct (elected reply s).promises_received
      → s.f + 1 ≤ length (elected reply s).promises_received
      → handle_promise now reply s ≡ win_election now (elected reply s)
      → PromiseOutcome now reply s

handle_promise_lem :
    (now : ℕ) (reply : PromiseResponse) (s : Node)
    → handle_promise now reply s ≡ (
        if s.alive && reply.promised
        then (if is_leader s.role || (if s.waiting_for_promises then false else true)
            then some s
            else if contains s.promises_received reply.node_id
            then some s
            else if leb (s.f + 1) (length (add_promise reply s).promises_received)
            then win_election now (elected reply s)
            else some (add_promise reply s))
        else some s)
unfolding handle_promise
handle_promise_lem now reply s = refl

-- If the counted promises are of different nodes, a candidate that is alive and waits for
-- promises becomes leader only with promises of at least `f + 1` different nodes; a promise
-- before that is counted once for its node, and any other is ignored.
pub handle_promise-PromiseOutcome :
    (now : ℕ) (reply : PromiseResponse) (s : Node)
    → Distinct s.promises_received
    → PromiseOutcome now reply s
unfolding add_promise
handle_promise-PromiseOutcome now reply s d =
    let lem = handle_promise_lem now reply s in
    elim (Bool-cases (s.alive && reply.promised)) [
      | inr out ↦ ignored (lem ∙ rw out)
      | inl live ↦
          elim (Bool-cases (is_leader s.role || (if s.waiting_for_promises then false else true))) [
            | inl late ↦ ignored (lem ∙ rw (live, late))
            | inr waits ↦ elim (Bool-cases (contains s.promises_received reply.node_id)) [
              | inl old ↦ ignored (lem ∙ rw (live, waits, old))
              | inr new ↦
                  elim (Bool-cases
                    (leb (s.f + 1) (length (add_promise reply s).promises_received))) [
                      | inl enough ↦
                          wins (ground arith) (ground arith) (ground arith) (new, d) (ground arith)
                            (lem ∙ rw (live, waits, new, enough))
                      | inr few ↦ counted (lem ∙ rw (live, waits, new, few)) (new, d) (ground arith)
                    ]
            ]
          ]
    ]

max_seqnum-ge : (es : List AcceptedEntry) (m : ℕ) → m ≤ max_seqnum m es
unfolding max_seqnum
max_seqnum-ge [] m = omega arith
max_seqnum-ge (e ∷ es) m = ground (arith, max_seqnum-ge es (if ltb m e.seqnum then e.seqnum else m))

max_seqnum-covers :
    (before after : List AcceptedEntry) (e : AcceptedEntry) (m : ℕ)
    → e.seqnum ≤ max_seqnum m (before ++ e ∷ after)
unfolding max_seqnum
max_seqnum-covers [] after e m =
    ground (arith, max_seqnum-ge after (if ltb m e.seqnum then e.seqnum else m))
max_seqnum-covers (x ∷ before) after e m = max_seqnum-covers before after e _

-- The log of a new leader `v`, from the promises that `s` has received.
pub record IsComplete (s v : Node) : Type 0 where
  pub no_gap :
      (k : ℕ) → 1 ≤ k → k ≤ v.last_seqnum → (e : AcceptedEntry) × (find k v.accept_log ≡ some e)
  pub own_kept : (k : ℕ) (x : AcceptedEntry) → find k s.accept_log ≡ some x → Best v.accept_log k x
  pub promised_kept :
      (before after : List AcceptedEntry) (x : AcceptedEntry)
      → all_entries s.received_promise_logs ≡ before ++ x ∷ after
      → Best v.accept_log x.seqnum x × (x.seqnum ≤ v.last_seqnum)

-- After the merge and the no-ops, a new leader's log has no gap up to its last sequence number,
-- which no promised entry exceeds, and it has an entry as good as every entry of the old log and
-- of the promises received.
pub new_view-IsComplete : (s : Node) → IsComplete s (fill_no_ops (merge_promises s))
unfolding fill_no_ops merge_promises
new_view-IsComplete s = record {
  no_gap = filled.no_gap;
  own_kept = λ k x f. best k x (merge.old_kept k x f);
  promised_kept = λ before after x e. (
    best x.seqnum x (merge.new_kept before after x e),
    rw e (max_seqnum-covers before after x (last_key s.accept_log)),
  );
}
  where
    es : List AcceptedEntry
    es = all_entries s.received_promise_logs

    merged : Map AcceptedEntry
    merged = merge_log s.accept_log es

    merge : IsMerge s.accept_log es merged
    merge = merge_log-IsMerge s.accept_log es

    filled :
        IsFilled s.current_ballot s.node_id
          (max_seqnum (last_key s.accept_log) es)
          merged
          (fill_missing s.current_ballot s.node_id (max_seqnum (last_key s.accept_log) es) merged)
    filled = fill_missing-IsFilled s.current_ballot s.node_id _ merged

    best :
        (k : ℕ) (x : AcceptedEntry)
        → Best merged k x
        → Best
            (fill_missing s.current_ballot s.node_id (max_seqnum (last_key s.accept_log) es) merged)
            k
            x
    best k x (w, f, d) = (w, filled.kept k w f, d)
