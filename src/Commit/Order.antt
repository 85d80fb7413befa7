-- ===== src/Commit/Order.antt =====
-- The loop of `SequentiallyExecuteCommittedEntries` (src/paxos_node.cpp): its end, and the order in
-- which it takes the committed entries.
use multi_paxos_distributed.Prelude.Map.{Map, find}
use multi_paxos_distributed.Prelude.{
  bind_some, Bool, ℕ, zero, suc, ◌+◌, ◌≤◌, ◌<◌, ◌≡◌, refl, sym, subst, ap, ◌∙◌, arith, Option, none,
  some, [], ◌∷◌, length, ◌==◌, ltb, if◌then◌else◌, ◌>>=◌, Bool-cases, ==_iff, inl, inr,
}
use multi_paxos_distributed.Message.{CommitEntry}
use multi_paxos_distributed.Ledger.{Ledger, execute_transaction}
use multi_paxos_distributed.Node.{Node}
use multi_paxos_distributed.Commit.{
  apply_recorded, after_execution, execute_next, execute_committed,
  sequentially_execute_committed_entries,
}
use multi_paxos_distributed.Commit.Rounds.{execute_next-fields}

-- How many committed entries have a sequence number above `n`.
above : ℕ → Map CommitEntry → ℕ
above n [] = 0
above n ((k, e) ∷ es) = let rest = above n es in if ltb n k then suc rest else rest

above-length : (n : ℕ) (es : Map CommitEntry) → above n es ≤ length es
unfolding above
above-length n [] = omega arith
above-length n ((k, e) ∷ es) = ground (arith, above-length n es)

above-suc : (n : ℕ) (es : Map CommitEntry) → above (n + 1) es ≤ above n es
unfolding above
above-suc n [] = omega arith
above-suc n ((k, e) ∷ es) = ground (arith, above-suc n es)

-- A round uses up an entry.
above_found :
    (n : ℕ) (es : Map CommitEntry) (e : CommitEntry)
    → find (n + 1) es ≡ some e
    → above (n + 1) es < above n es
unfolding above find
above_found n [] e f = absurd (cc)
above_found n ((k, x) ∷ es) e f = ground (arith, above_found n es e, above-suc n es)

module _ (now : ℕ) where
  loop_stops :
      (fuel : ℕ) (s : Node)
      → find (s.last_executed_seq + 1) s.entries_to_commit ≡ none
      → execute_committed (suc fuel) now s ≡ some s
  unfolding execute_committed
  loop_stops fuel s f = rw (f, execute_committed)

  loop_goes :
      (fuel : ℕ) (s : Node) (e : CommitEntry)
      → find (s.last_executed_seq + 1) s.entries_to_commit ≡ some e
      → execute_committed (suc fuel) now s
        ≡ (execute_next now (s.last_executed_seq + 1) e s >>= execute_committed fuel now)
  unfolding execute_committed
  loop_goes fuel s e f = rw (f, execute_committed)

  same_after :
      (fuel fuel' : ℕ) (o : Option Node)
      → ((t : Node) → o ≡ some t → execute_committed fuel now t ≡ execute_committed fuel' now t)
      → (o >>= execute_committed fuel now) ≡ (o >>= execute_committed fuel' now)
  same_after fuel fuel' none h = refl
  same_after fuel fuel' (some t) h = h t refl

  -- After a round there is one entry less above the last executed one.
  fewer :
      (fuel : ℕ) (e : CommitEntry) (s t : Node)
      → find (s.last_executed_seq + 1) s.entries_to_commit ≡ some e
      → above s.last_executed_seq s.entries_to_commit < suc fuel
      → execute_next now (s.last_executed_seq + 1) e s ≡ some t
      → above t.last_executed_seq t.entries_to_commit < fuel
  fewer fuel e s t f h run =
      let (commits, executed) = execute_next-fields now (s.last_executed_seq + 1) e s t run in
      rw (commits, executed)
        (omega (arith, above_found s.last_executed_seq s.entries_to_commit e f))

  by_entry :
      (fuel extra : ℕ) (s : Node) (o : Option CommitEntry)
      → find (s.last_executed_seq + 1) s.entries_to_commit ≡ o
      → ((e : CommitEntry)
          → find (s.last_executed_seq + 1) s.entries_to_commit ≡ some e
          → (t : Node) → execute_next now (s.last_executed_seq + 1) e s ≡ some t
          → execute_committed (fuel + extra) now t ≡ execute_committed fuel now t)
      → execute_committed (suc (fuel + extra)) now s ≡ execute_committed (suc fuel) now s
  by_entry fuel extra s none f rest = loop_stops (fuel + extra) s f ∙ sym (loop_stops fuel s f)
  by_entry fuel extra s (some e) f rest =
      loop_goes (fuel + extra) s e f
      ∙ same_after (fuel + extra) fuel (execute_next now (s.last_executed_seq + 1) e s) (rest e f)
      ∙ sym (loop_goes fuel s e f)

  fuel_enough :
      (fuel extra : ℕ) (s : Node)
      → above s.last_executed_seq s.entries_to_commit < fuel
      → execute_committed (fuel + extra) now s ≡ execute_committed fuel now s
  fuel_enough zero extra s h = absurd (omega arith)
  fuel_enough (suc fuel) extra s h =
      ap (λ (n : ℕ). execute_committed n now s) (omega arith)
      ∙ by_entry fuel extra s (find (s.last_executed_seq + 1) s.entries_to_commit) refl
          (λ e f t run. fuel_enough fuel extra t (fewer fuel e s t f h run))

  -- The fuel of the loop is enough: with any more it ends in the same state, or faults as before.
  pub loop_ends :
      (extra : ℕ) (s : Node)
      → execute_committed (suc (length s.entries_to_commit) + extra) now s
        ≡ sequentially_execute_committed_entries now s
  unfolding sequentially_execute_committed_entries
  loop_ends extra s =
      fuel_enough (suc (length s.entries_to_commit)) extra s
        (omega (arith, above-length s.last_executed_seq s.entries_to_commit))

-- From `s` to `t`, the entries after the last executed one are executed in turn: each in the ledger, as its
-- request and its status say, then with the outcome that the log has recorded for it, then answered.
pub data Executes (now : ℕ) : Node → Node → Type 0 where
  ends : (s : Node) → Executes now s s
  next_entry :
      {s m u t : Node} (e : CommitEntry) (l : Ledger) (success : Bool)
      → find (s.last_executed_seq + 1) s.entries_to_commit ≡ some e
      → execute_transaction e.request e.seqnum e.two_pc_status s.ledger ≡ some (l, success)
      → apply_recorded e (record s { last_executed_seq = s.last_executed_seq + 1; ledger = l })
        ≡ some m
      → after_execution now e success m ≡ some u
      → Executes now u t
      → Executes now s t

-- A round of the loop is one of these.
executes_next :
    (now : ℕ) (e : CommitEntry) (s u t : Node)
    → find (s.last_executed_seq + 1) s.entries_to_commit ≡ some e
    → execute_next now (s.last_executed_seq + 1) e s ≡ some u
    → Executes now u t
    → Executes now s t
unfolding execute_next
executes_next now e s u t f run rest =
    let (paid_to, (paid, more)) =
      bind_some (execute_transaction e.request e.seqnum e.two_pc_status s.ledger) _ u run in
    let (m, (recorded, answered)) =
      bind_some
        (apply_recorded e
          (record s { last_executed_seq = s.last_executed_seq + 1; ledger = paid_to.0 }))
        _ u more in
    next_entry e paid_to.0 paid_to.1 f paid recorded answered rest

-- The state `t` after the loop from `s`: the entries were executed in turn, every sequence number passed has a committed entry, and
-- the next one has none.
pub record IsSequential (now : ℕ) (s t : Node) : Type 0 where
  pub executed : Executes now s t
  pub forward : s.last_executed_seq ≤ t.last_executed_seq
  pub same_commits : t.entries_to_commit ≡ s.entries_to_commit
  pub no_gap :
      (k : ℕ)
      → s.last_executed_seq < k
      → k ≤ t.last_executed_seq
      → (e : CommitEntry) × (find k s.entries_to_commit ≡ some e)
  pub complete : find (t.last_executed_seq + 1) s.entries_to_commit ≡ none

IsSequential-stop :
    (now : ℕ) (s t : Node)
    → find (s.last_executed_seq + 1) s.entries_to_commit ≡ none
    → some s ≡ some t
    → IsSequential now s t
IsSequential-stop now s t f e = subst (IsSequential now s) same (record {
  executed = ends s;
  forward = omega arith;
  same_commits = refl;
  no_gap = λ k lo up. absurd (omega arith);
  complete = f;
})
  where
    same : s ≡ t
    same = cc e

IsSequential-step :
    (now : ℕ) (e : CommitEntry) (s m t : Node)
    → find (s.last_executed_seq + 1) s.entries_to_commit ≡ some e
    → (m.entries_to_commit ≡ s.entries_to_commit) × (m.last_executed_seq ≡ s.last_executed_seq + 1)
    → execute_next now (s.last_executed_seq + 1) e s ≡ some m
    → IsSequential now m t
    → IsSequential now s t
IsSequential-step now e s m t f (commits, executed) run q = record {
  executed = executes_next now e s m t f run q.executed;
  forward = omega (arith, q.forward, executed);
  same_commits = q.same_commits ∙ commits;
  no_gap = λ k lo up. elim (Bool-cases (k == s.last_executed_seq + 1)) [
    | inl first ↦
        (e, ap (λ i. find i s.entries_to_commit) ((==_iff k (s.last_executed_seq + 1)).0 first) ∙ f)
    | inr later ↦
        let (x, g) = q.no_gap k (ground (arith, executed)) up in (x, ap (find k) (sym commits) ∙ g)
  ];
  complete = ap (find (t.last_executed_seq + 1)) (sym commits) ∙ q.complete;
}

module _ (now : ℕ) where
  by_first :
      (fuel : ℕ) (s t : Node)
      → above s.last_executed_seq s.entries_to_commit < suc fuel
      → execute_committed (suc fuel) now s ≡ some t
      → (o : Option CommitEntry) → find (s.last_executed_seq + 1) s.entries_to_commit ≡ o
      → ((e : CommitEntry)
          → find (s.last_executed_seq + 1) s.entries_to_commit ≡ some e
          → (m : Node) → execute_next now (s.last_executed_seq + 1) e s ≡ some m
          → execute_committed fuel now m ≡ some t
          → IsSequential now m t)
      → IsSequential now s t
  by_first fuel s t h run none f rest =
      IsSequential-stop now s t f (cc (run, loop_stops now fuel s f))
  by_first fuel s t h run (some e) f rest =
      went (execute_next now (s.last_executed_seq + 1) e s) refl
        (sym (loop_goes now fuel s e f) ∙ run)
    where
      went :
          (o : Option Node)
          → execute_next now (s.last_executed_seq + 1) e s ≡ o
          → (o >>= execute_committed fuel now) ≡ some t
          → IsSequential now s t
      went none next r = absurd (cc)
      went (some m) next r =
          IsSequential-step now e s m t f
            (execute_next-fields now (s.last_executed_seq + 1) e s m next) next (rest e f m next r)

  loop_by_fuel :
      (fuel : ℕ) (s t : Node)
      → above s.last_executed_seq s.entries_to_commit < fuel
      → execute_committed fuel now s ≡ some t
      → IsSequential now s t
  loop_by_fuel zero s t h run = absurd (omega arith)
  loop_by_fuel (suc fuel) s t h run =
      by_first fuel s t h run (find (s.last_executed_seq + 1) s.entries_to_commit) refl
        (λ e f m next rest. loop_by_fuel fuel m t (fewer now fuel e s m f h next) rest)

  -- If no round faults, the loop executes the committed entries that follow the last executed one, each
  -- once, in the order of the sequence numbers and without a gap: `ExecuteTransaction`, the recorded
  -- outcome and the reply are those of the entry at the number; and it stops before the first number that
  -- has no committed entry.
  pub loop-IsSequential :
      (s t : Node) → sequentially_execute_committed_entries now s ≡ some t → IsSequential now s t
  unfolding sequentially_execute_committed_entries
  loop-IsSequential s t run =
      loop_by_fuel (suc (length s.entries_to_commit)) s t
        (omega (arith, above-length s.last_executed_seq s.entries_to_commit)) run
