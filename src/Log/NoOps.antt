-- ===== src/Log/NoOps.antt =====
-- `FillMissingNoOps` (src/paxos_node.cpp): the gaps of the log after a merge, and what happens to
-- the entries that fill them when they are executed.
use multi_paxos_distributed.Prelude.Map.{Map, find, find-insert}
use multi_paxos_distributed.Prelude.{
  ℕ, zero, suc, ◌+◌, ◌≤◌, ◌≡◌, refl, ◌∙◌, ap, inl, inr, arith, ◌&&◌, Option, none, some, ◌==◌, leb,
  ltb, if◌then◌else◌, Bool-cases,
}
use multi_paxos_distributed.Account.{stoi_empty}
use multi_paxos_distributed.Ballot.{Ballot}
use multi_paxos_distributed.Message.{AcceptedEntry, Status}
use multi_paxos_distributed.Ledger.{Ledger, execute_transaction}
use multi_paxos_distributed.Log.{no_op_entry, fill_one, fill_from, fill_missing}

module _ (b : Ballot) (n : ℕ) where
  -- What the log holds at `k` after the sequence numbers from `lo` to below `hi` were looked at.
  abbrev filled : ℕ → ℕ → ℕ → Option AcceptedEntry → Option AcceptedEntry
  filled lo hi k none = if leb lo k && ltb k hi then some (no_op_entry b n k) else none
  filled lo hi k (some e) = some e

  find-fill_one :
      (seq k : ℕ) (log : Map AcceptedEntry) (o : Option AcceptedEntry)
      → find k log ≡ o
      → find k (fill_one b n seq log) ≡ filled seq (seq + 1) k o
  unfolding fill_one
  find-fill_one seq k log none e = ground (
    arith,
    find-insert seq k (no_op_entry b n seq) log,
    ap (λ i. find i log),
    ap (no_op_entry b n),
  )
  find-fill_one seq k log (some x) e = ground (arith, find-insert seq k (no_op_entry b n seq) log)

  find-fill_from :
      (rounds seq k : ℕ) (log : Map AcceptedEntry) (o : Option AcceptedEntry)
      → find k log ≡ o
      → find k (fill_from b n rounds seq log) ≡ filled seq (seq + rounds) k o
  unfolding fill_from
  find-fill_from zero seq k log none e = ground arith
  find-fill_from zero seq k log (some x) e = e
  find-fill_from (suc rounds) seq k log none e = elim (Bool-cases (seq == k)) [
    | inl hit ↦ ground (
      arith,
      find-fill_from rounds (seq + 1) k (fill_one b n seq log) (some (no_op_entry b n k))
          (find-fill_one seq k log none e ∙ ground arith),
    )
    | inr miss ↦ ground (
      arith,
      find-fill_from rounds (seq + 1) k (fill_one b n seq log) none
          (find-fill_one seq k log none e ∙ ground arith),
    )
  ]
  find-fill_from (suc rounds) seq k log (some x) e =
      find-fill_from rounds (seq + 1) k _ (some x) (find-fill_one seq k log (some x) e)

-- The log after `FillMissingNoOps` up to `hi`.
pub record IsFilled (b : Ballot) (n hi : ℕ) (log log' : Map AcceptedEntry) : Type 0 where
  pub no_gap : (k : ℕ) → 1 ≤ k → k ≤ hi → (e : AcceptedEntry) × (find k log' ≡ some e)
  pub kept : (k : ℕ) (e : AcceptedEntry) → find k log ≡ some e → find k log' ≡ some e
  pub only_no_ops :
      (k : ℕ) (e : AcceptedEntry)
      → find k log ≡ none
      → find k log' ≡ some e
      → (e ≡ no_op_entry b n k) × (1 ≤ k) × (k ≤ hi)

gap_closed :
    (b : Ballot) (n hi k : ℕ) (log' : Map AcceptedEntry) (o : Option AcceptedEntry)
    → find k log' ≡ filled b n 1 (1 + hi) k o
    → 1 ≤ k
    → k ≤ hi
    → (e : AcceptedEntry) × (find k log' ≡ some e)
gap_closed b n hi k log' none f lo up = (no_op_entry b n k, ground arith)
gap_closed b n hi k log' (some e) f lo up = (e, f)

-- After the loop every sequence number from 1 to the highest one has an entry, the entries that
-- were there are as before, and each new one is the no-op of its own sequence number.
pub fill_missing-IsFilled :
    (b : Ballot) (n hi : ℕ) (log : Map AcceptedEntry)
    → IsFilled b n hi log (fill_missing b n hi log)
unfolding fill_missing
fill_missing-IsFilled b n hi log = record {
  no_gap =
      λ k lo up. gap_closed b n hi k _ (find k log) (find-fill_from b n hi 1 k log _ refl) lo up;
  kept = λ k e f. find-fill_from b n hi 1 k log (some e) f;
  only_no_ops = λ k e f g. ground (arith, find-fill_from b n hi 1 k log none f);
}

-- Executing an entry that `FillMissingNoOps` has put into a gap throws: its accounts are the
-- empty text, which `ExecuteTransaction` hands to `std::stoi` before it looks whether the request
-- is a no-op.
filled_gap_throws :
    (b : Ballot) (n hi k : ℕ) (e : AcceptedEntry) (log : Map AcceptedEntry) (status : Status)
    (l : Ledger)
    → find k log ≡ none
    → find k (fill_missing b n hi log) ≡ some e
    → execute_transaction e.request k status l ≡ none
unfolding execute_transaction no_op_entry
filled_gap_throws b n hi k e log status l f g =
    let is_no_op = (IsFilled.only_no_ops (fill_missing-IsFilled b n hi log) k e f g).0 in
    rw (is_no_op, stoi_empty)
