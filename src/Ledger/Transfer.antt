-- ===== src/Ledger/Transfer.antt =====
-- Transfers inside one shard: `ExecuteTransaction` (src/paxos_node.cpp) where both accounts belong
-- to the same cluster.
use multi_paxos_distributed.Prelude.{
  ℕ, ◌<◌, ◌≡◌, ◌≢◌, ◌↔◌, ◌∙◌, arith, Bool, true, false, some, ℤ, ◌+ℤ◌, ◌-ℤ◌, ◌≤ℤ◌, int_laws, ◌==◌,
  update, str_eq,
}
use multi_paxos_distributed.Account.{stoi}
use multi_paxos_distributed.Message.{Status, ClientRequest}
use multi_paxos_distributed.Ledger.Sums.{total, total-update}
use multi_paxos_distributed.Ledger.{
  Ledger, execute_transaction, execute_between, transfer, is_abort_vote,
}

-- What a request between two accounts is read as.
pub record Reads (l : Ledger) (request : ClientRequest) (from to : ℕ) : Type 0 where
  pub from_read : stoi request.from_account ≡ some from
  pub to_read : stoi request.to_account ≡ some to
  pub real : str_eq request.client_id "NO-OP" ≡ false

-- Execution is `execute_between` on the two accounts read.
pub execute-Reads :
    {l : Ledger} {request : ClientRequest} {from to : ℕ} (r : Reads l request from to) (seqnum : ℕ)
    (status : Status)
    → execute_transaction request seqnum status l
      ≡ some (execute_between from to request seqnum status l)
unfolding execute_transaction
execute-Reads r seqnum status = rw (r.from_read, r.to_read)

move_back : (t x a y : ℤ) → t +ℤ (x -ℤ a -ℤ x) +ℤ (y +ℤ a -ℤ y) ≡ t
move_back t x a y = omega int_laws

transfer-total :
    (n from to : ℕ) (amt : ℤ) (l : Ledger)
    → from < n
    → to < n
    → total n (transfer from to amt l).accounts ≡ total n l.accounts
unfolding transfer
transfer-total n from to amt l hf ht =
    let debited : ℕ → ℤ = update l.accounts from (l.accounts from -ℤ amt) in
    total-update n to (debited to +ℤ amt) debited ht
    ∙ rw (total-update n from (l.accounts from -ℤ amt) l.accounts hf) (move_back _ _ _ _)

between-total :
    (n from to : ℕ) (request : ClientRequest) (seqnum : ℕ) (status : Status) (l : Ledger)
    → (l.shard_map to == l.shard_map from) ≡ true
    → from < n
    → to < n
    → total n (execute_between from to request seqnum status l).0.accounts ≡ total n l.accounts
unfolding execute_between
between-total n from to request seqnum status l same hf ht =
    ground (arith, transfer-total n from to request.amount l hf ht)

-- A transaction between two accounts of one shard that can be read never changes the total of the
-- balances of the first `n` accounts, which hold both, whatever its amount, status and outcome.
execute-total :
    (n seqnum from to : ℕ) (status : Status) (request : ClientRequest) (l : Ledger)
    → Reads l request from to
    → (l.shard_map to == l.shard_map from) ≡ true
    → from < n
    → to < n
    → (r : Ledger × Bool) × (execute_transaction request seqnum status l ≡ some r)
      × (total n r.0.accounts ≡ total n l.accounts)
execute-total n seqnum from to status request l r same hf ht =
    (_, execute-Reads r seqnum status, between-total n from to request seqnum status l same hf ht)

-- How an intra-shard transaction ends: it pays exactly when the sender has the amount, then the
-- sender and receiver have moved by it; the entry counts as executed, both locks are free, every
-- other account and lock and the write-ahead log are as before.
pub record IsSettled (l l' : Ledger) (ok : Bool) (from to seqnum : ℕ) (amt : ℤ) : Type 0 where
  pub pays : (ok ≡ true) ↔ (amt ≤ℤ l.accounts from)
  pub debited : ok ≡ true → l'.accounts from ≡ l.accounts from -ℤ amt
  pub credited : ok ≡ true → l'.accounts to ≡ l.accounts to +ℤ amt
  pub refused : ok ≡ false → l'.accounts ≡ l.accounts
  pub others :
      (k : ℕ) → k ≢ from → k ≢ to → (l'.accounts k ≡ l.accounts k) × (l'.locks k ≡ l.locks k)
  pub executed : l'.executed_entries seqnum ≡ true
  pub from_free : l'.locks from ≡ false
  pub to_free : l'.locks to ≡ false
  pub same_wal : l'.wal ≡ l.wal

module _ (from to seqnum : ℕ) (status : Status) (request : ClientRequest) (l : Ledger) where
  between-IsSettled :
      str_eq request.client_id "NO-OP" ≡ false
      → is_abort_vote status ≡ false
      → (l.shard_map to == l.shard_map from) ≡ true
      → from ≢ to
      → let r = execute_between from to request seqnum status l in
        IsSettled l r.0 r.1 from to seqnum request.amount
  unfolding execute_between update
  between-IsSettled real vote same apart = record {
    pays = ground arith;
    debited = ground arith;
    credited = ground arith;
    refused = ground arith;
    others = λ k f t. ground arith;
    executed = ground arith;
    from_free = ground arith;
    to_free = ground arith;
    same_wal = ground arith;
  }

  -- A transaction of two different accounts of one shard, which can be read, neither a no-op nor
  -- marked as an abort vote, is settled: it pays exactly when the sender has the amount, then
  -- both accounts move by it, else no balance changes; either way it counts as executed, both of
  -- its locks are released, and other accounts, other locks and the write-ahead log are as
  -- before.
  pub execute-IsSettled :
      Reads l request from to
      → is_abort_vote status ≡ false
      → (l.shard_map to == l.shard_map from) ≡ true
      → from ≢ to
      → (r : Ledger × Bool) × (execute_transaction request seqnum status l ≡ some r)
        × IsSettled l r.0 r.1 from to seqnum request.amount
  execute-IsSettled r vote same apart =
      (_, execute-Reads r seqnum status, between-IsSettled r.real vote same apart)
