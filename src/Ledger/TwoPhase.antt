-- ===== src/Ledger/TwoPhase.antt =====
-- Two-phase commit on the accounts: `ExecuteTransaction` in the roles COORD, P and A, followed by
-- `ExecuteRepeatedTwoPCEntry` (both in src/paxos_node.cpp).
use multi_paxos_distributed.Prelude.Map.{find, find-insert, find-erase}
use multi_paxos_distributed.Prelude.{
  ℕ, ◌≡◌, refl, arith, false, none, some, ◌+ℤ◌, ◌-ℤ◌, ◌≤ℤ◌, ◌==◌, update, str_eq,
}
use multi_paxos_distributed.Message.{
  coord, prep, c_coord, c_part, a_coord, a_part_commit, ClientRequest,
}
use multi_paxos_distributed.Ledger.{Ledger, WalEntry, execute_between, second_phase}

-- The sender's and the receiver's balance are in different shards, by the shard map of `l`.
abbrev pub CrossShard : Ledger → ℕ → ℕ → Type 0
CrossShard l from to = (l.shard_map to == l.shard_map from) ≡ false

module _ (from to seqnum : ℕ) (request : ClientRequest) (l : Ledger) where
  -- The coordinator debits the sender, and logs the balance before and after.
  pub coord-executes :
      str_eq request.client_id "NO-OP" ≡ false
      → CrossShard l from to
      → request.amount ≤ℤ l.accounts from
      → let l' = (execute_between from to request seqnum coord l).0 in
        (l'.accounts ≡ update l.accounts from (l.accounts from -ℤ request.amount))
        × (find seqnum l'.wal
            ≡ some (record {
              before_value = l.accounts from;
              after_value = l.accounts from -ℤ request.amount;
            }))
        × (l'.locks ≡ l.locks)
  unfolding execute_between
  coord-executes real apart funds = (
    ground arith,
    ground (
      arith,
      find-insert seqnum seqnum
          (record {
            before_value = l.accounts from;
            after_value = l.accounts from -ℤ request.amount;
          })
          l.wal,
    ),
    ground arith,
  )

  -- The participant credits the receiver, and logs the balance before and after.
  pub prep-executes :
      str_eq request.client_id "NO-OP" ≡ false
      → CrossShard l from to
      → request.amount ≤ℤ l.accounts from
      → let l' = (execute_between from to request seqnum prep l).0 in
        (l'.accounts ≡ update l.accounts to (l.accounts to +ℤ request.amount))
        × (find seqnum l'.wal
            ≡ some (record {
              before_value = l.accounts to;
              after_value = l.accounts to +ℤ request.amount;
            }))
        × (l'.locks ≡ l.locks)
  unfolding execute_between
  prep-executes real apart funds = (
    ground arith,
    ground (
      arith,
      find-insert seqnum seqnum
          (record { before_value = l.accounts to; after_value = l.accounts to +ℤ request.amount })
          l.wal,
    ),
    ground arith,
  )

-- The four outcomes at a node with the log entry `w`.
module _ (from to seqnum : ℕ) (l : Ledger) where
  pub a_coord-undoes :
      (w : WalEntry)
      → find seqnum l.wal ≡ some w
      → let l' = second_phase a_coord from to seqnum l in
        (l'.accounts ≡ update l.accounts from w.before_value)
        × (find seqnum l'.wal ≡ none)
        × (l'.locks from ≡ false)
  unfolding second_phase update
  a_coord-undoes w e = (ground arith, ground (arith, find-erase seqnum seqnum l.wal), ground arith)

  pub c_coord-keeps :
      let l' = second_phase c_coord from to seqnum l in
      (l'.accounts ≡ l.accounts) × (find seqnum l'.wal ≡ none) × (l'.locks from ≡ false)
  unfolding second_phase update
  c_coord-keeps = (refl, ground (arith, find-erase seqnum seqnum l.wal), ground arith)

  pub c_part-keeps :
      let l' = second_phase c_part from to seqnum l in
      (l'.accounts ≡ l.accounts) × (find seqnum l'.wal ≡ none) × (l'.locks to ≡ false)
  unfolding second_phase update
  c_part-keeps = (refl, ground (arith, find-erase seqnum seqnum l.wal), ground arith)

  pub a_part_commit-undoes :
      (w : WalEntry)
      → find seqnum l.wal ≡ some w
      → let l' = second_phase a_part_commit from to seqnum l in
        (l'.accounts ≡ update l.accounts to w.before_value)
        × (find seqnum l'.wal ≡ none)
        × (l'.locks to ≡ false)
  unfolding second_phase update
  a_part_commit-undoes w e =
      (ground arith, ground (arith, find-erase seqnum seqnum l.wal), ground arith)
