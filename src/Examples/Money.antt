-- ===== src/Examples/Money.antt =====
-- The theorems on accounts, at transfers of 3 between accounts that hold 10.
use multi_paxos_distributed.Prelude.{
  ◌≡◌, refl, arith, true, some, pos, ◌+ℤ◌, [], ◌∷◌, Bool, ℕ, none, if◌then◌else◌,
}
use multi_paxos_distributed.Prelude.Map.{Map, find}
use multi_paxos_distributed.Account.{stoi}
use multi_paxos_distributed.Message.{AcceptedEntry, unset, coord, prep, a_coord, c_coord, c_part}
use multi_paxos_distributed.Ledger.{Ledger, is_abort_vote, execute_transaction, second_phase}
use multi_paxos_distributed.Ledger.Sums.{total}
use multi_paxos_distributed.Ledger.Transfer.{Reads, IsSettled, execute-IsSettled}
use multi_paxos_distributed.Ledger.Faults.{unfunded_commit_mints}
use multi_paxos_distributed.Ledger.Recovery.{wal_account, demote_wal, entry_at}
use multi_paxos_distributed.Ledger.RecoveryLaws.{Readable, demote_wal-keeps_undecided, decided}
use multi_paxos_distributed.Examples.Data.{two_shards, inside, across, entry_of, ballot_of}

inside-Reads : Reads two_shards inside 1 2
unfolding stoi
inside-Reads = record { from_read = refl; to_read = refl; real = refl }

across-Reads : (l : Ledger) → Reads l across 1 6
unfolding stoi
across-Reads l = record { from_read = refl; to_read = refl; real = refl }

execute-IsSettled_example :
    (r : Ledger × Bool) × (execute_transaction inside 4 unset two_shards ≡ some r)
    × IsSettled two_shards r.0 r.1 1 2 4 (pos 3)
unfolding is_abort_vote
execute-IsSettled_example =
    execute-IsSettled 1 2 4 unset inside two_shards inside-Reads refl refl (omega arith)

-- The coordinator's copy of the sender's balance has run out.
abbrev poor : Ledger
poor = record two_shards { accounts = λ k. pos 1 }

unfunded_commit_mints_example :
    (c p : Ledger × Bool) × (execute_transaction across 4 coord poor ≡ some c)
    × (execute_transaction across 5 prep two_shards ≡ some p)
    × (c.0.executed_entries 4 ≡ true)
    × (total 9 (second_phase c_coord 1 6 4 c.0).accounts
          +ℤ total 9 (second_phase c_part 1 6 5 p.0).accounts
        ≡ total 9 poor.accounts +ℤ total 9 two_shards.accounts +ℤ pos 3)
unfunded_commit_mints_example =
    unfunded_commit_mints 9 1 6 4 5 across poor two_shards (across-Reads poor) refl refl refl
      (omega arith) (omega arith)

-- Two logged debits: the one at 4 was aborted, the one at 5 is undecided.
abbrev debits : Ledger
debits = record two_shards {
  wal =
      (4, record { before_value = pos 10; after_value = pos 7 })
      ∷ (5, record { before_value = pos 10; after_value = pos 7 })
      ∷ [];
}

abbrev outcomes : Map AcceptedEntry
outcomes =
    (4, entry_of 4 (ballot_of 3 1) across a_coord)
    ∷ (5, entry_of 5 (ballot_of 3 1) across unset)
    ∷ []

debits-Readable : Readable 1 outcomes debits.shard_map debits.wal
unfolding wal_account entry_at stoi find
debits-Readable = ((1, refl), ((1, refl), tt))

demote_wal-keeps_undecided_example :
    (l : Ledger) × (demote_wal 1 outcomes debits ≡ some l)
    × ((j : ℕ) → find j l.wal ≡ (if decided outcomes j then none else find j debits.wal))
demote_wal-keeps_undecided_example = demote_wal-keeps_undecided 1 outcomes debits debits-Readable

aborted_account : wal_account 1 debits.shard_map (entry_at 4 outcomes).request ≡ some 1
unfolding wal_account entry_at stoi find
aborted_account = refl
