-- ===== src/Ledger/Recovery.antt =====
-- The two loops of src/paxos_node.cpp that settle the write-ahead log: the one in
-- `DemoteToBackup`, and the one in `OnElectionComplete`. They walk a copy of the log and erase
-- from it; the keys of a map are distinct.
use multi_paxos_distributed.Prelude.Map.{Map, find}
use multi_paxos_distributed.Prelude.{
  ℕ, Option, none, some, [], ◌∷◌, ◌+ℤ◌, ◌-ℤ◌, ◌==◌, if◌then◌else◌, ◌>>=◌,
}
use multi_paxos_distributed.Account.{stoi}
use multi_paxos_distributed.Message.{
  Status, c_coord, c_part, a_coord, a_part_commit, ClientRequest, AcceptedEntry, no_entry,
}
use multi_paxos_distributed.Ledger.{Ledger, WalEntry, set_balance, unlock, drop_wal}

-- `accept_log_[seqnum]`: an empty entry where there is none.
unfoldable pub entry_at : ℕ → Map AcceptedEntry → AcceptedEntry
entry_at seqnum log = elim (find seqnum log) [ none ↦ no_entry | some e ↦ e ]

-- The account that a node of cluster `cluster_id` changed for the request.
unfoldable pub wal_account : ℕ → (ℕ → ℕ) → ClientRequest → Option ℕ
wal_account cluster_id shard_map request = stoi request.from_account >>= λ from.
    if cluster_id == shard_map from then some from else stoi request.to_account

-- Aborted: take the change back from the balance as it is now.
unfoldable pub undo_delta : ℕ → WalEntry → ℕ → Ledger → Ledger
unfolding set_balance unlock drop_wal
undo_delta seqnum w acct l =
    drop_wal seqnum
      (unlock acct (set_balance acct (l.accounts acct +ℤ (w.before_value -ℤ w.after_value)) l))

-- In flight, in `OnElectionComplete`: back to the balance before.
unfoldable pub revert : ℕ → WalEntry → ℕ → Ledger → Ledger
unfolding set_balance unlock drop_wal
revert seqnum w acct l = drop_wal seqnum (unlock acct (set_balance acct w.before_value l))

-- A walk over the log: `round` is told the recorded outcome of the entry.
unfoldable pub wal_loop :
    Map AcceptedEntry
    → (Status → ℕ → WalEntry → Ledger → Option Ledger)
    → Map WalEntry
    → Ledger
    → Option Ledger
unfolding entry_at
wal_loop log round [] l = some l
wal_loop log round ((seqnum, w) ∷ rest) l =
    round (entry_at seqnum log).phase2_result seqnum w l >>= wal_loop log round rest

module _ (cluster_id : ℕ) (log : Map AcceptedEntry) where
  -- One round of the loop in `DemoteToBackup`; an undecided change is kept.
  unfoldable pub demote_by : Status → ℕ → WalEntry → Ledger → Option Ledger
  unfolding undo_delta unlock drop_wal
  demote_by c_coord seqnum w l = some (drop_wal seqnum l)
  demote_by c_part seqnum w l = some (drop_wal seqnum l)
  demote_by a_coord seqnum w l =
      wal_account cluster_id l.shard_map (entry_at seqnum log).request >>= λ acct.
      some (undo_delta seqnum w acct l)
  demote_by a_part_commit seqnum w l =
      wal_account cluster_id l.shard_map (entry_at seqnum log).request >>= λ acct.
      some (undo_delta seqnum w acct l)
  demote_by _ seqnum w l =
      wal_account cluster_id l.shard_map (entry_at seqnum log).request >>= λ acct.
      some (unlock acct l)

  -- One round of the loop in `OnElectionComplete`; an undecided change is reverted.
  unfoldable pub complete_by : Status → ℕ → WalEntry → Ledger → Option Ledger
  unfolding undo_delta revert drop_wal
  complete_by c_coord seqnum w l = some (drop_wal seqnum l)
  complete_by c_part seqnum w l = some (drop_wal seqnum l)
  complete_by a_coord seqnum w l =
      wal_account cluster_id l.shard_map (entry_at seqnum log).request >>= λ acct.
      some (undo_delta seqnum w acct l)
  complete_by a_part_commit seqnum w l =
      wal_account cluster_id l.shard_map (entry_at seqnum log).request >>= λ acct.
      some (undo_delta seqnum w acct l)
  complete_by _ seqnum w l =
      wal_account cluster_id l.shard_map (entry_at seqnum log).request >>= λ acct.
      some (revert seqnum w acct l)

  -- The loop of `DemoteToBackup`.
  unfoldable pub demote_wal : Ledger → Option Ledger
  unfolding demote_by wal_loop
  demote_wal l = wal_loop log demote_by l.wal l

  -- The loop of `OnElectionComplete`.
  unfoldable pub complete_wal : Ledger → Option Ledger
  unfolding complete_by wal_loop
  complete_wal l = wal_loop log complete_by l.wal l
