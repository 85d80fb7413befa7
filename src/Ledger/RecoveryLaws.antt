-- ===== src/Ledger/RecoveryLaws.antt =====
-- The loops of `DemoteToBackup` and `OnElectionComplete` (src/paxos_node.cpp), and the write-ahead
-- log.
use multi_paxos_distributed.Prelude.Map.{Map, find, erase, has, find-erase, has-find}
use multi_paxos_distributed.Prelude.{
  ℕ, ◌≡◌, refl, arith, Bool, true, false, ◌&&◌, Option, none, some, [], ◌∷◌, ◌==◌, if◌then◌else◌,
  ◌-ℤ◌, ◌+ℤ◌, int_laws, ℤ, update, ap,
}
use multi_paxos_distributed.Message.{
  Status, c_coord, c_part, a_coord, a_part_commit, AcceptedEntry, is_phase2,
}
use multi_paxos_distributed.Ledger.{Ledger, WalEntry, unlock}
use multi_paxos_distributed.Ledger.Recovery.{
  entry_at, wal_account, demote_by, complete_by, wal_loop, demote_wal, complete_wal, undo_delta,
  revert,
}

-- The outcome of the entry is known.
unfoldable pub decided : Map AcceptedEntry → ℕ → Bool
unfolding is_phase2
decided log k = is_phase2 (entry_at k log).phase2_result

drop_both :
    (k j : ℕ) (later drops_k drops_j : Bool) (after between before : Option WalEntry)
    → after ≡ (if later && drops_j then none else between)
    → between ≡ (if k == j && drops_k then none else before)
    → (k ≡ j → drops_k ≡ drops_j)
    → after ≡ (if (if k == j then true else later) && drops_j then none else before)
drop_both k j later drops_k drops_j after between before p q same = ground arith

module _ (cluster_id : ℕ) (log : Map AcceptedEntry) where
  -- Every logged change belongs to a request whose account can be read.
  abbrev pub Readable : (ℕ → ℕ) → Map WalEntry → Type 0
  Readable shards [] = Unit {0}
  Readable shards ((k, w) ∷ rest) =
      ((acct : ℕ) × (wal_account cluster_id shards (entry_at k log).request ≡ some acct))
      × Readable shards rest

  -- A round at a readable entry `k` succeeds; it drops that entry of the log or leaves the log.
  record Round (k : ℕ) (gone : Bool) (l l' : Ledger) : Type 0 where
    same_shards : l'.shard_map ≡ l.shard_map
    wal_after : (j : ℕ) → find j l'.wal ≡ (if k == j && gone then none else find j l.wal)

  dropped :
      (k : ℕ) (l l' : Ledger)
      → l'.shard_map ≡ l.shard_map
      → l'.wal ≡ erase k l.wal
      → Round k true l l'
  dropped k l l' shards e = record {
    same_shards = shards;
    wal_after = λ j. rw e (ground (arith, find-erase k j l.wal));
  }

  abbrev IsRound : (Status → ℕ → WalEntry → Ledger → Option Ledger) → (Status → Bool) → Type 0
  IsRound round drops =
      (s : Status) (k : ℕ) (w : WalEntry) (l : Ledger) (acct : ℕ)
      → wal_account cluster_id l.shard_map (entry_at k log).request ≡ some acct
      → (l' : Ledger) × (round s k w l ≡ some l') × Round k (drops s) l l'

  wal_loop-wal :
      (round : Status → ℕ → WalEntry → Ledger → Option Ledger) (drops : Status → Bool)
      → IsRound round drops
      → (ws : Map WalEntry) (l : Ledger) → Readable l.shard_map ws
      → (l' : Ledger) × (wal_loop log round ws l ≡ some l')
        × ((j : ℕ)
            → find j l'.wal
              ≡ (if has j ws && drops (entry_at j log).phase2_result then none else find j l.wal))
  unfolding wal_loop has
  wal_loop-wal round drops r [] l h = (l, refl, λ j. refl)
  wal_loop-wal round drops r ((k, w) ∷ ws) l ((acct, e), h) =
      let (l₁, e₁, r₁) = r (entry_at k log).phase2_result k w l acct e in
      let (l₂, e₂, r₂) = wal_loop-wal round drops r ws l₁ (rw r₁.same_shards h) in
      (
        l₂,
        rw e₁ e₂,
        λ j.
            drop_both k j _ _ _ _ _ _ (r₂ j) (r₁.wal_after j)
              (λ same. ap (λ i. drops (entry_at i log).phase2_result) same),
      )

  demote-IsRound : IsRound (demote_by cluster_id log) is_phase2
  unfolding demote_by is_phase2
  demote-IsRound c_coord k w l acct e = (_, refl, dropped k l _ refl refl)
  demote-IsRound c_part k w l acct e = (_, refl, dropped k l _ refl refl)
  demote-IsRound a_coord k w l acct e = (undo_delta k w acct l, rw e, dropped k l _ refl refl)
  demote-IsRound a_part_commit k w l acct e = (undo_delta k w acct l, rw e, dropped k l _ refl refl)
  demote-IsRound s k w l acct e =
      (unlock acct l, rw e, record { same_shards = refl; wal_after = λ j. ground arith })

  complete-IsRound : IsRound (complete_by cluster_id log) (λ _. true)
  unfolding complete_by
  complete-IsRound c_coord k w l acct e = (_, refl, dropped k l _ refl refl)
  complete-IsRound c_part k w l acct e = (_, refl, dropped k l _ refl refl)
  complete-IsRound a_coord k w l acct e = (undo_delta k w acct l, rw e, dropped k l _ refl refl)
  complete-IsRound a_part_commit k w l acct e =
      (undo_delta k w acct l, rw e, dropped k l _ refl refl)
  complete-IsRound s k w l acct e = (revert k w acct l, rw e, dropped k l _ refl refl)

  -- The loop at a demotion, when every logged change can be read, succeeds and keeps exactly the
  -- entries of the write-ahead log whose outcome is not known yet.
  pub demote_wal-keeps_undecided :
      (l : Ledger)
      → Readable l.shard_map l.wal
      → (l' : Ledger) × (demote_wal cluster_id log l ≡ some l')
        × ((j : ℕ) → find j l'.wal ≡ (if decided log j then none else find j l.wal))
  unfolding demote_wal decided
  demote_wal-keeps_undecided l h =
      let (l', e, f) = wal_loop-wal (demote_by cluster_id log) is_phase2 demote-IsRound l.wal l h in
      (l', e, λ j. ground (arith, f j, has-find j l.wal))

  -- The loop at the end of an election, when every logged change can be read, succeeds and
  -- empties the write-ahead log.
  pub complete_wal-empties :
      (l : Ledger)
      → Readable l.shard_map l.wal
      → (l' : Ledger) × (complete_wal cluster_id log l ≡ some l') × ((j : ℕ) → find j l'.wal ≡ none)
  unfolding complete_wal
  complete_wal-empties l h =
      let (l', e, f) =
        wal_loop-wal (complete_by cluster_id log) (λ _. true) complete-IsRound l.wal l h in
      (l', e, λ j. ground (arith, f j, has-find j l.wal))

taken_back : (v b a : ℤ) → v +ℤ (b -ℤ (b -ℤ a)) ≡ v +ℤ a
taken_back v b a = omega int_laws

-- When the account of the request can be read, undoing an aborted debit of `amt` adds exactly
-- `amt` to the balance of that account as it is by then, whatever happened to it since the debit
-- was logged, changes no other balance, and releases the lock of the account, in both loops
-- alike.
aborted_debit_returned :
    (cluster_id seqnum acct : ℕ) (b amt : ℤ) (log : Map AcceptedEntry) (l : Ledger)
    → wal_account cluster_id l.shard_map (entry_at seqnum log).request ≡ some acct
    → let w : WalEntry = record { before_value = b; after_value = b -ℤ amt } in
      (d : Ledger) × (demote_by cluster_id log a_coord seqnum w l ≡ some d)
      × (complete_by cluster_id log a_coord seqnum w l ≡ some d)
      × (d.accounts ≡ update l.accounts acct (l.accounts acct +ℤ amt))
      × (d.locks acct ≡ false)
unfolding demote_by complete_by update
aborted_debit_returned cluster_id seqnum acct b amt log l e = (
  undo_delta seqnum (record { before_value = b; after_value = b -ℤ amt }) acct l,
  rw e,
  rw e,
  rw (taken_back (l.accounts acct) b amt),
  ground arith,
)
