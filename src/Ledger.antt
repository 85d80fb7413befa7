-- ===== src/Ledger.antt =====
-- The accounts of a node, their locks and the write-ahead log: the fields `accounts_`,
-- `balance_locks_`, `wal_`, `modified_accounts_`, `executed_entries_` and `shard_map_` of
-- src/paxos_node.h, and what `ExecuteTransaction`, `ExecuteRepeatedTwoPCEntry` and the two recovery
-- loops of src/paxos_node.cpp do to them. Balances and amounts are whole numbers, on which the
-- doubles of the program are exact. The vectors of accounts and locks are functions of the account.
pub mod Sums
pub mod Transfer
pub mod TwoPhase
pub mod Atomicity
pub mod Faults
pub mod Recovery
pub mod RecoveryLaws
use multi_paxos_distributed.Prelude.Map.{Map, find, insert, erase}
use multi_paxos_distributed.Prelude.{
  ℕ, ◌≡◌, Bool, true, false, Option, none, some, List, [], ◌∷◌, ℤ, pos, ◌+ℤ◌, ◌-ℤ◌, ltb_ℤ, ◌==◌,
  if◌then◌else◌, str_eq, ◌>>=◌, update,
}
use multi_paxos_distributed.Account.{stoi}
use multi_paxos_distributed.Message.{
  Status, unset, coord, prep, abort_vote, c_coord, c_part, a_coord, a_part_commit, ClientRequest,
  AcceptedEntry, no_entry,
}

-- `struct WalEntry`.
pub record WalEntry : Type 0 where
  pub before_value : ℤ
  pub after_value : ℤ

pub record Ledger : Type 0 where
  pub accounts : ℕ → ℤ
  pub locks : ℕ → Bool  -- `balance_locks_`: true while held
  pub wal : Map WalEntry
  pub modified_accounts : ℕ → Bool
  pub executed_entries : ℕ → Bool
  pub shard_map : ℕ → ℕ  -- 0 where `shard_map_` has no key

-- `balance_locks_[acct].unlock()`.
unfoldable pub unlock : ℕ → Ledger → Ledger
unlock acct l = record l { locks = update l.locks acct false }

-- `balance_locks_[acct].try_lock()`, which fails on a lock that is held.
unfoldable pub try_lock : ℕ → Ledger → Option Ledger
try_lock acct l =
    if l.locks acct then none else some (record l { locks = update l.locks acct true })

unfoldable pub set_balance : ℕ → ℤ → Ledger → Ledger
set_balance acct v l = record l { accounts = update l.accounts acct v }

unfoldable pub modify : ℕ → Ledger → Ledger
modify acct l = record l { modified_accounts = update l.modified_accounts acct true }

unfoldable pub mark_executed : ℕ → Ledger → Ledger
mark_executed seqnum l = record l { executed_entries = update l.executed_entries seqnum true }

unfoldable pub log_wal : ℕ → ℤ → ℤ → Ledger → Ledger
log_wal seqnum before after l = record l {
  wal = insert seqnum (record { before_value = before; after_value = after }) l.wal;
}

unfoldable pub drop_wal : ℕ → Ledger → Ledger
drop_wal seqnum l = record l { wal = erase seqnum l.wal }

-- Both accounts in this shard: move the money and release both locks.
unfoldable pub transfer : ℕ → ℕ → ℤ → Ledger → Ledger
unfolding set_balance modify unlock
transfer from to amt l =
    let debited = set_balance from (l.accounts from -ℤ amt) l in
    let moved = set_balance to (debited.accounts to +ℤ amt) debited in
    unlock to (unlock from (modify to (modify from moved)))

-- First phase of a two-phase commit, or nothing.
unfoldable pub first_phase : Status → ℕ → ℕ → ℤ → ℕ → Ledger → Ledger
unfolding set_balance modify log_wal
first_phase prep from to amt seqnum l = modify to (
    set_balance to (l.accounts to +ℤ amt) (log_wal seqnum (l.accounts to) (l.accounts to +ℤ amt) l))
first_phase coord from to amt seqnum l = modify from (
    set_balance from (l.accounts from -ℤ amt)
      (log_wal seqnum (l.accounts from) (l.accounts from -ℤ amt) l))
first_phase _ from to amt seqnum l = l

-- `two_pc_status == "A"`.
unfoldable pub is_abort_vote : Status → Bool
is_abort_vote abort_vote = true
is_abort_vote _ = false

-- `ExecuteTransaction` once the two accounts are read.
unfoldable pub execute_between : ℕ → ℕ → ClientRequest → ℕ → Status → Ledger → Ledger × Bool
unfolding unlock mark_executed transfer first_phase is_abort_vote
execute_between from to request seqnum status l =
    let amt = request.amount in
    let intra_shard = l.shard_map to == l.shard_map from in
    let refused = mark_executed seqnum l in
    if str_eq request.client_id "NO-OP"
    then (l, true)
    else if ltb_ℤ (l.accounts from) amt
    then ((if intra_shard then unlock to (unlock from refused) else refused), false)
    else if is_abort_vote status
    then (refused, false)
    else if intra_shard
    then (mark_executed seqnum (transfer from to amt l), true)
    else (mark_executed seqnum (first_phase status from to amt seqnum l), true)

-- `ExecuteTransaction`.
unfoldable pub execute_transaction : ClientRequest → ℕ → Status → Ledger → Option (Ledger × Bool)
unfolding execute_between
execute_transaction request seqnum status l = stoi request.from_account >>= λ from.
    stoi request.to_account >>= λ to. some (execute_between from to request seqnum status l)

-- `wal_[seqnum]`: a missing entry reads as zeros.
unfoldable pub wal_or_zero : Option WalEntry → WalEntry
wal_or_zero none = record { before_value = pos 0; after_value = pos 0 }
wal_or_zero (some w) = w

-- `A_PART_COMMIT` undoes the credit if it was made.
unfoldable pub undo_credit : Option WalEntry → ℕ → ℕ → Ledger → Ledger
unfolding set_balance drop_wal
undo_credit none to seqnum l = l
undo_credit (some w) to seqnum l = drop_wal seqnum (set_balance to w.before_value l)

-- What `ExecuteRepeatedTwoPCEntry` does to the accounts.
unfoldable pub second_phase : Status → ℕ → ℕ → ℕ → Ledger → Ledger
unfolding unlock set_balance drop_wal wal_or_zero undo_credit
second_phase a_coord from to seqnum l =
    let x = wal_or_zero (find seqnum l.wal) in
    unlock from (set_balance from x.before_value (drop_wal seqnum l))
second_phase c_coord from to seqnum l = drop_wal seqnum (unlock from l)
second_phase c_part from to seqnum l = drop_wal seqnum (unlock to l)
second_phase a_part_commit from to seqnum l =
    unlock to (undo_credit (find seqnum l.wal) to seqnum l)
second_phase _ from to seqnum l = l
