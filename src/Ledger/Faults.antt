-- ===== src/Ledger/Faults.antt =====
-- What the two phases of a commit (`ExecuteTransaction` and `ExecuteRepeatedTwoPCEntry` of
-- src/paxos_node.cpp) do in the cases that they are not written for.
use multi_paxos_distributed.Prelude.Map.{find, find-erase}
use multi_paxos_distributed.Prelude.{
  ℕ, ◌<◌, ◌≡◌, ap, arith, Bool, true, false, none, some, ℤ, pos, ◌+ℤ◌, ◌-ℤ◌, ◌≤ℤ◌, ltb_ℤ, int_laws,
  update, str_eq,
}
use multi_paxos_distributed.Message.{
  coord, prep, abort_vote, c_coord, c_part, a_coord, a_part_commit, ClientRequest,
}
use multi_paxos_distributed.Ledger.Sums.{total, total-update}
use multi_paxos_distributed.Ledger.Transfer.{Reads, execute-Reads}
use multi_paxos_distributed.Ledger.TwoPhase.{CrossShard, prep-executes}
use multi_paxos_distributed.Ledger.{Ledger, execute_transaction, execute_between, second_phase}

-- A coordinator without the funds leaves its balances and its log alone, but counts the entry as
-- executed.
unfunded_coord :
    (from to seqnum : ℕ) (request : ClientRequest) (l : Ledger)
    → CrossShard l from to
    → str_eq request.client_id "NO-OP" ≡ false
    → ltb_ℤ (l.accounts from) request.amount ≡ true
    → let l' = (execute_between from to request seqnum coord l).0 in
      (l'.accounts ≡ l.accounts) × (l'.wal ≡ l.wal) × (l'.executed_entries seqnum ≡ true)
unfolding execute_between update
unfunded_coord from to seqnum request l apart real poor = (ground arith, ground arith, ground arith)

grown : (t u y a : ℤ) → t +ℤ (u +ℤ (y +ℤ a -ℤ y)) ≡ t +ℤ u +ℤ a
grown t u y a = omega int_laws

-- A cross-shard transaction whose sender lacks the amount at the coordinator, but whose check
-- passes at the participant (which keeps its own balance of the sender), makes money when it is
-- committed: the total of the first `n` accounts of both clusters, the receiver among them, grows
-- by the amount.
pub unfunded_commit_mints :
    (n from to seq_c seq_p : ℕ) (request : ClientRequest) (lc lp : Ledger)
    → Reads lc request from to
    → CrossShard lc from to
    → CrossShard lp from to
    → ltb_ℤ (lc.accounts from) request.amount ≡ true
    → request.amount ≤ℤ lp.accounts from
    → to < n
    → (c p : Ledger × Bool) × (execute_transaction request seq_c coord lc ≡ some c)
      × (execute_transaction request seq_p prep lp ≡ some p)
      × (c.0.executed_entries seq_c ≡ true)
      × (total n (second_phase c_coord from to seq_c c.0).accounts
            +ℤ total n (second_phase c_part from to seq_p p.0).accounts
          ≡ total n lc.accounts +ℤ total n lp.accounts +ℤ request.amount)
unfolding second_phase
unfunded_commit_mints n from to seq_c seq_p request lc lp r ac ap poor rich ht =
    let debit = unfunded_coord from to seq_c request lc ac r.real poor in
    let credit = prep-executes from to seq_p request lp r.real ap rich in
    (
      _,
      _,
      execute-Reads r seq_c coord,
      execute-Reads {l = lp}
          (record { from_read = r.from_read; to_read = r.to_read; real = r.real }) seq_p prep,
      debit.2,
      rw (debit.0, credit.0, total-update n to (lp.accounts to +ℤ request.amount) lp.accounts ht)
          (grown _ _ _ _),
    )

-- A second A_COORD for the same entry sets the sender's balance to 0, whatever it is.
second_abort_wipes :
    (from to seqnum : ℕ) (l : Ledger)
    → (second_phase a_coord from to seqnum (second_phase a_coord from to seqnum l)).accounts from
      ≡ pos 0
unfolding second_phase update
second_abort_wipes from to seqnum l = ground (arith, find-erase seqnum seqnum l.wal)

-- A participant that votes to abort a cross-shard transaction while the lock of the receiver is
-- held, with no logged change, changes no balance, but when the abort is agreed on it releases
-- that lock.
abort_vote_frees_lock :
    (from to seqnum : ℕ) (request : ClientRequest) (l : Ledger)
    → Reads l request from to
    → CrossShard l from to
    → l.locks to ≡ true
    → find seqnum l.wal ≡ none
    → (r : Ledger × Bool) × (execute_transaction request seqnum abort_vote l ≡ some r)
      × (r.0.locks to ≡ true)
      × ((second_phase a_part_commit from to seqnum r.0).accounts ≡ l.accounts)
      × ((second_phase a_part_commit from to seqnum r.0).locks to ≡ false)
unfolding second_phase execute_between update
abort_vote_frees_lock from to seqnum request l r apart held fresh =
    (_, execute-Reads r seqnum abort_vote, ground arith, ground arith, ground arith)
