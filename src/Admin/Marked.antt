-- ===== src/Admin/Marked.antt =====
-- Every operation of a node on its ledger keeps what `modified_accounts_` says of the balances
-- (src/paxos_node.cpp).
use multi_paxos_distributed.Prelude.{ℕ, ◌≡◌, refl, ap, ◌∙◌, Option, none, some, ◌+ℤ◌, ◌-ℤ◌}
use multi_paxos_distributed.Prelude.Map.{find}
use multi_paxos_distributed.Message.{a_coord}
use multi_paxos_distributed.Ledger.{
  Ledger, WalEntry, second_phase, unlock, drop_wal, set_balance, wal_or_zero, undo_credit,
}
use multi_paxos_distributed.Ledger.Recovery.{undo_delta, revert}
use multi_paxos_distributed.Admin.Modified.{
  reset, executed, committed_coord, committed_part, aborted_coord, aborted_part, undone, reverted,
  dropped, unlocked, start, next, IsShown, Step, Steps, reset_ledger-IsShown, eased-IsShown,
  between-IsShown, drop_wal-IsShown, write-IsShown,
}

unlock-IsShown :
    (owner : ℕ → ℕ) (acct : ℕ) (l : Ledger) → IsShown owner l → IsShown owner (unlock acct l)
unfolding unlock
unlock-IsShown owner acct l h = eased-IsShown owner l (unlock acct l) refl refl refl h

aborted_coord-IsShown :
    (owner : ℕ → ℕ) (from to seqnum : ℕ) (w : WalEntry) (l : Ledger)
    → from ≡ owner seqnum
    → find seqnum l.wal ≡ some w
    → IsShown owner l
    → IsShown owner (second_phase a_coord from to seqnum l)
unfolding second_phase drop_wal
aborted_coord-IsShown owner from to seqnum w l o e h =
    let dropped = drop_wal seqnum l in
    let before = (wal_or_zero (find seqnum l.wal)).before_value in
    eased-IsShown owner (set_balance from before dropped) _ refl refl refl (
      write-IsShown owner from before dropped (ap l.modified_accounts o ∙ h.logged seqnum w e)
        (drop_wal-IsShown owner seqnum l h))

undo_credit-IsShown :
    (owner : ℕ → ℕ) (found : Option WalEntry) (to seqnum : ℕ) (l : Ledger)
    → to ≡ owner seqnum
    → find seqnum l.wal ≡ found
    → IsShown owner l
    → IsShown owner (undo_credit found to seqnum l)
unfolding undo_credit
undo_credit-IsShown owner none to seqnum l o e h = h
undo_credit-IsShown owner (some w) to seqnum l o e h =
    drop_wal-IsShown owner seqnum (set_balance to w.before_value l)
      (write-IsShown owner to w.before_value l (ap l.modified_accounts o ∙ h.logged seqnum w e) h)

Step-IsShown :
    (owner : ℕ → ℕ) {l l' : Ledger} → Step owner l l' → IsShown owner l → IsShown owner l'
unfolding second_phase undo_delta revert
Step-IsShown owner (reset l) h = reset_ledger-IsShown owner l
Step-IsShown owner (executed from to seqnum request status l o) h =
    between-IsShown owner from to seqnum request status l o h
Step-IsShown owner (committed_coord from to seqnum l) h =
    drop_wal-IsShown owner seqnum (unlock from l) (unlock-IsShown owner from l h)
Step-IsShown owner (committed_part from to seqnum l) h =
    drop_wal-IsShown owner seqnum (unlock to l) (unlock-IsShown owner to l h)
Step-IsShown owner (aborted_coord from to seqnum w l o e) h =
    aborted_coord-IsShown owner from to seqnum w l o e h
Step-IsShown owner (aborted_part from to seqnum l o) h =
    unlock-IsShown owner to (undo_credit (find seqnum l.wal) to seqnum l)
      (undo_credit-IsShown owner (find seqnum l.wal) to seqnum l o refl h)
Step-IsShown owner (undone seqnum w l e) h =
    let acct = owner seqnum in
    let v = l.accounts acct +ℤ (w.before_value -ℤ w.after_value) in
    drop_wal-IsShown owner seqnum (unlock acct (set_balance acct v l)) (
      unlock-IsShown owner acct (set_balance acct v l)
        (write-IsShown owner acct v l (h.logged seqnum w e) h))
Step-IsShown owner (reverted seqnum w l e) h =
    let acct = owner seqnum in
    drop_wal-IsShown owner seqnum (unlock acct (set_balance acct w.before_value l)) (
      unlock-IsShown owner acct (set_balance acct w.before_value l)
        (write-IsShown owner acct w.before_value l (h.logged seqnum w e) h))
Step-IsShown owner (dropped seqnum l) h = drop_wal-IsShown owner seqnum l h
Step-IsShown owner (unlocked acct l) h = unlock-IsShown owner acct l h

pub Steps-IsShown :
    (owner : ℕ → ℕ) {l l' : Ledger} → Steps owner l l' → IsShown owner l → IsShown owner l'
Steps-IsShown owner (start l) h = h
Steps-IsShown owner (next run step) h = Step-IsShown owner step (Steps-IsShown owner run h)
