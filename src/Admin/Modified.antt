-- ===== src/Admin/Modified.antt =====
-- The accounts that a node sends: what `modified_accounts_` and the write-ahead log say of the balances
-- (src/paxos_node.cpp).
use multi_paxos_distributed.Prelude.{
  ℕ, ◌≤◌, ◌≡◌, refl, sym, ap, subst, ◌∙◌, inl, inr, Bool, Bool-cases, true, false, some, ℤ, pos,
  ◌+ℤ◌, ◌-ℤ◌, ltb_ℤ, str_eq, ◌==◌, if◌then◌else◌, if_keeps, if_yes, if_no, ==_iff, arith, update,
}
use multi_paxos_distributed.Prelude.Map.{find, find-insert, find-erase}
use multi_paxos_distributed.Message.{
  Status, coord, prep, c_coord, c_part, a_coord, a_part_commit, ClientRequest,
}
use multi_paxos_distributed.Ledger.{
  Ledger, WalEntry, execute_between, first_phase, transfer, second_phase, unlock, drop_wal, modify,
  set_balance, log_wal, mark_executed, is_abort_vote,
}
use multi_paxos_distributed.Ledger.Recovery.{undo_delta, revert}
use multi_paxos_distributed.Admin.{reset_ledger}

-- In the role of the status, the execution of `seqnum` changes the balance of its owner alone.
abbrev pub Owns : ℕ → Status → ℕ → ℕ → Type 0
Owns o coord from to = from ≡ o
Owns o prep from to = to ≡ o
Owns o _ from to = Unit {0}

-- What an account that is not in `modified_accounts_` has, and what the log restores: `owner` gives
-- the account that the node changes in the first phase of a sequence number.
pub record IsShown (owner : ℕ → ℕ) (l : Ledger) : Type 0 where
  pub untouched : (i : ℕ) → 1 ≤ i → i ≤ 9000 → l.modified_accounts i ≡ false → l.accounts i ≡ pos 10
  pub logged : (k : ℕ) (w : WalEntry) → find k l.wal ≡ some w → l.modified_accounts (owner k) ≡ true

-- The operations of a node on its ledger.
pub data Step (owner : ℕ → ℕ) : Ledger → Ledger → Type 0 where
  reset : (l : Ledger) → Step owner l (reset_ledger l)
  executed :
      (from to seqnum : ℕ) (request : ClientRequest) (status : Status) (l : Ledger)
      → Owns (owner seqnum) status from to
      → Step owner l (execute_between from to request seqnum status l).0
  committed_coord :
      (from to seqnum : ℕ) (l : Ledger) → Step owner l (second_phase c_coord from to seqnum l)
  committed_part :
      (from to seqnum : ℕ) (l : Ledger) → Step owner l (second_phase c_part from to seqnum l)
  aborted_coord :
      (from to seqnum : ℕ) (w : WalEntry) (l : Ledger)
      → from ≡ owner seqnum
      → find seqnum l.wal ≡ some w
      → Step owner l (second_phase a_coord from to seqnum l)
  aborted_part :
      (from to seqnum : ℕ) (l : Ledger)
      → to ≡ owner seqnum
      → Step owner l (second_phase a_part_commit from to seqnum l)
  undone :
      (seqnum : ℕ) (w : WalEntry) (l : Ledger)
      → find seqnum l.wal ≡ some w
      → Step owner l (undo_delta seqnum w (owner seqnum) l)
  reverted :
      (seqnum : ℕ) (w : WalEntry) (l : Ledger)
      → find seqnum l.wal ≡ some w
      → Step owner l (revert seqnum w (owner seqnum) l)
  dropped : (seqnum : ℕ) (l : Ledger) → Step owner l (drop_wal seqnum l)
  unlocked : (acct : ℕ) (l : Ledger) → Step owner l (unlock acct l)

pub data Steps (owner : ℕ → ℕ) : Ledger → Ledger → Type 0 where
  start : (l : Ledger) → Steps owner l l
  next : {l l' l'' : Ledger} → Steps owner l l' → Step owner l' l'' → Steps owner l l''

pub reset_ledger-IsShown : (owner : ℕ → ℕ) (l : Ledger) → IsShown owner (reset_ledger l)
unfolding reset_ledger find
reset_ledger-IsShown owner l = record {
  untouched = λ i low high e. ground arith;
  logged = λ k w e. absurd (cc);
}

transfer-IsShown :
    (owner : ℕ → ℕ) (from to : ℕ) (amt : ℤ) (l : Ledger)
    → IsShown owner l
    → IsShown owner (transfer from to amt l)
unfolding transfer update
transfer-IsShown owner from to amt l h = record {
  untouched = λ i low high e. ground (arith, h.untouched i);
  logged = λ k w e. ground (arith, h.logged k w);
}

-- A balance that is logged for its owner, written and noted as modified.
logged_write-IsShown :
    (owner : ℕ → ℕ) (acct seqnum : ℕ) (before after v : ℤ) (l : Ledger)
    → acct ≡ owner seqnum
    → IsShown owner l
    → IsShown owner (modify acct (set_balance acct v (log_wal seqnum before after l)))
unfolding modify set_balance log_wal update
logged_write-IsShown owner acct seqnum before after v l o h =
    let x : WalEntry = record { before_value = before; after_value = after } in
    record {
      untouched = λ i low high e. ground (arith, h.untouched i);
      logged = λ k w e. elim (Bool-cases (seqnum == k)) [
        | inl here ↦
            if_yes (acct == owner k) _ _ (ground (arith, ap owner ((==_iff seqnum k).0 here), o))
        | inr other ↦ ground (
          arith,
          h.logged k w (sym (find-insert seqnum k x l.wal ∙ if_no (seqnum == k) _ _ other) ∙ e),
        )
      ];
    }

first_phase-IsShown :
    (owner : ℕ → ℕ) (status : Status) (from to seqnum : ℕ) (amt : ℤ) (l : Ledger)
    → Owns (owner seqnum) status from to
    → IsShown owner l
    → IsShown owner (first_phase status from to amt seqnum l)
unfolding first_phase
first_phase-IsShown owner prep from to seqnum amt l o h =
    logged_write-IsShown owner to seqnum (l.accounts to) (l.accounts to +ℤ amt)
      (l.accounts to +ℤ amt) l o h
first_phase-IsShown owner coord from to seqnum amt l o h =
    logged_write-IsShown owner from seqnum (l.accounts from) (l.accounts from -ℤ amt)
      (l.accounts from -ℤ amt) l o h
first_phase-IsShown owner _ from to seqnum amt l o h = h

-- Locks and executed entries do not matter.
pub eased-IsShown :
    (owner : ℕ → ℕ) (l l' : Ledger)
    → l'.accounts ≡ l.accounts
    → l'.modified_accounts ≡ l.modified_accounts
    → l'.wal ≡ l.wal
    → IsShown owner l
    → IsShown owner l'
eased-IsShown owner l l' a m w h = record {
  untouched = λ i low high e. ap (λ f. f i) a ∙ h.untouched i low high (sym (ap (λ f. f i) m) ∙ e);
  logged = λ k x e. ap (λ f. f (owner k)) m ∙ h.logged k x (sym (ap (find k) w) ∙ e);
}

pub between-IsShown :
    (owner : ℕ → ℕ) (from to seqnum : ℕ) (request : ClientRequest) (status : Status) (l : Ledger)
    → Owns (owner seqnum) status from to
    → IsShown owner l
    → IsShown owner (execute_between from to request seqnum status l).0
unfolding execute_between mark_executed unlock
between-IsShown owner from to seqnum request status l o h =
    let P : Ledger × Bool → Type 0 = λ r. IsShown owner r.0 in
    let same = l.shard_map to == l.shard_map from in
    let refused = mark_executed seqnum l in
    let freed = unlock to (unlock from refused) in
    let moved = transfer from to request.amount l in
    let phased = first_phase status from to request.amount seqnum l in
    let pays : Ledger × Bool =
      if same then (mark_executed seqnum moved, true) else (mark_executed seqnum phased, true) in
    let votes : Ledger × Bool = if is_abort_vote status then (refused, false) else pays in
    let funded : Ledger × Bool =
      if ltb_ℤ (l.accounts from) request.amount
      then ((if same then freed else refused), false)
      else votes in
    let refused_shown = eased-IsShown owner l refused refl refl refl h in
    if_keeps P (str_eq request.client_id "NO-OP") (l, true) funded h
      (if_keeps P (ltb_ℤ (l.accounts from) request.amount)
        ((if same then freed else refused), false) votes
        (if_keeps (IsShown owner) same freed refused (eased-IsShown owner l freed refl refl refl h)
          refused_shown)
        (if_keeps P (is_abort_vote status) (refused, false) pays refused_shown
          (if_keeps P same (mark_executed seqnum moved, true) (mark_executed seqnum phased, true)
            (eased-IsShown owner moved (mark_executed seqnum moved) refl refl refl
              (transfer-IsShown owner from to request.amount l h))
            (eased-IsShown owner phased (mark_executed seqnum phased) refl refl refl
              (first_phase-IsShown owner status from to seqnum request.amount l o h)))))

pub drop_wal-IsShown :
    (owner : ℕ → ℕ) (seqnum : ℕ) (l : Ledger) → IsShown owner l → IsShown owner (drop_wal seqnum l)
unfolding drop_wal
drop_wal-IsShown owner seqnum l h = record {
  untouched = h.untouched;
  logged = λ k w e. ground (arith, find-erase seqnum k l.wal, h.logged k w);
}

-- A write to an account that is noted as modified.
pub write-IsShown :
    (owner : ℕ → ℕ) (acct : ℕ) (v : ℤ) (l : Ledger)
    → l.modified_accounts acct ≡ true
    → IsShown owner l
    → IsShown owner (set_balance acct v l)
unfolding set_balance update
write-IsShown owner acct v l m h = record {
  untouched = λ i low high e. elim (Bool-cases (acct == i)) [
    | inl same ↦
        absurd
          (ground (arith, subst (λ k. l.modified_accounts k ≡ true) ((==_iff acct i).0 same) m, e))
    | inr other ↦ if_no (acct == i) v (l.accounts i) other ∙ h.untouched i low high e
  ];
  logged = h.logged;
}
