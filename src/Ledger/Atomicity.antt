-- ===== src/Ledger/Atomicity.antt =====
-- A cross-shard transaction over its two clusters: the coordinator's COORD and the participant's P
-- (`ExecuteTransaction`), then C_COORD and C, or A_COORD and A_PART_COMMIT
-- (`ExecuteRepeatedTwoPCEntry`), in src/paxos_node.cpp.
use mathlib.Core.Path.{fun_ext}
use multi_paxos_distributed.Prelude.{
  ℕ, ◌<◌, ◌≡◌, ap, ◌∙◌, arith, Bool, true, false, ℤ, ◌+ℤ◌, ◌-ℤ◌, ◌≤ℤ◌, int_laws, if◌then◌else◌,
  update, str_eq,
}
use multi_paxos_distributed.Message.{
  Status, coord, prep, c_coord, c_part, a_coord, a_part_commit, ClientRequest,
}
use multi_paxos_distributed.Ledger.Sums.{total, total-update}
use multi_paxos_distributed.Ledger.TwoPhase.{
  CrossShard, coord-executes, prep-executes, a_coord-undoes, c_coord-keeps, c_part-keeps,
  a_part_commit-undoes,
}
use multi_paxos_distributed.Ledger.{Ledger, execute_between, second_phase}

-- Writing a balance and then the old one again changes nothing.
undone : (f g : ℕ → ℤ) (k : ℕ) (v : ℤ) → g ≡ update f k v → update g k (f k) ≡ f
unfolding update
undone f g k v e = rw e (fun_ext (λ j. ground (arith, ap f)))

-- The outcome that the coordinator's cluster agrees on, as each side records it.
abbrev pub coord_outcome : Bool → Status
coord_outcome committed = if committed then c_coord else a_coord

abbrev pub part_outcome : Bool → Status
part_outcome committed = if committed then c_part else a_part_commit

pub coord_run :
    (committed : Bool) (from to seqnum : ℕ) (request : ClientRequest) (l : Ledger)
    → str_eq request.client_id "NO-OP" ≡ false
    → CrossShard l from to
    → request.amount ≤ℤ l.accounts from
    → (second_phase
        (coord_outcome committed)
        from
        to
        seqnum
        (execute_between from to request seqnum coord l).0).accounts
      ≡ (if committed
          then update l.accounts from (l.accounts from -ℤ request.amount)
          else l.accounts)
coord_run true from to seqnum request l real apart funds =
    (c_coord-keeps from to seqnum _).0
    ∙ (coord-executes from to seqnum request l real apart funds).0
coord_run false from to seqnum request l real apart funds =
    let first = coord-executes from to seqnum request l real apart funds in
    (a_coord-undoes from to seqnum _ _ first.1).0 ∙ undone l.accounts _ from _ first.0

pub part_run :
    (committed : Bool) (from to seqnum : ℕ) (request : ClientRequest) (l : Ledger)
    → str_eq request.client_id "NO-OP" ≡ false
    → CrossShard l from to
    → request.amount ≤ℤ l.accounts from
    → (second_phase
        (part_outcome committed)
        from
        to
        seqnum
        (execute_between from to request seqnum prep l).0).accounts
      ≡ (if committed then update l.accounts to (l.accounts to +ℤ request.amount) else l.accounts)
part_run true from to seqnum request l real apart funds =
    (c_part-keeps from to seqnum _).0 ∙ (prep-executes from to seqnum request l real apart funds).0
part_run false from to seqnum request l real apart funds =
    let first = prep-executes from to seqnum request l real apart funds in
    (a_part_commit-undoes from to seqnum _ _ first.1).0 ∙ undone l.accounts _ to _ first.0

moved_across : (t u x y a : ℤ) → t +ℤ (x -ℤ a -ℤ x) +ℤ (u +ℤ (y +ℤ a -ℤ y)) ≡ t +ℤ u
moved_across t u x y a = omega int_laws

-- How the balances of the coordinator's cluster (`c` before, `c'` after) and of the participant's
-- (`p` before, `p'` after) are related: the debit and the credit are both there or both absent,
-- and the grand total is the same.
pub record IsAtomic (committed : Bool) (n from to : ℕ) (amt : ℤ) (c c' p p' : ℕ → ℤ) : Type 0 where
  pub debit : c' ≡ (if committed then update c from (c from -ℤ amt) else c)
  pub credit : p' ≡ (if committed then update p to (p to +ℤ amt) else p)
  pub conserved : total n c' +ℤ total n p' ≡ total n c +ℤ total n p

balanced :
    (committed : Bool) (n from to : ℕ) (amt : ℤ) (c c' p p' : ℕ → ℤ)
    → from < n
    → to < n
    → c' ≡ (if committed then update c from (c from -ℤ amt) else c)
    → p' ≡ (if committed then update p to (p to +ℤ amt) else p)
    → total n c' +ℤ total n p' ≡ total n c +ℤ total n p
balanced true n from to amt c c' p p' hf ht ec ep =
    rw (ec, ep, total-update n from (c from -ℤ amt) c hf, total-update n to (p to +ℤ amt) p ht)
      (moved_across _ _ _ _ _)
balanced false n from to amt c c' p p' hf ht ec ep = rw (ec, ep)

pub both_run :
    (committed : Bool) (n from to seq_c seq_p : ℕ) (request : ClientRequest) (lc lp : Ledger)
    → str_eq request.client_id "NO-OP" ≡ false
    → CrossShard lc from to
    → CrossShard lp from to
    → request.amount ≤ℤ lc.accounts from
    → request.amount ≤ℤ lp.accounts from
    → from < n
    → to < n
    → IsAtomic committed n from to request.amount lc.accounts
        (second_phase
          (coord_outcome committed)
          from
          to
          seq_c
          (execute_between from to request seq_c coord lc).0).accounts
        lp.accounts
        (second_phase
          (part_outcome committed)
          from
          to
          seq_p
          (execute_between from to request seq_p prep lp).0).accounts
both_run committed n from to seq_c seq_p request lc lp real ac ap fc fp hf ht =
    let debit = coord_run committed from to seq_c request lc real ac fc in
    let credit = part_run committed from to seq_p request lp real ap fp in
    record {
      debit = debit;
      credit = credit;
      conserved = balanced committed n from to request.amount _ _ _ _ hf ht debit credit;
    }
