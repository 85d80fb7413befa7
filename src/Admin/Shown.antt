-- ===== src/Admin/Shown.antt =====
-- `PrintBalance` (src/node_launch.cpp) shows the balances of a node, though the node sends only those of
-- `modified_accounts_` (`HandleSendNodeInfo` in src/paxos_node.cpp).
use multi_paxos_distributed.Prelude.{
  String, ℕ, zero, suc, ◌+◌, ◌≤◌, ◌≡◌, sym, ap, subst, ◌∙◌, inl, inr, Bool-cases, true, false, ◌&&◌,
  some, List, [], ◌∷◌, ℤ, leb, ltb, ◌==◌, if◌then◌else◌, ==_iff, arith,
}
use multi_paxos_distributed.Ledger.{Ledger}
use multi_paxos_distributed.Launch.Texts.{stoi-to_string}
use multi_paxos_distributed.Launch.Console.{
  found_balances, or_initial, print_balance, print_db_request,
}
use multi_paxos_distributed.Node.{Node}
use multi_paxos_distributed.Admin.{reset_ledger}
use multi_paxos_distributed.Admin.Queries.{database_entries, handle_send_node_info}
use multi_paxos_distributed.Admin.Marked.{Steps-IsShown}
use multi_paxos_distributed.Admin.Modified.{Steps, reset_ledger-IsShown}

-- What is found among the accounts from `account` on.
abbrev sent : ℕ → ℕ → ℕ → Ledger → List ℤ
sent item rounds account l =
    if leb account item && (ltb item (account + rounds) && l.modified_accounts item)
    then l.accounts item ∷ []
    else []

sent-here :
    (item rounds account : ℕ) (l : Ledger)
    → l.modified_accounts account ≡ true
    → (if item == account
        then l.accounts account ∷ sent item rounds (suc account) l
        else sent item rounds (suc account) l)
      ≡ sent item (suc rounds) account l
sent-here item rounds account l m = elim (Bool-cases (item == account)) [
  | inl same ↦
      subst
        (λ i.
          (if i == account
            then l.accounts account ∷ sent i rounds (suc account) l
            else sent i rounds (suc account) l)
          ≡ sent i (suc rounds) account l)
        (sym ((==_iff item account).0 same)) (ground (arith, m))
  | inr other ↦ ground (arith, other)
]

sent-not_here :
    (item rounds account : ℕ) (l : Ledger)
    → l.modified_accounts account ≡ false
    → sent item rounds (suc account) l ≡ sent item (suc rounds) account l
sent-not_here item rounds account l m = elim (Bool-cases (item == account)) [
  | inl same ↦
      subst (λ i. sent i rounds (suc account) l ≡ sent i (suc rounds) account l)
        (sym ((==_iff item account).0 same)) (ground (arith, m))
  | inr other ↦ ground (arith, other)
]

-- The balances that are found: that of the account, once, if it is one of those that are sent.
found_balances-entries :
    (item rounds account : ℕ) (l : Ledger)
    → account + rounds ≤ 2147483648
    → found_balances item (database_entries rounds account l) ≡ some (sent item rounds account l)
unfolding found_balances database_entries
found_balances-entries item zero account l h = ground arith
found_balances-entries item (suc rounds) account l h =
    elim (Bool-cases (l.modified_accounts account)) [
      | inl yes_sent ↦ rw yes_sent (
          rw (stoi-to_string account (omega arith)) (
            rw (found_balances-entries item rounds (suc account) l (omega arith))
              (ap some (sent-here item rounds account l yes_sent))))
      | inr kept ↦ rw kept (
          found_balances-entries item rounds (suc account) l (omega arith)
          ∙ ap some (sent-not_here item rounds account l kept))
    ]

-- After a reset, and then any executions, second phases and rounds of the two recovery loops, in any
-- order and with any outcome, `PrintBalance` for an item from 1 to 9000 prints one number for the node,
-- and this is its balance, although the node sends only accounts in `modified_accounts_`. The first
-- phase and the undoing of a sequence number must be about one account, `owner`, and the coordinator's
-- abort and a round of a loop must find the entry in the write-ahead log.
pub print_balance-accounts :
    (owner : ℕ → ℕ) (l : Ledger) (s : Node) (item : ℕ) (printed : String)
    → Steps owner (reset_ledger l) s.ledger
    → 1 ≤ item
    → item ≤ 9000
    → print_balance item (handle_send_node_info printed print_db_request s).database
      ≡ some (s.ledger.accounts item ∷ [])
unfolding print_balance handle_send_node_info or_initial
print_balance-accounts owner l s item printed run low high =
    let shown = Steps-IsShown owner run (reset_ledger-IsShown owner l) in
    let untouched = shown.untouched item low high in
    rw (found_balances-entries item 9001 0 s.ledger (omega arith))
      (elim (Bool-cases (s.ledger.modified_accounts item)) [
        | inl m ↦ ground (arith, m)
        | inr m ↦ ground (arith, m, untouched)
      ])
