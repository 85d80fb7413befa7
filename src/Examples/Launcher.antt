-- ===== src/Examples/Launcher.antt =====
-- The theorems on the launcher: a test file with one transaction, of which the reply comes in.
use multi_paxos_distributed.Prelude.{
  List, ◌∙◌, ◌==◌, if◌then◌else◌, ◌*◌, ◌≡◌, ◌≢◌, ◌||◌, refl, ap, sym, subst, arith, true, false,
  some, none, [], ◌∷◌, ◌++◌, map, pos, contains, ℕ, ◌/◌, ◌+◌, ◌-◌,
}
use mathlib.Core.List.{append_assoc}
use multi_paxos_distributed.Message.{unset}
use multi_paxos_distributed.Ledger.{Ledger, execute_between}
use multi_paxos_distributed.Client.{Client, PendingRequest, handle_leader_reply}
use multi_paxos_distributed.Launch.Nodes.{parse_nodes}
use multi_paxos_distributed.Launch.NodeNames.{node_name, parse_nodes-node_list}
use multi_paxos_distributed.Launch.Main.{Boost, Launcher, Phase, next_line, last_wait, advance}
use multi_paxos_distributed.Launch.Runs.{IsFresh, Steps, start, next, client, answered}
use multi_paxos_distributed.Launch.Idle.{waits, Steps-IsFresh, wait-idle}
use multi_paxos_distributed.Launch.Submitted.{
  Carries, Documented, all_plain, line_of, transaction-Carries,
}
use multi_paxos_distributed.Launch.Console.{print_balance, print_db_request}
use multi_paxos_distributed.Benchmark.{Txn}
use multi_paxos_distributed.Benchmark.Csv.{node_list, quoted}
use multi_paxos_distributed.Admin.{reset_ledger}
use multi_paxos_distributed.Admin.Queries.{handle_send_node_info}
use multi_paxos_distributed.Admin.Modified
use multi_paxos_distributed.Admin.Shown.{print_balance-accounts}
use multi_paxos_distributed.Examples.Data.{inside, follower, two_shards}

abbrev sent_once : PendingRequest
sent_once = record { request = inside; expiry = 140; active = true; completed = false }

abbrev busy : Client
busy = record {
  nodes = 1 ∷ 2 ∷ 3 ∷ 4 ∷ 5 ∷ 6 ∷ [];
  num_clusters = 2;
  leader_per_cluster = λ c. c * 3 - 2;
  sharding_map = λ account. account / 5 + 1;
  objects = λ i. sent_once;
  created = 1;
  inflight = (7, 0) ∷ [];
  timer_heap = 0 ∷ [];
  stop_timer = false;
  remaining = pos 1;
  sent = [];
}

-- The last line is done, and its request, with the timestamp 7, is in flight.
abbrev waiting : Launcher
waiting = record {
  stubs = 1 ∷ 2 ∷ 3 ∷ 4 ∷ 5 ∷ 6 ∷ [];
  lines = [];
  phase = last_wait;
  current_set_number = pos 1;
  active_nodes_set = 1 ∷ 2 ∷ 3 ∷ [];
  num = 8;
  transactions_processed = (pos 1, pos 2) ∷ [];
  client = busy;
  updates = [];
}

abbrev answered_once : Launcher
answered_once = record waiting { client = handle_leader_reply 7 1 busy }

waiting-IsFresh : IsFresh waiting
unfolding contains
waiting-IsFresh = record {
  counted = record { counted = refl; distinct = (refl, tt) };
  below = (omega arith, tt);
}

abbrev plain : Boost
plain = record { tokenize = λ line. line ∷ []; trim = λ text. text }

reply_comes : Steps plain waiting answered_once
reply_comes =
    next (start waiting) (client waiting (handle_leader_reply 7 1 busy) (answered 7 1 busy))

Steps-IsFresh_example : IsFresh answered_once
Steps-IsFresh_example = Steps-IsFresh plain reply_comes waiting-IsFresh

abbrev IsLast : Phase → Type 0
IsLast last_wait = Unit {0}
IsLast _ = ⊥

-- All nodes are set down.
abbrev ended : Launcher
ended = elim (advance plain 60 answered_once) [ none ↦ answered_once | some n ↦ n ]

goes_on : advance plain 60 answered_once ≡ some ended
unfolding advance handle_leader_reply
goes_on = refl

has_ended : ended ≢ answered_once
unfolding advance handle_leader_reply
has_ended e = subst IsLast (sym (ap (λ (l : Launcher). l.phase) e)) tt

wait-idle_example : (handle_leader_reply 7 1 busy).inflight ≡ []
unfolding waits
wait-idle_example = wait-idle plain 60 ended reply_comes waiting-IsFresh refl goes_on has_ended

parse_nodes-node_list_example :
    contains (parse_nodes (b'[' ∷ (node_list (map node_name (1 ∷ 3 ∷ [])) ++ b']' ∷ [])) (4 ∷ [])) 3
    ≡ contains (1 ∷ 3 ∷ []) 3 || contains (4 ∷ []) 3
parse_nodes-node_list_example = parse_nodes-node_list (1 ∷ 3 ∷ []) (4 ∷ []) 3 (omega arith)

abbrev moving : Txn
moving = record { is_read = false; src = 12; dst = 4001; amount = 5 }

abbrev reading : Launcher
reading = record waiting { phase = next_line; lines = line_of moving ∷ [] }

before_quote : List ℕ → List ℕ
before_quote [] = []
before_quote (x ∷ xs) = let rest = before_quote xs in if x == 34 then [] else x ∷ rest

before_quote-quoted :
    (text rest : List ℕ) → all_plain text ≡ true → before_quote (text ++ 34 ∷ rest) ≡ text
unfolding before_quote all_plain
before_quote-quoted [] rest h = refl
before_quote-quoted (x ∷ xs) rest h = ground (arith, before_quote-quoted xs rest)

-- A tokenizer of lines that have the second of three fields in quotes and the others empty.
from_quotes : List ℕ → List ℕ
from_quotes (a ∷ b ∷ text) = before_quote text
from_quotes _ = []

abbrev second_field : Boost
second_field = record { tokenize = λ line. [] ∷ from_quotes line ∷ [] ∷ []; trim = λ text. text }

second_field-Documented : Documented second_field
unfolding from_quotes quoted
second_field-Documented = record {
  quoted_field = λ text h.
      ap (λ t. [] ∷ t ∷ [] ∷ [])
        (ap before_quote (append_assoc text (34 ∷ []) (b',' ∷ []))
          ∙ before_quote-quoted text (b',' ∷ []) h);
  trimmed = λ x y text h k. refl;
}

transaction-Carries_example :
    (l' : Launcher) × ((advance second_field 60 reading ≡ some l')
      × Carries 60 moving (record reading { lines = [] }) l')
transaction-Carries_example =
    transaction-Carries second_field 60 moving [] reading second_field-Documented refl (omega arith)
      (omega arith) refl refl

-- Account 1 pays 3 to account 2 after a reset.
abbrev paid : Ledger
paid = (execute_between 1 2 inside 4 unset (reset_ledger two_shards)).0

abbrev owner : ℕ → ℕ
owner k = 1

payment : Modified.Steps owner (reset_ledger two_shards) paid
payment =
    Modified.Steps.next (Modified.Steps.start (reset_ledger two_shards))
      (Modified.Step.executed 1 2 4 inside unset (reset_ledger two_shards) tt)

print_balance-accounts_example :
    print_balance 2
      (handle_send_node_info "" print_db_request (record follower { ledger = paid })).database
    ≡ some (paid.accounts 2 ∷ [])
print_balance-accounts_example =
    print_balance-accounts owner two_shards (record follower { ledger = paid }) 2 "" payment
      (omega arith) (omega arith)
