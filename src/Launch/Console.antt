-- ===== src/Launch/Console.antt =====
-- The command `PrintBalance` of `PromptUser` (src/node_launch.cpp).
use multi_paxos_distributed.Prelude.{
  ℕ, zero, suc, ◌+◌, ◌-◌, ◌*◌, ◌/◌, ◌>>=◌, ◌==◌, true, false, Option, some, List, [], ◌∷◌,
  if◌then◌else◌, ℤ, pos,
}
use multi_paxos_distributed.Account.{stoi}
use multi_paxos_distributed.Admin.Queries.{DbEntry, InfoRequest}

-- The request: only this query.
abbrev pub print_db_request : InfoRequest
print_db_request = record {
  print_log = false;
  print_db = true;
  print_status = false;
  seqnum = 0;
  print_newview = false;
}

-- The balances that are printed for the item, in the loop over an answer; `none` where `std::stoi`
-- throws.
unfoldable pub found_balances : ℕ → List DbEntry → Option (List ℤ)
unfolding stoi
found_balances item_id [] = some []
found_balances item_id (entry ∷ rest) = stoi entry.client >>= λ account.
    found_balances item_id rest >>= λ found.
    some (if item_id == account then entry.balance ∷ found else found)

-- 10 where the item was not found.
unfoldable pub or_initial : List ℤ → List ℤ
or_initial [] = pos 10 ∷ []
or_initial (b ∷ bs) = b ∷ bs

-- What is printed for a node with this answer.
unfoldable pub print_balance : ℕ → List DbEntry → Option (List ℤ)
unfolding found_balances or_initial
print_balance item_id entries = found_balances item_id entries >>= λ found. some (or_initial found)

-- `rounds` node ids from `node_id` on.
unfoldable pub count_up : ℕ → ℕ → List ℕ
count_up zero node_id = []
count_up (suc rounds) node_id = node_id ∷ count_up rounds (suc node_id)

-- The nodes that are asked, from `first_node` to `last_node`, for an item of a cluster from 1 on.
unfoldable pub balance_nodes : ℕ → ℕ → ℕ → List ℕ
unfolding count_up
balance_nodes num_nodes num_clusters cluster =
    let first_node = (cluster - 1) * (num_nodes / num_clusters) + 1 in
    let last_node = cluster * (num_nodes / num_clusters) in
    count_up (last_node + 1 - first_node) first_node
