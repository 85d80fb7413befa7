-- ===== src/Launch/Prompt.antt =====
-- The commands of `PromptUser` (src/node_launch.cpp): what they ask or tell the nodes. The words of the
-- line are those that boost splits it into. What is only printed is left out. A negative number is
-- refused here: no node and no item has one, and no sequence number.
use multi_paxos_distributed.Prelude.{
  String, ℕ, ◌/◌, ◌>>=◌, ◌&&◌, ◌==◌, ltb, true, false, Option, none, some, List, [], ◌∷◌,
  if◌then◌else◌, str_eq, contains, length,
}
use multi_paxos_distributed.Prelude.Map.{Map, find}
use multi_paxos_distributed.Account.{stoi}
use multi_paxos_distributed.Admin.{AliveUpdateRequest}
use multi_paxos_distributed.Admin.Queries.{InfoRequest}
use multi_paxos_distributed.Launch.Console.{print_db_request, balance_nodes}
use multi_paxos_distributed.Launch.Reshard.{Transfer}
use multi_paxos_distributed.Launch.Balance.{Run, crashed, running, done, reshard}

-- `hangs`: `Reshard` has not ended after the rounds that were allowed.
pub data Outcome : Type 0 where
  usage invalid shows continues hangs : Outcome
  asks : List (ℕ × InfoRequest) → Outcome
  asks_balance : ℕ → List (ℕ × InfoRequest) → Outcome
  sends : List (ℕ × AliveUpdateRequest) → Outcome

abbrev no_query : InfoRequest
no_query = record {
  print_log = false;
  print_db = false;
  print_status = false;
  seqnum = 0;
  print_newview = false;
}

unfoldable pub ask_all : InfoRequest → List ℕ → List (ℕ × InfoRequest)
ask_all request [] = []
ask_all request (id ∷ stubs) = (id, request) ∷ ask_all request stubs

-- `PrintLog`; a node without a stub gives a null stub, which is called.
unfoldable pub print_log : List ℕ → List String → Option Outcome
unfolding stoi contains
print_log stubs (arg ∷ []) = stoi arg >>= λ id.
    if contains stubs id
    then some (asks ((id, record no_query { print_log = true }) ∷ []))
    else none
print_log stubs _ = some usage

-- `PrintStatus`.
unfoldable pub print_status : List ℕ → List String → Option Outcome
unfolding stoi ask_all
print_status stubs (arg ∷ []) = stoi arg >>= λ seqnum.
    some (asks (ask_all (record no_query { print_status = true; seqnum = seqnum }) stubs))
print_status stubs _ = some usage

-- `shard_map[item]`.
unfoldable pub cluster_of : Option ℕ → ℕ
cluster_of none = 0
cluster_of (some cluster) = cluster

-- `PrintBalance`; the nodes of a cluster 0, of an item that is not in the map, have no stubs.
unfoldable pub ask_balance : List ℕ → ℕ → Map ℕ → List String → Option Outcome
unfolding stoi find cluster_of balance_nodes ask_all
ask_balance stubs num_clusters shard_map (arg ∷ []) = stoi arg >>= λ item_id.
    let cluster = cluster_of (find item_id shard_map) in
    if cluster == 0 && ltb 0 (length stubs / num_clusters)
    then none
    else some (
        asks_balance item_id
          (ask_all print_db_request (balance_nodes (length stubs) num_clusters cluster)))
ask_balance stubs num_clusters shard_map _ = some usage

-- The request that carries a new map, in the order of its walk.
unfoldable pub reshard_request : Map ℕ → AliveUpdateRequest
reshard_request shard_map = record {
  is_alive = false;
  kill_leader = false;
  prompt_pause = false;
  recover = false;
  reset_state = false;
  reshard = true;
  shard_map = shard_map;
}

unfoldable pub tell_all : AliveUpdateRequest → List ℕ → List (ℕ × AliveUpdateRequest)
tell_all request [] = []
tell_all request (id ∷ stubs) = (id, request) ∷ tell_all request stubs

unfoldable pub after_reshard : List ℕ → Run → Option Outcome
unfolding tell_all reshard_request
after_reshard stubs crashed = none
after_reshard stubs running = some hangs
after_reshard stubs (done new_shard_map) =
    some (sends (tell_all (reshard_request new_shard_map) stubs))

-- `PrintReshard`, with `fuel` rounds of the loop of `Reshard`.
unfoldable pub print_reshard : ℕ → List ℕ → ℕ → List Transfer → Map ℕ → ℕ → Option Outcome
unfolding reshard after_reshard
print_reshard fuel stubs num_clusters transactions shard_map total =
    after_reshard stubs (reshard fuel num_clusters transactions shard_map total)

-- A command.
unfoldable pub prompt_command :
    ℕ → List ℕ → ℕ → List Transfer → Map ℕ → ℕ → List String → Option Outcome
unfolding print_log print_status ask_balance print_reshard ask_all
prompt_command fuel stubs num_clusters transactions shard_map total [] = some invalid
prompt_command fuel stubs num_clusters transactions shard_map total (name ∷ args) =
    if str_eq name "PrintLog"
    then print_log stubs args
    else if str_eq name "PrintDB"
    then some (asks (ask_all print_db_request stubs))
    else if str_eq name "PrintStatus"
    then print_status stubs args
    else if str_eq name "PrintView"
    then some (asks (ask_all (record no_query { print_newview = true }) stubs))
    else if str_eq name "PrintBalance"
    then ask_balance stubs num_clusters shard_map args
    else if str_eq name "Performance"
    then some shows
    else if str_eq name "PrintReshard"
    then print_reshard fuel stubs num_clusters transactions shard_map total
    else if str_eq name "Continue"
    then some continues
    else some invalid
