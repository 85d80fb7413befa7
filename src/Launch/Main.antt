-- ===== src/Launch/Main.antt =====
-- The loop of `main` (src/node_launch.cpp) over the lines of the test file, with `StartClientRequests`.
-- The waits for `remaining_transactions` are phases: while the count is positive a step leaves the
-- phase as it is. The splitting of a line into fields and the trimming of a text are boost's.
-- `PromptUser`, which runs when a set is done, changes nothing of this state.
use multi_paxos_distributed.Launch.Alive.{send_alive_update}
use multi_paxos_distributed.Launch.Fields.{Fields, failed, single, triple, parse_transaction}
use multi_paxos_distributed.Launch.Integers.{stoi_int, to_string}
use multi_paxos_distributed.Launch.Nodes.{parse_nodes, command_node}
use multi_paxos_distributed.Admin.{AliveUpdateRequest}
use multi_paxos_distributed.Message.{ClientRequest}
use multi_paxos_distributed.Client.{Client, submit, reset_leaders_per_cluster}
use multi_paxos_distributed.Prelude.{
  ℕ, zero, ◌+◌, ◌>>=◌, Bool, true, false, not, ◌&&◌, ◌||◌, Option, none, some, List, [], ◌∷◌, ◌++◌,
  ◌==◌, if◌then◌else◌, ℤ, pos, negsuc, ltb_ℤ,
}

-- `boost::tokenizer` with `escaped_list_separator`, and `boost::algorithm::trim_copy`.
pub record Boost : Type 0 where
  pub tokenize : List ℕ → List (List ℕ)
  pub trim : List ℕ → List ℕ

-- The three fields of a line.
pub record Row : Type 0 where
  pub set_field : List ℕ
  pub transaction_field : List ℕ
  pub nodes_field : List ℕ

-- Where `main` is: before a line, in the wait before a new set, in the wait before a node is failed
-- or revived, in the wait after the last line, and after it.
pub data Phase : Type 0 where
  next_line : Phase
  set_ends : Row → Phase
  command_waits : Bool → ℤ → Phase
  last_wait : Phase
  finished : Phase

-- The variables of `main`, the client, and the calls to the nodes so far. `stubs` are the keys of
-- the map of that name.
pub record Launcher : Type 0 where
  pub stubs : List ℕ
  pub lines : List (List ℕ)
  pub phase : Phase
  pub current_set_number : ℤ
  pub active_nodes_set : List ℕ
  pub num : ℕ
  pub transactions_processed : List (ℤ × ℤ)
  pub client : Client
  pub updates : List (ℕ × AliveUpdateRequest)

pub is_nonzero : ℤ → Bool
is_nonzero (pos zero) = false
is_nonzero _ = true

unfoldable pub is_empty : List ℕ → Bool
is_empty [] = true
is_empty (x ∷ xs) = false

unfoldable pub starts_with : ℕ → List ℕ → Bool
starts_with c [] = false
starts_with c (x ∷ xs) = x == c

-- `fields.size() == 3`.
unfoldable pub row_of : List (List ℕ) → Option Row
row_of (a ∷ b ∷ c ∷ []) = some (record { set_field = a; transaction_field = b; nodes_field = c })
row_of _ = none

-- `remaining_transactions.load() > 0`.
unfoldable pub is_busy : Client → Bool
is_busy c = ltb_ℤ (pos 0) c.remaining

-- `SendAliveUpdateAsync`, with the calls appended. The node -1 has no stub.
unfoldable pub update_nodes : List ℕ → Bool → Bool → ℤ → Bool → Bool → Launcher → Option Launcher
unfolding send_alive_update
update_nodes alive fail recover (pos node) pause reset l =
    send_alive_update alive l.stubs fail recover node pause reset >>= λ calls.
    some (record l { updates = l.updates ++ calls })
update_nodes alive fail recover (negsuc node) pause reset l =
    if fail || recover
    then none
    else send_alive_update alive l.stubs false false 0 pause reset >>= λ calls.
        some (record l { updates = l.updates ++ calls })

-- The request of a transaction; a read has the receiver and the amount -1.
unfoldable pub request_for : ℤ → ℤ → ℤ → Bool → ℕ → ClientRequest
unfolding to_string
request_for from to amount read_only num = record {
  client_id = "";
  timestamp = num;
  from_account = to_string from;
  to_account = to_string to;
  amount = amount;
  read_only = read_only;
  two_pc_msg = "";
  from_node = 0;
}

-- A transaction is counted and submitted; the first one of a set sets the nodes up before that, in
-- `StartClientRequests`.
unfoldable pub start_transaction : ℕ → Bool → ℤ → ℤ → ℤ → Bool → Launcher → Option Launcher
unfolding update_nodes request_for submit
start_transaction now set_num_empty from to amount read_only l =
    let ready =
      if set_num_empty
      then some l
      else update_nodes l.active_nodes_set false false (negsuc 0) false true l in
    ready >>= λ r. some (record r {
      num = l.num + 1;
      transactions_processed = l.transactions_processed ++ (from, to) ∷ [];
      client = submit now (request_for from to amount read_only l.num) l.client;
      phase = next_line;
    })

-- The line of a transaction, after its set number.
unfoldable pub run_transaction : ℕ → Bool → List ℕ → Fields → Launcher → Option Launcher
unfolding start_transaction parse_nodes
run_transaction now set_num_empty nodes failed l = some (record l { phase = next_line })
run_transaction now set_num_empty nodes (single from) l =
    start_transaction now set_num_empty from (negsuc 0) (negsuc 0) true
      (record l { active_nodes_set = parse_nodes nodes l.active_nodes_set })
run_transaction now set_num_empty nodes (triple from to amount) l =
    start_transaction now set_num_empty from to amount false
      (record l { active_nodes_set = parse_nodes nodes l.active_nodes_set })

-- A command starts with `F` or `R`; then `main` waits.
unfoldable pub run_command : Bool → List ℕ → Launcher → Option Launcher
unfolding command_node
run_command fail text l =
    command_node text >>= λ node. some (record l { phase = command_waits fail node })

-- The set number of a line, if it has one.
unfoldable pub enter_set : List ℕ → Launcher → Option Launcher
unfolding is_empty stoi_int
enter_set text l =
    if is_empty text
    then some l
    else stoi_int text >>= λ number.
        some (record l { current_set_number = number; active_nodes_set = [] })

-- A line, after the wait before a new set.
unfoldable pub run_row : Boost → ℕ → Row → Launcher → Option Launcher
unfolding enter_set run_command run_transaction parse_transaction starts_with is_empty
run_row boost now row l = enter_set row.set_field l >>= λ entered.
    let text = row.transaction_field in
    if starts_with b'F' text
    then run_command true text entered
    else if starts_with b'R' text
    then run_command false text entered
    else run_transaction now (is_empty row.set_field) (boost.trim row.nodes_field)
        (parse_transaction (boost.trim text)) entered

-- The set is done: the nodes pause, and the next set starts afresh.
unfoldable pub end_set : Launcher → Option Launcher
unfolding update_nodes reset_leaders_per_cluster
end_set l = update_nodes [] false false (negsuc 0) true false l >>= λ paused. some (record paused {
  client = reset_leaders_per_cluster paused.client;
  transactions_processed = [];
})

-- A line with three fields.
unfoldable pub read_row : Boost → ℕ → Option Row → Launcher → Option Launcher
unfolding run_row is_empty is_nonzero
read_row boost now none l = some l
read_row boost now (some row) l =
    if is_nonzero l.current_set_number && not (is_empty row.set_field)
    then some (record l { phase = set_ends row })
    else run_row boost now row l

-- The next line; an empty one, and one that starts with `S`, is passed over.
unfoldable pub read_line : Boost → ℕ → List (List ℕ) → Launcher → Option Launcher
unfolding read_row row_of is_empty starts_with
read_line boost now [] l = some (record l { phase = last_wait })
read_line boost now (line ∷ rest) l =
    let tail : Launcher = record l { lines = rest } in
    if is_empty line || starts_with b'S' line
    then some tail
    else read_row boost now (row_of (boost.tokenize line)) tail

-- What follows a wait. A command is sent to its node alone; after the last set all are set down.
unfoldable pub after_wait : Boost → ℕ → Phase → Launcher → Option Launcher
unfolding end_set run_row update_nodes
after_wait boost now next_line l = some l
after_wait boost now (set_ends row) l = end_set l >>= run_row boost now row
after_wait boost now (command_waits fail node) l =
    update_nodes l.active_nodes_set fail (not fail) node false false l >>= λ sent.
    some (record sent { phase = next_line })
after_wait boost now last_wait l = update_nodes [] false false (negsuc 0) false false l >>= λ sent.
    some (record sent { phase = finished })
after_wait boost now finished l = some l

unfoldable pub advance_from : Boost → ℕ → Phase → Launcher → Option Launcher
unfolding read_line after_wait is_busy
advance_from boost now next_line l = read_line boost now l.lines l
advance_from boost now finished l = some l
advance_from boost now phase l = if is_busy l.client then some l else after_wait boost now phase l

-- A step of `main`: a line, or a look at the count in a wait. `none` where it throws.
unfoldable pub advance : Boost → ℕ → Launcher → Option Launcher
unfolding advance_from
advance boost now l = advance_from boost now l.phase l
