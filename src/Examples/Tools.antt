-- ===== src/Examples/Tools.antt =====
-- The theorems on the trace, the launcher, the benchmark and the objects that serve calls.
use multi_paxos_distributed.Prelude.{
  ap, Distinct, contains, ◌>>=◌, ◌+ℤ◌, ℕ, ◌-◌, ◌/◌, ◌%◌, ◌≤◌, ◌<◌, ◌≡◌, ◌⊎◌, ◌↔◌, refl, arith, true,
  false, not, some, none, List, [], ◌∷◌, ◌++◌, ◌==◌, negsuc,
}
use multi_paxos_distributed.Prelude.Map.{Map, find, keys}
use multi_paxos_distributed.Trace.{ring_dump, header, footer}
use multi_paxos_distributed.Trace.Window.{write_all, empty, lines, drop, ring_dump-write_all}
use multi_paxos_distributed.Launch.Shards.{make_shard_map}
use multi_paxos_distributed.Launch.Ranges.{lead, find-make_shard_map}
use multi_paxos_distributed.Launch.Reshard.{Transfer}
use multi_paxos_distributed.Launch.Balance.{done, reshard, crashed}
use multi_paxos_distributed.Launch.Moves.{reshard-make_shard_map_crashed}
use multi_paxos_distributed.Node.{Node}
use multi_paxos_distributed.Admin.{AliveUpdateRequest, handle_set_alive}
use multi_paxos_distributed.Launch.Alive.{send_alive_update, send_alive_update-handle_set_alive}
use multi_paxos_distributed.Examples.Data.{follower}
use multi_paxos_distributed.Benchmark.{Choice, choose_account, make_txn, get_shard, shard_size}
use multi_paxos_distributed.Benchmark.Sampling.{choose_account-ends}
use multi_paxos_distributed.Launch.Prompt.{
  sends, tell_all, reshard_request, after_reshard, print_reshard,
}
use multi_paxos_distributed.Launch.Agree.{IsTold, print_reshard-IsTold}
use multi_paxos_distributed.Benchmark.Pairs.{make_txn-get_shard}
use multi_paxos_distributed.Server.{
  Call, finish, prepare, commit, new_view, send_client_request, receive_accept_ack, heartbeat,
  alive_update, get_node_info, move_on, two_pc, accept, construct, init_handlers, proceed,
}
use multi_paxos_distributed.Server.Events.{Steps, start, next, request, waiting}
use multi_paxos_distributed.Server.Pool.{waiting-init_handlers}

abbrev statements : List (List ℕ)
statements = (104 ∷ 105 ∷ []) ∷ [] ∷ (33 ∷ 0 ∷ 34 ∷ []) ∷ []

ring_dump-write_all_example :
    ring_dump (write_all statements empty)
    ≡ header ++ (lines (drop (3 - 300000) statements) ++ footer)
ring_dump-write_all_example = ring_dump-write_all statements (omega arith)

find-make_shard_map_example :
    (lead (7 / 3) (7 % 3) 3 ≡ 7)
    × ((find 5 (make_shard_map 7 3) ≡ some 2)
        ↔ ((1 < 3) × ((lead (7 / 3) (7 % 3) 1 < 5) × (5 ≤ lead (7 / 3) (7 % 3) 2))))
find-make_shard_map_example = find-make_shard_map 7 3 5 1 (omega arith)

abbrev read_last : Transfer
read_last = record { sender = 7; receiver = none }

abbrev transfer_first : Transfer
transfer_first = record { sender = 1; receiver = some 2 }

last_is_seven : lead (7 / 3) (7 % 3) 2 < 7
unfolding lead
last_is_seven = omega arith

reshard-make_shard_map_crashed_example :
    reshard 9 3 (transfer_first ∷ read_last ∷ []) (make_shard_map 7 3) 7 ≡ crashed
reshard-make_shard_map_crashed_example =
    reshard-make_shard_map_crashed 9 2 7 (transfer_first ∷ []) [] read_last last_is_seven
      (omega arith)

abbrev outward : Transfer
outward = record { sender = 1; receiver = some 4 }

-- Item 4 goes to the cluster of item 1.
abbrev gathered : Map ℕ
gathered = (1, 1) ∷ (2, 1) ∷ (3, 1) ∷ (4, 1) ∷ (5, 2) ∷ (6, 2) ∷ (7, 3) ∷ (8, 3) ∷ (9, 3) ∷ []

one_move : reshard 4 3 (outward ∷ []) (make_shard_map 9 3) 9 ≡ done gathered
unfolding reshard make_shard_map ◌+ℤ◌
one_move = refl

stub_of_two : contains (1 ∷ 2 ∷ 3 ∷ []) 2 ≡ true
unfolding contains
stub_of_two = refl

agreed :
    print_reshard 4 (1 ∷ 2 ∷ 3 ∷ []) 3 (outward ∷ []) (make_shard_map 9 3) 9
    ≡ some (sends (tell_all (reshard_request gathered) (1 ∷ 2 ∷ 3 ∷ [])))
unfolding print_reshard
agreed = ap (after_reshard (1 ∷ 2 ∷ 3 ∷ [])) one_move

nine_items : Distinct (keys (make_shard_map 9 3)) × (contains (keys (make_shard_map 9 3)) 4 ≡ true)
unfolding make_shard_map contains
nine_items = ((refl, (refl, (refl, (refl, (refl, (refl, (refl, (refl, (refl, tt))))))))), refl)

print_reshard-IsTold_example :
    (n : Map ℕ) × ((reshard 4 3 (outward ∷ []) (make_shard_map 9 3) 9 ≡ done n)
      × ((c : ℕ) × ((find 4 n ≡ some c)
            × ((t : Node) × (((find 2 (tell_all (reshard_request gathered) (1 ∷ 2 ∷ 3 ∷ []))
                      >>= λ r. handle_set_alive r follower)
                    ≡ some t)
                  × IsTold follower t 4 c)))))
print_reshard-IsTold_example =
    print_reshard-IsTold 4 3 9 4 2 (outward ∷ []) (make_shard_map 9 3) (1 ∷ 2 ∷ 3 ∷ [])
      (tell_all (reshard_request gathered) (1 ∷ 2 ∷ 3 ∷ [])) follower agreed nine_items.0
      nine_items.1 stub_of_two

abbrev counter : ℕ → ℕ → ℕ
counter i n = i % n

counter_fair : (j m : ℕ) → 2 ≤ m → counter j m < m
counter_fair j m two = grind arith

choose_account-ends_example :
    (a : ℕ) × ((choose_account counter 4 12 5 false true false 2 (negsuc 6) ≡ some a)
      × ((1 ≤ a) × (a ≤ 5)))
choose_account-ends_example =
    choose_account-ends counter 4 12 5 2 false true false (negsuc 6) counter_fair (omega arith)
      (omega arith)

abbrev crossing : Choice
crossing = record { is_read = false; force_cross = true; src = 2; dst = 3; amount = 4 }

make_txn-get_shard_example :
    let t = make_txn counter 9 3 0 crossing in
    let shard = get_shard (shard_size 9 3) in
    ((1 ≤ t.dst) × (t.dst ≤ 9)) × ((t.dst ≡ t.src) ⊎ ((shard t.dst == shard t.src) ≡ not true))
make_txn-get_shard_example =
    make_txn-get_shard counter counter_fair 9 3 (omega arith) (omega arith) 0 crossing (omega arith)
      (omega arith, omega arith) (omega arith, omega arith) refl

abbrev others : List Call
others =
    construct commit
    ∷ construct new_view
    ∷ construct send_client_request
    ∷ construct receive_accept_ack
    ∷ construct heartbeat
    ∷ construct alive_update
    ∷ construct get_node_info
    ∷ construct move_on
    ∷ construct two_pc
    ∷ []

abbrev answering : Call
answering = record { kind = accept; status = finish; requested = false; finishing = true }

-- One request of `Accept` has come, and has its answer.
abbrev after_accept : List Call
after_accept = construct prepare ∷ answering ∷ (others ++ construct accept ∷ [])

one_accept : Steps (init_handlers 1) after_accept
unfolding init_handlers proceed construct
one_accept =
    next (start (init_handlers 1)) (request (construct prepare ∷ []) others (construct accept) refl)

waiting-init_handlers_example : waiting accept after_accept ≡ 1
waiting-init_handlers_example = waiting-init_handlers 1 after_accept accept refl one_accept

send_alive_update-handle_set_alive_example :
    (r : AliveUpdateRequest) × (((send_alive_update
            (1 ∷ 3 ∷ [])
            (1 ∷ 2 ∷ 3 ∷ [])
            false
            false
            0
            false
            true
          >>= find 2)
        ≡ some r)
      × ((t : Node) × ((handle_set_alive r follower ≡ some t)
            × (t.alive ≡ contains (1 ∷ 3 ∷ []) 2))))
send_alive_update-handle_set_alive_example =
    send_alive_update-handle_set_alive (1 ∷ 3 ∷ []) (1 ∷ 2 ∷ 3 ∷ []) 0 2 follower stub_of_two
