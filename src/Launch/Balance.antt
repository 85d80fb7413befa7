-- ===== src/Launch/Balance.antt =====
-- `Reshard` of src/node_launch.cpp: its step 5, and the whole of it.
use multi_paxos_distributed.Prelude.{
  ℕ, zero, suc, ◌+◌, ◌*◌, ◌/◌, ◌>>=◌, ◌≡◌, refl, Bool, true, false, Option, none, some, List, [],
  ◌∷◌, ◌==◌, if◌then◌else◌, ℤ, pos, ◌+ℤ◌, ltb_ℤ,
}
use multi_paxos_distributed.Prelude.Map.{Map}
use multi_paxos_distributed.Launch.Shards.{make_shard_map}
use multi_paxos_distributed.Launch.Reshard.{
  Transfer, Plan, at, zeros, count_loads, count_cross, move, reduce,
}

-- `std::min_element` and `std::max_element` give the first one; the best so far is `x`, at `best`.
min_from : ℕ → ℤ → ℕ → List ℤ → ℕ
min_from best x i [] = best
min_from best x i (y ∷ ys) =
    let less = ltb_ℤ y x in min_from (if less then i else best) (if less then y else x) (suc i) ys

max_from : ℕ → ℤ → ℕ → List ℤ → ℕ
max_from best x i [] = best
max_from best x i (y ∷ ys) =
    let more = ltb_ℤ x y in max_from (if more then i else best) (if more then y else x) (suc i) ys

unfoldable pub min_index : List ℤ → ℕ
unfolding min_from
min_index [] = 0
min_index (x ∷ xs) = min_from 0 x 1 xs

unfoldable pub max_index : List ℤ → ℕ
unfolding max_from
max_index [] = 0
max_index (x ∷ xs) = max_from 0 x 1 xs

is_zero : ℤ → Bool
is_zero (pos zero) = true
is_zero _ = false

-- The first item of the cluster that no transaction between clusters has; the inner `none` is -1.
unfoldable pub candidate : ℕ → List ℤ → Map ℕ → Option (Option ℕ)
unfolding at is_zero
candidate max_cluster cross [] = some none
candidate max_cluster cross ((item, cluster) ∷ m) =
    let rest = candidate max_cluster cross m in
    if cluster == max_cluster
    then (at item cross >>= λ n. if is_zero n then some (some item) else rest)
    else rest

unfoldable pub move_candidate : Option ℕ → ℕ → ℕ → Plan → Option (Plan × Bool)
unfolding move
move_candidate none max_cluster min_cluster p = some (p, true)
move_candidate (some item) max_cluster min_cluster p =
    move item max_cluster min_cluster p >>= λ q. some (q, false)

-- A round of the loop, and the value of `balanced` after it.
unfoldable pub balance_round : List ℤ → ℤ → Plan → Option (Plan × Bool)
unfolding at min_index max_index candidate move_candidate
balance_round cross max_size p =
    let min_cluster = min_index p.loads in
    let max_cluster = max_index p.loads in
    at max_cluster p.loads >>= λ load.
    if ltb_ℤ max_size load
    then (candidate max_cluster cross p.mapping >>= λ c. move_candidate c max_cluster min_cluster p)
    else some (p, true)

-- `running`: the loop has not ended after the rounds that were allowed.
pub data Run : Type 0 where
  crashed : Run
  running : Run
  done : Map ℕ → Run

unfoldable pub after_round : (Plan → Run) → Option (Plan × Bool) → Run
after_round rest none = crashed
after_round rest (some (q, true)) = done q.mapping
after_round rest (some (q, false)) = rest q

unfoldable pub balance : ℕ → List ℤ → ℤ → Plan → Run
unfolding balance_round after_round
balance zero cross max_size p = running
balance (suc fuel) cross max_size p =
    after_round (balance fuel cross max_size) (balance_round cross max_size p)

-- `static_cast<int>(avg_size * 1.3)`.
unfoldable pub max_size : ℕ → ℕ → ℤ
max_size num_clusters total_items = pos (total_items / num_clusters * 13 / 10)

unfoldable pub planned : ℕ → List Transfer → Map ℕ → ℕ → Option (List ℤ × Plan)
unfolding count_loads count_cross reduce max_size zeros
planned num_clusters transactions current_mapping total_items =
    count_loads current_mapping transactions (zeros num_clusters) >>= λ loads.
    count_cross current_mapping transactions (zeros (total_items + 1)) >>= λ cross.
    (if num_clusters == 0
      then none
      else reduce cross (max_size num_clusters total_items) transactions
          (record { mapping = current_mapping; loads = loads }))
    >>= λ p. some (cross, p)

unfoldable pub balance_planned : ℕ → ℤ → Option (List ℤ × Plan) → Run
unfolding balance
balance_planned fuel max_size none = crashed
balance_planned fuel max_size (some (cross, p)) = balance fuel cross max_size p

-- `Reshard`, with `fuel` rounds of its loop.
unfoldable pub reshard : ℕ → ℕ → List Transfer → Map ℕ → ℕ → Run
unfolding planned balance_planned
reshard fuel num_clusters transactions current_mapping total_items =
    balance_planned fuel (max_size num_clusters total_items)
      (planned num_clusters transactions current_mapping total_items)

read_of : ℕ → Transfer
read_of i = record { sender = i; receiver = none }

reads : List Transfer
reads = read_of 1 ∷ read_of 1 ∷ read_of 1 ∷ read_of 2 ∷ read_of 2 ∷ read_of 2 ∷ []

six_reads : reshard 20 3 reads (make_shard_map 3 3) 3 ≡ running
unfolding reshard reads make_shard_map read_of ◌+ℤ◌
six_reads = refl
