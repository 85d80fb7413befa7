-- ===== src/Launch/Shards.antt =====
-- `MakeShardMap` of src/node_launch.cpp: the cluster of each item.
use multi_paxos_distributed.Prelude.{
  ℕ, zero, suc, ◌+◌, ◌/◌, ◌%◌, ◌≡◌, refl, some, [], ◌∷◌, leb, ◌==◌, if◌then◌else◌,
}
use multi_paxos_distributed.Prelude.Map.{Map, find}

-- `m[k] = v` on an unordered map: in place, or as a new entry.
unfoldable pub assign : ℕ → ℕ → Map ℕ → Map ℕ
assign k v [] = (k, v) ∷ []
assign k v ((j, w) ∷ m) = let rest = assign k v m in if j == k then (k, v) ∷ m else (j, w) ∷ rest

-- The inner loop: `rounds` items from `item` on.
unfoldable pub fill : ℕ → ℕ → ℕ → Map ℕ → Map ℕ
unfolding assign
fill zero item cluster m = m
fill (suc rounds) item cluster m = fill rounds (suc item) cluster (assign item cluster m)

-- The outer loop, from `cluster` on.
unfoldable pub fill_clusters : ℕ → ℕ → ℕ → ℕ → ℕ → Map ℕ → Map ℕ
unfolding fill
fill_clusters items_per_cluster remainder zero cluster item m = m
fill_clusters items_per_cluster remainder (suc rounds) cluster item m =
    let count = items_per_cluster + (if leb cluster remainder then 1 else 0) in
    fill_clusters items_per_cluster remainder rounds (suc cluster) (item + count)
      (fill count item cluster m)

-- The code divides by `num_clusters`, which must not be 0.
unfoldable pub make_shard_map : ℕ → ℕ → Map ℕ
unfolding fill_clusters
make_shard_map total_items num_clusters =
    fill_clusters (total_items / num_clusters) (total_items % num_clusters) num_clusters 1 1 []

seven_over_three : find 5 (make_shard_map 7 3) ≡ some 2
unfolding make_shard_map find
seven_over_three = refl
