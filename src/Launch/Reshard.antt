-- ===== src/Launch/Reshard.antt =====
-- `Reshard` of src/node_launch.cpp: a new cluster for some items, from the transactions that were
-- sent. `none` and `crashed` are an exception or an access outside of a vector.
use multi_paxos_distributed.Prelude.{
  ℕ, zero, suc, ◌>>=◌, Bool, false, not, Option, none, some, List, [], ◌∷◌, ◌==◌, if◌then◌else◌, ℤ,
  pos, negsuc, ◌+ℤ◌, ltb_ℤ,
}
use multi_paxos_distributed.Prelude.Map.{Map, find}
use multi_paxos_distributed.Launch.Shards.{assign}

-- The two items of a transaction, the second `none` for -1: one that only reads.
pub record Transfer : Type 0 where
  pub sender : ℕ
  pub receiver : Option ℕ

-- `v[i]` and `v[i] += d`.
unfoldable pub at : ℕ → List ℤ → Option ℤ
at i [] = none
at zero (x ∷ xs) = some x
at (suc i) (x ∷ xs) = at i xs

unfoldable pub add_at : ℕ → ℤ → List ℤ → Option (List ℤ)
add_at i d [] = none
add_at zero d (x ∷ xs) = some ((x +ℤ d) ∷ xs)
add_at (suc i) d (x ∷ xs) = add_at i d xs >>= λ ys. some (x ∷ ys)

unfoldable pub zeros : ℕ → List ℤ
zeros zero = []
zeros (suc n) = pos 0 ∷ zeros n

-- The body of the loop of step 1.
unfoldable pub count_receiver : Map ℕ → Option ℕ → List ℤ → Option (List ℤ)
unfolding add_at find
count_receiver m none loads = some loads
count_receiver m (some r) loads = find r m >>= λ cluster_r. add_at cluster_r (pos 1) loads

unfoldable pub count_load : Map ℕ → Transfer → List ℤ → Option (List ℤ)
unfolding count_receiver
count_load m t loads =
    find t.sender m >>= λ cluster_s. add_at cluster_s (pos 1) loads >>= count_receiver m t.receiver

-- Step 1: `cluster_loads`.
unfoldable pub count_loads : Map ℕ → List Transfer → List ℤ → Option (List ℤ)
unfolding count_load
count_loads m [] loads = some loads
count_loads m (t ∷ ts) loads = count_load m t loads >>= count_loads m ts

-- The body of the loop of step 2.
unfoldable pub count_crossing : Map ℕ → Transfer → List ℤ → Option (List ℤ)
unfolding add_at find
count_crossing m t cross = elim t.receiver [
  | none ↦ some cross
  | some r ↦ find t.sender m >>= λ cluster_s. find r m >>= λ cluster_r.
      if cluster_s == cluster_r
      then some cross
      else add_at t.sender (pos 1) cross >>= add_at r (pos 1)
]

-- Step 2: `cross_count`.
unfoldable pub count_cross : Map ℕ → List Transfer → List ℤ → Option (List ℤ)
unfolding count_crossing
count_cross m [] cross = some cross
count_cross m (t ∷ ts) cross = count_crossing m t cross >>= count_cross m ts

-- `new_mapping` and `cluster_loads`.
pub record Plan : Type 0 where
  pub mapping : Map ℕ
  pub loads : List ℤ

-- `new_mapping[k]`, which makes a missing entry, with the value 0.
unfoldable pub entry_found : Option ℕ → ℕ → Map ℕ → ℕ × Map ℕ
unfolding assign
entry_found (some c) k m = (c, m)
entry_found none k m = (0, assign k 0 m)

unfoldable pub entry : ℕ → Map ℕ → ℕ × Map ℕ
unfolding find entry_found
entry k m = entry_found (find k m) k m

-- An item goes to the cluster `there`, and its load from `here`.
unfoldable pub move : ℕ → ℕ → ℕ → Plan → Option Plan
unfolding assign add_at
move item here there p = add_at there (pos 1) p.loads >>= λ loads.
    add_at here (negsuc 0) loads >>= λ loads.
    some (record { mapping = assign item there p.mapping; loads = loads })

leb_ℤ : ℤ → ℤ → Bool
leb_ℤ a b = not (ltb_ℤ b a)

-- Step 4, for a transfer between `s` and `r`, whose clusters are different.
unfoldable pub lighten : List ℤ → ℤ → ℕ → ℕ → ℕ → ℕ → Plan → Option Plan
unfolding at move leb_ℤ
lighten cross max_size s r cluster_s cluster_r p = at cluster_s p.loads >>= λ load_s.
    at cluster_r p.loads >>= λ load_r. at s cross >>= λ cross_s. at r cross >>= λ cross_r.
    if (if ltb_ℤ cross_s cross_r then leb_ℤ (load_r +ℤ pos 1) max_size else false)
    then move s cluster_s cluster_r p
    else if leb_ℤ (load_s +ℤ pos 1) max_size
    then move r cluster_r cluster_s p
    else some p

unfoldable pub reduce_pair : List ℤ → ℤ → ℕ → Option ℕ → Plan → Option Plan
unfolding entry lighten
reduce_pair cross max_size s none p = some (record p { mapping = (entry s p.mapping).1 })
reduce_pair cross max_size s (some r) p =
    let s_entry = entry s p.mapping in
    let r_entry = entry r s_entry.1 in
    let p = record p { mapping = r_entry.1 } in
    if s_entry.0 == r_entry.0 then some p else lighten cross max_size s r s_entry.0 r_entry.0 p

unfoldable pub reduce_one : List ℤ → ℤ → Transfer → Plan → Option Plan
unfolding reduce_pair
reduce_one cross max_size t p = reduce_pair cross max_size t.sender t.receiver p

unfoldable pub reduce : List ℤ → ℤ → List Transfer → Plan → Option Plan
unfolding reduce_one
reduce cross max_size [] p = some p
reduce cross max_size (t ∷ ts) p = reduce_one cross max_size t p >>= reduce cross max_size ts
