-- ===== src/Launch/Moves.antt =====
-- What `Reshard` (src/node_launch.cpp) does to the map of items, and where it faults.

use multi_paxos_distributed.Prelude.{
  some-injective, none-ne-some, bind_none, bind_some, bind_assoc, ℕ, zero, suc, ◌/◌, ◌%◌, ◌≤◌, ◌<◌,
  ◌≡◌, refl, sym, ap, ◌∙◌, arith, inl, inr, Bool-cases, ==_iff, ◌>>=◌, true, false, Option, none,
  some, List, [], ◌∷◌, ◌==◌, ℤ, pos, negsuc, ltb_ℤ, ◌++◌, length, int_laws,
}
use multi_paxos_distributed.Prelude.Map.{Map, find}
use multi_paxos_distributed.Launch.Shards.{assign, make_shard_map}
use multi_paxos_distributed.Launch.Ranges.{lead, find-make_shard_map}
use multi_paxos_distributed.Launch.Reshard.{
  Transfer, Plan, at, add_at, zeros, count_receiver, count_load, count_loads, move,
}
use multi_paxos_distributed.Launch.Balance.{
  after_round, balance_planned, move_candidate, crashed, running, balance_round, balance, max_size,
  planned, reshard, min_index, max_index, candidate,
}

-- `v[i] += d` keeps the size, and faults past the end.
length-add_at : (i : ℕ) (d : ℤ) (v w : List ℤ) → add_at i d v ≡ some w → length v ≡ length w
unfolding add_at
length-add_at i d [] w e = absurd (none-ne-some _ e)
length-add_at zero d (x ∷ xs) w e = ap length (some-injective _ _ e)
length-add_at (suc i) d (x ∷ xs) w e =
    let rest = bind_some (add_at i d xs) (λ ys. some (x ∷ ys)) w e in
    ap suc (length-add_at i d xs rest.0 rest.1.0) ∙ ap length (some-injective _ _ rest.1.1)

add_at-past : (i : ℕ) (d : ℤ) (v : List ℤ) → length v ≤ i → add_at i d v ≡ none
unfolding add_at
add_at-past i d [] h = refl
add_at-past zero d (x ∷ xs) h = absurd (omega arith)
add_at-past (suc i) d (x ∷ xs) h = rw (add_at-past i d xs (omega arith)) refl

length-count_receiver :
    (m : Map ℕ) (r : Option ℕ) (v w : List ℤ) → count_receiver m r v ≡ some w → length v ≡ length w
unfolding count_receiver
length-count_receiver m none v w e = ap length (some-injective _ _ e)
length-count_receiver m (some r) v w e =
    let found = bind_some (find r m) _ w e in length-add_at found.0 (pos 1) v w found.1.1

length-count_load :
    (m : Map ℕ) (t : Transfer) (v w : List ℤ) → count_load m t v ≡ some w → length v ≡ length w
unfolding count_load
length-count_load m t v w e =
    let found = bind_some (find t.sender m) _ w e in
    let added = bind_some (add_at found.0 (pos 1) v) _ w found.1.1 in
    length-add_at found.0 (pos 1) v added.0 added.1.0
    ∙ length-count_receiver m t.receiver added.0 w added.1.1

-- Step 1 faults at an item whose cluster is past the end of `cluster_loads`.
count_loads-past :
    (m : Map ℕ) (before after : List Transfer) (t : Transfer) (c : ℕ) (loads : List ℤ)
    → find t.sender m ≡ some c
    → length loads ≤ c
    → count_loads m (before ++ t ∷ after) loads ≡ none
unfolding count_loads count_load
count_loads-past m [] after t c loads here h = rw here (rw (add_at-past c (pos 1) loads h) refl)
count_loads-past m (b ∷ before) after t c loads here h = bind_none (count_load m b loads) _ (λ l e.
    count_loads-past m before after t c l here (omega (arith, length-count_load m b loads l e)))

length-zeros : (n : ℕ) → length (zeros n) ≡ n
unfolding zeros
length-zeros zero = refl
length-zeros (suc n) = ap suc (length-zeros n)

planned-past :
    (n total : ℕ) (m : Map ℕ) (before after : List Transfer) (t : Transfer) (c : ℕ)
    → find t.sender m ≡ some c
    → n ≤ c
    → planned n (before ++ t ∷ after) m total ≡ none
unfolding planned
planned-past n total m before after t c here h =
    rw (count_loads-past m before after t c (zeros n) here (omega (arith, length-zeros n))) refl

-- With the map that `MakeShardMap` makes for at least one cluster, `Reshard` writes past the end of
-- `cluster_loads` as soon as the sender of a transaction is an item of the last cluster.
pub reshard-make_shard_map_crashed :
    (fuel n total : ℕ) (before after : List Transfer) (t : Transfer)
    → lead (total / suc n) (total % suc n) n < t.sender
    → t.sender ≤ total
    → reshard fuel (suc n) (before ++ t ∷ after) (make_shard_map total (suc n)) total ≡ crashed
unfolding reshard balance_planned
reshard-make_shard_map_crashed fuel n total before after t low high =
    let law = find-make_shard_map total (suc n) t.sender n (omega arith) in
    let m = make_shard_map total (suc n) in
    let fault =
      planned-past (suc n) total m before after t (suc n)
        (law.1.1 (omega arith, (low, omega (arith, law.0)))) (omega arith) in
    ap (balance_planned fuel (max_size (suc n) total)) fault

add_at-cons :
    (i : ℕ) (d x : ℤ) (o : Option (List ℤ))
    → (o >>= (λ ys. some (x ∷ ys)) >>= add_at (suc i) d)
      ≡ (o >>= add_at i d >>= λ ys. some (x ∷ ys))
unfolding add_at
add_at-cons i d x none = refl
add_at-cons i d x (some ys) = refl

add_at-cancel :
    (i : ℕ) (v : List ℤ) (load : ℤ)
    → at i v ≡ some load
    → (add_at i (pos 1) v >>= add_at i (negsuc 0)) ≡ some v
unfolding at add_at
add_at-cancel i [] load e = absurd (none-ne-some _ e)
add_at-cancel zero (x ∷ v) load e = ap (λ y. some (y ∷ v)) (omega int_laws)
add_at-cancel (suc i) (x ∷ v) load e =
    add_at-cons i (negsuc 0) x (add_at i (pos 1) v)
    ∙ ap (λ o. o >>= λ ys. some (x ∷ ys)) (add_at-cancel i v load e)

assign-same : (k v : ℕ) (m : Map ℕ) → find k m ≡ some v → assign k v m ≡ m
unfolding assign find
assign-same k v [] e = absurd (none-ne-some _ e)
assign-same k v ((j, w) ∷ m) e = elim (Bool-cases (j == k)) [
  | inl same ↦
      let at_head : (w ≡ v) = some-injective _ _ (ground (arith, e)) in
      rw same (ap (λ p. p ∷ m) (cc ((==_iff j k).0 same, at_head)))
  | inr other ↦ rw other (ap (◌∷◌ (j, w)) (assign-same k v m (ground (arith, e))))
]

-- A move inside of one cluster changes nothing.
move-same :
    (item c : ℕ) (p : Plan) (load : ℤ)
    → at c p.loads ≡ some load
    → find item p.mapping ≡ some c
    → move item c c p ≡ some p
unfolding move
move-same item c p load e here =
    sym (
      bind_assoc (add_at c (pos 1) p.loads) (add_at c (negsuc 0))
        (λ l. some (record { mapping = assign item c p.mapping; loads = l })))
    ∙ rw (add_at-cancel c p.loads load e) (rw (assign-same item c p.mapping here) refl)

balance_round-same :
    (cross : List ℤ) (limit load : ℤ) (p : Plan) (item : ℕ)
    → min_index p.loads ≡ max_index p.loads
    → at (max_index p.loads) p.loads ≡ some load
    → ltb_ℤ limit load ≡ true
    → candidate (max_index p.loads) cross p.mapping ≡ some (some item)
    → find item p.mapping ≡ some (max_index p.loads)
    → balance_round cross limit p ≡ some (p, false)
unfolding balance_round move_candidate
balance_round-same cross limit load p item one here over found home =
    rw here
      (rw over (rw found (rw one (rw (move-same item (max_index p.loads) p load here home) refl))))

-- If the smallest and the largest load are at the same cluster, that is, all loads are equal, and
-- are more than the maximum, and there is an item of that cluster to move, then the loop of step 5
-- moves it to where it is, and does so without end.
balance-running :
    (fuel : ℕ) (cross : List ℤ) (limit load : ℤ) (p : Plan) (item : ℕ)
    → min_index p.loads ≡ max_index p.loads
    → at (max_index p.loads) p.loads ≡ some load
    → ltb_ℤ limit load ≡ true
    → candidate (max_index p.loads) cross p.mapping ≡ some (some item)
    → find item p.mapping ≡ some (max_index p.loads)
    → balance fuel cross limit p ≡ running
unfolding balance after_round
balance-running zero cross limit load p item one here over found home = refl
balance-running (suc fuel) cross limit load p item one here over found home =
    ap (after_round (balance fuel cross limit))
      (balance_round-same cross limit load p item one here over found home)
    ∙ balance-running fuel cross limit load p item one here over found home
