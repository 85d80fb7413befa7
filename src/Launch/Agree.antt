-- ===== src/Launch/Agree.antt =====
-- After `PrintReshard` (src/node_launch.cpp) all nodes (src/paxos_node.cpp) have the clusters of the map
-- that `Reshard` made.
use multi_paxos_distributed.Prelude.{
  ℕ, ◌≡◌, refl, sym, ap, subst, ◌∙◌, arith, inl, inr, Bool-cases, true, false, some, some-injective,
  none-ne-some, List, [], ◌∷◌, ◌==◌, ==_iff, if_yes, contains, Distinct, update, ◌>>=◌,
}
use multi_paxos_distributed.Prelude.Map.{Map, find, keys}
use multi_paxos_distributed.Node.{Node}
use multi_paxos_distributed.Admin.{AliveUpdateRequest, reshard_all, handle_set_alive}
use multi_paxos_distributed.Launch.Reshard.{Transfer}
use multi_paxos_distributed.Launch.Balance.{Run, crashed, running, done, reshard}
use multi_paxos_distributed.Launch.Kept.{reshard-SameItems}
use multi_paxos_distributed.Launch.Prompt.{
  sends, tell_all, reshard_request, after_reshard, print_reshard,
}

reshard_all-other :
    (m : Map ℕ) (f : ℕ → ℕ) (item : ℕ)
    → contains (keys m) item ≡ false
    → reshard_all m f item ≡ f item
unfolding reshard_all contains update
reshard_all-other [] f item h = refl
reshard_all-other ((j, c) ∷ m) f item h = ground (arith, reshard_all-other m (update f j c) item)

reshard_all-find :
    (m : Map ℕ) (f : ℕ → ℕ) (item c : ℕ)
    → Distinct (keys m)
    → find item m ≡ some c
    → reshard_all m f item ≡ c
unfolding reshard_all find update
reshard_all-find [] f item c d e = absurd (none-ne-some _ e)
reshard_all-find ((j, w) ∷ m) f item c d e = elim (Bool-cases (j == item)) [
  | inl here ↦
      reshard_all-other m (update f j w) item
        (subst (λ k. contains (keys m) k ≡ false) ((==_iff j item).0 here) d.0)
      ∙ if_yes (j == item) w (f item) here
      ∙ some-injective _ _ (sym (if_yes (j == item) (some w) (find item m) here) ∙ e)
  | inr other ↦ reshard_all-find m (update f j w) item c d.1 (rw other at e)
]

find-contains :
    (m : Map ℕ) (item : ℕ) → contains (keys m) item ≡ true → (c : ℕ) × (find item m ≡ some c)
unfolding find contains
find-contains [] item h = absurd (cc)
find-contains ((j, w) ∷ m) item h = elim (Bool-cases (j == item)) [
  | inl here ↦ (w, rw here refl)
  | inr other ↦ rw other (find-contains m item (rw other at h))
]

find-tell_all :
    (r : AliveUpdateRequest) (stubs : List ℕ) (id : ℕ)
    → contains stubs id ≡ true
    → find id (tell_all r stubs) ≡ some r
unfolding find tell_all contains
find-tell_all r [] id h = absurd (cc)
find-tell_all r (k ∷ stubs) id h = elim (Bool-cases (k == id)) [
  | inl here ↦ rw here refl
  | inr there ↦ rw there (find-tell_all r stubs id (rw there at h))
]

-- The map that `PrintReshard` sends, if it sends one.
sent_map :
    (run : Run) (stubs : List ℕ) (calls : List (ℕ × AliveUpdateRequest))
    → after_reshard stubs run ≡ some (sends calls)
    → (n : Map ℕ) × ((run ≡ done n) × (calls ≡ tell_all (reshard_request n) stubs))
unfolding after_reshard
sent_map crashed stubs calls e = absurd (none-ne-some _ e)
sent_map running stubs calls e = absurd (cc)
sent_map (done n) stubs calls e = (n, (refl, cc))

-- What a node becomes that is told the cluster `c` of the item: it has it, and its balances, its role and
-- whether it is alive are as before.
pub record IsTold (s t : Node) (item c : ℕ) : Type 0 where
  pub cluster : t.ledger.shard_map item ≡ c
  pub accounts : t.ledger.accounts ≡ s.ledger.accounts
  pub locks : t.ledger.locks ≡ s.ledger.locks
  pub role : t.role ≡ s.role
  pub alive : t.alive ≡ s.alive

-- If `PrintReshard` sends anything, then `Reshard` ended with a map that has a cluster for every item of
-- the map before, in which no item occurs twice; and a call goes to every node of `stubs`, which, in
-- whatever state it is, handles it without a fault and then has that cluster for the item.
pub print_reshard-IsTold :
    (fuel num_clusters total item id : ℕ) (transactions : List Transfer) (shard_map : Map ℕ)
    (stubs : List ℕ) (calls : List (ℕ × AliveUpdateRequest)) (s : Node)
    → print_reshard fuel stubs num_clusters transactions shard_map total ≡ some (sends calls)
    → Distinct (keys shard_map)
    → contains (keys shard_map) item ≡ true
    → contains stubs id ≡ true
    → (n : Map ℕ) × ((reshard fuel num_clusters transactions shard_map total ≡ done n)
        × ((c : ℕ) × ((find item n ≡ some c)
              × ((t : Node) × (((find id calls >>= λ r. handle_set_alive r s) ≡ some t)
                    × IsTold s t item c)))))
unfolding print_reshard handle_set_alive reshard_request
print_reshard-IsTold fuel num_clusters total item id transactions shard_map stubs calls s e d has
      to =
    let sent = sent_map (reshard fuel num_clusters transactions shard_map total) stubs calls e in
    let n = sent.0 in
    let same = reshard-SameItems fuel num_clusters total transactions shard_map n sent.1.0 in
    let here = find-contains n item (subst (λ ks. contains ks item ≡ true) (sym same) has) in
    let told : (find id calls ≡ some (reshard_request n)) =
      ap (find id) sent.1.1 ∙ find-tell_all (reshard_request n) stubs id to in
    (
      n,
      (
        sent.1.0,
        (
          here.0,
          (
            here.1,
            (
              _,
              (
                ap (λ o. o >>= λ r. handle_set_alive r s) told,
                record {
                  cluster =
                      reshard_all-find n s.ledger.shard_map item here.0
                        (subst Distinct (sym same) d) here.1;
                  accounts = refl;
                  locks = refl;
                  role = refl;
                  alive = refl;
                },
              ),
            ),
          ),
        ),
      ),
    )
