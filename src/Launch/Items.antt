-- ===== src/Launch/Items.antt =====
-- `Reshard` (src/node_launch.cpp) and the items of its map.
use multi_paxos_distributed.Prelude.{
  ℕ, ◌≡◌, refl, sym, ap, ◌∙◌, subst, inl, inr, Bool-cases, bind_some, some-injective, none-ne-some,
  true, Option, none, some, List, [], ◌∷◌, ◌==◌, if_keeps, contains, ==_iff, ℤ, pos, negsuc,
}
use multi_paxos_distributed.Prelude.Map.{Map, find, keys}
use multi_paxos_distributed.Launch.Shards.{assign}
use multi_paxos_distributed.Launch.Reshard.{
  Transfer, Plan, at, add_at, count_receiver, count_load, count_loads, entry_found, entry, move,
  lighten, reduce_pair, reduce_one, reduce,
}

-- The item has an entry.
abbrev pub IsItem : ℕ → Map ℕ → Type 0
IsItem k m = contains (keys m) k ≡ true

-- The same items, in the same order.
abbrev pub SameItems : Map ℕ → Map ℕ → Type 0
SameItems m n = keys n ≡ keys m

assign-SameItems : (k v : ℕ) (m : Map ℕ) → IsItem k m → SameItems m (assign k v m)
unfolding assign contains
assign-SameItems k v [] h = absurd (cc)
assign-SameItems k v ((j, w) ∷ m) h = elim (Bool-cases (j == k)) [
  | inl same ↦ rw same (ap (λ i. i ∷ keys m) (sym ((==_iff j k).0 same)))
  | inr other ↦ rw other (ap (◌∷◌ j) (assign-SameItems k v m (rw other at h)))
]

find-IsItem : (k v : ℕ) (m : Map ℕ) → find k m ≡ some v → IsItem k m
unfolding find contains
find-IsItem k v [] h = absurd (none-ne-some _ h)
find-IsItem k v ((j, w) ∷ m) h = elim (Bool-cases (j == k)) [
  | inl same ↦ rw same refl
  | inr other ↦ rw other (find-IsItem k v m (rw other at h))
]

entry_found-SameItems :
    (o : Option ℕ) (k : ℕ) (m : Map ℕ) → IsItem k m → SameItems m (entry_found o k m).1
unfolding entry_found
entry_found-SameItems (some c) k m h = refl
entry_found-SameItems none k m h = assign-SameItems k 0 m h

entry-SameItems : (k : ℕ) (m : Map ℕ) → IsItem k m → SameItems m (entry k m).1
unfolding entry
entry-SameItems k m h = entry_found-SameItems (find k m) k m h

pub move-SameItems :
    (item here there : ℕ) (p q : Plan)
    → IsItem item p.mapping
    → move item here there p ≡ some q
    → SameItems p.mapping q.mapping
unfolding move
move-SameItems item here there p q h e =
    let up = bind_some (add_at there (pos 1) p.loads) _ q e in
    let down = bind_some (add_at here (negsuc 0) up.0) _ q up.1.1 in
    subst (λ q. SameItems p.mapping q.mapping) (some-injective _ _ down.1.1)
      (assign-SameItems item there p.mapping h)

lighten-SameItems :
    (cross : List ℤ) (limit : ℤ) (s r cs cr : ℕ) (p q : Plan)
    → IsItem s p.mapping
    → IsItem r p.mapping
    → lighten cross limit s r cs cr p ≡ some q
    → SameItems p.mapping q.mapping
unfolding lighten
lighten-SameItems cross limit s r cs cr p q hs hr e =
    let a = bind_some (at cs p.loads) _ q e in
    let b = bind_some (at cr p.loads) _ q a.1.1 in
    let c = bind_some (at s cross) _ q b.1.1 in
    let d = bind_some (at r cross) _ q c.1.1 in
    if_keeps (λ o. o ≡ some q → SameItems p.mapping q.mapping) _ _ _ (move-SameItems s cs cr p q hs)
      (if_keeps (λ o. o ≡ some q → SameItems p.mapping q.mapping) _ _ (some p)
        (move-SameItems r cr cs p q hr)
        (λ same. ap (λ q. keys q.mapping) (sym (some-injective p q same))))
      d.1.1

-- The items of a transaction.
abbrev Receives : Option ℕ → Map ℕ → Type 0
Receives none m = Unit {0}
Receives (some r) m = IsItem r m

abbrev pub AreItems : List Transfer → Map ℕ → Type 0
AreItems [] m = Unit {0}
AreItems (t ∷ ts) m = IsItem t.sender m × (Receives t.receiver m × AreItems ts m)

pub still-IsItem : (k : ℕ) (m n : Map ℕ) → SameItems m n → IsItem k m → IsItem k n
still-IsItem k m n e h = ap (λ ks. contains ks k) e ∙ h

still-Receives : (r : Option ℕ) (m n : Map ℕ) → SameItems m n → Receives r m → Receives r n
still-Receives none m n e h = tt
still-Receives (some r) m n e h = still-IsItem r m n e h

still-AreItems : (ts : List Transfer) (m n : Map ℕ) → SameItems m n → AreItems ts m → AreItems ts n
still-AreItems [] m n e h = tt
still-AreItems (t ∷ ts) m n e h = (
  still-IsItem t.sender m n e h.0,
  (still-Receives t.receiver m n e h.1.0, still-AreItems ts m n e h.1.1),
)

reduce_pair-SameItems :
    (cross : List ℤ) (limit : ℤ) (s : ℕ) (r : Option ℕ) (p q : Plan)
    → IsItem s p.mapping
    → Receives r p.mapping
    → reduce_pair cross limit s r p ≡ some q
    → SameItems p.mapping q.mapping
unfolding reduce_pair
reduce_pair-SameItems cross limit s none p q hs hr e =
    subst (λ q. SameItems p.mapping q.mapping) (some-injective _ _ e)
      (entry-SameItems s p.mapping hs)
reduce_pair-SameItems cross limit s (some r) p q hs hr e =
    let m1 = (entry s p.mapping).1 in
    let one = entry-SameItems s p.mapping hs in
    let m2 = (entry r m1).1 in
    let two = entry-SameItems r m1 (still-IsItem r p.mapping m1 one hr) ∙ one in
    let p2 = record p { mapping = m2 } in
    if_keeps (λ o. o ≡ some q → SameItems p.mapping q.mapping)
      ((entry s p.mapping).0 == (entry r m1).0) (some p2) _
      (λ same. ap (λ q. keys q.mapping) (sym (some-injective p2 q same)) ∙ two)
      (λ f.
        lighten-SameItems cross limit s r (entry s p.mapping).0 (entry r m1).0 p2 q
          (still-IsItem s p.mapping m2 two hs) (still-IsItem r p.mapping m2 two hr) f
        ∙ two)
      e

pub reduce-SameItems :
    (cross : List ℤ) (limit : ℤ) (ts : List Transfer) (p q : Plan)
    → AreItems ts p.mapping
    → reduce cross limit ts p ≡ some q
    → SameItems p.mapping q.mapping
unfolding reduce reduce_one
reduce-SameItems cross limit [] p q h e = ap (λ q. keys q.mapping) (sym (some-injective p q e))
reduce-SameItems cross limit (t ∷ ts) p q h e =
    let first =
      bind_some (reduce_pair cross limit t.sender t.receiver p) (reduce cross limit ts) q e in
    let one = reduce_pair-SameItems cross limit t.sender t.receiver p first.0 h.0 h.1.0 first.1.0 in
    reduce-SameItems cross limit ts first.0 q
      (still-AreItems ts p.mapping first.0.mapping one h.1.1) first.1.1
    ∙ one

count_receiver-Receives :
    (m : Map ℕ) (r : Option ℕ) (v w : List ℤ) → count_receiver m r v ≡ some w → Receives r m
unfolding count_receiver
count_receiver-Receives m none v w e = tt
count_receiver-Receives m (some r) v w e =
    let found = bind_some (find r m) _ w e in find-IsItem r found.0 m found.1.0

-- Step 1 throws for a transaction on anything but items.
pub count_loads-AreItems :
    (m : Map ℕ) (ts : List Transfer) (v w : List ℤ) → count_loads m ts v ≡ some w → AreItems ts m
unfolding count_loads count_load
count_loads-AreItems m [] v w e = tt
count_loads-AreItems m (t ∷ ts) v w e =
    let one = bind_some (count_load m t v) (count_loads m ts) w e in
    let found = bind_some (find t.sender m) _ one.0 one.1.0 in
    let added = bind_some (add_at found.0 (pos 1) v) _ one.0 found.1.1 in
    (
      find-IsItem t.sender found.0 m found.1.0,
      (
        count_receiver-Receives m t.receiver added.0 one.0 added.1.1,
        count_loads-AreItems m ts one.0 w one.1.1,
      ),
    )
