-- ===== src/Launch/Kept.antt =====
-- `Reshard` (src/node_launch.cpp) moves items between clusters, and keeps them all.
use multi_paxos_distributed.Prelude.{
  ℕ, zero, suc, ◌+◌, ◌≡◌, refl, sym, ap, ◌∙◌, subst, arith, Bool, ◌>>=◌, bind_some, some-injective,
  none-ne-some, true, false, Option, none, some, List, [], ◌∷◌, ◌==◌, if◌then◌else◌, if_keeps,
  contains, ℤ, ltb_ℤ,
}
use multi_paxos_distributed.Prelude.Map.{Map, keys}
use multi_paxos_distributed.Launch.Reshard.{
  Transfer, Plan, at, zeros, count_loads, count_cross, move, reduce,
}
use multi_paxos_distributed.Launch.Balance.{
  Run, done, candidate, move_candidate, balance_round, after_round, balance, max_size, planned,
  balance_planned, reshard, min_index, max_index,
}
use multi_paxos_distributed.Launch.Items.{
  IsItem, SameItems, move-SameItems, reduce-SameItems, count_loads-AreItems,
}

later-IsItem : (k j w : ℕ) (m : Map ℕ) → IsItem k m → IsItem k ((j, w) ∷ m)
unfolding contains
later-IsItem k j w m h = ground (arith, h)

first-IsItem : (j w : ℕ) (m : Map ℕ) → IsItem j ((j, w) ∷ m)
unfolding contains
first-IsItem j w m = ground arith

candidate-IsItem :
    (c : ℕ) (cross : List ℤ) (m : Map ℕ) (item : ℕ)
    → candidate c cross m ≡ some (some item)
    → IsItem item m
unfolding candidate
candidate-IsItem c cross [] item e = absurd (cc)
candidate-IsItem c cross ((j, w) ∷ m) item e =
    let later : (candidate c cross m ≡ some (some item) → IsItem item ((j, w) ∷ m)) =
      λ f. later-IsItem item j w m (candidate-IsItem c cross m item f) in
    if_keeps (λ o. o ≡ some (some item) → IsItem item ((j, w) ∷ m)) (w == c) _ (candidate c cross m)
      (λ f.
        let n = bind_some (at j cross) _ (some item) f in
        if_keeps (λ o. o ≡ some (some item) → IsItem item ((j, w) ∷ m)) _ (some (some j))
          (candidate c cross m)
          (λ g.
            subst (λ i. IsItem i ((j, w) ∷ m)) (some-injective _ _ (some-injective _ _ g))
              (first-IsItem j w m))
          later n.1.1)
      later e

move_candidate-SameItems :
    (c : Option ℕ) (here there : ℕ) (p : Plan) (r : Plan × Bool)
    → ((item : ℕ) → c ≡ some item → IsItem item p.mapping)
    → move_candidate c here there p ≡ some r
    → SameItems p.mapping r.0.mapping
unfolding move_candidate
move_candidate-SameItems none here there p r h e =
    ap (λ r. keys r.0.mapping) (sym (some-injective _ _ e))
move_candidate-SameItems (some item) here there p r h e =
    let moved = bind_some (move item here there p) _ r e in
    ap (λ r. keys r.0.mapping) (sym (some-injective _ _ moved.1.1))
    ∙ move-SameItems item here there p moved.0 (h item refl) moved.1.0

balance_round-SameItems :
    (cross : List ℤ) (limit : ℤ) (p : Plan) (r : Plan × Bool)
    → balance_round cross limit p ≡ some r
    → SameItems p.mapping r.0.mapping
unfolding balance_round
balance_round-SameItems cross limit p r e =
    let load = bind_some (at (max_index p.loads) p.loads) _ r e in
    let from = candidate (max_index p.loads) cross p.mapping in
    let change = λ (c : Option ℕ). move_candidate c (max_index p.loads) (min_index p.loads) p in
    if_keeps (λ o. o ≡ some r → SameItems p.mapping r.0.mapping) (ltb_ℤ limit load.0)
      (from >>= change) (some (p, true))
      (λ f.
        let c = bind_some from change r f in
        move_candidate-SameItems c.0 (max_index p.loads) (min_index p.loads) p r
          (λ item g. candidate-IsItem (max_index p.loads) cross p.mapping item (c.1.0 ∙ ap some g))
          c.1.1)
      (λ f. ap (λ r. keys r.0.mapping) (sym (some-injective _ _ f))) load.1.1

done-injective : {m n : Map ℕ} → done m ≡ done n → m ≡ n
done-injective e = cc

after_round-SameItems :
    (rest : Plan → Run) (o : Option (Plan × Bool)) (m n : Map ℕ)
    → ((r : Plan × Bool) → o ≡ some r → SameItems m r.0.mapping)
    → ((p : Plan) → rest p ≡ done n → SameItems p.mapping n)
    → after_round rest o ≡ done n
    → SameItems m n
unfolding after_round
after_round-SameItems rest none m n h k e = absurd (cc)
after_round-SameItems rest (some (q, true)) m n h k e =
    ap keys (sym (done-injective e)) ∙ h (q, true) refl
after_round-SameItems rest (some (q, false)) m n h k e = k q e ∙ h (q, false) refl

balance-SameItems :
    (fuel : ℕ) (cross : List ℤ) (limit : ℤ) (p : Plan) (n : Map ℕ)
    → balance fuel cross limit p ≡ done n
    → SameItems p.mapping n
unfolding balance
balance-SameItems zero cross limit p n e = absurd (cc)
balance-SameItems (suc fuel) cross limit p n e =
    after_round-SameItems (balance fuel cross limit) (balance_round cross limit p) p.mapping n
      (balance_round-SameItems cross limit p) (λ q f. balance-SameItems fuel cross limit q n f) e

balance_planned-SameItems :
    (fuel : ℕ) (limit : ℤ) (o : Option (List ℤ × Plan)) (m n : Map ℕ)
    → ((r : List ℤ × Plan) → o ≡ some r → SameItems m r.1.mapping)
    → balance_planned fuel limit o ≡ done n
    → SameItems m n
unfolding balance_planned
balance_planned-SameItems fuel limit none m n h e = absurd (cc)
balance_planned-SameItems fuel limit (some (cross, p)) m n h e =
    balance-SameItems fuel cross limit p n e ∙ h (cross, p) refl

planned-SameItems :
    (clusters total : ℕ) (ts : List Transfer) (m : Map ℕ) (r : List ℤ × Plan)
    → planned clusters ts m total ≡ some r
    → SameItems m r.1.mapping
unfolding planned
planned-SameItems clusters total ts m r e =
    let loads = bind_some (count_loads m ts (zeros clusters)) _ r e in
    let cross = bind_some (count_cross m ts (zeros (total + 1))) _ r loads.1.1 in
    let start : Plan = record { mapping = m; loads = loads.0 } in
    let p =
      bind_some (if clusters == 0 then none else reduce cross.0 (max_size clusters total) ts start)
        _ r cross.1.1 in
    ap (λ r. keys r.1.mapping) (sym (some-injective _ _ p.1.1))
    ∙ if_keeps (λ o. o ≡ some p.0 → SameItems m p.0.mapping) (clusters == 0) none _
        (λ f. absurd (none-ne-some _ f))
        (reduce-SameItems cross.0 (max_size clusters total) ts start p.0
          (count_loads-AreItems m ts (zeros clusters) loads.0 loads.1.0))
        p.1.0

-- If `Reshard` ends, in any number of rounds of its last loop, its map has the items of the map it
-- was given, each as often, and in the same order of the walk: it changes clusters only.
pub reshard-SameItems :
    (fuel clusters total : ℕ) (ts : List Transfer) (m n : Map ℕ)
    → reshard fuel clusters ts m total ≡ done n
    → SameItems m n
unfolding reshard
reshard-SameItems fuel clusters total ts m n e =
    balance_planned-SameItems fuel (max_size clusters total) (planned clusters ts m total) m n
      (planned-SameItems clusters total ts m) e
