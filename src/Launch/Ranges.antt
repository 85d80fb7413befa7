-- ===== src/Launch/Ranges.antt =====
-- The range of items of each cluster under `MakeShardMap` (src/node_launch.cpp).
use multi_paxos_distributed.Prelude.{
  ℕ, zero, suc, ◌+◌, ◌*◌, ◌/◌, ◌%◌, ◌≤◌, ◌<◌, ◌≡◌, ◌↔◌, refl, sym, ap, ◌∙◌, subst, ◌⊎◌, inl, inr,
  arith, none, some, Bool-cases, [], ◌∷◌, leb, ltb, leb→le, ◌==◌, if◌then◌else◌, ◌&&◌,
}
use multi_paxos_distributed.Prelude.Map.{Map, find}
use multi_paxos_distributed.Launch.Shards.{assign, fill, fill_clusters, make_shard_map}

-- The number of items of the first `c` clusters.
unfoldable pub lead : ℕ → ℕ → ℕ → ℕ
lead per rem c = c * per + (if leb c rem then c else rem)

pub find-assign :
    (k j v : ℕ) (m : Map ℕ) → find j (assign k v m) ≡ (if k == j then some v else find j m)
unfolding find assign
find-assign k j v [] = refl
find-assign k j v ((i, w) ∷ m) = ground (arith, find-assign k j v m)

find-fill :
    (rounds item cluster k : ℕ) (m : Map ℕ)
    → find k (fill rounds item cluster m) ≡ (
        if leb item k then (if ltb k (item + rounds) then some cluster else find k m) else find k m)
unfolding fill
find-fill zero item cluster k m = ground arith
find-fill (suc n) item cluster k m =
    find-fill n (suc item) cluster k (assign item cluster m)
    ∙ ground (arith, find-assign item k cluster m)

lead_step :
    (per rem c : ℕ)
    → lead per rem (suc c) ≡ lead per rem c + (per + (if leb (suc c) rem then 1 else 0))
unfolding lead
lead_step per rem c = ground arith

lead_zero : (per rem : ℕ) → lead per rem 0 ≡ 0
unfolding lead
lead_zero per rem = ground arith

lead_same : (per rem c n : ℕ) → lead per rem (c + suc n) ≡ lead per rem (suc c + n)
lead_same per rem c n = ap (lead per rem) (omega arith)

lead_grows : (per rem c n : ℕ) → lead per rem c ≤ lead per rem (c + n)
lead_grows per rem c zero =
    let same : (lead per rem (c + 0) ≡ lead per rem c) = ap (lead per rem) (omega arith) in
    omega (arith, same)
lead_grows per rem c (suc n) =
    omega (arith, lead_grows per rem (suc c) n, lead_step per rem c, lead_same per rem c n)

module _ (per rem : ℕ) where
  -- The first round fills the cluster `c + 1`.
  round :
      (n c : ℕ) (m : Map ℕ)
      → fill_clusters per rem (suc n) (suc c) (suc (lead per rem c)) m
        ≡ fill_clusters per rem n
            (suc (suc c))
            (suc (lead per rem (suc c)))
            (fill (per + (if leb (suc c) rem then 1 else 0)) (suc (lead per rem c)) (suc c) m)
  unfolding fill_clusters
  round n c m =
      ap
        (λ i.
          fill_clusters per rem n (suc (suc c)) i
            (fill (per + (if leb (suc c) rem then 1 else 0)) (suc (lead per rem c)) (suc c) m))
        (omega (arith, lead_step per rem c))

  find-round :
      (c k : ℕ) (m : Map ℕ)
      → find k (fill (per + (if leb (suc c) rem then 1 else 0)) (suc (lead per rem c)) (suc c) m)
        ≡ (if ltb (lead per rem c) k && leb k (lead per rem (suc c))
            then some (suc c)
            else find k m)
  find-round c k m =
      find-fill (per + (if leb (suc c) rem then 1 else 0)) (suc (lead per rem c)) (suc c) k m
      ∙ ground (arith, lead_step per rem c)

  no_round : (c i : ℕ) (m : Map ℕ) → fill_clusters per rem zero c i m ≡ m
  unfolding fill_clusters
  no_round c i m = refl

  -- An item that belongs to none of the clusters keeps its entry.
  find-outside :
      (rounds c k : ℕ) (m : Map ℕ)
      → (k ≤ lead per rem c) ⊎ (lead per rem (c + rounds) < k)
      → find k (fill_clusters per rem rounds (suc c) (suc (lead per rem c)) m) ≡ find k m
  find-outside zero c k m h = ap (find k) (no_round (suc c) (suc (lead per rem c)) m)
  find-outside (suc n) c k m (inl h) =
      ap (find k) (round n c m)
      ∙ find-outside n (suc c) k _ (inl (omega (arith, lead_step per rem c)))
      ∙ find-round c k m
      ∙ ground arith
  find-outside (suc n) c k m (inr h) =
      ap (find k) (round n c m)
      ∙ find-outside n (suc c) k _ (inr (omega (arith, lead_same per rem c n)))
      ∙ find-round c k m
      ∙ ground (arith, lead_grows per rem (suc c) n, lead_same per rem c n)

  find-inside :
      (rounds c d k : ℕ) (m : Map ℕ)
      → d < rounds
      → lead per rem (c + d) < k
      → k ≤ lead per rem (suc (c + d))
      → find k (fill_clusters per rem rounds (suc c) (suc (lead per rem c)) m) ≡ some (suc (c + d))
  find-inside zero c d k m h low high = absurd (omega arith)
  find-inside (suc n) c zero k m h low high =
      let start : (lead per rem (c + 0) ≡ lead per rem c) = ap (lead per rem) (omega arith) in
      let end : (lead per rem (suc (c + 0)) ≡ lead per rem (suc c)) =
        ap (lead per rem) (omega arith) in
      ap (find k) (round n c m)
      ∙ find-outside n (suc c) k _ (inl (omega (arith, end)))
      ∙ find-round c k m
      ∙ ground (arith, start, end)
  find-inside (suc n) c (suc d) k m h low high =
      let end : (lead per rem (suc (c + suc d)) ≡ lead per rem (suc (suc c + d))) =
        ap (λ i. lead per rem (suc i)) (omega arith) in
      ap (find k) (round n c m)
      ∙ find-inside n (suc c) d k _ (omega arith) (omega (arith, lead_same per rem c d))
          (omega (arith, end))
      ∙ ap some (omega arith)

  -- The cluster of an item.
  owner :
      (n k : ℕ)
      → 0 < k
      → k ≤ lead per rem n
      → (d : ℕ) × ((d < n) × ((lead per rem d < k) × (k ≤ lead per rem (suc d))))
  owner zero k h high = absurd (omega (arith, lead_zero per rem))
  owner (suc n) k h high = elim (Bool-cases (leb k (lead per rem n))) [
    | inl before ↦ let o = owner n k h (ground arith) in (o.0, (omega (arith, o.1.0), o.1.1))
    | inr after ↦ (n, (omega arith, (ground arith, high)))
  ]

lead_total : (total n : ℕ) → 1 ≤ n → lead (total / n) (total % n) n ≡ total
unfolding lead
lead_total total n h = grind arith

find-map :
    (total n k : ℕ)
    → find k (make_shard_map total n)
      ≡ find k (fill_clusters (total / n) (total % n) n 1 (suc (lead (total / n) (total % n) 0)) [])
unfolding make_shard_map
find-map total n k =
    ap (λ i. find k (fill_clusters (total / n) (total % n) n 1 (suc i) []))
      (sym (lead_zero (total / n) (total % n)))

lead_plus : (per rem n : ℕ) → lead per rem (0 + n) ≡ lead per rem n
lead_plus per rem n = ap (lead per rem) (omega arith)

map-outside :
    (total n k : ℕ) → (k ≤ 0) ⊎ (total < k) → 1 ≤ n → find k (make_shard_map total n) ≡ none
unfolding find
map-outside total n k h one =
    let q = total / n in
    let r = total % n in
    find-map total n k
    ∙ find-outside q r n 0 k [] (elim h [
      | inl low ↦ inl (omega (arith, lead_zero q r))
      | inr high ↦ inr (omega (arith, lead_plus q r n, lead_total total n one))
    ])

map-inside :
    (total n d k : ℕ)
    → d < n
    → lead (total / n) (total % n) d < k
    → k ≤ lead (total / n) (total % n) (suc d)
    → find k (make_shard_map total n) ≡ some (suc d)
map-inside total n d k h low high =
    let q = total / n in
    let r = total % n in
    let end : (lead q r (suc (0 + d)) ≡ lead q r (suc d)) =
      ap (λ i. lead q r (suc i)) (omega arith) in
    find-map total n k
    ∙ find-inside q r n 0 d k [] h (omega (arith, lead_plus q r d)) (omega (arith, end))
    ∙ ap some (omega arith)

has_owner :
    (total n k c : ℕ)
    → 1 ≤ n
    → find k (make_shard_map total n) ≡ some c
    → (0 < k) × (k ≤ lead (total / n) (total % n) n)
has_owner total n k c one e = elim (Bool-cases (leb 1 k)) [
  | inr low ↦ absurd (cc (map-outside total n k (inl (ground arith)) one))
  | inl low ↦ elim (Bool-cases (leb k total)) [
    | inr high ↦ absurd (cc (map-outside total n k (inr (ground arith)) one))
    | inl high ↦ (leb→le 1 k low, omega (arith, leb→le k total high, lead_total total n one))
  ]
]

-- `MakeShardMap` for at least one cluster: the items are 1, ..., `total`, and each has one cluster.
-- The cluster `d + 1` has the items after those of the first `d` clusters: `total / n` of them,
-- and one more in each of the first `total % n` clusters. Other numbers have no cluster.
pub find-make_shard_map :
    (total n k d : ℕ)
    → 1 ≤ n
    → (lead (total / n) (total % n) n ≡ total)
      × ((find k (make_shard_map total n) ≡ some (suc d)) ↔ (
          (d < n)
          × ((lead (total / n) (total % n) d < k) × (k ≤ lead (total / n) (total % n) (suc d)))))
find-make_shard_map total n k d one =
    let q = total / n in
    let r = total % n in
    let all = lead_total total n one in
    (
      all,
      (
        λ e.
            let o =
              owner q r n k (has_owner total n k (suc d) one e).0
                (has_owner total n k (suc d) one e).1 in
            let found = map-inside total n o.0 k o.1.0 o.1.1.0 o.1.1.1 in
            let both : (suc o.0 ≡ suc d) = cc (found, e) in
            subst (λ i. (i < n) × ((lead q r i < k) × (k ≤ lead q r (suc i)))) (omega (arith, both))
              o.1,
        λ h. map-inside total n d k h.0 h.1.0 h.1.1,
      ),
    )
