-- ===== src/Benchmark/Pairs.antt =====
-- The receiver of a transfer, `generate_txns` of src/benchmark.h.
use multi_paxos_distributed.Prelude.{
  ℕ, zero, suc, ◌+◌, ◌-◌, ◌*◌, ◌/◌, ◌%◌, ◌≤◌, ◌<◌, ◌≡◌, ◌≢◌, ◌⊎◌, refl, sym, ap, subst, ◌∙◌, Bool,
  not, inl, inr, true, false, some, leb, ◌==◌, if◌then◌else◌, arith, if_keeps, if_cases, leb→le,
  ==_iff, not-==,
}
use multi_paxos_distributed.Prelude.Map.{find}
use multi_paxos_distributed.Launch.Shards.{make_shard_map}
use multi_paxos_distributed.Launch.Ranges.{lead, find-make_shard_map}
use multi_paxos_distributed.Benchmark.{
  Choice, get_shard, shard_size, sample_uniform, retry, in_shard, choose_dst, make_txn,
}
use multi_paxos_distributed.Benchmark.Sampling.{sample_uniform-within}

div_is : (a b q : ℕ) → 1 ≤ b → q * b ≤ a → a < suc q * b → a / b ≡ q
div_is a b q one low high = grind arith

even_size : (n per : ℕ) → 1 ≤ n → shard_size (n * per) n ≡ per
unfolding shard_size
even_size n per one = div_is (n * per + n - 1) n per one (grind arith) (grind arith)

even_lead : (n per d : ℕ) → 1 ≤ n → lead (n * per / n) (n * per % n) d ≡ d * per
unfolding lead
even_lead n per d one =
    let q : (n * per / n ≡ per) = div_is (n * per) n per one (grind arith) (grind arith) in
    let r : (n * per % n ≡ 0) = grind arith in rw q (rw r (grind arith))

get_shard-bounds :
    (size acct : ℕ)
    → 1 ≤ size
    → 1 ≤ acct
    → (get_shard size acct * size < acct) × (acct ≤ suc (get_shard size acct) * size)
unfolding get_shard
get_shard-bounds size acct one low =
    let same : ((if leb size 1 then 1 else size) ≡ size) = ground arith in
    rw same (grind arith, grind arith)

get_shard-is :
    (size acct q : ℕ) → 1 ≤ size → q * size < acct → acct ≤ suc q * size → get_shard size acct ≡ q
unfolding get_shard
get_shard-is size acct q one low high =
    let same : ((if leb size 1 then 1 else size) ≡ size) = ground arith in
    rw same (div_is (acct - 1) size q one (omega arith) (omega arith))

-- Where the items divide evenly, `getShard` and `MakeShardMap` split them in the same way, the
-- shards of the one from 0 and the clusters of the other from 1. There are at least one cluster and
-- one item in each.
get_shard-make_shard_map :
    (n per acct : ℕ)
    → 1 ≤ n
    → 1 ≤ per
    → 1 ≤ acct
    → acct ≤ n * per
    → find acct (make_shard_map (n * per) n) ≡ some (suc (get_shard (shard_size (n * per) n) acct))
get_shard-make_shard_map n per acct one some_items low high =
    let s = get_shard per acct in
    let b = get_shard-bounds per acct some_items low in
    (find-make_shard_map (n * per) n acct s one).1.1 (
      grind (arith, b.0, high),
      (omega (arith, even_lead n per s one, b.0), omega (arith, even_lead n per (suc s) one, b.1)),
    )
    ∙ ap (λ size. some (suc (get_shard size acct))) (sym (even_size n per one))

size_positive :
    (num_accounts num_shards : ℕ)
    → 1 ≤ num_accounts
    → 1 ≤ num_shards
    → 1 ≤ shard_size num_accounts num_shards
unfolding shard_size
size_positive a n one some_shards = grind arith

next_shard : (s n : ℕ) → 2 ≤ n → s < n → (s + 1) % n ≢ s
next_shard s n two h e = grind arith

shards_cover : (a n : ℕ) → 1 ≤ n → a ≤ n * shard_size a n
unfolding shard_size
shards_cover a n one = grind arith

-- The number of the shard of an account.
shard_below : (a n acct : ℕ) → 1 ≤ n → 1 ≤ acct → acct ≤ a → get_shard (shard_size a n) acct < n
shard_below a n acct some_shards low high =
    let b =
      get_shard-bounds (shard_size a n) acct (size_positive a n (omega arith) some_shards) low in
    let c = shards_cover a n some_shards in grind (arith, b.0, c, high)

module _ (draw : ℕ → ℕ → ℕ) (fair : (j m : ℕ) → 2 ≤ m → draw j m < m) (num_accounts num_shards : ℕ)
    (one : 1 ≤ num_accounts) (some_shards : 1 ≤ num_shards) where
  abbrev IsAccount : ℕ → Type 0
  IsAccount d = (1 ≤ d) × (d ≤ num_accounts)

  retry-IsAccount :
      (again : ℕ → Bool) (tries i dst : ℕ)
      → IsAccount dst
      → IsAccount (retry draw num_accounts num_shards again tries i dst)
  unfolding retry
  retry-IsAccount again zero i dst h = h
  retry-IsAccount again (suc tries) i dst h =
      let within = sample_uniform-within draw i num_accounts fair one in
      if_keeps IsAccount (again dst) _ _
        (retry-IsAccount again tries (suc i) (sample_uniform draw i num_accounts + 1)
          (omega arith, omega arith))
        h

  -- An account of the shard, or `src` if it has none.
  in_shard-get_shard :
      (i target src : ℕ)
      → IsAccount src
      → IsAccount (in_shard draw num_accounts num_shards i target src)
        × ((get_shard
                (shard_size num_accounts num_shards)
                (in_shard draw num_accounts num_shards i target src)
              ≡ target)
            ⊎ (in_shard draw num_accounts num_shards i target src ≡ src))
  unfolding in_shard
  in_shard-get_shard i target src h =
      let size = shard_size num_accounts num_shards in
      let start = target * size + 1 in
      let end = if leb num_accounts (start + size - 1) then num_accounts else start + size - 1 in
      if_cases (λ d. IsAccount d × ((get_shard size d ≡ target) ⊎ (d ≡ src))) (leb start end) _ _
        (λ some_accounts.
          let positive = size_positive num_accounts num_shards one some_shards in
          let within = sample_uniform-within draw i (end - start + 1) fair (omega arith) in
          let last : ((end ≤ num_accounts) × (end ≤ start + size - 1)) =
            (ground arith, ground arith) in
          let order = leb→le start end some_accounts in
          (
            (omega arith, omega (arith, within, last.0, order)),
            inl (
                get_shard-is size _ target positive (omega (arith, within, order))
                  (omega (arith, within, order, last.1))),
          ))
        (λ empty. (h, inr refl))

  module _ (two : 2 ≤ num_shards) (i src dst : ℕ) (src_ok : IsAccount src)
      (dst_ok : IsAccount dst) where
    abbrev shard : ℕ → ℕ
    shard = get_shard (shard_size num_accounts num_shards)

    -- What is asked of a receiver `d`.
    abbrev Fits : Bool → ℕ → Type 0
    Fits cross d = IsAccount d × ((d ≡ src) ⊎ ((shard d == shard src) ≡ not cross))

    cross-Fits : Fits true (
        let other = retry draw num_accounts num_shards (λ d. shard d == shard src) 4 i dst in
        if shard other == shard src
        then in_shard draw num_accounts num_shards (i + 4) ((shard src + 1) % num_shards) src
        else other)
    cross-Fits =
        let other = retry draw num_accounts num_shards (λ d. shard d == shard src) 4 i dst in
        if_cases (Fits true) (shard other == shard src) _ _
          (λ same.
            let found = in_shard-get_shard (i + 4) ((shard src + 1) % num_shards) src src_ok in
            let below = shard_below num_accounts num_shards src some_shards src_ok.0 src_ok.1 in
            (
              found.0,
              elim found.1 [
                | inl there ↦ inr (
                    not-== (
                      subst (λ k. k ≢ shard src) (sym there)
                        (next_shard (shard src) num_shards two below)))
                | inr self ↦ inl self
              ],
            ))
          (λ apart. (retry-IsAccount _ 4 i dst dst_ok, inr apart))

    same-Fits : Fits false (
        let same = retry draw num_accounts num_shards (λ d. not (shard d == shard src)) 4 i dst in
        if shard same == shard src
        then same
        else in_shard draw num_accounts num_shards (i + 4) (shard src) src)
    same-Fits =
        let same = retry draw num_accounts num_shards (λ d. not (shard d == shard src)) 4 i dst in
        if_cases (Fits false) (shard same == shard src) _ _
          (λ together. (retry-IsAccount _ 4 i dst dst_ok, inr together))
          (λ apart.
            let found = in_shard-get_shard (i + 4) (shard src) src src_ok in
            (
              found.0,
              elim found.1 [ inl there ↦ inr ((==_iff _ _).1 there) | inr self ↦ inl self ],
            ))

    choose_dst-Fits :
        (cross : Bool) → Fits cross (choose_dst draw num_accounts num_shards cross i src dst)
    unfolding choose_dst
    choose_dst-Fits true = cross-Fits
    choose_dst-Fits false = same-Fits

  -- With at least two shards, a transfer whose first choices are accounts goes to an account. If the
  -- two are different, they are in different shards if the round was to make a transfer between
  -- shards, and in the same one if it was not.
  pub make_txn-get_shard :
      (i : ℕ) (c : Choice)
      → 2 ≤ num_shards
      → IsAccount c.src
      → IsAccount c.dst
      → c.is_read ≡ false
      → let t = make_txn draw num_accounts num_shards i c in
        let shard = get_shard (shard_size num_accounts num_shards) in
        ((1 ≤ t.dst) × (t.dst ≤ num_accounts))
        × ((t.dst ≡ t.src) ⊎ ((shard t.dst == shard t.src) ≡ not c.force_cross))
  unfolding make_txn
  make_txn-get_shard i c two src_ok dst_ok transfer =
      rw transfer (choose_dst-Fits two i c.src c.dst src_ok dst_ok c.force_cross)
