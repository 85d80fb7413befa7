-- ===== src/Benchmark.antt =====
-- The transactions of a benchmark: src/benchmark.h. Random numbers are arguments: `draw i n` is
-- what `std::uniform_int_distribution` over 0, ..., n - 1 gave when it was called for the `i`th time. A
-- `double` stands in no definition: a test on one is a Boolean, and the sample of the normal
-- distribution is the rounded number.
pub mod Sampling
pub mod Pairs
pub mod Csv
pub mod Decimal
use multi_paxos_distributed.Prelude.{
  ℕ, zero, suc, ◌+◌, ◌-◌, ◌*◌, ◌/◌, ◌%◌, ◌>>=◌, Bool, true, false, not, ◌&&◌, Option, none, some,
  List, [], ◌∷◌, leb, ltb, ◌==◌, if◌then◌else◌, ℤ, pos, pos_part, ◌-ℤ◌, ltb_ℤ,
}

-- `!(val < 0 || val >= N)`, and the body of the loop of `sample_gaussian_centered`.
unfoldable pub in_range : ℕ → ℤ → Bool
in_range n val = if ltb_ℤ val (pos 0) then false else ltb_ℤ val (pos n)

unfoldable pub reflect_once : ℕ → ℤ → ℤ
unfolding ◌-ℤ◌
reflect_once n val =
    let up = if ltb_ℤ val (pos 0) then pos 0 -ℤ val else val in
    if ltb_ℤ up (pos n) then up else pos (2 * n) -ℤ up -ℤ pos 2

-- The loop, from the value `val`. `none`: it has not ended after `fuel` tests.
unfoldable pub reflect : ℕ → ℕ → ℤ → Option ℤ
unfolding in_range reflect_once
reflect zero n val = none
reflect (suc fuel) n val =
    let rest = reflect fuel n (reflect_once n val) in if in_range n val then some val else rest

-- `sigma_positive`: `sigma > 0.0`.
unfoldable pub sample_gaussian_centered : ℕ → ℕ → ℕ → Bool → ℤ → Option ℤ
unfolding reflect
sample_gaussian_centered fuel n hotspot sigma_positive rounded =
    if sigma_positive then reflect fuel n rounded else some (pos (hotspot % n))

-- `struct Txn`.
pub record Txn : Type 0 where
  pub is_read : Bool
  pub src : ℕ
  pub dst : ℕ
  pub amount : ℕ

-- `getShard`.
unfoldable pub get_shard : ℕ → ℕ → ℕ
get_shard shard_size acct = (acct - 1) / (if leb shard_size 1 then 1 else shard_size)

unfoldable pub shard_size : ℕ → ℕ → ℕ
shard_size num_accounts num_shards = (num_accounts + num_shards - 1) / num_shards

-- What one round of the loop takes as given: the flags, two calls of `choose_account`, the amount.
pub record Choice : Type 0 where
  pub is_read : Bool
  pub force_cross : Bool
  pub src : ℕ
  pub dst : ℕ
  pub amount : ℕ

module _ (draw : ℕ → ℕ → ℕ) where
  unfoldable pub sample_uniform : ℕ → ℕ → ℕ
  sample_uniform i n = if leb n 1 then 0 else draw i n

  -- `skew_low` is `skewness <= 0.0`, `skew_high` is `skewness >= 1.0`, and `uniform` is
  -- `prob(global_rng()) > skewness`.
  unfoldable pub choose_account : ℕ → ℕ → ℕ → Bool → Bool → Bool → ℕ → ℤ → Option ℕ
  unfolding sample_uniform sample_gaussian_centered
  choose_account i fuel num_accounts skew_low skew_high uniform hotspot rounded =
      let flat = sample_uniform i num_accounts + 1 in
      let skewed = sample_gaussian_centered fuel num_accounts hotspot true rounded >>= λ v.
      some (pos_part v + 1) in
      if leb num_accounts 1
      then some 1
      else if skew_low
      then some flat
      else if skew_high
      then skewed
      else if uniform
      then some flat
      else skewed

  module _ (num_accounts num_shards : ℕ) where
    -- The loops over `tries`: another account, while `again` holds of this one.
    unfoldable pub retry : (ℕ → Bool) → ℕ → ℕ → ℕ → ℕ
    unfolding sample_uniform
    retry again zero i dst = dst
    retry again (suc tries) i dst =
        let next = retry again tries (suc i) (sample_uniform i num_accounts + 1) in
        if again dst then next else dst

    -- An account of the shard `target`, or `src` if it has none.
    unfoldable pub in_shard : ℕ → ℕ → ℕ → ℕ
    unfolding sample_uniform shard_size
    in_shard i target src =
        let size = shard_size num_accounts num_shards in
        let start = target * size + 1 in
        let end = if leb num_accounts (start + size - 1) then num_accounts else start + size - 1 in
        if leb start end then sample_uniform i (end - start + 1) + start else src

    unfoldable pub choose_dst : Bool → ℕ → ℕ → ℕ → ℕ
    unfolding retry in_shard get_shard shard_size
    choose_dst force_cross i src dst =
        let shard = get_shard (shard_size num_accounts num_shards) in
        let other = retry (λ d. shard d == shard src) 4 i dst in
        let same = retry (λ d. not (shard d == shard src)) 4 i dst in
        if force_cross
        then (if shard other == shard src
            then in_shard (i + 4) ((shard src + 1) % num_shards) src
            else other)
        else if shard same == shard src
        then same
        else in_shard (i + 4) (shard src) src

    -- A round of the loop, without the statistics.
    unfoldable pub make_txn : ℕ → Choice → Txn
    unfolding choose_dst
    make_txn i c =
        if c.is_read then record { is_read = true; src = c.src; dst = 0; amount = 0 } else record {
          is_read = false;
          src = c.src;
          dst = choose_dst c.force_cross i c.src c.dst;
          amount = c.amount;
        }

    -- The rounds, and the `erase` of the transfers from an account to itself.
    unfoldable pub generate_rounds : ℕ → List Choice → List Txn
    unfolding make_txn
    generate_rounds i [] = []
    generate_rounds i (c ∷ cs) =
        let t = make_txn i c in
        let rest = generate_rounds (i + 5) cs in
        if not t.is_read && (t.src == t.dst) then rest else t ∷ rest

    -- The transactions of `generate_txns`, which `write_csv` then writes.
    unfoldable pub generate_txns : ℕ → List Choice → List Txn
    unfolding generate_rounds
    generate_txns i cs = if num_accounts == 0 then [] else generate_rounds i cs
