-- ===== src/Benchmark/Sampling.antt =====
-- `sample_gaussian_centered` and `choose_account` of src/benchmark.h give an account.
use multi_paxos_distributed.Prelude.{
  ℕ, zero, suc, ◌+◌, ◌≤◌, ◌<◌, ◌≡◌, refl, ap, ◌>>=◌, Bool, Bool-cases, ◌⊎◌, inl, inr, true, false,
  Option, some, leb, ℤ, pos, negsuc, pos_part, neg_part, ◌-ℤ◌, arith, if_keeps, if_cases,
}
use multi_paxos_distributed.Benchmark.{
  in_range, reflect_once, reflect, sample_uniform, sample_gaussian_centered, choose_account,
}

-- |val|.
abbrev size : ℤ → ℕ
size val = pos_part val + neg_part val

in_range-bounds : (n : ℕ) (val : ℤ) → in_range n val ≡ true → (v : ℕ) × ((val ≡ pos v) × (v < n))
unfolding in_range
in_range-bounds n (pos v) h = (v, (refl, ground arith))
in_range-bounds n (negsuc v) h = absurd (ground arith)

-- Out of range, a round leads into the range, or nearer to 0.
reflect_once-nearer :
    (n : ℕ) (val : ℤ)
    → 2 ≤ n
    → in_range n val ≡ false
    → (in_range n (reflect_once n val) ≡ true) ⊎ (size (reflect_once n val) < size val)
unfolding in_range reflect_once ◌-ℤ◌
reflect_once-nearer n (pos a) two out = grind arith
reflect_once-nearer n (negsuc a) two out = grind arith

reflect-here :
    (fuel n : ℕ) (val : ℤ)
    → in_range n val ≡ true
    → (v : ℕ) × ((reflect (suc fuel) n val ≡ some (pos v)) × (v < n))
unfolding reflect
reflect-here fuel n val here =
    let b = in_range-bounds n val here in (b.0, (rw here (ap some b.1.0), b.1.1))

reflect-ends :
    (fuel n : ℕ) (val : ℤ)
    → 2 ≤ n
    → size val + 2 ≤ fuel
    → (v : ℕ) × ((reflect fuel n val ≡ some (pos v)) × (v < n))
unfolding reflect
reflect-ends zero n val two enough = absurd (omega arith)
reflect-ends (suc zero) n val two enough = absurd (omega arith)
reflect-ends (suc (suc fuel)) n val two enough = elim (Bool-cases (in_range n val)) [
  | inl here ↦ reflect-here (suc fuel) n val here
  | inr out ↦ elim (reflect_once-nearer n val two out) [
    | inl here ↦
        let r = reflect-here fuel n (reflect_once n val) here in (r.0, (rw out r.1.0, r.1.1))
    | inr nearer ↦
        let r = reflect-ends (suc fuel) n (reflect_once n val) two (omega arith) in
        (r.0, (rw out r.1.0, r.1.1))
  ]
]

pub sample_uniform-within :
    (draw : ℕ → ℕ → ℕ) (i n : ℕ)
    → ((j m : ℕ) → 2 ≤ m → draw j m < m)
    → 1 ≤ n
    → sample_uniform draw i n < n
unfolding sample_uniform
sample_uniform-within draw i n fair one = ground (arith, fair i n)

abbrev Chosen : ℕ → Option ℕ → Type 0
Chosen n o = (a : ℕ) × ((o ≡ some a) × ((1 ≤ a) × (a ≤ n)))

-- `choose_account` ends, and its result is an account, one of 1, ..., `num_accounts`, whatever the
-- hotspot, the skewness and the samples. The loop in it ends after at most |rounded| + 2 tests,
-- where `rounded` is the number that the normal distribution gave.
pub choose_account-ends :
    (draw : ℕ → ℕ → ℕ) (i fuel num_accounts hotspot : ℕ) (low high uniform : Bool) (rounded : ℤ)
    → ((j m : ℕ) → 2 ≤ m → draw j m < m)
    → 1 ≤ num_accounts
    → size rounded + 2 ≤ fuel
    → (a : ℕ) × ((choose_account draw i fuel num_accounts low high uniform hotspot rounded ≡ some a)
        × ((1 ≤ a) × (a ≤ num_accounts)))
unfolding choose_account sample_gaussian_centered
choose_account-ends draw i fuel n hotspot low high uniform rounded fair one enough =
    if_cases (Chosen n) (leb n 1) _ _ (λ few. (1, (refl, (omega arith, one))))
      (λ many.
        let within = sample_uniform-within draw i n fair one in
        let flat : (Chosen n (some (sample_uniform draw i n + 1))) =
          (sample_uniform draw i n + 1, (refl, (omega arith, omega arith))) in
        let r = reflect-ends fuel n rounded (ground arith) enough in
        let skewed : (Chosen n (reflect fuel n rounded >>= λ v. some (pos_part v + 1))) =
          (r.0 + 1, (rw r.1.0 refl, (omega arith, omega (arith, r.1.1)))) in
        if_keeps (Chosen n) low _ _ flat
          (if_keeps (Chosen n) high _ _ skewed (if_keeps (Chosen n) uniform _ _ flat skewed)))
