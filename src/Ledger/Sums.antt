-- ===== src/Ledger/Sums.antt =====
-- The total balance of the first accounts of a node, and what one write does to it.
use multi_paxos_distributed.Prelude.{
  ℕ, zero, suc, ◌≤◌, ◌<◌, ◌≡◌, refl, arith, inl, inr, ap, ℤ, pos, ◌+ℤ◌, ◌-ℤ◌, int_laws, ◌==◌,
  Bool-cases, ==_iff, update,
}

-- The sum of the balances of the accounts below `n`.
unfoldable pub total : ℕ → (ℕ → ℤ) → ℤ
total zero f = pos 0
total (suc n) f = total n f +ℤ f n

total-update_above : (n k : ℕ) (v : ℤ) (f : ℕ → ℤ) → n ≤ k → total n (update f k v) ≡ total n f
unfolding total update
total-update_above zero k v f h = refl
total-update_above (suc n) k v f h = ground (arith, total-update_above n k v f)

replace_last : (t v x : ℤ) → t +ℤ v ≡ t +ℤ x +ℤ (v -ℤ x)
replace_last t v x = omega int_laws

swap_last : (t d x : ℤ) → t +ℤ d +ℤ x ≡ t +ℤ x +ℤ d
swap_last t d x = omega int_laws

-- A write changes the total by the difference.
pub total-update :
    (n k : ℕ) (v : ℤ) (f : ℕ → ℤ) → k < n → total n (update f k v) ≡ total n f +ℤ (v -ℤ f k)
unfolding total update
total-update zero k v f h = absurd (omega arith)
total-update (suc n) k v f h = elim (Bool-cases (k == n)) [
  | inl here ↦ ground (
    arith,
    total-update_above n k v f,
    replace_last (total n f) v (f n),
    ap f ((==_iff k n).0 here),
  )
  | inr there ↦ ground (arith, total-update n k v f, swap_last (total n f) (v -ℤ f k) (f n))
]
