-- ===== src/Prelude/Lists.antt =====
-- Lists measured by native numbers, and finite sets of numbers kept as duplicate-free lists
-- (the std::unordered_set of the program whose size is read).
use Prim.Native.Nat.{ℕ, suc, ◌+◌, ◌≤◌}
use mathlib.Core.Path.{◌≡◌, refl}
use mathlib.Core.Bool.{Bool, true, false, ◌||◌}
use mathlib.Core.List.{List, [], ◌∷◌, ◌++◌}
use native.Mathlib.Omega.{arith}
use multi_paxos_distributed.Prelude.Tests.{◌==◌, if◌then◌else◌, ==_iff}

module _ {ℓ} {A : Type ℓ} where
  abbrev pub length : List A → ℕ
  length [] = 0
  length (x ∷ xs) = suc (length xs)

  pub length-append : (xs ys : List A) → length (xs ++ ys) ≡ length xs + length ys
  length-append [] ys = omega arith
  length-append (x ∷ xs) ys = omega (arith, length-append xs ys)

-- `std::unordered_set::count(x) > 0`.
unfoldable pub contains : List ℕ → ℕ → Bool
contains [] a = false
contains (x ∷ xs) a = x == a || contains xs a

-- `std::unordered_set::insert`.
unfoldable pub insert_set : ℕ → List ℕ → List ℕ
insert_set a xs = if contains xs a then xs else a ∷ xs

-- No element twice.
abbrev pub Distinct : List ℕ → Type 0
Distinct [] = Unit {0}
Distinct (x ∷ xs) = (contains xs x ≡ false) × Distinct xs

-- Every element between the bounds.
abbrev pub Within : ℕ → ℕ → List ℕ → Type 0
Within lo hi [] = Unit {0}
Within lo hi (x ∷ xs) = (lo ≤ x) × (x ≤ hi) × Within lo hi xs

pub insert_set-Distinct : (a : ℕ) (xs : List ℕ) → Distinct xs → Distinct (insert_set a xs)
unfolding insert_set
insert_set-Distinct a xs d = by_test (contains xs a) refl
  where
    by_test : (b : Bool) → contains xs a ≡ b → Distinct (if b then xs else a ∷ xs)
    by_test true e = d
    by_test false e = (e, d)

pub contains-insert_set :
    (a b : ℕ) (xs : List ℕ) → contains (insert_set a xs) b ≡ (a == b || contains xs b)
unfolding insert_set contains
contains-insert_set a b [] = refl
contains-insert_set a b (x ∷ xs) = ground (arith, ==_iff a b, contains-insert_set a b xs)
