-- ===== src/Prelude/Map.antt =====
-- `std::map<int, V>`: an association list that insertion keeps in the order of the keys.
use Prim.Native.Nat.{ℕ}
use mathlib.Core.Path.{◌≡◌, refl}
use mathlib.Core.Bool.{Bool, true, false}
use mathlib.Core.List.{List, [], ◌∷◌}
use mathlib.Core.Option.{Option, none, some}
use native.Mathlib.Omega.{arith}
use multi_paxos_distributed.Prelude.Tests.{ltb, ◌==◌, if◌then◌else◌}

abbrev pub Map {ℓ} : Type ℓ → Type ℓ
Map V = List (ℕ × V)

module _ {ℓ} {V : Type ℓ} where
  abbrev pub keys : Map V → List ℕ
  keys [] = []
  keys ((k, v) ∷ m) = k ∷ keys m

  unfoldable pub find : ℕ → Map V → Option V
  find k [] = none
  find k ((j, v) ∷ m) = if j == k then some v else find k m

  -- `m[k] = v`.
  unfoldable pub insert : ℕ → V → Map V → Map V
  insert k v [] = (k, v) ∷ []
  insert k v ((j, w) ∷ m) =
      if j == k then (k, v) ∷ m else if ltb k j then (k, v) ∷ (j, w) ∷ m else (j, w) ∷ insert k v m

  -- `m.erase(k)`.
  unfoldable pub erase : ℕ → Map V → Map V
  erase k [] = []
  erase k ((j, w) ∷ m) = let rest = erase k m in if j == k then rest else (j, w) ∷ rest

  -- `m.count(k) > 0`.
  unfoldable pub has : ℕ → Map V → Bool
  has k [] = false
  has k ((j, v) ∷ m) = if j == k then true else has k m

  -- `m.rbegin()->first`, and 0 where the map is empty.
  unfoldable pub last_key : Map V → ℕ
  last_key [] = 0
  last_key ((j, v) ∷ []) = j
  last_key ((j, v) ∷ p ∷ m) = last_key (p ∷ m)

  pub find-insert :
      (k j : ℕ) (v : V) (m : Map V) → find j (insert k v m) ≡ (if k == j then some v else find j m)
  unfolding find insert
  find-insert k j v [] = refl
  find-insert k j v ((i, w) ∷ m) = ground (arith, find-insert k j v m)

  pub find-insert_same : (k : ℕ) (v : V) (m : Map V) → find k (insert k v m) ≡ some v
  find-insert_same k v m = ground (arith, find-insert k k v m)

  pub find-erase : (k j : ℕ) (m : Map V) → find j (erase k m) ≡ (if k == j then none else find j m)
  unfolding find erase
  find-erase k j [] = ground arith
  find-erase k j ((i, w) ∷ m) = ground (arith, find-erase k j m)

  pub has-find : (k : ℕ) (m : Map V) → has k m ≡ false → find k m ≡ none
  unfolding has find
  has-find k [] h = refl
  has-find k ((j, v) ∷ m) h = ground (arith, has-find k m)

  pub find-has : (k : ℕ) (m : Map V) → find k m ≡ none → has k m ≡ false
  unfolding has find
  find-has k [] h = refl
  find-has k ((j, v) ∷ m) h = ground (arith, find-has k m)

  pub has-insert :
      (k j : ℕ) (v : V) (m : Map V) → has j (insert k v m) ≡ (if k == j then true else has j m)
  unfolding has insert
  has-insert k j v [] = refl
  has-insert k j v ((i, w) ∷ m) = ground (arith, has-insert k j v m)
