-- ===== src/Quorum/Intersection.antt =====
-- What two quorums of a cluster have in common. A quorum is `f_ + 1` nodes of a cluster of
-- `divisor_` nodes, with `f_ = (divisor_ - 1) / 2` (the constructor in src/paxos_node.cpp).
use multi_paxos_distributed.Topology.{make_topology}
use multi_paxos_distributed.Prelude.{
  ℕ, zero, suc, ◌+◌, ◌%◌, ◌≤◌, ◌<◌, ◌≡◌, refl, sym, ap, ◌∙◌, Option, none, some, inl, inr, arith,
  true, false, List, [], ◌∷◌, ◌++◌, ◌==◌, if◌then◌else◌, ==_iff, Bool-cases, contains, Distinct,
  Within, length, length-append,
}

-- The elements of a list but one.
remove : ℕ → List ℕ → List ℕ
remove a [] = []
remove a (x ∷ xs) = let rest = remove a xs in if x == a then rest else x ∷ rest

remove-contains : (a b : ℕ) (xs : List ℕ) → contains xs b ≡ false → contains (remove a xs) b ≡ false
unfolding remove contains
remove-contains a b [] h = refl
remove-contains a b (x ∷ xs) h = ground (arith, remove-contains a b xs)

remove_absent : (a : ℕ) (xs : List ℕ) → contains xs a ≡ false → remove a xs ≡ xs
unfolding remove contains
remove_absent a [] h = refl
remove_absent a (x ∷ xs) h = ground (arith, remove_absent a xs)

remove-Distinct : (a : ℕ) (xs : List ℕ) → Distinct xs → Distinct (remove a xs)
unfolding remove
remove-Distinct a [] d = tt
remove-Distinct a (x ∷ xs) d = elim (Bool-cases (x == a)) [
  | inl here ↦ rw (here, remove) (remove-Distinct a xs d.1)
  | inr there ↦ rw (there, remove) (remove-contains a x xs d.0, remove-Distinct a xs d.1)
]

length-remove : (a : ℕ) (xs : List ℕ) → Distinct xs → length xs ≤ suc (length (remove a xs))
unfolding remove
length-remove a [] d = omega arith
length-remove a (x ∷ xs) d = elim (Bool-cases (x == a)) [
  | inl here ↦
      let absent = ap (contains xs) (sym ((==_iff x a).0 here)) ∙ d.0 in
      rw (here, remove) (omega (arith, ap length (remove_absent a xs absent)))
  | inr there ↦ rw (there, remove) (omega (arith, length-remove a xs d.1))
]

-- Every element among the `n` numbers from `lo`.
abbrev Span : ℕ → ℕ → List ℕ → Type 0
Span lo n [] = Unit {0}
Span lo n (x ∷ xs) = (lo ≤ x) × (x < lo + n) × Span lo n xs

remove-Span : (lo n : ℕ) (xs : List ℕ) → Span lo (suc n) xs → Span lo n (remove (lo + n) xs)
unfolding remove
remove-Span lo n [] s = tt
remove-Span lo n (x ∷ xs) s = elim (Bool-cases (x == lo + n)) [
  | inl here ↦ rw (here, remove) (remove-Span lo n xs s.2)
  | inr there ↦ rw (there, remove) (s.0, ground arith, remove-Span lo n xs s.2)
]

Span-zero : (lo : ℕ) (xs : List ℕ) → Span lo 0 xs → length xs ≤ 0
Span-zero lo [] s = omega arith
Span-zero lo (x ∷ xs) s = omega arith

-- The pigeonhole principle.
length-Span : (lo n : ℕ) (xs : List ℕ) → Distinct xs → Span lo n xs → length xs ≤ n
length-Span lo zero xs d s = Span-zero lo xs s
length-Span lo (suc n) xs d s = omega (
  arith,
  length-remove (lo + n) xs d,
  length-Span lo n (remove (lo + n) xs) (remove-Distinct (lo + n) xs d) (remove-Span lo n xs s),
)

Span-append : (lo n : ℕ) (xs ys : List ℕ) → Span lo n xs → Span lo n ys → Span lo n (xs ++ ys)
Span-append lo n [] ys s t = t
Span-append lo n (x ∷ xs) ys s t = (s.0, s.1, Span-append lo n xs ys s.2 t)

-- The first element of `xs` that is in `ys`.
common : List ℕ → List ℕ → Option ℕ
common [] ys = none
common (x ∷ xs) ys = let rest = common xs ys in if contains ys x then some x else rest

common-some :
    (xs ys : List ℕ) (a : ℕ)
    → common xs ys ≡ some a
    → (contains xs a ≡ true) × (contains ys a ≡ true)
unfolding common contains
common-some [] ys a e = absurd (cc)
common-some (x ∷ xs) ys a e = ground (arith, common-some xs ys a, ap (contains ys))

contains-append :
    (xs ys : List ℕ) (a : ℕ)
    → contains xs a ≡ false
    → contains ys a ≡ false
    → contains (xs ++ ys) a ≡ false
unfolding contains
contains-append [] ys a h k = k
contains-append (x ∷ xs) ys a h k = ground (arith, contains-append xs ys a)

common-none :
    (xs ys : List ℕ) → common xs ys ≡ none → Distinct xs → Distinct ys → Distinct (xs ++ ys)
unfolding common
common-none [] ys e d d' = d'
common-none (x ∷ xs) ys e d d' = elim (Bool-cases (contains ys x)) [
  | inl both ↦ absurd (ground arith)
  | inr new ↦ (contains-append xs ys x d.0 new, common-none xs ys (ground arith) d.1 d')
]

meet_by :
    (lo n : ℕ) (xs ys : List ℕ) (o : Option ℕ)
    → common xs ys ≡ o
    → Distinct xs
    → Distinct ys
    → Span lo n xs
    → Span lo n ys
    → n < length xs + length ys
    → (a : ℕ) × (contains xs a ≡ true) × (contains ys a ≡ true)
meet_by lo n xs ys (some a) e d d' s s' h = let both = common-some xs ys a e in (a, both.0, both.1)
meet_by lo n xs ys none e d d' s s' h = absurd (
    omega (
      arith,
      length-append xs ys,
      length-Span lo n (xs ++ ys) (common-none xs ys e d d') (Span-append lo n xs ys s s'),
    ))

Within-Span : (lo hi n : ℕ) (xs : List ℕ) → hi < lo + n → Within lo hi xs → Span lo n xs
Within-Span lo hi n [] h w = tt
Within-Span lo hi n (x ∷ xs) h w = (w.0, omega arith, Within-Span lo hi n xs h w.2)

-- Two quorums of a node's cluster, each of `f + 1` different nodes, have a node in common,
-- if the number of nodes of a cluster is odd.
pub quorums_meet :
    (id num_clusters : ℕ) (nodes xs ys : List ℕ)
    → let t = make_topology id nodes num_clusters in
      t.divisor % 2 ≡ 1
      → Distinct xs
      → Distinct ys
      → Within t.low t.high xs
      → Within t.low t.high ys
      → t.f + 1 ≤ length xs
      → t.f + 1 ≤ length ys
      → (a : ℕ) × (contains xs a ≡ true) × (contains ys a ≡ true)
unfolding make_topology
quorums_meet id num_clusters nodes xs ys one d d' w w' q q' =
    let t = make_topology id nodes num_clusters in
    meet_by t.low t.divisor xs ys (common xs ys) refl d d'
      (Within-Span t.low t.high t.divisor xs (omega arith) w)
      (Within-Span t.low t.high t.divisor ys (omega arith) w') (omega arith)
