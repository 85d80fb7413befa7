-- ===== src/Client/Heap.antt =====
-- `timer_heap` of src/paxos_client.h: the top, and the elements.
use multi_paxos_distributed.Prelude.{
  ℕ, suc, ◌≤◌, ◌≡◌, ◌⊎◌, inl, inr, refl, ap, ◌∙◌, Bool, true, false, List, [], ◌∷◌, leb, ◌==◌,
  if◌then◌else◌, if_cases, Bool-cases, ==_iff, length, contains, arith, ◌||◌, leb→le, subst,
}
use multi_paxos_distributed.Client.{PendingRequest}
use multi_paxos_distributed.Client.Calls.{pop_top}

or_swap : (a b c : Bool) → a || (b || c) ≡ b || (a || c)
or_swap true true c = refl
or_swap true false c = refl
or_swap false true c = refl
or_swap false false c = refl

pub contains-nil : (i : ℕ) → contains [] i ≡ false
unfolding contains
contains-nil i = refl

pub contains-cons :
    (k i : ℕ) (xs : List ℕ)
    → contains (k ∷ xs) i ≡ true
    → ((k == i) ≡ true) ⊎ (contains xs i ≡ true)
unfolding contains
contains-cons k i xs h = ground arith

module _ (objects : ℕ → PendingRequest) where
  pub length-pop_top : (heap : List ℕ) (i : ℕ) → length (pop_top objects i heap).1 ≡ length heap
  unfolding pop_top
  length-pop_top [] i = refl
  length-pop_top (j ∷ heap) i = ap suc (length-pop_top heap _)

  contains-either :
      (b : Bool) (i j k : ℕ) (heap : List ℕ)
      → (if b then j else i) == k || ((if b then i else j) == k || contains heap k)
        ≡ contains (i ∷ j ∷ heap) k
  unfolding contains
  contains-either true i j k heap = or_swap (j == k) (i == k) (contains heap k)
  contains-either false i j k heap = refl

  -- The top and the rest are the elements of the heap.
  pub contains-pop_top :
      (heap : List ℕ) (i k : ℕ)
      → contains ((pop_top objects i heap).0 ∷ (pop_top objects i heap).1) k ≡ contains (i ∷ heap) k
  unfolding pop_top contains
  contains-pop_top [] i k = refl
  contains-pop_top (j ∷ heap) i k =
      let less = leb (objects i).expiry (objects j).expiry in
      or_swap _ ((if less then j else i) == k) _
      ∙ ap (λ b. (if less then j else i) == k || b)
          (contains-pop_top heap (if less then i else j) k)
      ∙ contains-either less i j k heap

  -- The element that is ahead of the other is not later.
  ahead :
      (i j : ℕ)
      → ((objects (if leb (objects i).expiry (objects j).expiry then i else j)).expiry
          ≤ (objects i).expiry)
        × ((objects (if leb (objects i).expiry (objects j).expiry then i else j)).expiry
            ≤ (objects j).expiry)
  ahead i j =
      if_cases
        (λ m. ((objects m).expiry ≤ (objects i).expiry) × ((objects m).expiry ≤ (objects j).expiry))
        (leb (objects i).expiry (objects j).expiry) i j (λ le. (omega arith, leb→le _ _ le))
        (λ gt. (ground arith, omega arith))

  top_first :
      (heap : List ℕ) (i : ℕ) → (objects (pop_top objects i heap).0).expiry ≤ (objects i).expiry
  unfolding pop_top
  top_first [] i = omega arith
  top_first (j ∷ heap) i = omega (
    arith,
    (ahead i j).0,
    top_first heap (if leb (objects i).expiry (objects j).expiry then i else j),
  )

  top_least :
      (heap : List ℕ) (i k : ℕ)
      → contains heap k ≡ true
      → (objects (pop_top objects i heap).0).expiry ≤ (objects k).expiry
  unfolding pop_top contains
  top_least [] i k h = absurd (cc)
  top_least (j ∷ heap) i k h =
      let m = if leb (objects i).expiry (objects j).expiry then i else j in
      elim (Bool-cases (j == k)) [
        | inl here ↦
            let same = (==_iff j k).0 here in
            subst (λ k. (objects (pop_top objects m heap).0).expiry ≤ (objects k).expiry) same
              (omega (arith, (ahead i j).1, top_first heap m))
        | inr there ↦ top_least heap m k (rw there at h)
      ]

  pub top_below :
      (heap : List ℕ) (j i : ℕ)
      → contains (j ∷ heap) i ≡ true
      → (objects (pop_top objects j heap).0).expiry ≤ (objects i).expiry
  top_below heap j i h = elim (contains-cons j i heap h) [
    | inl here ↦
        subst (λ k. (objects (pop_top objects j heap).0).expiry ≤ (objects k).expiry)
          ((==_iff j i).0 here) (top_first heap j)
    | inr there ↦ top_least heap j i there
  ]
