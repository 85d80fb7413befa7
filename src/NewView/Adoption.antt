-- ===== src/NewView/Adoption.antt =====
-- The log of a backup after a new view: the loop of `HandleNewView` (src/paxos_node.cpp).
use multi_paxos_distributed.Prelude.Map.{Map, find, find-insert}
use multi_paxos_distributed.Prelude.{
  ℕ, ◌≤◌, ◌≡◌, refl, sym, ap, ◌∙◌, ◌⊎◌, arith, Option, none, some, List, [], ◌∷◌, ◌++◌, ltb, ◌==◌,
  if◌then◌else◌, Bool-cases, ==_iff, inl, inr,
}
use multi_paxos_distributed.Message.{AcceptedEntry}
use multi_paxos_distributed.NewView.{adopt_entry, adopt_all}

-- The log has an entry at `k` whose ballot counter is at least `c`.
abbrev pub AtLeast : Map AcceptedEntry → ℕ → ℕ → Type 0
AtLeast log k c = (w : AcceptedEntry) × (find k log ≡ some w) × (c ≤ w.ballot.counter)

-- The log after the entries `es` were adopted into `log`: nothing is lost, at each sequence number
-- the ballot counter is as high as that of every candidate, and every entry comes from one of them.
pub record IsAdopted (log : Map AcceptedEntry) (es : List AcceptedEntry) (log' : Map AcceptedEntry)
    : Type 0 where
  pub old_kept : (k : ℕ) (x : AcceptedEntry) → find k log ≡ some x → AtLeast log' k x.ballot.counter
  pub new_kept :
      (before after : List AcceptedEntry) (x : AcceptedEntry)
      → es ≡ before ++ x ∷ after
      → AtLeast log' x.seqnum x.ballot.counter
  pub sound :
      (k : ℕ) (w : AcceptedEntry)
      → find k log' ≡ some w
      → (find k log ≡ some w)
        ⊎ ((before : List AcceptedEntry) × (after : List AcceptedEntry) × (es ≡ before ++ w ∷ after)
            × (w.seqnum ≡ k))

-- Which entry a round leaves at its own sequence number.
newer : Option AcceptedEntry → AcceptedEntry → AcceptedEntry
newer none e = e
newer (some old) e = if ltb old.ballot.counter e.ballot.counter then e else old

newer-old : (old e : AcceptedEntry) → old.ballot.counter ≤ (newer (some old) e).ballot.counter
unfolding newer
newer-old old e = ground arith

newer-new :
    (o : Option AcceptedEntry) (e : AcceptedEntry) → e.ballot.counter ≤ (newer o e).ballot.counter
unfolding newer
newer-new none e = omega arith
newer-new (some old) e = ground arith

newer-cases :
    (o : Option AcceptedEntry) (e : AcceptedEntry) → (o ≡ some (newer o e)) ⊎ (newer o e ≡ e)
unfolding newer
newer-cases none e = inr refl
newer-cases (some old) e = ground arith

find-adopt_entry_by :
    (e : AcceptedEntry) (log : Map AcceptedEntry) (k : ℕ) (o : Option AcceptedEntry)
    → find e.seqnum log ≡ o
    → find k (adopt_entry e log) ≡ (if e.seqnum == k then some (newer o e) else find k log)
unfolding newer adopt_entry
find-adopt_entry_by e log k none f = rw (f, adopt_entry) (find-insert e.seqnum k e log)
find-adopt_entry_by e log k (some old) f =
    elim (Bool-cases (ltb old.ballot.counter e.ballot.counter)) [
      | inl higher ↦ rw (f, adopt_entry, higher) (find-insert e.seqnum k e log)
      | inr low ↦ rw (f, adopt_entry, low) (ground (arith, ap (λ i. find i log)))
    ]

find-adopt_entry :
    (e : AcceptedEntry) (log : Map AcceptedEntry) (k : ℕ)
    → find k (adopt_entry e log)
      ≡ (if e.seqnum == k then some (newer (find e.seqnum log) e) else find k log)
find-adopt_entry e log k = find-adopt_entry_by e log k (find e.seqnum log) refl

adopt_entry-AtLeast :
    (e : AcceptedEntry) (log : Map AcceptedEntry) (k c : ℕ)
    → AtLeast log k c
    → AtLeast (adopt_entry e log) k c
adopt_entry-AtLeast e log k c (w, f, up) = elim (Bool-cases (e.seqnum == k)) [
  | inl here ↦ (
    newer (some w) e,
    ground (arith, find-adopt_entry e log k, ap (λ i. find i log) ((==_iff e.seqnum k).0 here)),
    omega (arith, newer-old w e),
  )
  | inr there ↦ (w, ground (arith, find-adopt_entry e log k), up)
]

adopt_entry-own :
    (e : AcceptedEntry) (log : Map AcceptedEntry)
    → AtLeast (adopt_entry e log) e.seqnum e.ballot.counter
adopt_entry-own e log = (
  newer (find e.seqnum log) e,
  ground (arith, find-adopt_entry e log e.seqnum),
  newer-new (find e.seqnum log) e,
)

adopt_all-AtLeast :
    (es : List AcceptedEntry) (log : Map AcceptedEntry) (k c : ℕ)
    → AtLeast log k c
    → AtLeast (adopt_all es log) k c
unfolding adopt_all
adopt_all-AtLeast [] log k c a = a
adopt_all-AtLeast (e ∷ es) log k c a =
    adopt_all-AtLeast es (adopt_entry e log) k c (adopt_entry-AtLeast e log k c a)

adopt_all-covers :
    (before after : List AcceptedEntry) (x : AcceptedEntry) (log : Map AcceptedEntry)
    → AtLeast (adopt_all (before ++ x ∷ after) log) x.seqnum x.ballot.counter
unfolding adopt_all
adopt_all-covers [] after x log =
    adopt_all-AtLeast after (adopt_entry x log) x.seqnum x.ballot.counter (adopt_entry-own x log)
adopt_all-covers (e ∷ before) after x log = adopt_all-covers before after x (adopt_entry e log)

adopt_entry_sound :
    (e w : AcceptedEntry) (log : Map AcceptedEntry) (k : ℕ)
    → find k (adopt_entry e log) ≡ some w
    → (find k log ≡ some w) ⊎ ((e ≡ w) × (e.seqnum ≡ k))
adopt_entry_sound e w log k f = elim (Bool-cases (e.seqnum == k)) [
  | inl here ↦
      let same = (==_iff e.seqnum k).0 here in
      let won : some (newer (find e.seqnum log) e) ≡ some w =
        ground (arith, find-adopt_entry e log k) in
      elim (newer-cases (find e.seqnum log) e) [
        | inl old ↦ inl (ap (λ i. find i log) (sym same) ∙ old ∙ won)
        | inr new ↦ inr (cc (new, won), same)
      ]
  | inr there ↦ inl (ground (arith, find-adopt_entry e log k))
]

adopt_all_sound :
    (es : List AcceptedEntry) (w : AcceptedEntry) (log : Map AcceptedEntry) (k : ℕ)
    → find k (adopt_all es log) ≡ some w
    → (find k log ≡ some w)
      ⊎ ((before : List AcceptedEntry) × (after : List AcceptedEntry) × (es ≡ before ++ w ∷ after)
          × (w.seqnum ≡ k))
unfolding adopt_all
adopt_all_sound [] w log k f = inl f
adopt_all_sound (e ∷ es) w log k f = elim (adopt_all_sound es w (adopt_entry e log) k f) [
  | inl g ↦ elim (adopt_entry_sound e w log k g) [
    | inl old ↦ inl old
    | inr (same, s) ↦
        inr ([], es, ap (λ x. x ∷ es) same, ap (λ (x : AcceptedEntry). x.seqnum) (sym same) ∙ s)
  ]
  | inr (before, after, p, s) ↦ inr (e ∷ before, after, ap (◌∷◌ e) p, s)
]

-- Adopting the entries of a new view loses no entry of the log, leaves at each sequence number of
-- either a ballot counter as high as that of every candidate, and makes up no entry.
pub adopt_all-IsAdopted :
    (es : List AcceptedEntry) (log : Map AcceptedEntry) → IsAdopted log es (adopt_all es log)
adopt_all-IsAdopted es log = record {
  old_kept = λ k x f. adopt_all-AtLeast es log k x.ballot.counter (x, f, omega arith);
  new_kept = λ before after x e. rw e (adopt_all-covers before after x log);
  sound = λ k w f. adopt_all_sound es w log k f;
}
