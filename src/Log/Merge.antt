-- ===== src/Log/Merge.antt =====
-- `MergeAcceptLogsFromPromises` (src/paxos_node.cpp): which entry wins a sequence number.
use multi_paxos_distributed.Prelude.Map.{Map, find, find-insert}
use multi_paxos_distributed.Prelude.{
  ℕ, ◌≡◌, refl, sym, ◌∙◌, ap, ◌⊎◌, inl, inr, arith, true, false, ◌++◌, Option, none, some, List, [],
  ◌∷◌, ◌==◌, if◌then◌else◌, Bool-cases, ==_iff,
}
use multi_paxos_distributed.Ballot.{gt, ge}
use multi_paxos_distributed.Ballot.Order.{ge_trans, ge_refl}
use multi_paxos_distributed.Message.{AcceptedEntry, ClientRequest}
use multi_paxos_distributed.Log.{is_decided, choose, carry_outcome, merge_entry, merge_log}

-- `w` is as good as `e`: a decided entry beats an undecided one, and between two of a kind the
-- ballot of `w` is no lower.
abbrev pub Dominates : AcceptedEntry → AcceptedEntry → Type 0
Dominates w e =
    ((is_decided w ≡ true) × (is_decided e ≡ false))
    ⊎ ((is_decided w ≡ is_decided e) × (ge w.ballot e.ballot ≡ true))

Dominates-refl : (e : AcceptedEntry) → Dominates e e
Dominates-refl e = inr (refl, ge_refl e.ballot)

Dominates-trans : (a b c : AcceptedEntry) → Dominates a b → Dominates b c → Dominates a c
Dominates-trans a b c h k = ground (arith, ge_trans a.ballot b.ballot c.ballot)

-- What one round leaves at its sequence number.
abbrev winner : Option AcceptedEntry → AcceptedEntry → AcceptedEntry
winner cur e = carry_outcome e (choose cur e)

choose-undecided :
    (cur : Option AcceptedEntry) (e : AcceptedEntry)
    → is_decided (choose cur e) ≡ false
    → is_decided e ≡ false
unfolding choose
choose-undecided none e h = h
choose-undecided (some cur) e h = ground arith

choose_new : (cur : Option AcceptedEntry) (e : AcceptedEntry) → Dominates (choose cur e) e
unfolding choose gt ge
choose_new none e = Dominates-refl e
choose_new (some cur) e = ground arith

choose_old : (cur e : AcceptedEntry) → Dominates (choose (some cur) e) cur
unfolding choose gt ge
choose_old cur e = ground arith

-- Carrying an outcome changes neither the ballot nor the request, nor whether the entry is decided.
carry-decided :
    (e w : AcceptedEntry)
    → (is_decided w ≡ false → is_decided e ≡ false)
    → is_decided (carry_outcome e w) ≡ is_decided w
unfolding carry_outcome is_decided
carry-decided e w h = ground arith

carry-ballot : (e w : AcceptedEntry) → (carry_outcome e w).ballot ≡ w.ballot
unfolding carry_outcome
carry-ballot e w = ground arith

carry-request : (e w : AcceptedEntry) → (carry_outcome e w).request ≡ w.request
unfolding carry_outcome
carry-request e w = ground arith

winner-Dominates :
    (cur : Option AcceptedEntry) (e x : AcceptedEntry)
    → Dominates (choose cur e) x
    → Dominates (winner cur e) x
winner-Dominates cur e x d =
    ground (
      arith,
      carry-decided e (choose cur e) (choose-undecided cur e),
      carry-ballot e (choose cur e),
    )

-- The log has an entry at `k` that is as good as `x`.
abbrev pub Best : Map AcceptedEntry → ℕ → AcceptedEntry → Type 0
Best log k x = (w : AcceptedEntry) × (find k log ≡ some w) × Dominates w x

find-merge_entry :
    (log : Map AcceptedEntry) (e : AcceptedEntry) (k : ℕ)
    → find k (merge_entry log e)
      ≡ (if e.seqnum == k then some (winner (find e.seqnum log) e) else find k log)
unfolding merge_entry
find-merge_entry log e k = find-insert e.seqnum k (winner (find e.seqnum log) e) log

merge_entry-new :
    (log : Map AcceptedEntry) (e : AcceptedEntry) → Best (merge_entry log e) e.seqnum e
merge_entry-new log e =
    let cur = find e.seqnum log in
    (
      winner cur e,
      ground (arith, find-merge_entry log e e.seqnum),
      winner-Dominates cur e e (choose_new cur e),
    )

merge_entry-Best :
    (log : Map AcceptedEntry) (e x : AcceptedEntry) (k : ℕ)
    → Best log k x
    → Best (merge_entry log e) k x
merge_entry-Best log e x k (w, f, d) = elim (Bool-cases (e.seqnum == k)) [
  | inl here ↦ (
    winner (some w) e,
    ground (arith, find-merge_entry log e k, ap (λ i. find i log) ((==_iff e.seqnum k).0 here)),
    Dominates-trans _ w x (winner-Dominates (some w) e w (choose_old w e)) d,
  )
  | inr there ↦ (w, ground (arith, find-merge_entry log e k), d)
]

merge_log-Best :
    (es : List AcceptedEntry) (log : Map AcceptedEntry) (x : AcceptedEntry) (k : ℕ)
    → Best log k x
    → Best (merge_log log es) k x
unfolding merge_log
merge_log-Best [] log x k b = b
merge_log-Best (e ∷ es) log x k b = merge_log-Best es _ x k (merge_entry-Best log e x k b)

merge_log-covers :
    (before after : List AcceptedEntry) (e : AcceptedEntry) (log : Map AcceptedEntry)
    → Best (merge_log log (before ++ e ∷ after)) e.seqnum e
unfolding merge_log
merge_log-covers [] after e log = merge_log-Best after _ e e.seqnum (merge_entry-new log e)
merge_log-covers (x ∷ before) after e log = merge_log-covers before after e (merge_entry log x)

-- Where an entry of the merged log has its request from: the old log or one of the promises.
abbrev pub Origin : Map AcceptedEntry → List AcceptedEntry → ℕ → ClientRequest → Type 0
Origin log es k request =
    ((x : AcceptedEntry) × (find k log ≡ some x) × (x.request ≡ request))
    ⊎ ((before : List AcceptedEntry) × (after : List AcceptedEntry) × (x : AcceptedEntry) × (es
          ≡ before ++ x ∷ after)
        × (x.seqnum ≡ k)
        × (x.request ≡ request))

choose-cases : (cur e : AcceptedEntry) → (choose (some cur) e ≡ cur) ⊎ (choose (some cur) e ≡ e)
unfolding choose
choose-cases cur e = ground arith

-- The request of a round's entry `w` is that of the entry before it or of the promised one.
abbrev OneOrigin : Map AcceptedEntry → AcceptedEntry → ℕ → AcceptedEntry → Type 0
OneOrigin log e k w =
    ((x : AcceptedEntry) × (find k log ≡ some x) × (x.request ≡ w.request))
    ⊎ ((e.seqnum ≡ k) × (e.request ≡ w.request))

chosen-Origin :
    (log : Map AcceptedEntry) (e w : AcceptedEntry) (k : ℕ) (cur : Option AcceptedEntry)
    → find k log ≡ cur
    → e.seqnum ≡ k
    → winner cur e ≡ w
    → OneOrigin log e k w
unfolding choose
chosen-Origin log e w k none q s f =
    inr (s, sym (carry-request e e) ∙ ap (λ (r : AcceptedEntry). r.request) f)
chosen-Origin log e w k (some cur) q s f = elim (choose-cases cur e) [
  | inl old ↦ inl (
    cur,
    q,
    ap (λ (r : AcceptedEntry). r.request) (sym old)
        ∙ sym (carry-request e (choose (some cur) e))
        ∙ ap (λ (r : AcceptedEntry). r.request) f,
  )
  | inr new ↦ inr (
    s,
    ap (λ (r : AcceptedEntry). r.request) (sym new)
        ∙ sym (carry-request e (choose (some cur) e))
        ∙ ap (λ (r : AcceptedEntry). r.request) f,
  )
]

merge_entry-Origin :
    (log : Map AcceptedEntry) (e w : AcceptedEntry) (k : ℕ)
    → find k (merge_entry log e) ≡ some w
    → OneOrigin log e k w
merge_entry-Origin log e w k f = elim (Bool-cases (e.seqnum == k)) [
  | inl here ↦
      let same = (==_iff e.seqnum k).0 here in
      chosen-Origin log e w k (find e.seqnum log) (ap (λ i. find i log) (sym same)) same
        (ground (arith, find-merge_entry log e k))
  | inr there ↦ inl (w, ground (arith, find-merge_entry log e k), refl)
]

merge_log-Origin :
    (es : List AcceptedEntry) (log : Map AcceptedEntry) (w : AcceptedEntry) (k : ℕ)
    → find k (merge_log log es) ≡ some w
    → Origin log es k w.request
unfolding merge_log
merge_log-Origin [] log w k f = inl (w, f, refl)
merge_log-Origin (e ∷ es) log w k f = elim (merge_log-Origin es (merge_entry log e) w k f) [
  | inl (x, g, r) ↦ elim (merge_entry-Origin log e x k g) [
    | inl (y, h, q) ↦ inl (y, h, q ∙ r)
    | inr (s, q) ↦ inr ([], es, e, refl, s, q ∙ r)
  ]
  | inr (before, after, x, p, s, r) ↦ inr (e ∷ before, after, x, ap (◌∷◌ e) p, s, r)
]

-- What the merge of the promised entries `es` into `log` gives: at each sequence number of either
-- there is an entry that is as good as every candidate (a decided outcome first, then the higher
-- ballot), and no request is made up.
pub record IsMerge (log : Map AcceptedEntry) (es : List AcceptedEntry) (merged : Map AcceptedEntry)
    : Type 0 where
  pub old_kept : (k : ℕ) (x : AcceptedEntry) → find k log ≡ some x → Best merged k x
  pub new_kept :
      (before after : List AcceptedEntry) (x : AcceptedEntry)
      → es ≡ before ++ x ∷ after
      → Best merged x.seqnum x
  pub sound : (k : ℕ) (w : AcceptedEntry) → find k merged ≡ some w → Origin log es k w.request

-- Merging the promised logs loses no accepted entry, never replaces a decided outcome by an
-- undecided one, otherwise keeps the highest ballot, and makes up no request.
pub merge_log-IsMerge :
    (log : Map AcceptedEntry) (es : List AcceptedEntry) → IsMerge log es (merge_log log es)
merge_log-IsMerge log es = record {
  old_kept = λ k x f. merge_log-Best es log x k (x, f, Dominates-refl x);
  new_kept = λ before after x e. rw e (merge_log-covers before after x log);
  sound = λ k w f. merge_log-Origin es log w k f;
}
