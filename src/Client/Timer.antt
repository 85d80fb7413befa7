-- ===== src/Client/Timer.antt =====
-- The part of a round of `TimerLoop` (src/paxos_client.cpp) under the lock leaves no request behind.
use multi_paxos_distributed.Prelude.{
  some-injective, none-ne-some, sym, ℕ, zero, suc, ◌≤◌, ◌<◌, ◌≡◌, ◌⊎◌, inl, inr, refl, ap, ◌∙◌,
  Bool, true, false, not, some, List, [], ◌∷◌, ◌++◌, ltb, ◌==◌, if◌then◌else◌, if_cases, Bool-cases,
  ==_iff, update, length, contains, arith, ◌||◌, ltb→lt, subst,
}
use multi_paxos_distributed.Client.{Client, PendingRequest}
use multi_paxos_distributed.Client.Heap.{
  contains-nil, contains-cons, length-pop_top, contains-pop_top, top_below,
}
use multi_paxos_distributed.Client.Calls.{pop_top, Due, rearm, collect, reqs, collect_due}

abbrev pub Objects : Type 0
Objects = ℕ → PendingRequest

abbrev Result : Type 0
Result = Objects × (List ℕ × List Due)

update-here : (f : Objects) (k i : ℕ) (v : PendingRequest) → (k == i) ≡ true → update f k v i ≡ v
unfolding update
update-here f k i v h = rw h refl

update-there :
    (f : Objects) (k i : ℕ) (v : PendingRequest) → (k == i) ≡ false → update f k v i ≡ f i
unfolding update
update-there f k i v h = rw h refl

-- The list has the request `i`, to be sent for the first time or again.
pub data HasDue (i : ℕ) (first : Bool) : List Due → Type 0 where
  here : (ds : List Due) → HasDue i first (record { req = i; first_send = first } ∷ ds)
  there : {ds : List Due} (d : Due) → HasDue i first ds → HasDue i first (d ∷ ds)

-- What the loop has made of an object: nothing, or it has been armed again.
abbrev Kept : ℕ → ℕ → PendingRequest → Result → Type 0
Kept now i r o = (o.0 i ≡ r) ⊎ (o.0 i ≡ rearm now r)

-- What the loop has done for an element of the heap that was `r` before.
abbrev Handled : ℕ → ℕ → PendingRequest → Result → Type 0
Handled now i r o =
    (r.completed ≡ true)
    ⊎ ((contains (reqs o.1.1 ++ o.1.0) i ≡ true)
        × (((o.0 i ≡ r) × (now < r.expiry))
            ⊎ ((o.0 i ≡ rearm now r) × HasDue i (not r.active) o.1.1)))

rearmed_again :
    (now i : ℕ) (r : PendingRequest) (o : Result) → Kept now i (rearm now r) o → o.0 i ≡ rearm now r
unfolding rearm
rearmed_again now i r o (inl same) = same
rearmed_again now i r o (inr again) = again

rearmed-here :
    (now : ℕ) (objects : Objects) (k i : ℕ)
    → (k == i) ≡ true
    → update objects k (rearm now (objects k)) i ≡ rearm now (objects i)
rearmed-here now objects k i same =
    update-here objects k i _ same ∙ ap (λ j. rearm now (objects j)) ((==_iff k i).0 same)

collect-Kept :
    (fuel now : ℕ) (objects : Objects) (heap : List ℕ) (i : ℕ)
    → Kept now i (objects i) (collect fuel now objects heap)
unfolding collect
collect-Kept zero now objects heap i = inl refl
collect-Kept (suc fuel) now objects [] i = inl refl
collect-Kept (suc fuel) now objects (j ∷ js) i =
    let t = pop_top objects j js in
    let r = objects t.0 in
    let next = if r.completed then objects else update objects t.0 (rearm now r) in
    let ih : Kept now i (next i) (collect fuel now next t.1) = collect-Kept fuel now next t.1 i in
    if_cases (Kept now i (objects i)) r.completed _ _
      (λ gone. subst (λ v. Kept now i v (collect fuel now next t.1)) (rw gone refl) ih)
      (λ live.
        if_cases (Kept now i (objects i)) (ltb now r.expiry) _ _ (λ early. inl refl)
          (λ late. elim (Bool-cases (t.0 == i)) [
            | inl same ↦ inr (
                rearmed_again now i (objects i) (collect fuel now next t.1) (
                  subst (λ v. Kept now i v (collect fuel now next t.1))
                    (ap (λ b. (if b then objects else update objects t.0 (rearm now r)) i) live
                      ∙ rearmed-here now objects t.0 i same)
                    ih))
            | inr other ↦
                subst (λ v. Kept now i v (collect fuel now next t.1))
                  (ap (λ b. (if b then objects else update objects t.0 (rearm now r)) i) live
                    ∙ update-there objects t.0 i (rearm now r) other)
                  ih
          ]))

or_true : (a b : Bool) → b ≡ true → a || b ≡ true
or_true true b h = refl
or_true false b h = h

Handled-cons :
    (now i k : ℕ) (first : Bool) (r : PendingRequest) (o : Result)
    → Handled now i r o
    → Handled now i r (o.0, (o.1.0, record { req = k; first_send = first } ∷ o.1.1))
unfolding contains reqs
Handled-cons now i k first r o (inl gone) = inl gone
Handled-cons now i k first r o (inr h) = inr (
  or_true (k == i) _ h.0,
  elim h.1 [ inl early ↦ inl early | inr due ↦ inr (due.0, there _ due.1) ],
)

Handled-first :
    (now i k : ℕ) (objects : Objects) (o : Result)
    → (k == i) ≡ true
    → o.0 i ≡ rearm now (objects i)
    → Handled now i
        (objects i)
        (o.0, (o.1.0, record { req = k; first_send = not (objects k).active } ∷ o.1.1))
unfolding contains reqs
Handled-first now i k objects o same again = inr (
  rw same refl,
  inr (
    again,
    subst
        (λ j.
          HasDue i (not (objects i).active)
            (record { req = j; first_send = not (objects j).active } ∷ o.1.1))
        (sym ((==_iff k i).0 same)) (here o.1.1),
  ),
)

collect-Handled :
    (fuel now : ℕ) (objects : Objects) (heap : List ℕ) (i : ℕ)
    → length heap ≤ fuel
    → contains heap i ≡ true
    → Handled now i (objects i) (collect fuel now objects heap)
unfolding collect reqs
collect-Handled zero now objects [] i enough h = absurd (ground (arith, contains-nil i))
collect-Handled zero now objects (j ∷ js) i enough h = absurd (omega arith)
collect-Handled (suc fuel) now objects [] i enough h = absurd (ground (arith, contains-nil i))
collect-Handled (suc fuel) now objects (j ∷ js) i enough h =
    let t = pop_top objects j js in
    let r = objects t.0 in
    let next = if r.completed then objects else update objects t.0 (rearm now r) in
    let o = collect fuel now next t.1 in
    let member = contains-cons t.0 i t.1 (contains-pop_top objects js j i ∙ h) in
    let ih : (contains t.1 i ≡ true → Handled now i (next i) o) = λ later.
      collect-Handled fuel now next t.1 i (omega (arith, length-pop_top objects js j)) later in
    let step = λ (b : Bool). (if b then objects else update objects t.0 (rearm now r)) i in
    if_cases (Handled now i (objects i)) r.completed _ _
      (λ gone. elim member [
        | inl same ↦ inl (subst (λ k. (objects k).completed ≡ true) ((==_iff t.0 i).0 same) gone)
        | inr later ↦ subst (λ v. Handled now i v o) (ap step gone) (ih later)
      ])
      (λ live.
        if_cases (Handled now i (objects i)) (ltb now r.expiry) (objects, (j ∷ js, [])) _
          (λ early.
            inr
              (h, inl (refl, omega (arith, ltb→lt now r.expiry early, top_below objects js j i h))))
          (λ late. elim (Bool-cases (t.0 == i)) [
            | inl same ↦ Handled-first now i t.0 objects o same (
                rearmed_again now i (objects i) o (
                  subst (λ v. Kept now i v o) (ap step live ∙ rearmed-here now objects t.0 i same)
                    (collect-Kept fuel now next t.1 i)))
            | inr other ↦ Handled-cons now i t.0 (not r.active) (objects i) o (
                subst (λ v. Handled now i v o)
                  (ap step live ∙ update-there objects t.0 i (rearm now r) other)
                  (ih (elim member [ inl same ↦ absurd (ground arith) | inr later ↦ later ])))
          ]))

-- The same of the client, of which only the objects and the heap have changed.
abbrev pub Collected : ℕ → ℕ → Client → Client × List Due → Type 0
Collected now i c p =
    (((c.objects i).completed ≡ true)
      ⊎ ((contains p.0.timer_heap i ≡ true)
          × (((p.0.objects i ≡ c.objects i) × (now < (c.objects i).expiry))
              ⊎ ((p.0.objects i ≡ rearm now (c.objects i))
                  × HasDue i (not (c.objects i).active) p.1))))
    × ((objects : Objects) × (heap : List ℕ) × (p.0
          ≡ record c { objects = objects; timer_heap = heap }))

-- What a round has done, up to the sending.
pub collect_due-HasDue :
    (now i : ℕ) (c d : Client) (due : List Due)
    → contains c.timer_heap i ≡ true
    → collect_due now c ≡ some (d, due)
    → Collected now i c (d, due)
unfolding collect_due
collect_due-HasDue now i c d due h e =
    let r = collect (length c.timer_heap) now c.objects c.timer_heap in
    let all = collect-Handled (length c.timer_heap) now c.objects c.timer_heap i (omega arith) h in
    if_cases (λ o. o ≡ some (d, due) → Collected now i c (d, due)) c.stop_timer _ _
      (λ ends q. absurd (none-ne-some _ q))
      (λ goes_on q.
        subst (Collected now i c) (some-injective _ _ q) (all, (r.0, reqs r.1.1 ++ r.1.0, refl)))
      e
