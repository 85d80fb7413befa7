-- ===== src/Client/Round.antt =====
-- A whole round of `TimerLoop` (src/paxos_client.cpp): what is due is sent.
use mathlib.Core.List.{append_assoc, append-nil}
use multi_paxos_distributed.Prelude.{
  ℕ, ◌+◌, ◌<◌, ◌≡◌, inl, inr, refl, sym, ap, subst, ◌∙◌, Bool, true, false, not, some, List, [],
  ◌∷◌, ◌++◌, contains, if◌then◌else◌, if_cases, Bool-cases, bind_some, some-injective,
}
use multi_paxos_distributed.Account.{stoi}
use multi_paxos_distributed.Message.{ClientRequest}
use multi_paxos_distributed.Client.{Client, PendingRequest, Sent, retry_interval}
use multi_paxos_distributed.Client.Calls.{
  Due, rearm, collect_due, send_to_leader, broadcast_request, broadcast_nodes, to_each, send_one,
  send_due,
}
use multi_paxos_distributed.Client.Timer.{HasDue, here, there, collect_due-HasDue}

-- What is sent for a request of `account`: to the leader of its cluster the first time, if that is a
-- node, and to all nodes of its cluster afterwards.
abbrev pub calls : Bool → ℕ → ClientRequest → Client → List Sent
calls true account r c =
    let leader = c.leader_per_cluster (c.sharding_map account) in
    if contains c.nodes leader then record { node = leader; message = r } ∷ [] else []
calls false account r c = to_each r (broadcast_nodes (c.sharding_map account) c)

-- The calls for the request are among those that the client has sent between `c` and `e`.
pub record IsSent (first : Bool) (r : ClientRequest) (c e : Client) : Type 0 where
  pub account : ℕ
  pub reads : stoi r.from_account ≡ some account
  pub before : List Sent
  pub after : List Sent
  pub sends : e.sent ≡ c.sent ++ (before ++ (calls first account r c ++ after))

abbrev with_sent : Client → List Sent → Client
with_sent c more = record c { sent = c.sent ++ more }

module _ (r : ClientRequest) (c e : Client) where
  send_to_leader-calls :
      send_to_leader r c ≡ some e
      → (account : ℕ) × (stoi r.from_account ≡ some account)
        × (e ≡ with_sent c (calls true account r c))
  unfolding send_to_leader
  send_to_leader-calls run =
      let (account, (reads, more)) = bind_some (stoi r.from_account) _ e run in
      let leader = c.leader_per_cluster (c.sharding_map account) in
      (
        account,
        reads,
        if_cases (λ o. o ≡ some e → e ≡ with_sent c (calls true account r c))
            (contains c.nodes leader) _ _ (λ known q. sym (some-injective _ _ q) ∙ rw known refl)
            (λ unknown q. sym (some-injective _ _ q) ∙ rw (unknown, append-nil c.sent) refl) more,
      )

  broadcast_request-calls :
      broadcast_request r c ≡ some e
      → (account : ℕ) × (stoi r.from_account ≡ some account)
        × (e ≡ with_sent c (calls false account r c))
  unfolding broadcast_request
  broadcast_request-calls run =
      let (account, (reads, more)) = bind_some (stoi r.from_account) _ e run in
      (account, reads, sym (some-injective _ _ more))

calls-with_sent :
    (first : Bool) (account : ℕ) (r : ClientRequest) (c : Client) (more : List Sent)
    → calls first account r (with_sent c more) ≡ calls first account r c
unfolding broadcast_nodes
calls-with_sent true account r c more = refl
calls-with_sent false account r c more = refl

send_one-calls :
    (first : Bool) (i : ℕ) (c e : Client)
    → (c.objects i).completed ≡ false
    → send_one (record { req = i; first_send = first }) c ≡ some e
    → (account : ℕ) × (stoi (c.objects i).request.from_account ≡ some account)
      × (e ≡ with_sent c (calls first account (c.objects i).request c))
unfolding send_one
send_one-calls true i c e live run =
    send_to_leader-calls (c.objects i).request c e
      (sym (ap (λ b. if b then some c else send_to_leader (c.objects i).request c) live) ∙ run)
send_one-calls false i c e live run =
    broadcast_request-calls (c.objects i).request c e
      (sym (ap (λ b. if b then some c else broadcast_request (c.objects i).request c) live) ∙ run)

send_one-grows :
    (d : Due) (c e : Client) → send_one d c ≡ some e → (more : List Sent) × (e ≡ with_sent c more)
unfolding send_one
send_one-grows d c e run = elim (Bool-cases (c.objects d.req).completed) [
  | inl gone ↦ (
    [],
    sym (
          some-injective _ _ (
            sym (
              ap
                (λ b.
                  if b
                  then some c
                  else (if d.first_send
                      then send_to_leader (c.objects d.req).request c
                      else broadcast_request (c.objects d.req).request c))
                gone)
            ∙ run))
        ∙ rw (append-nil c.sent) refl,
  )
  | inr live ↦
      let (account, reads, same) = send_one-calls d.first_send d.req c e live run in
      (calls d.first_send account (c.objects d.req).request c, same)
]

send_due-grows :
    (ds : List Due) (c e : Client)
    → send_due ds c ≡ some e
    → (more : List Sent) × (e ≡ with_sent c more)
unfolding send_due
send_due-grows [] c e run = ([], sym (some-injective _ _ run) ∙ rw (append-nil c.sent) refl)
send_due-grows (d ∷ ds) c e run =
    let (c₁, (first, rest)) = bind_some (send_one d c) (send_due ds) e run in
    let (more, grown) = send_one-grows d c c₁ first in
    let (others, last) = send_due-grows ds c₁ e rest in
    (
      more ++ others,
      last ∙ ap (λ x. with_sent x others) grown ∙ rw (append_assoc c.sent more others) refl,
    )

send_due-IsSent :
    (first : Bool) (i : ℕ) (ds : List Due) (c e : Client)
    → HasDue i first ds
    → (c.objects i).completed ≡ false
    → send_due ds c ≡ some e
    → IsSent first (c.objects i).request c e
unfolding send_due
send_due-IsSent first i _ c e (here ds) live run =
    let (c₁, (sent, rest)) =
      bind_some (send_one (record { req = i; first_send = first }) c) (send_due ds) e run in
    let (account, reads, same) = send_one-calls first i c c₁ live sent in
    let (more, grown) = send_due-grows ds c₁ e rest in
    record {
      account = account;
      reads = reads;
      before = [];
      after = more;
      sends =
          ap (λ (x : Client). x.sent) (grown ∙ ap (λ x. with_sent x more) same)
          ∙ append_assoc c.sent (calls first account (c.objects i).request c) more;
    }
send_due-IsSent first i _ c e (there {ds} d has) live run =
    let (c₁, (sent, rest)) = bind_some (send_one d c) (send_due ds) e run in
    let (more, grown) = send_one-grows d c c₁ sent in
    let ih =
      send_due-IsSent first i ds (with_sent c more) e has live
        (subst (λ x. send_due ds x ≡ some e) grown rest) in
    record {
      account = ih.account;
      reads = ih.reads;
      before = more ++ ih.before;
      after = ih.after;
      sends =
          ih.sends
          ∙ ap (λ l. c.sent ++ more ++ (ih.before ++ (l ++ ih.after)))
              (calls-with_sent first ih.account (c.objects i).request c more)
          ∙ cc (
            append_assoc c.sent more
                (ih.before ++ (calls first ih.account (c.objects i).request c ++ ih.after)),
            append_assoc more ih.before
                (calls first ih.account (c.objects i).request c ++ ih.after),
          );
    }

-- What a round that does not end the thread leaves of a request of the heap that is not completed.
pub data RoundOutcome (now i : ℕ) (c e : Client) : Type 0 where
  early : e.objects i ≡ c.objects i → now < (c.objects i).expiry → RoundOutcome now i c e
  sent :
      e.objects i ≡ record (c.objects i) { active = true; expiry = now + retry_interval }
      → IsSent (not (c.objects i).active) (c.objects i).request c e
      → RoundOutcome now i c e

calls-collected :
    (first : Bool) (account : ℕ) (r : ClientRequest) (c : Client) (objects : ℕ → PendingRequest)
    (heap : List ℕ)
    → calls first account r (record c { objects = objects; timer_heap = heap })
      ≡ calls first account r c
unfolding broadcast_nodes
calls-collected true account r c objects heap = refl
calls-collected false account r c objects heap = refl

IsSent-collected :
    (first : Bool) (r : ClientRequest) (c e : Client) (objects : ℕ → PendingRequest) (heap : List ℕ)
    → IsSent first r (record c { objects = objects; timer_heap = heap }) e
    → IsSent first r c e
IsSent-collected first r c e objects heap h = record {
  account = h.account;
  reads = h.reads;
  before = h.before;
  after = h.after;
  sends =
      h.sends
      ∙ ap (λ l. c.sent ++ (h.before ++ (l ++ h.after)))
          (calls-collected first h.account r c objects heap);
}

sent-RoundOutcome :
    (now i : ℕ) (c d e : Client) (due : List Due)
    → (objects : ℕ → PendingRequest) × (heap : List ℕ) × (d
        ≡ record c { objects = objects; timer_heap = heap })
    → (c.objects i).completed ≡ false
    → d.objects i ≡ rearm now (c.objects i)
    → HasDue i (not (c.objects i).active) due
    → send_due due d ≡ some e
    → RoundOutcome now i c e
unfolding rearm
sent-RoundOutcome now i c d e due (objects, heap, same) live again has run =
    let first = not (c.objects i).active in
    let (more, grown) = send_due-grows due d e run in
    let out =
      send_due-IsSent first i due d e has (ap (λ (p : PendingRequest). p.completed) again ∙ live)
        run in
    let asked =
      subst (λ r. IsSent first r d e) (ap (λ (p : PendingRequest). p.request) again) out in
    sent (ap (λ (x : Client). x.objects i) grown ∙ again) (
      IsSent-collected first (c.objects i).request c e objects heap
        (subst (λ x. IsSent first (c.objects i).request x e) same asked))

-- A round of the timer thread that does not end it, at the time `now`, in which no account fails to be
-- read and no reply comes: a request of the heap, unless it has been completed, is still in the heap
-- afterwards. If its time has not come it is as it was, with that time after `now`. Else it is armed
-- again, its time is `retry_interval` after `now`, and it is sent in this round: the first time to the
-- leader that the client knows of the cluster of its sender, if that is a node, and later to all nodes of
-- that cluster.
pub send_due-RoundOutcome :
    (now i : ℕ) (c d e : Client) (due : List Due)
    → contains c.timer_heap i ≡ true
    → (c.objects i).completed ≡ false
    → collect_due now c ≡ some (d, due)
    → send_due due d ≡ some e
    → (contains e.timer_heap i ≡ true) × RoundOutcome now i c e
send_due-RoundOutcome now i c d e due h live round run =
    let (all, changed) = collect_due-HasDue now i c d due h round in
    let (more, grown) = send_due-grows due d e run in
    elim all [
      | inl gone ↦ absurd (cc (gone, live))
      | inr kept ↦ (
        ap (λ (x : Client). contains x.timer_heap i) grown ∙ kept.0,
        elim kept.1 [
          | inl waits ↦ early (ap (λ (x : Client). x.objects i) grown ∙ waits.0) waits.1
          | inr due_now ↦ sent-RoundOutcome now i c d e due changed live due_now.0 due_now.1 run
        ],
      )
    ]
