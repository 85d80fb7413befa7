-- ===== src/Client/Count.antt =====
-- `remaining_transactions` and `inflight_` (src/paxos_client.cpp): the launcher waits until the
-- count is 0.
use multi_paxos_distributed.Prelude.{
  ℕ, suc, ◌≡◌, inl, inr, refl, sym, ap, subst, ◌∙◌, false, Option, none, some, Bool-cases, List, [],
  ◌∷◌, ◌==◌, if_cases, ==_iff, length, contains, Distinct, arith, int_laws, if_keeps, bind_some,
  some-injective, none-ne-some, pos, ◌||◌,
}
use multi_paxos_distributed.Prelude.Map.{Map, find, erase, keys}
use multi_paxos_distributed.Account.{stoi}
use multi_paxos_distributed.Message.{ClientRequest}
use multi_paxos_distributed.Launch.Shards.{assign}
use multi_paxos_distributed.Client.{
  Client, complete, submit, send_request, set_leader, answer, handle_leader_reply,
  stop_timer_thread, complete_inflight, complete_heap, handle_move_on, reset_leaders_per_cluster,
}
use multi_paxos_distributed.Client.Calls.{
  Due, collect_due, send_one, send_to_leader, broadcast_request,
}

contains-assign :
    (k v j : ℕ) (m : Map ℕ) → contains (keys (assign k v m)) j ≡ k == j || contains (keys m) j
unfolding contains assign
contains-assign k v j [] = refl
contains-assign k v j ((i, w) ∷ m) = ground (arith, contains-assign k v j m)

assign-Distinct : (k v : ℕ) (m : Map ℕ) → Distinct (keys m) → Distinct (keys (assign k v m))
unfolding assign contains
assign-Distinct k v [] h = (refl, tt)
assign-Distinct k v ((i, w) ∷ m) h = elim (Bool-cases (i == k)) [
  | inl same ↦
      rw same
        (subst (λ x. (contains (keys m) x ≡ false) × Distinct (keys m)) ((==_iff i k).0 same) h)
  | inr other ↦
      rw other (ground (arith, contains-assign k v i m, h.0, other), assign-Distinct k v m h.1)
]

length-assign : (k v : ℕ) (m : Map ℕ) → find k m ≡ none → length (assign k v m) ≡ suc (length m)
unfolding assign find
length-assign k v [] h = refl
length-assign k v ((i, w) ∷ m) h = elim (Bool-cases (i == k)) [
  | inl same ↦ absurd (ground (arith, h, same))
  | inr other ↦ rw other (ap suc (length-assign k v m (ground (arith, h, other))))
]

contains-erase :
    (k j : ℕ) (m : Map ℕ) → contains (keys m) j ≡ false → contains (keys (erase k m)) j ≡ false
unfolding contains erase
contains-erase k j [] h = refl
contains-erase k j ((i, w) ∷ m) h = ground (arith, contains-erase k j m)

erase-Distinct : (k : ℕ) (m : Map ℕ) → Distinct (keys m) → Distinct (keys (erase k m))
unfolding erase
erase-Distinct k [] h = tt
erase-Distinct k ((i, w) ∷ m) h =
    if_cases (λ (n : Map ℕ). Distinct (keys n)) (i == k) _ _ (λ gone. erase-Distinct k m h.1)
      (λ stays. (contains-erase k i m h.0, erase-Distinct k m h.1))

erase-absent : (k : ℕ) (m : Map ℕ) → contains (keys m) k ≡ false → erase k m ≡ m
unfolding erase contains
erase-absent k [] h = refl
erase-absent k ((i, w) ∷ m) h = elim (Bool-cases (i == k)) [
  | inl same ↦ absurd (ground (arith, h, same))
  | inr other ↦ rw other (ap (◌∷◌ (i, w)) (erase-absent k m (ground (arith, h, other))))
]

length-erase :
    (k v : ℕ) (m : Map ℕ)
    → Distinct (keys m)
    → find k m ≡ some v
    → suc (length (erase k m)) ≡ length m
unfolding erase find
length-erase k v [] d h = absurd (cc)
length-erase k v ((i, w) ∷ m) d h = elim (Bool-cases (i == k)) [
  | inl same ↦ rw same (
      ap (λ m. suc (length m))
        (erase-absent k m (subst (λ x. contains (keys m) x ≡ false) ((==_iff i k).0 same) d.0)))
  | inr other ↦ rw other (ap suc (length-erase k v m d.1 (ground (arith, h, other))))
]

-- The state in which the launcher counts the requests in flight.
pub record IsCounted (c : Client) : Type 0 where
  pub counted : c.remaining ≡ pos (length c.inflight)
  pub distinct : Distinct (keys c.inflight)

pub submit-IsCounted :
    (now : ℕ) (request : ClientRequest) (c : Client)
    → find request.timestamp c.inflight ≡ none
    → IsCounted c
    → IsCounted (submit now request c)
unfolding submit send_request
submit-IsCounted now request c fresh h =
    let size = length-assign request.timestamp c.created c.inflight fresh in
    record {
      counted = rw h.counted (omega (int_laws, size));
      distinct = assign-Distinct request.timestamp c.created c.inflight h.distinct;
    }

answer-IsCounted :
    (found : Option ℕ) (timestamp leader : ℕ) (c : Client)
    → find timestamp c.inflight ≡ found
    → IsCounted c
    → IsCounted (answer found timestamp leader c)
unfolding answer complete set_leader
answer-IsCounted none timestamp leader c e h = record { counted = h.counted; distinct = h.distinct }
answer-IsCounted (some i) timestamp leader c e h =
    let size = length-erase timestamp i c.inflight h.distinct e in
    record {
      counted = rw h.counted (omega (int_laws, size));
      distinct = erase-Distinct timestamp c.inflight h.distinct;
    }

-- What `complete` leaves as it is.
complete_inflight-remaining :
    (m : Map ℕ) (c : Client) → (complete_inflight m c).remaining ≡ c.remaining
unfolding complete_inflight complete
complete_inflight-remaining [] c = refl
complete_inflight-remaining ((k, i) ∷ m) c = complete_inflight-remaining m (complete i c)

complete_heap-remaining :
    (heap : List ℕ) (c : Client) → (complete_heap heap c).remaining ≡ c.remaining
unfolding complete_heap complete
complete_heap-remaining [] c = refl
complete_heap-remaining (i ∷ heap) c = complete_heap-remaining heap (complete i c)

pub move_on-IsCounted : (c : Client) → IsCounted c → IsCounted (handle_move_on c)
unfolding handle_move_on
move_on-IsCounted c h =
    let same =
      complete_heap-remaining c.timer_heap (complete_inflight c.inflight c)
      ∙ complete_inflight-remaining c.inflight c
      ∙ h.counted in
    record { counted = rw same (omega int_laws); distinct = tt }

-- Two states with the same requests in flight and the same count.
abbrev pub Same : Client → Client → Type 0
Same c d = (d.remaining ≡ c.remaining) × (d.inflight ≡ c.inflight)

pub Same-IsCounted : (c d : Client) → Same c d → IsCounted c → IsCounted d
Same-IsCounted c d e h = record {
  counted = e.0 ∙ h.counted ∙ ap (λ m. pos (length m)) (sym e.1);
  distinct = subst (λ m. Distinct (keys m)) (sym e.1) h.distinct;
}

pub collect_due-Same :
    (now : ℕ) (c d : Client) (due : List Due) → collect_due now c ≡ some (d, due) → Same c d
unfolding collect_due
collect_due-Same now c d due e =
    if_cases (λ o. o ≡ some (d, due) → Same c d) c.stop_timer _ _
      (λ ends q. absurd (none-ne-some _ q))
      (λ goes_on q. subst (λ p. Same c p.0) (some-injective _ _ q) (refl, refl)) e

send_to_leader-Same : (r : ClientRequest) (c d : Client) → send_to_leader r c ≡ some d → Same c d
unfolding send_to_leader
send_to_leader-Same r c d e =
    let sent = bind_some (stoi r.from_account) _ d e in
    if_keeps (λ o. o ≡ some d → Same c d)
      (contains c.nodes (c.leader_per_cluster (c.sharding_map sent.0))) _ _
      (λ q. subst (Same c) (some-injective _ _ q) (refl, refl))
      (λ q. subst (Same c) (some-injective _ _ q) (refl, refl)) sent.1.1

broadcast_request-Same :
    (r : ClientRequest) (c d : Client) → broadcast_request r c ≡ some d → Same c d
unfolding broadcast_request
broadcast_request-Same r c d e =
    let sent = bind_some (stoi r.from_account) _ d e in
    subst (Same c) (some-injective _ _ sent.1.1) (refl, refl)

pub send_one-Same : (due : Due) (c d : Client) → send_one due c ≡ some d → Same c d
unfolding send_one
send_one-Same due c d e =
    let r = c.objects due.req in
    if_keeps (λ o. o ≡ some d → Same c d) r.completed _ _
      (λ q. subst (Same c) (some-injective _ _ q) (refl, refl))
      (if_keeps (λ o. o ≡ some d → Same c d) due.first_send _ _ (send_to_leader-Same r.request c d)
        (broadcast_request-Same r.request c d))
      e

-- The steps of the threads of the client, and those of the launcher on it. A submitted timestamp is
-- new.
pub data Step : Client → Client → Type 0 where
  submitted :
      (now : ℕ) (request : ClientRequest) (c : Client)
      → find request.timestamp c.inflight ≡ none
      → Step c (submit now request c)
  answered : (timestamp leader : ℕ) (c : Client) → Step c (handle_leader_reply timestamp leader c)
  moved_on : (c : Client) → Step c (handle_move_on c)
  collected :
      (now : ℕ) (c d : Client) (due : List Due) → collect_due now c ≡ some (d, due) → Step c d
  sent_one : (due : Due) (c d : Client) → send_one due c ≡ some d → Step c d
  reset : (c : Client) → Step c (reset_leaders_per_cluster c)
  stopped : (c : Client) → Step c (stop_timer_thread c)

pub data Steps : Client → Client → Type 0 where
  start : (c : Client) → Steps c c
  next : {c d e : Client} → Steps c d → Step d e → Steps c e

pub Step-IsCounted : {c d : Client} → Step c d → IsCounted c → IsCounted d
unfolding reset_leaders_per_cluster stop_timer_thread handle_leader_reply
Step-IsCounted (submitted now request c fresh) h = submit-IsCounted now request c fresh h
Step-IsCounted (answered timestamp leader c) h =
    answer-IsCounted (find timestamp c.inflight) timestamp leader c refl h
Step-IsCounted (moved_on c) h = move_on-IsCounted c h
Step-IsCounted (collected now c d due e) h = Same-IsCounted c d (collect_due-Same now c d due e) h
Step-IsCounted (sent_one due c d e) h = Same-IsCounted c d (send_one-Same due c d e) h
Step-IsCounted (reset c) h = record { counted = h.counted; distinct = h.distinct }
Step-IsCounted (stopped c) h = record { counted = h.counted; distinct = h.distinct }

-- Through all steps of the client, in any order, a reply that comes twice among them,
-- `remaining_transactions` is the number of requests in flight, each of which has a timestamp of its own.
Steps-IsCounted : {c d : Client} → Steps c d → IsCounted c → IsCounted d
Steps-IsCounted (start c) h = h
Steps-IsCounted (next run step) h = Step-IsCounted step (Steps-IsCounted run h)
