-- ===== src/Server/Events.antt =====
-- The events that gRPC gives to the objects that serve calls, and the objects after each of them
-- (`HandleRpcs` of src/paxos_node.cpp, src/call_data.cpp).
use multi_paxos_distributed.Prelude.{
  ℕ, ◌+◌, ◌≡◌, refl, sym, ◌∙◌, subst, arith, ◌==◌, ◌&&◌, ◌++◌, true, false, Option, none, some,
  List, [], ◌∷◌, if◌then◌else◌,
}
use multi_paxos_distributed.Server.{
  process, finish, Kind, prepare, accept, commit, new_view, send_client_request, submit_transaction,
  receive_accept_ack, heartbeat, alive_update, get_node_info, move_on, two_pc, client_reply, Call,
  Reaction, first_status, construct, proceed, respond,
}
use multi_paxos_distributed.Server.Phase.{
  answers_later, Phase, waits_for_request, is_handled, is_answered, Served, on_request, on_finish,
}

abbrev number : Kind → ℕ
number prepare = 0
number accept = 1
number commit = 2
number new_view = 3
number send_client_request = 4
number submit_transaction = 5
number receive_accept_ack = 6
number heartbeat = 7
number alive_update = 8
number get_node_info = 9
number move_on = 10
number two_pc = 11
number client_reply = 12

abbrev waits : Kind → Call → ℕ
waits k c = if c.requested && (number c.kind == number k) then 1 else 0

-- The number of objects of the class that wait for a request.
abbrev pub waiting : Kind → List Call → ℕ
waiting k [] = 0
waiting k (c ∷ cs) = waits k c + waiting k cs

abbrev kept : Option Call → List Call
kept none = []
kept (some c) = c ∷ []

-- The objects after the reaction of one of them.
abbrev react : List Call → List Call → Reaction → List Call
react before after r = before ++ (kept r.object ++ (after ++ r.spawned))

-- An event of gRPC reaches an object, and the node responds to a request that it kept.
pub data Step : List Call → List Call → Type 0 where
  request :
      (before after : List Call) (c : Call)
      → c.requested ≡ true
      → Step (before ++ c ∷ after) (react before after (proceed c.kind c.status))
  responds :
      (before after : List Call) (c : Call)
      → answers_later c.kind ≡ true
      → c.status ≡ process
      → c.requested ≡ false
      → Step (before ++ c ∷ after) (before ++ respond c ∷ after)
  finished :
      (before after : List Call) (c : Call)
      → c.finishing ≡ true
      → Step (before ++ c ∷ after) (react before after (proceed c.kind c.status))

pub data Steps : List Call → List Call → Type 0 where
  start : (cs : List Call) → Steps cs cs
  next : {cs ds es : List Call} → Steps cs ds → Step ds es → Steps cs es

pub waiting-append :
    (k : Kind) (cs ds : List Call) → waiting k (cs ++ ds) ≡ waiting k cs + waiting k ds
waiting-append k [] ds = omega arith
waiting-append k (c ∷ cs) ds = omega (arith, waiting-append k cs ds)

abbrev pub AllPhase : List Call → Type 0
AllPhase [] = Unit {0}
AllPhase (c ∷ cs) = Phase c × AllPhase cs

join : (cs ds : List Call) → AllPhase cs → AllPhase ds → AllPhase (cs ++ ds)
join [] ds h k = k
join (c ∷ cs) ds h k = (h.0, join cs ds h.1 k)

split : (cs ds : List Call) → AllPhase (cs ++ ds) → AllPhase cs × AllPhase ds
split [] ds h = (tt, h)
split (c ∷ cs) ds h = let r = split cs ds h.1 in ((h.0, r.0), r.1)

-- Objects in their phases, as many of each class waiting as before.
abbrev pub Serves : List Call → List Call → Type 0
Serves cs ds = AllPhase ds × ((k : Kind) → waiting k ds ≡ waiting k cs)

not-waits : (k : Kind) (c : Call) → c.requested ≡ false → waits k c ≡ 0
not-waits k c h = rw h refl

react-Serves :
    (k : Kind) (before after : List Call) (r : Reaction)
    → AllPhase before
    → AllPhase after
    → Served k r
    → Serves (before ++ construct k ∷ after) (react before after r)
unfolding construct
react-Serves k before after r b a (c, (phase, (busy, e))) =
    subst (λ r. Serves (before ++ construct k ∷ after) (react before after r)) (sym e)
      (
        join before _ b (phase, join after _ a (waits_for_request k, tt)),
        λ j.
            let one = waiting-append j before (c ∷ (after ++ construct k ∷ [])) in
            let two = waiting-append j after (construct k ∷ []) in
            let was = waiting-append j before (construct k ∷ after) in
            omega (arith, one, two, was, not-waits j c busy),
      )

finish-Serves :
    (k : Kind) (before after : List Call) (c : Call)
    → AllPhase before
    → AllPhase after
    → c.requested ≡ false
    → Serves (before ++ c ∷ after) (react before after (proceed k finish))
finish-Serves k before after c b a busy =
    subst (λ r. Serves (before ++ c ∷ after) (react before after r)) (sym (on_finish k))
      (
        join before _ b (join after [] a tt),
        λ j.
            let one = waiting-append j before (after ++ []) in
            let two = waiting-append j after [] in
            let was = waiting-append j before (c ∷ after) in
            omega (arith, one, two, was, not-waits j c busy),
      )

request-Serves :
    (before after : List Call) (c : Call)
    → Phase c
    → AllPhase before
    → AllPhase after
    → c.requested ≡ true
    → Serves (before ++ c ∷ after) (react before after (proceed c.kind c.status))
unfolding construct
request-Serves before after c (waits_for_request k) b a h =
    react-Serves k before after (proceed k (first_status k)) b a (on_request k)
request-Serves before after c (is_handled k later) b a h = absurd (cc)
request-Serves before after c (is_answered k) b a h = absurd (cc)

finished-Serves :
    (before after : List Call) (c : Call)
    → Phase c
    → AllPhase before
    → AllPhase after
    → c.finishing ≡ true
    → Serves (before ++ c ∷ after) (react before after (proceed c.kind c.status))
finished-Serves before after c (waits_for_request k) b a h = absurd (cc)
finished-Serves before after c (is_handled k later) b a h = absurd (cc)
finished-Serves before after c (is_answered k) b a h = finish-Serves k before after _ b a refl

responds-Serves :
    (before after : List Call) (c : Call)
    → Phase c
    → AllPhase before
    → AllPhase after
    → c.requested ≡ false
    → Serves (before ++ c ∷ after) (before ++ respond c ∷ after)
unfolding respond
responds-Serves before after c (waits_for_request k) b a h = absurd (cc)
responds-Serves before after c (is_handled k later) b a h =
    (join before _ b (is_answered k, a), λ j. omega (arith, waiting-append j before (_ ∷ after)))
responds-Serves before after c (is_answered k) b a h =
    (join before _ b (is_answered k, a), λ j. refl)

Step-Serves : {cs ds : List Call} → Step cs ds → AllPhase cs → Serves cs ds
Step-Serves (request before after c h) all =
    let parts = split before (c ∷ after) all in
    request-Serves before after c parts.1.0 parts.0 parts.1.1 h
Step-Serves (responds before after c later status h) all =
    let parts = split before (c ∷ after) all in
    responds-Serves before after c parts.1.0 parts.0 parts.1.1 h
Step-Serves (finished before after c h) all =
    let parts = split before (c ∷ after) all in
    finished-Serves before after c parts.1.0 parts.0 parts.1.1 h

pub Steps-Serves : {cs ds : List Call} → Steps cs ds → AllPhase cs → Serves cs ds
Steps-Serves (start cs) all = (all, λ k. refl)
Steps-Serves (next run step) all =
    let before = Steps-Serves run all in
    let after = Step-Serves step before.0 in (after.0, λ k. after.1 k ∙ before.1 k)
