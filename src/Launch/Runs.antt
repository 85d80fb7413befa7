-- ===== src/Launch/Runs.antt =====
-- `main` (src/node_launch.cpp) and the threads of the client (src/paxos_client.cpp): the timestamps of
-- the requests, `remaining_transactions`, and what the waits of `main` wait for.
use multi_paxos_distributed.Prelude.{
  ℕ, ◌+◌, ◌<◌, ◌≡◌, refl, sym, subst, Option, none, some, List, [], ◌∷◌, ◌==◌, if_keeps, arith,
}
use multi_paxos_distributed.Prelude.Map.{Map, find, erase}
use multi_paxos_distributed.Launch.Shards.{assign}
use multi_paxos_distributed.Launch.Main.{Boost, Launcher, advance}
use multi_paxos_distributed.Client.{
  Client, set_leader, complete, answer, handle_leader_reply, handle_move_on, stop_timer_thread,
}
use multi_paxos_distributed.Client.Calls.{Due, collect_due, send_one}
use multi_paxos_distributed.Client.Count
use multi_paxos_distributed.Client.Count.{
  IsCounted, Step-IsCounted, submit-IsCounted, Same, Same-IsCounted, collect_due-Same,
  send_one-Same,
}

-- A step of a thread of the client.
pub data Event : Client → Client → Type 0 where
  answered : (timestamp leader : ℕ) (c : Client) → Event c (handle_leader_reply timestamp leader c)
  moved_on : (c : Client) → Event c (handle_move_on c)
  collected :
      (now : ℕ) (c d : Client) (due : List Due) → collect_due now c ≡ some (d, due) → Event c d
  sent_one : (due : Due) (c d : Client) → send_one due c ≡ some d → Event c d
  stopped : (c : Client) → Event c (stop_timer_thread c)

-- A step of `main`, or of the client.
pub data Step (boost : Boost) : Launcher → Launcher → Type 0 where
  main : (now : ℕ) (l l' : Launcher) → advance boost now l ≡ some l' → Step boost l l'
  client : (l : Launcher) (d : Client) → Event l.client d → Step boost l (record l { client = d })

pub data Steps (boost : Boost) : Launcher → Launcher → Type 0 where
  start : (l : Launcher) → Steps boost l l
  next : {l l' l'' : Launcher} → Steps boost l l' → Step boost l' l'' → Steps boost l l''

-- Every key is below `n`.
abbrev pub Below : ℕ → Map ℕ → Type 0
Below n [] = Unit {0}
Below n ((k, v) ∷ m) = (k < n) × Below n m

-- The requests in flight are counted, and have timestamps of their own, below the next one.
pub record IsFresh (l : Launcher) : Type 0 where
  pub counted : IsCounted l.client
  pub below : Below l.num l.client.inflight

pub find-Below : (n : ℕ) (m : Map ℕ) → Below n m → find n m ≡ none
unfolding find
find-Below n [] h = refl
find-Below n ((k, v) ∷ m) h = ground (arith, h.0, find-Below n m h.1)

Below-mono : (n : ℕ) (m : Map ℕ) → Below n m → Below (n + 1) m
Below-mono n [] h = tt
Below-mono n ((k, v) ∷ m) h = (omega (arith, h.0), Below-mono n m h.1)

pub Below-assign : (n i : ℕ) (m : Map ℕ) → Below n m → Below (n + 1) (assign n i m)
unfolding assign
Below-assign n i [] h = (omega arith, tt)
Below-assign n i ((k, v) ∷ m) h =
    if_keeps (Below (n + 1)) (k == n) ((n, i) ∷ m) ((k, v) ∷ assign n i m)
      (omega arith, Below-mono n m h.1) (omega (arith, h.0), Below-assign n i m h.1)

Below-erase : (n k : ℕ) (m : Map ℕ) → Below n m → Below n (erase k m)
unfolding erase
Below-erase n k [] h = tt
Below-erase n k ((j, v) ∷ m) h =
    if_keeps (Below n) (j == k) (erase k m) ((j, v) ∷ erase k m) (Below-erase n k m h.1)
      (h.0, Below-erase n k m h.1)

answer-Below :
    (n : ℕ) (found : Option ℕ) (timestamp leader : ℕ) (c : Client)
    → Below n c.inflight
    → Below n (answer found timestamp leader c).inflight
unfolding answer complete set_leader
answer-Below n none timestamp leader c h = h
answer-Below n (some i) timestamp leader c h = Below-erase n timestamp c.inflight h

-- A step of the client.
pub Event-Step : {c d : Client} → Event c d → Count.Step c d
Event-Step (answered timestamp leader c) = Count.Step.answered timestamp leader c
Event-Step (moved_on c) = Count.Step.moved_on c
Event-Step (collected now c d due e) = Count.Step.collected now c d due e
Event-Step (sent_one due c d e) = Count.Step.sent_one due c d e
Event-Step (stopped c) = Count.Step.stopped c

pub Event-Below : {c d : Client} (n : ℕ) → Event c d → Below n c.inflight → Below n d.inflight
unfolding handle_leader_reply handle_move_on stop_timer_thread
Event-Below n (answered timestamp leader c) h =
    answer-Below n (find timestamp c.inflight) timestamp leader c h
Event-Below n (moved_on c) h = tt
Event-Below n (collected now c d due e) h =
    subst (Below n) (sym (collect_due-Same now c d due e).1) h
Event-Below n (sent_one due c d e) h = subst (Below n) (sym (send_one-Same due c d e).1) h
Event-Below n (stopped c) h = h
