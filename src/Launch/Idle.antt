-- ===== src/Launch/Idle.antt =====
-- The waits of `main` (src/node_launch.cpp) end when no request is in flight.
use multi_paxos_distributed.Prelude.{
  ℕ, ◌≡◌, ◌≢◌, inl, inr, refl, sym, subst, Bool, true, false, Option, some, Bool-cases, [], ◌∷◌,
  if◌then◌else◌, if_keeps, length, arith, some-injective, ℤ, pos, ltb_ℤ,
}
use multi_paxos_distributed.Prelude.Map.{Map}
use multi_paxos_distributed.Launch.Main.{
  Boost, Phase, next_line, set_ends, command_waits, last_wait, finished, Launcher, is_busy,
  advance_from, advance,
}
use multi_paxos_distributed.Launch.Runs.{
  Step, main, client, Steps, start, next, IsFresh, Event-Step, Event-Below,
}
use multi_paxos_distributed.Client.Count.{Step-IsCounted}
use multi_paxos_distributed.Launch.Waits.{
  ends, Ensures, ended, after_wait-IsFresh, read_line-IsFresh,
}

advance_from-IsFresh :
    (boost : Boost) (now : ℕ) (phase : Phase) (l : Launcher)
    → IsFresh l
    → Ensures IsFresh (advance_from boost now phase l)
unfolding advance_from
advance_from-IsFresh boost now next_line l h = read_line-IsFresh boost now l.lines l h
advance_from-IsFresh boost now finished l h = ends h
advance_from-IsFresh boost now (set_ends row) l h =
    if_keeps (Ensures IsFresh) (is_busy l.client) _ _ (ends h)
      (after_wait-IsFresh boost now (set_ends row) l h)
advance_from-IsFresh boost now (command_waits fail node) l h =
    if_keeps (Ensures IsFresh) (is_busy l.client) _ _ (ends h)
      (after_wait-IsFresh boost now (command_waits fail node) l h)
advance_from-IsFresh boost now last_wait l h =
    if_keeps (Ensures IsFresh) (is_busy l.client) _ _ (ends h)
      (after_wait-IsFresh boost now last_wait l h)

Step-IsFresh : (boost : Boost) {l l' : Launcher} → Step boost l l' → IsFresh l → IsFresh l'
unfolding advance
Step-IsFresh boost (main now l l' e) h =
    ended (subst (Ensures IsFresh) e (advance_from-IsFresh boost now l.phase l h))
Step-IsFresh boost (client l d e) h = record {
  counted = Step-IsCounted (Event-Step e) h.counted;
  below = Event-Below l.num e h.below;
}

-- Through all steps of `main` and of the client, in any order, `remaining_transactions` is the number of
-- requests in flight, these have timestamps of their own, and each timestamp is below the next one.
pub Steps-IsFresh : (boost : Boost) {l l' : Launcher} → Steps boost l l' → IsFresh l → IsFresh l'
Steps-IsFresh boost (start l) h = h
Steps-IsFresh boost (next run step) h = Step-IsFresh boost step (Steps-IsFresh boost run h)

-- `main` is in a wait.
unfoldable pub waits : Phase → Bool
waits next_line = false
waits (set_ends row) = true
waits (command_waits fail node) = true
waits last_wait = true
waits finished = false

idle-empty :
    {V : Type 0} (m : Map V) (c : ℤ) → c ≡ pos (length m) → ltb_ℤ (pos 0) c ≡ false → m ≡ []
idle-empty [] c e h = refl
idle-empty (p ∷ m) c e h = absurd (ground (arith, subst (λ z. ltb_ℤ (pos 0) z ≡ false) e h))

wait_over :
    (l n : Launcher) (o : Option Launcher)
    → IsFresh l
    → (if is_busy l.client then some l else o) ≡ some n
    → n ≢ l
    → l.client.inflight ≡ []
unfolding is_busy
wait_over l n o h e apart = elim (Bool-cases (ltb_ℤ (pos 0) l.client.remaining)) [
  | inl busy ↦ absurd (apart (sym (some-injective _ _ (rw busy at e))))
  | inr idle ↦ idle-empty l.client.inflight l.client.remaining h.counted.counted idle
]

advance_from-idle :
    (boost : Boost) (now : ℕ) (phase : Phase) (l n : Launcher)
    → IsFresh l
    → waits phase ≡ true
    → advance_from boost now phase l ≡ some n
    → n ≢ l
    → l.client.inflight ≡ []
unfolding advance_from waits
advance_from-idle boost now next_line l n h w = absurd (cc)
advance_from-idle boost now finished l n h w = absurd (cc)
advance_from-idle boost now (set_ends row) l n h w = wait_over l n _ h
advance_from-idle boost now (command_waits fail node) l n h w = wait_over l n _ h
advance_from-idle boost now last_wait l n h w = wait_over l n _ h

-- In every run from a state where the requests in flight are counted and fresh, `main` goes on from a
-- wait only when no request is in flight: so a new set, a command that fails or revives a node, and
-- the end of the run each come after every request before was answered, or given up by a MoveOn.
pub wait-idle :
    (boost : Boost) (now : ℕ) {l₀ l : Launcher} (n : Launcher)
    → Steps boost l₀ l
    → IsFresh l₀
    → waits l.phase ≡ true
    → advance boost now l ≡ some n
    → n ≢ l
    → l.client.inflight ≡ []
unfolding advance
wait-idle boost now {l₀} {l} n run h =
    advance_from-idle boost now l.phase l n (Steps-IsFresh boost run h)
