-- ===== src/Launch/Waits.antt =====
-- The steps of `main` (src/node_launch.cpp) keep the requests in flight counted and fresh, and its waits
-- end when none is in flight.
use multi_paxos_distributed.Prelude.{
  ℕ, ◌+◌, ◌≡◌, refl, sym, subst, Bool, true, false, not, Option, none, some, List, [], ◌∷◌, ◌++◌,
  if_keeps, ◌>>=◌, ℤ, pos, negsuc, ◌||◌,
}
use multi_paxos_distributed.Launch.Alive.{send_alive_update}
use multi_paxos_distributed.Launch.Fields.{Fields, failed, single, triple, parse_transaction}
use multi_paxos_distributed.Launch.Integers.{stoi_int}
use multi_paxos_distributed.Launch.Nodes.{command_node}
use multi_paxos_distributed.Launch.Main.{
  Boost, Row, Phase, next_line, set_ends, command_waits, last_wait, finished, Launcher,
  update_nodes, request_for, start_transaction, run_transaction, run_command, enter_set, run_row,
  end_set, read_row, row_of, read_line, after_wait,
}
use multi_paxos_distributed.Launch.Runs.{IsFresh, Below, find-Below, Below-assign}
use multi_paxos_distributed.Client.{Client, submit, send_request, reset_leaders_per_cluster}
use multi_paxos_distributed.Client.Count.{IsCounted, submit-IsCounted}

-- What holds of the state, if `main` did not throw.
pub data Ensures (P : Launcher → Type 0) : Option Launcher → Type 0 where
  throws : Ensures P none
  ends : {l : Launcher} → P l → Ensures P (some l)

pub ended : {P : Launcher → Type 0} {l : Launcher} → Ensures P (some l) → P l
ended (ends h) = h

ensures_bind :
    (P Q : Launcher → Type 0) (o : Option Launcher) (f : Launcher → Option Launcher)
    → Ensures P o
    → ((l : Launcher) → P l → Ensures Q (f l))
    → Ensures Q (o >>= f)
ensures_bind P Q none f h k = throws
ensures_bind P Q (some l) f (ends h) k = k l h

-- A step that may fault, and then gives the state `f`.
ensures_some :
    {A : Type 0} (Q : Launcher → Type 0) (o : Option A) (f : A → Launcher)
    → ((a : A) → Q (f a))
    → Ensures Q (o >>= λ a. some (f a))
ensures_some Q none f k = throws
ensures_some Q (some a) f k = ends (k a)

ensures_then :
    (P Q : Launcher → Type 0) (o : Option Launcher) (f : Launcher → Launcher)
    → Ensures P o
    → ((l : Launcher) → P l → Q (f l))
    → Ensures Q (o >>= λ l. some (f l))
ensures_then P Q none f h k = throws
ensures_then P Q (some l) f (ends h) k = ends (k l h)

-- The calls to the nodes leave the client as it is.
abbrev Keeps : Launcher → Launcher → Type 0
Keeps l l' = (l'.client ≡ l.client) × (l'.num ≡ l.num)

Keeps-IsFresh : (l l' : Launcher) → Keeps l l' → IsFresh l → IsFresh l'
Keeps-IsFresh l l' k h = record {
  counted = subst IsCounted (sym k.0) h.counted;
  below =
      subst (λ (n : ℕ). Below n l'.client.inflight) (sym k.1)
        (subst (λ (c : Client). Below l.num c.inflight) (sym k.0) h.below);
}

update_nodes-Keeps :
    (alive : List ℕ) (fail recover : Bool) (node : ℤ) (pause reset : Bool) (l : Launcher)
    → Ensures (Keeps l) (update_nodes alive fail recover node pause reset l)
unfolding update_nodes
update_nodes-Keeps alive fail recover (pos node) pause reset l =
    ensures_some (Keeps l) (send_alive_update alive l.stubs fail recover node pause reset)
      (λ calls. record l { updates = l.updates ++ calls }) (λ calls. (refl, refl))
update_nodes-Keeps alive fail recover (negsuc node) pause reset l =
    if_keeps (Ensures (Keeps l)) (fail || recover) none
      (send_alive_update alive l.stubs false false 0 pause reset >>= λ calls.
        some (record l { updates = l.updates ++ calls }))
      throws
      (ensures_some (Keeps l) (send_alive_update alive l.stubs false false 0 pause reset)
        (λ calls. record l { updates = l.updates ++ calls }) (λ calls. (refl, refl)))

submitted-IsFresh :
    (now : ℕ) (from to amount : ℤ) (read_only : Bool) (l r : Launcher)
    → IsFresh l
    → IsFresh (record r {
      num = l.num + 1;
      transactions_processed = l.transactions_processed ++ (from, to) ∷ [];
      client = submit now (request_for from to amount read_only l.num) l.client;
      phase = next_line;
    })
unfolding submit send_request request_for
submitted-IsFresh now from to amount read_only l r h = record {
  counted =
      submit-IsCounted now (request_for from to amount read_only l.num) l.client
        (find-Below l.num l.client.inflight h.below) h.counted;
  below = Below-assign l.num l.client.created l.client.inflight h.below;
}

start_transaction-IsFresh :
    (now : ℕ) (empty : Bool) (from to amount : ℤ) (read_only : Bool) (l : Launcher)
    → IsFresh l
    → Ensures IsFresh (start_transaction now empty from to amount read_only l)
unfolding start_transaction
start_transaction-IsFresh now empty from to amount read_only l h =
    ensures_some IsFresh _ _ (λ r. submitted-IsFresh now from to amount read_only l r h)

run_transaction-IsFresh :
    (now : ℕ) (empty : Bool) (nodes : List ℕ) (f : Fields) (l : Launcher)
    → IsFresh l
    → Ensures IsFresh (run_transaction now empty nodes f l)
unfolding run_transaction
run_transaction-IsFresh now empty nodes failed l h =
    ends (record { counted = h.counted; below = h.below })
run_transaction-IsFresh now empty nodes (single from) l h =
    start_transaction-IsFresh now empty from (negsuc 0) (negsuc 0) true _
      (record { counted = h.counted; below = h.below })
run_transaction-IsFresh now empty nodes (triple from to amount) l h =
    start_transaction-IsFresh now empty from to amount false _
      (record { counted = h.counted; below = h.below })

run_command-IsFresh :
    (fail : Bool) (text : List ℕ) (l : Launcher)
    → IsFresh l
    → Ensures IsFresh (run_command fail text l)
unfolding run_command
run_command-IsFresh fail text l h =
    ensures_some IsFresh (command_node text) _
      (λ node. record { counted = h.counted; below = h.below })

enter_set-IsFresh : (text : List ℕ) (l : Launcher) → IsFresh l → Ensures IsFresh (enter_set text l)
unfolding enter_set
enter_set-IsFresh text l h = if_keeps (Ensures IsFresh) _ _ _ (ends h) (
    ensures_some IsFresh (stoi_int text) _
      (λ number. record { counted = h.counted; below = h.below }))

run_row-IsFresh :
    (boost : Boost) (now : ℕ) (row : Row) (l : Launcher)
    → IsFresh l
    → Ensures IsFresh (run_row boost now row l)
unfolding run_row
run_row-IsFresh boost now row l h =
    ensures_bind IsFresh IsFresh (enter_set row.set_field l) _ (enter_set-IsFresh row.set_field l h)
      λ m fresh.
        if_keeps (Ensures IsFresh) _ _ _ (run_command-IsFresh true row.transaction_field m fresh) (
          if_keeps (Ensures IsFresh) _ _ _ (run_command-IsFresh false row.transaction_field m fresh)
            (run_transaction-IsFresh now _ (boost.trim row.nodes_field)
              (parse_transaction (boost.trim row.transaction_field)) m fresh))

end_set-IsFresh : (l : Launcher) → IsFresh l → Ensures IsFresh (end_set l)
unfolding end_set reset_leaders_per_cluster
end_set-IsFresh l h =
    ensures_then (Keeps l) IsFresh (update_nodes [] false false (negsuc 0) true false l)
      (λ p. record p { client = reset_leaders_per_cluster p.client; transactions_processed = [] })
      (update_nodes-Keeps [] false false (negsuc 0) true false l)
      λ p k.
        let fresh = Keeps-IsFresh l p k h in
        record {
          counted = record { counted = fresh.counted.counted; distinct = fresh.counted.distinct };
          below = fresh.below;
        }

pub after_wait-IsFresh :
    (boost : Boost) (now : ℕ) (phase : Phase) (l : Launcher)
    → IsFresh l
    → Ensures IsFresh (after_wait boost now phase l)
unfolding after_wait
after_wait-IsFresh boost now next_line l h = ends h
after_wait-IsFresh boost now finished l h = ends h
after_wait-IsFresh boost now (set_ends row) l h =
    ensures_bind IsFresh IsFresh (end_set l) _ (end_set-IsFresh l h) (run_row-IsFresh boost now row)
after_wait-IsFresh boost now (command_waits fail node) l h =
    ensures_then (Keeps l) IsFresh
      (update_nodes l.active_nodes_set fail (not fail) node false false l)
      (λ p. record p { phase = next_line })
      (update_nodes-Keeps l.active_nodes_set fail (not fail) node false false l)
      λ p k.
        let fresh = Keeps-IsFresh l p k h in record { counted = fresh.counted; below = fresh.below }
after_wait-IsFresh boost now last_wait l h =
    ensures_then (Keeps l) IsFresh (update_nodes [] false false (negsuc 0) false false l)
      (λ p. record p { phase = finished })
      (update_nodes-Keeps [] false false (negsuc 0) false false l)
      λ p k.
        let fresh = Keeps-IsFresh l p k h in record { counted = fresh.counted; below = fresh.below }

read_row-IsFresh :
    (boost : Boost) (now : ℕ) (row : Option Row) (l : Launcher)
    → IsFresh l
    → Ensures IsFresh (read_row boost now row l)
unfolding read_row
read_row-IsFresh boost now none l h = ends h
read_row-IsFresh boost now (some row) l h =
    if_keeps (Ensures IsFresh) _ _ _ (ends (record { counted = h.counted; below = h.below }))
      (run_row-IsFresh boost now row l h)

pub read_line-IsFresh :
    (boost : Boost) (now : ℕ) (lines : List (List ℕ)) (l : Launcher)
    → IsFresh l
    → Ensures IsFresh (read_line boost now lines l)
unfolding read_line
read_line-IsFresh boost now [] l h = ends (record { counted = h.counted; below = h.below })
read_line-IsFresh boost now (line ∷ rest) l h =
    let tail : Launcher = record l { lines = rest } in
    let fresh : IsFresh tail = record { counted = h.counted; below = h.below } in
    if_keeps (Ensures IsFresh) _ _ _ (ends fresh)
      (read_row-IsFresh boost now (row_of (boost.tokenize line)) tail fresh)
