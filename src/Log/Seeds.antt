-- ===== src/Log/Seeds.antt =====
-- The last loop of `MergeAcceptLogsFromPromises` (src/paxos_node.cpp): which timestamps a new
-- leader knows of, and where.
use multi_paxos_distributed.Prelude.Map.{Map}
use multi_paxos_distributed.Prelude.{ℕ, ◌≡◌, arith, true, false, [], ◌∷◌, ◌++◌, update, str_eq}
use multi_paxos_distributed.Message.{AcceptedEntry}
use multi_paxos_distributed.Log.{Seeded, in_flight, seed_one, seed_log}

seed_one-seen :
    (e : AcceptedEntry) (seq t : ℕ) (s : Seeded)
    → s.seen t ≡ true
    → (seed_one e seq s).seen t ≡ true
unfolding seed_one update
seed_one-seen e seq t s h = ground arith

seed_log-seen :
    (log : Map AcceptedEntry) (t : ℕ) (s : Seeded)
    → s.seen t ≡ true
    → (seed_log log s).seen t ≡ true
unfolding seed_log
seed_log-seen [] t s h = h
seed_log-seen ((seq, e) ∷ log) t s h = seed_log-seen log t _ (seed_one-seen e seq t s h)

seed_one-own :
    (e : AcceptedEntry) (seq : ℕ) (s : Seeded)
    → str_eq e.request.client_id "NO-OP" ≡ false
    → in_flight e ≡ false
    → (seed_one e seq s).seen e.request.timestamp ≡ true
unfolding seed_one update
seed_one-own e seq s real settled = ground arith

-- After the loop over the merged log, the timestamp of every entry of it that is no no-op and no
-- two-phase commit in flight is known.
seed_log-covers :
    (before after : Map AcceptedEntry) (seq : ℕ) (e : AcceptedEntry) (s : Seeded)
    → str_eq e.request.client_id "NO-OP" ≡ false
    → in_flight e ≡ false
    → (seed_log (before ++ (seq, e) ∷ after) s).seen e.request.timestamp ≡ true
unfolding seed_log
seed_log-covers [] after seq e s real settled =
    seed_log-seen after _ _ (seed_one-own e seq s real settled)
seed_log-covers ((k, x) ∷ before) after seq e s real settled =
    seed_log-covers before after seq e _ real settled
