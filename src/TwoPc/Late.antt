-- ===== src/TwoPc/Late.antt =====
-- A vote that comes after the coordinator has given up waiting for it (`HandlePreparedTimeout` and
-- `HandlePreparedAndAborted` in src/paxos_node.cpp).
use multi_paxos_distributed.Prelude.Map.{find}
use multi_paxos_distributed.Prelude.{ℕ, ◌≡◌, some}
use multi_paxos_distributed.Message.{a_coord, AcceptedEntry, TwoPcMsg}
use multi_paxos_distributed.Ledger.{Ledger, second_phase}
use multi_paxos_distributed.Node.{Node}
use multi_paxos_distributed.TwoPc.Decision.{Listens}

-- The coordinator once the entry `e` that it logged has been executed by its cluster.
abbrev pub settled : ℕ → ℕ → ℕ → AcceptedEntry → Node → Node
settled from to seq e s = record s { ledger = second_phase e.two_pc_status from to seq s.ledger }

-- Giving up logs an abort, and leaves what a later vote is handled with.
record GivesUp (msg : TwoPcMsg) (s m : Node) : Type 0 where
  entry : AcceptedEntry
  logged : find (s.dedup.digest msg.m.timestamp) m.accept_log ≡ some entry
  aborts : entry.two_pc_status ≡ a_coord
  same_ledger : m.ledger ≡ s.ledger
  listens :
      (from to seq : ℕ) (e : AcceptedEntry)
      → e.two_pc_status ≡ a_coord
      → Listens msg from to s
      → Listens msg from to (settled from to seq e m)
