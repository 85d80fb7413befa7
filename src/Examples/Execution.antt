-- ===== src/Examples/Execution.antt =====
-- The theorems on the execution of committed entries, at a backup with one committed transfer.
use multi_paxos_distributed.Prelude.{◌+◌, ◌≡◌, refl, some, suc, length, [], ◌∷◌}
use multi_paxos_distributed.Message.{CommitEntry, unset, no_request}
use multi_paxos_distributed.Node.{Node}
use multi_paxos_distributed.Ledger.{execute_between, execute_transaction}
use multi_paxos_distributed.Account.{stoi}
use multi_paxos_distributed.Prelude.Map.{find, erase}
use multi_paxos_distributed.Commit.{execute_committed, sequentially_execute_committed_entries}
use multi_paxos_distributed.Commit.Order.{IsSequential, loop-IsSequential, loop_ends}
use multi_paxos_distributed.Examples.Data.{follower, two_shards, inside, ballot_of}

abbrev committed : CommitEntry
committed = record {
  ballot = ballot_of 3 1;
  seqnum = 1;
  request = inside;
  two_pc_status = unset;
  m = no_request;
}

abbrev ready : Node
ready = record follower { entries_to_commit = (1, committed) ∷ [] }

abbrev ended : Node
ended = record ready {
  ledger = (execute_between 1 2 inside 1 unset two_shards).0;
  last_executed_seq = 1;
}

one_round : sequentially_execute_committed_entries 9 ready ≡ some ended
unfolding sequentially_execute_committed_entries find execute_transaction stoi erase
one_round = refl

loop-IsSequential_example : IsSequential 9 ready ended
loop-IsSequential_example = loop-IsSequential 9 ready ended one_round

loop_ends_example :
    execute_committed (suc (length ready.entries_to_commit) + 3) 9 ready
    ≡ sequentially_execute_committed_entries 9 ready
loop_ends_example = loop_ends 9 3 ready
