-- ===== src/Lib.antt =====
-- A model of the replicated bank: a node (src/paxos_node.cpp), with Multi-Paxos inside each cluster
-- of nodes and two-phase commit between the clusters; the client (src/paxos_client.cpp); and parts of
-- the launcher, the benchmark and the trace.
--
-- A client sends a transfer to the leader of the sender's cluster. The leader locks the accounts,
-- proposes the transfer at the next sequence number, commits it when a quorum has accepted it, and
-- every node of the cluster executes the committed entries in sequence. A transfer to another
-- cluster is prepared by both, and each then has consensus on the outcome. When the leader is
-- silent a backup collects promises, merges the logs that came with them and sends a new view.
--
-- Each handler of `PaxosNode` is a function from the node's state to the next one, `Option Node`;
-- `none` is an exception, an abort or undefined behaviour. Calls to other nodes, and answers, are
-- appended to the field `out`. A reading of the clock is an argument, `now`.
--
-- The launcher gives each item a cluster, tells the nodes at the start of a set which of them are
-- alive, and queues the transactions of a set at the client, which sends each to the leader of its
-- cluster, and to all nodes of the cluster while no reply comes. The launcher waits for the replies
-- before a new set, before a command that fails or revives a node, and at the end. The client is a record as well; its
-- shared requests are numbers into a store. Its threads, and the objects of a node that serve calls,
-- are step relations: a step is a locked section, a handler or an event of gRPC.
--
--   Prelude      helpers: tests on numbers, lists, association lists, whole numbers
--   Ballot       `struct Ballot` (src/paxos_node.h)
--   Message      the messages of grpc/paxos.proto
--   Account      account ids as texts, `std::stoi`
--   Ledger       balances, locks, write-ahead log: `ExecuteTransaction`, the second phase of
--                `ExecuteRepeatedTwoPCEntry`; Ledger/Recovery: the loops of `DemoteToBackup` and
--                `OnElectionComplete`
--   Log          `MergeAcceptLogsFromPromises` and `FillMissingNoOps`, on the logs
--   Node         the fields of `PaxosNode`, and what a handler sends
--   Topology     the cluster of a node (the constructor)
--   Timer        election timer and heartbeat
--   Reply        replies to clients and to the leader of the coordinator's cluster
--   TwoPc        the handlers of two-phase commit; TwoPc/Decision: the second phase between two
--                leaders; TwoPc/Late: a vote that comes too late; TwoPc/Retry: `TransactionRetryLoop` and `HandlePreparedTimeout`
--   Commit       `CommitEntry`, `HandleCommit`, `SequentiallyExecuteCommittedEntries`
--   Quorum       `HandleAccept`
--   Request      `HandleClientRequest` and `ProcessClientRequest`
--   Leadership   becoming leader, stepping down, killing and reviving
--   Propose      `HandlePropose`; Acceptor: sequences of steps of a backup
--   Election     Prepare, promises, time-outs, the new view; Election/TimerThread: the rounds of the
--                thread of `StartElectionTimer`
--   NewView      `HandleNewView`
--   Admin        `HandleSetAlive`, `ResetNode`, `HandleMoveOn`; Admin/Queries: `HandleSendNodeInfo`
--   Database     the table in SQLite, which is a parameter: `InitializeDatabase`, `InitDB`,
--                `UpdateBalance`, `SetBalance`, `GetBalance`
--   Trace        the ring of statements of src/log.h
--   Server       the objects that serve calls: `Proceed` in src/call_data.cpp, those that `Run` makes;
--                Server/Completions: `OnComplete` and `PollClientCompletionQueue`
--   Client       `PaxosClient` (src/paxos_client.cpp); Client/Calls: what it sends, and a round of
--                `TimerLoop`; Client/Round: the whole round
--   Launch       src/node_launch.cpp: `MakeShardMap` (Launch/Shards), `Reshard` (Launch/Reshard,
--                Launch/Balance), the loop of `main` over the test file (Launch/Main), the parts of
--                a line (Launch/Fields, Launch/Nodes), `std::stoi` and `std::to_string`
--                (Launch/Integers), `SendAliveUpdateAsync` (Launch/Alive), the commands of
--                `PromptUser` (Launch/Prompt; Launch/Console: `PrintBalance`; Launch/Views:
--                `PrintView`), `InputThread` (Launch/Input); Launch/Submitted: a line of the test
--                file up to the client's heap
--   Benchmark    the choice of transfers in src/benchmark.h; Benchmark/Csv: `write_csv`
--   Examples     concrete data
--
-- Bounds. Sequence numbers, timestamps, account and node ids are natural numbers; the wrap of an
-- `int` at 2^31 is not modelled (account texts past it are refused as `std::stoi` does). Balances
-- and amounts are whole numbers, on which the doubles of the program are exact; the `int` and
-- `float` copies that are only printed are left out. The loop of
-- `SequentiallyExecuteCommittedEntries` runs on fuel, one more than the number of committed
-- entries: a round goes to the next sequence number, for which there must be an entry. The inner loop
-- of `TimerLoop` runs on the size of the heap, from which each round takes an element; the loop that
-- reflects a sample in src/benchmark.h runs on fuel, of which the size of the sample and two more is
-- enough; the digits of a number are written on fuel, one more than the number; step 5 of `Reshard`
-- runs on any fuel, since it need not end. All
-- other loops are structural. An unordered map that is walked is an association list, in the order of
-- the walk. The index of the trace ring wraps at 2^64, as in the code.
-- Indices of the vectors of accounts and locks past their 9001 elements are not refused.
--
-- Not modelled. A handler is one step: mutexes of the program's own state and the interleavings of
-- its threads are left out, in particular two requests that race in `ProcessClientRequest`; a walk
-- of the retry thread is one step, and so is what the timer thread does after a wait; its random
-- number is a parameter. The start and the shutdown of processes and threads (`Run`, `run_node`), and with it
-- the joins of `InputThread` in `main`, the
-- server loops, which hand each event of gRPC to its object, the calls of `Cancel`, `GetNodeInfo` and
-- `SendMoveOn` (one call of gRPC each), the printed logs, and of src/node_launch.cpp the text
-- that the console commands but `PrintBalance` and `PrintView` print, are not modelled; nor are the
-- statistics that src/benchmark.h prints, the launcher's clock readings, and the generated code in
-- grpc/. The splitting of a line of the test file and the trimming of a text are boost's, and
-- parameters, as is the text of a `double`. No other operation that is modelled reads the database. The fields
-- `newview_acks_`, `newview_quorum_reached_`, `last_heartbeat_received_` and `executed_two_pc_`,
-- which no branch of the program reads, are left out.
pub mod Prelude
pub mod Ballot
pub mod Message
pub mod Account
pub mod Ledger
pub mod Log
pub mod Node
pub mod Topology
pub mod Timer
pub mod Reply
pub mod TwoPc
pub mod Commit
pub mod Quorum
pub mod Request
pub mod Leadership
pub mod Propose
pub mod Database
pub mod Election
pub mod Acceptor
pub mod NewView
pub mod Admin
pub mod Examples
pub mod Trace
pub mod Server
pub mod Client
pub mod Benchmark
pub mod Launch
