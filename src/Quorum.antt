-- ===== src/Quorum.antt =====
-- Counting the acknowledgements of an Accept: `HandleAccept` of src/paxos_node.cpp.
pub mod Votes
pub mod Intersection
use multi_paxos_distributed.Prelude.Map.{has}
use multi_paxos_distributed.Prelude.{
  ℕ, ◌+◌, Bool, true, false, ◌&&◌, ◌||◌, Option, none, some, leb, ◌==◌, if◌then◌else◌, update,
  insert_set, List, length,
}
use multi_paxos_distributed.Message.{Ack}
use multi_paxos_distributed.Node.{Node, is_leader}
use multi_paxos_distributed.Commit.{commit_entry}

-- `count[seqnum][counter].insert(node)`.
unfoldable pub add_vote : ℕ → ℕ → ℕ → (ℕ → ℕ → List ℕ) → ℕ → ℕ → List ℕ
unfolding insert_set
add_vote seqnum counter node count =
    update count seqnum (update (count seqnum) counter (insert_set node (count seqnum counter)))

-- An acknowledgement of a phase-2 outcome is counted apart, and only for an entry of the log.
unfoldable pub count_vote : Ack → Node → Node
unfolding add_vote
count_vote ack s =
    if ack.phase == 2
    then (if has ack.seqnum s.accept_log
        then record s {
          accepted_count_two_pc_commit =
              add_vote ack.seqnum ack.ballot.counter ack.node_id s.accepted_count_two_pc_commit;
        }
        else s)
    else record s {
      accepted_count = add_vote ack.seqnum ack.ballot.counter ack.node_id s.accepted_count;
    }

-- `should_commit`, on the counts after the vote.
unfoldable pub should_commit : Ack → Node → Bool
should_commit ack s =
    if ack.phase == 2
    then has ack.seqnum s.accept_log
      && (length (s.accepted_count_two_pc_commit ack.seqnum ack.ballot.counter) == s.f + 1)
    else (length (s.accepted_count ack.seqnum ack.ballot.counter) == s.f + 1)
      && ((if has ack.seqnum s.entries_to_commit then false else true)
          || leb ack.seqnum s.max_seqnum_in_new_view)

-- `HandleAccept`.
unfoldable pub handle_accept : ℕ → Ack → Node → Option Node
unfolding count_vote should_commit is_leader
handle_accept now ack s =
    let counted = count_vote ack s in
    if s.alive && (ack.accepted && is_leader s.role)
    then (if should_commit ack counted then commit_entry now ack counted else some counted)
    else some s
