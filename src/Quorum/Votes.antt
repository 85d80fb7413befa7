-- ===== src/Quorum/Votes.antt =====
-- `HandleAccept` (src/paxos_node.cpp): when an entry is committed.
use multi_paxos_distributed.Prelude.Map.{has}
use multi_paxos_distributed.Prelude.{
  ℕ, ◌+◌, ◌≡◌, refl, ap, ◌∙◌, arith, true, ◌&&◌, some, ◌==◌, if◌then◌else◌, update, insert_set,
  List, length, contains, update_keeps, if_keeps, Distinct, insert_set-Distinct,
  contains-insert_set, Bool-cases, inl, inr,
}
use multi_paxos_distributed.Message.{Ack}
use multi_paxos_distributed.Node.{Node, is_leader}
use multi_paxos_distributed.Commit.{commit_entry}
use multi_paxos_distributed.Quorum.{add_vote, count_vote, should_commit, handle_accept}

-- No node is counted twice for an entry, in a count of either kind.
pub record IsCounted (s : Node) : Type 0 where
  pub first : (seq counter : ℕ) → Distinct (s.accepted_count seq counter)
  pub second : (seq counter : ℕ) → Distinct (s.accepted_count_two_pc_commit seq counter)

add_vote-Distinct :
    (seq counter node : ℕ) (count : ℕ → ℕ → List ℕ)
    → ((i j : ℕ) → Distinct (count i j))
    → (i j : ℕ) → Distinct (add_vote seq counter node count i j)
unfolding add_vote
add_vote-Distinct seq counter node count d i =
    update_keeps (λ (row : ℕ → List ℕ). (j : ℕ) → Distinct (row j)) count seq _ d
      (update_keeps Distinct (count seq) counter _ (d seq)
        (insert_set-Distinct node (count seq counter) (d seq counter)))
      i

-- If no node is counted twice, in the counts of either phase, then none is after another vote.
count_vote-IsCounted : (ack : Ack) (s : Node) → IsCounted s → IsCounted (count_vote ack s)
unfolding count_vote
count_vote-IsCounted ack s c =
    let seq = ack.seqnum in
    let counter = ack.ballot.counter in
    if_keeps IsCounted (ack.phase == 2) _ _
      (if_keeps IsCounted (has seq s.accept_log) _ s
        (record { first = c.first; second = add_vote-Distinct seq counter ack.node_id _ c.second })
        c)
      (record { first = add_vote-Distinct seq counter ack.node_id _ c.first; second = c.second })

-- The votes for the entry and the ballot of an acknowledgement.
unfoldable pub votes : Ack → Node → List ℕ
votes ack s =
    if ack.phase == 2
    then s.accepted_count_two_pc_commit ack.seqnum ack.ballot.counter
    else s.accepted_count ack.seqnum ack.ballot.counter

-- Counting a vote adds the sender to the votes, if it is counted at all.
votes-count_vote :
    (ack : Ack) (s : Node)
    → (ack.phase ≡ 2 → has ack.seqnum s.accept_log ≡ true)
    → votes ack (count_vote ack s) ≡ insert_set ack.node_id (votes ack s)
unfolding votes count_vote add_vote update
votes-count_vote ack s known = ground arith

-- A quorum of different nodes, the sender of the last acknowledgement among them.
pub record IsQuorum (node size : ℕ) (xs : List ℕ) : Type 0 where
  pub distinct : Distinct xs
  pub sized : length xs ≡ size
  pub last_voter : contains xs node ≡ true

should_commit-known :
    (ack : Ack) (s : Node)
    → should_commit ack (count_vote ack s) ≡ true
    → ack.phase ≡ 2
    → has ack.seqnum s.accept_log ≡ true
unfolding should_commit count_vote
should_commit-known ack s h p = ground arith

should_commit-size :
    (ack : Ack) (s : Node) → should_commit ack s ≡ true → length (votes ack s) ≡ s.f + 1
unfolding should_commit votes
should_commit-size ack s h = ground arith

count_vote-f : (ack : Ack) (s : Node) → (count_vote ack s).f ≡ s.f
unfolding count_vote
count_vote-f ack s = ground arith

votes-Distinct : (ack : Ack) (s : Node) → IsCounted s → Distinct (votes ack s)
unfolding votes
votes-Distinct ack s c =
    if_keeps Distinct (ack.phase == 2) _ _ (c.second ack.seqnum ack.ballot.counter)
      (c.first ack.seqnum ack.ballot.counter)

contains-own : (a : ℕ) (xs : List ℕ) → contains (insert_set a xs) a ≡ true
contains-own a xs = ground (arith, contains-insert_set a a xs)

should_commit-IsQuorum :
    (ack : Ack) (s : Node)
    → IsCounted s
    → should_commit ack (count_vote ack s) ≡ true
    → IsQuorum ack.node_id (s.f + 1) (votes ack (count_vote ack s))
should_commit-IsQuorum ack s c h = record {
  distinct = votes-Distinct ack _ (count_vote-IsCounted ack s c);
  sized = should_commit-size ack (count_vote ack s) h ∙ ap (λ (n : ℕ). n + 1) (count_vote-f ack s);
  last_voter =
      rw (votes-count_vote ack s (should_commit-known ack s h))
        (contains-own ack.node_id (votes ack s));
}

-- What an acknowledgement leads to: it is ignored, or it is only counted, or it commits the entry.
pub data Outcome (now : ℕ) (ack : Ack) (s : Node) : Type 0 where
  ignored : handle_accept now ack s ≡ some s → Outcome now ack s
  counted : handle_accept now ack s ≡ some (count_vote ack s) → Outcome now ack s
  commits :
      s.alive ≡ true
      → is_leader s.role ≡ true
      → ack.accepted ≡ true
      → handle_accept now ack s ≡ commit_entry now ack (count_vote ack s)
      → IsQuorum ack.node_id (s.f + 1) (votes ack (count_vote ack s))
      → Outcome now ack s

handle_accept_lem :
    (now : ℕ) (ack : Ack) (s : Node)
    → handle_accept now ack s ≡ (
        if s.alive && (ack.accepted && is_leader s.role)
        then (if should_commit ack (count_vote ack s)
            then commit_entry now ack (count_vote ack s)
            else some (count_vote ack s))
        else some s)
unfolding handle_accept
handle_accept_lem now ack s = refl

-- If no node is counted twice, an acknowledgement commits its entry only at a leader that is
-- alive, and only when `f + 1` different nodes, the sender among them, have acknowledged it for
-- that ballot counter; otherwise it is counted or ignored.
pub handle_accept-Outcome : (now : ℕ) (ack : Ack) (s : Node) → IsCounted s → Outcome now ack s
handle_accept-Outcome now ack s c =
    elim (Bool-cases (s.alive && (ack.accepted && is_leader s.role))) [
      | inr out ↦ ignored (rw (handle_accept_lem now ack s, out))
      | inl live ↦ elim (Bool-cases (should_commit ack (count_vote ack s))) [
        | inr few ↦ counted (rw (handle_accept_lem now ack s, live, few))
        | inl enough ↦
            commits (ground arith) (ground arith) (ground arith)
              (rw (handle_accept_lem now ack s, live, enough))
              (should_commit-IsQuorum ack s c enough)
      ]
    ]

-- If an acknowledgement of a phase-2 outcome meets the condition to commit, then the same
-- acknowledgement, received again, meets it again.
second_ack_commits_again :
    (ack : Ack) (s : Node)
    → ack.phase ≡ 2
    → should_commit ack (count_vote ack s) ≡ true
    → should_commit ack (count_vote ack (count_vote ack s)) ≡ true
unfolding should_commit count_vote add_vote update insert_set
second_ack_commits_again ack s p h =
    ground (
      arith,
      contains-own ack.node_id (s.accepted_count_two_pc_commit ack.seqnum ack.ballot.counter),
    )
