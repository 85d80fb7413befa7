-- ===== src/Log.antt =====
-- The accept log at a view change: `MergeAcceptLogsFromPromises` and `FillMissingNoOps` of
-- src/paxos_node.cpp, and the bookkeeping that the former rebuilds from the merged log.
pub mod Merge
pub mod NoOps
pub mod Seeds
use multi_paxos_distributed.Prelude.Map.{Map, find, insert}
use multi_paxos_distributed.Prelude.{
  ℕ, zero, suc, ◌+◌, Bool, true, false, not, ◌&&◌, ◌||◌, Option, none, some, List, [], ◌∷◌, pos,
  ltb, str_eq, if◌then◌else◌, update,
}
use multi_paxos_distributed.Ballot.{Ballot, gt}
use multi_paxos_distributed.Message.{
  Status, coord, prep, unset, is_phase2, is_unset, AcceptedEntry, no_entry, no_request,
}

-- The lambda `is_decided`.
unfoldable pub is_decided : AcceptedEntry → Bool
unfolding is_phase2 is_unset
is_decided e = if is_unset e.phase2_result then is_phase2 e.two_pc_status else true

-- Which of the entry in the log and the one in the promise stays.
unfoldable pub choose : Option AcceptedEntry → AcceptedEntry → AcceptedEntry
choose none accepted = accepted
choose (some cur) accepted =
    let cur_decided = is_decided cur in
    let inc_decided = is_decided accepted in
    if inc_decided && (if cur_decided then false else true)
    then accepted
    else if cur_decided && (if inc_decided then false else true)
    then cur
    else if gt accepted.ballot cur.ballot
    then accepted
    else cur

-- Carry a known outcome onto the entry that stays.
unfoldable pub carry_outcome : AcceptedEntry → AcceptedEntry → AcceptedEntry
unfolding is_phase2 is_unset
carry_outcome accepted winner =
    if is_unset winner.phase2_result
    then (if is_unset accepted.phase2_result
        then (if is_phase2 winner.two_pc_status
            then record winner { phase2_result = winner.two_pc_status }
            else winner)
        else record winner { phase2_result = accepted.phase2_result })
    else winner

-- One round of the inner loop.
unfoldable pub merge_entry : Map AcceptedEntry → AcceptedEntry → Map AcceptedEntry
merge_entry log accepted =
    insert accepted.seqnum (carry_outcome accepted (choose (find accepted.seqnum log) accepted)) log

-- The two loops: the logs of the promises one after another.
unfoldable pub merge_log : Map AcceptedEntry → List AcceptedEntry → Map AcceptedEntry
merge_log log [] = log
merge_log log (e ∷ es) = merge_log (merge_entry log e) es

-- `max_seqnum` after the two loops.
unfoldable pub max_seqnum : ℕ → List AcceptedEntry → ℕ
max_seqnum m [] = m
max_seqnum m (e ∷ es) = max_seqnum (if ltb m e.seqnum then e.seqnum else m) es

-- `FillMissingNoOps`: the entry that it puts at a missing sequence number.
unfoldable pub no_op_entry : Ballot → ℕ → ℕ → AcceptedEntry
no_op_entry ballot node_id seq = record no_entry {
  ballot = ballot;
  seqnum = seq;
  request = record no_request { client_id = "NO-OP" };
  node_id = node_id;
}

unfoldable pub fill_one : Ballot → ℕ → ℕ → Map AcceptedEntry → Map AcceptedEntry
unfolding no_op_entry
fill_one ballot node_id seq log = elim (find seq log) [
  | none ↦ insert seq (no_op_entry ballot node_id seq) log
  | some e ↦ log
]

-- The loop, with the rounds that are left and the sequence number that is next.
unfoldable pub fill_from : Ballot → ℕ → ℕ → ℕ → Map AcceptedEntry → Map AcceptedEntry
unfolding fill_one
fill_from ballot node_id zero seq log = log
fill_from ballot node_id (suc rounds) seq log =
    fill_from ballot node_id rounds (seq + 1) (fill_one ballot node_id seq log)

-- `FillMissingNoOps`, for the sequence numbers 1 to `max_seq`.
unfoldable pub fill_missing : Ballot → ℕ → ℕ → Map AcceptedEntry → Map AcceptedEntry
unfolding fill_from
fill_missing ballot node_id max_seq log = fill_from ballot node_id max_seq 1 log

-- The timestamps known to be proposed, and the sequence number of each timestamp:
-- `pending_or_completed_ts_` and `digest_to_seqnum_`.
pub record Seeded : Type 0 where
  pub seen : ℕ → Bool
  pub digest : ℕ → ℕ

-- `(p1 == "COORD" || p1 == "P") && entry.phase2_result().empty()`.
unfoldable pub in_flight : AcceptedEntry → Bool
unfolding is_unset
in_flight e = elim e.two_pc_status [
  | coord ↦ is_unset e.phase2_result
  | prep ↦ is_unset e.phase2_result
  | _ ↦ false
]

unfoldable pub seed_one : AcceptedEntry → ℕ → Seeded → Seeded
unfolding in_flight
seed_one e seq s =
    if str_eq e.request.client_id "NO-OP"
    then s
    else if in_flight e
    then record s { digest = update s.digest e.request.timestamp seq }
    else record s {
      seen = update s.seen e.request.timestamp true;
      digest = update s.digest e.request.timestamp seq;
    }

-- The last loop of `MergeAcceptLogsFromPromises`.
unfoldable pub seed_log : Map AcceptedEntry → Seeded → Seeded
unfolding seed_one
seed_log [] s = s
seed_log ((seq, e) ∷ log) s = seed_log log (seed_one e seq s)
