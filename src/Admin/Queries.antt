-- ===== src/Admin/Queries.antt =====
-- `HandleSendNodeInfo` of src/paxos_node.cpp. A balance goes through a `float`, which is exact below 2^24,
-- to an `int32`.
use Prim.Native.String.{String}
use multi_paxos_distributed.Prelude.{
  ℕ, zero, suc, Bool, Option, none, some, List, [], ◌∷◌, if◌then◌else◌, ℤ, pos,
}
use multi_paxos_distributed.Message.{NewViewRequest}
use multi_paxos_distributed.Ledger.{Ledger}
use multi_paxos_distributed.Node.{Node}
use multi_paxos_distributed.Launch.Integers.{to_string}
use multi_paxos_distributed.Admin.{EntryStatus, entry_status}

-- An entry of `NodeInfo.database`.
pub record DbEntry : Type 0 where
  pub client : String
  pub balance : ℤ

-- The loop over `modified_accounts_`, a set in the order of the accounts: `rounds` of them from
-- `account` on.
unfoldable pub database_entries : ℕ → ℕ → Ledger → List DbEntry
unfolding to_string
database_entries zero account l = []
database_entries (suc rounds) account l =
    let rest = database_entries rounds (suc account) l in
    if l.modified_accounts account
    then record { client = to_string (pos account); balance = l.accounts account } ∷ rest
    else rest

-- `InfoRequest`.
pub record InfoRequest : Type 0 where
  pub print_log : Bool
  pub print_db : Bool
  pub print_status : Bool
  pub seqnum : ℕ
  pub print_newview : Bool

-- `NodeInfo`. The status is `none` where it is not set.
pub record NodeInfo : Type 0 where
  pub log_text : String
  pub database : List DbEntry
  pub status : Option EntryStatus
  pub newviews : List NewViewRequest

abbrev no_info : NodeInfo
no_info = record { log_text = ""; database = []; status = none; newviews = [] }

-- `HandleSendNodeInfo`; `printed` is the text of `print_log_`, or the note that it is compiled out. The
-- accounts are those of the vectors, 0 to 9000.
unfoldable pub handle_send_node_info : String → InfoRequest → Node → NodeInfo
unfolding database_entries entry_status
handle_send_node_info printed r s =
    if r.print_log
    then record no_info { log_text = printed }
    else if r.print_db
    then record no_info { database = database_entries 9001 0 s.ledger }
    else if r.print_status
    then record no_info { status = some (entry_status r.seqnum s) }
    else if r.print_newview
    then record no_info { newviews = s.new_view_logs }
    else no_info
