-- ===== src/Message.antt =====
-- The messages of grpc/paxos.proto, and the values of the text fields that the node branches on.
-- A field that proto3 leaves unset has its default: 0, the empty text, `false`.
use multi_paxos_distributed.Prelude.{ℕ, String, ℤ, pos, Bool, true, false, List}
use multi_paxos_distributed.Ballot.{Ballot}

-- `two_pc_status`, `phase2_result` and `Ack.status`: the texts that the node writes to these
-- fields. `unset` is the empty text.
pub data Status : Type 0 where
  unset : Status
  coord : Status  -- "COORD"
  prep : Status  -- "P"
  abort_vote : Status  -- "A"
  c_coord : Status  -- "C_COORD"
  c_part : Status  -- "C"
  a_coord : Status  -- "A_COORD"
  a_part_commit : Status  -- "A_PART_COMMIT"

-- `s == "C_COORD" || s == "C" || s == "A_COORD" || s == "A_PART_COMMIT"`.
unfoldable pub is_phase2 : Status → Bool
is_phase2 c_coord = true
is_phase2 c_part = true
is_phase2 a_coord = true
is_phase2 a_part_commit = true
is_phase2 _ = false

-- `s.empty()`.
unfoldable pub is_unset : Status → Bool
is_unset unset = true
is_unset _ = false

-- `TwoPCMsg.type`: the texts that the node writes to it.
pub data MsgType : Type 0 where
  no_type : MsgType
  prepared : MsgType  -- "PREPARED"
  abort : MsgType  -- "ABORT"
  commit : MsgType  -- "COMMIT"
  committed : MsgType  -- "COMMITTED"
  abort_done : MsgType  -- "A_PART_COMMIT"

pub record ClientRequest : Type 0 where
  pub client_id : String
  pub timestamp : ℕ
  pub from_account : String
  pub to_account : String
  pub amount : ℤ
  pub read_only : Bool
  pub two_pc_msg : String
  pub from_node : ℕ

pub record AcceptedEntry : Type 0 where
  pub ballot : Ballot
  pub seqnum : ℕ
  pub request : ClientRequest
  pub node_id : ℕ
  pub two_pc_status : Status
  pub m : ClientRequest
  pub new_leader : ℕ
  pub phase2_result : Status

pub record CommitEntry : Type 0 where
  pub ballot : Ballot
  pub seqnum : ℕ
  pub request : ClientRequest
  pub two_pc_status : Status
  pub m : ClientRequest

-- The ballot of a reply to the client has the counter -1 after a two-phase commit.
pub record ClientReply : Type 0 where
  pub counter : ℤ
  pub node_id : ℕ
  pub timestamp : ℕ
  pub client_id : String
  pub success : Bool
  pub from_this_term : Bool
  pub read_only_balance : ℤ

pub record PrepareRequest : Type 0 where
  pub ballot : Ballot
  pub node_id : ℕ

pub record PromiseResponse : Type 0 where
  pub ballot : Ballot
  pub node_id : ℕ
  pub promised : Bool
  pub accept_log : List AcceptedEntry

pub record NewViewRequest : Type 0 where
  pub ballot : Ballot
  pub accept_log : List AcceptedEntry

pub record Ack : Type 0 where
  pub ballot : Ballot
  pub node_id : ℕ
  pub accepted : Bool
  pub seqnum : ℕ
  pub phase : ℕ
  pub status : Status

-- `s` and `r` are the texts of the two accounts.
pub record TwoPcMsg : Type 0 where
  pub kind : MsgType
  pub s : String
  pub r : String
  pub amt : ℤ
  pub m : ClientRequest

-- Messages with no field set.
abbrev pub no_ballot : Ballot
no_ballot = record { counter = 0; node_id = 0 }

abbrev pub no_request : ClientRequest
no_request = record {
  client_id = "";
  timestamp = 0;
  from_account = "";
  to_account = "";
  amount = pos 0;
  read_only = false;
  two_pc_msg = "";
  from_node = 0;
}

abbrev pub no_entry : AcceptedEntry
no_entry = record {
  ballot = no_ballot;
  seqnum = 0;
  request = no_request;
  node_id = 0;
  two_pc_status = unset;
  m = no_request;
  new_leader = 0;
  phase2_result = unset;
}

abbrev pub no_ack : Ack
no_ack = record {
  ballot = no_ballot;
  node_id = 0;
  accepted = false;
  seqnum = 0;
  phase = 0;
  status = unset;
}

abbrev pub no_two_pc_msg : TwoPcMsg
no_two_pc_msg = record { kind = no_type; s = ""; r = ""; amt = pos 0; m = no_request }
