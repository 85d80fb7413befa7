-- ===== src/Examples/Requests.antt =====
-- The theorems on client requests and on retries.
use multi_paxos_distributed.Prelude.{true, false, ◌≡◌, refl, arith, some}
use multi_paxos_distributed.Account.{stoi}
use multi_paxos_distributed.Message.{unset, TwoPcMsg, no_two_pc_msg}
use multi_paxos_distributed.Node.{Node, is_leader, emit, respond}
use multi_paxos_distributed.Request.{transfer_request, is_prepare, propose, process_client_request}
use multi_paxos_distributed.Request.Dedup.{retry-is_dropped}
use multi_paxos_distributed.Request.Locks.{Transferred, transfer_request-IsDone}
use multi_paxos_distributed.TwoPc.Retry.{is_due, retry_one}
use multi_paxos_distributed.TwoPc.Patience.{IsPatient, retry_one-IsPatient}
use multi_paxos_distributed.Examples.Data.{chief, inside, across, waiting}

transfer_request-IsDone_example :
    (s' : Node) × (transfer_request 9 across waiting chief ≡ some s')
    × Transferred 1 6 across waiting chief s'
unfolding stoi is_prepare
transfer_request-IsDone_example =
    transfer_request-IsDone 9 1 6 across chief refl refl refl refl (omega arith) waiting

retry-is_dropped_example :
    (s' : Node) × (propose unset inside waiting chief ≡ some s')
    × (process_client_request 9 inside waiting s' ≡ some (emit (respond waiting) s'))
unfolding is_leader
retry-is_dropped_example =
    retry-is_dropped 9 unset inside inside waiting waiting chief refl refl refl

-- A PREPARE for a transfer to the other cluster.
abbrev vote : TwoPcMsg
vote = record no_two_pc_msg { m = across }

-- A coordinator whose PREPARE to account 6 was sent at 1 and is not answered.
abbrev unanswered : Node
unanswered = record chief {
  in_flight_prepares = record {
    size = 100;
    slot = λ i. record { msg = vote; last_send = 1; completed = false; sent = true; retries = 0 };
  };
}

retry_one-IsPatient_example :
    (s' : Node) × (retry_one 5000 7 unanswered ≡ some s') × IsPatient 5000 7 6 unanswered s'
unfolding stoi is_due
retry_one-IsPatient_example =
    retry_one-IsPatient 5000 7 6 unanswered (omega arith) (omega arith) refl refl
