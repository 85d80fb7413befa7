-- ===== src/Server/Completions.antt =====
-- The calls that a node makes, when they end: `OnComplete` in src/call_data.cpp, and
-- `PollClientCompletionQueue` of src/paxos_node.cpp. Each object makes one call and deletes itself when
-- it ends; only the answers to a Prepare and to an Accept reach the node.
use multi_paxos_distributed.Prelude.{
  ℕ, ◌+◌, ◌≤◌, ◌≡◌, ◌⊎◌, inl, inr, refl, sym, ap, subst, ◌∙◌, arith, Bool, Bool-cases, true, false,
  ◌&&◌, Option, some, List, [], ◌∷◌, if◌then◌else◌, ◌>>=◌, bind_some, some-injective, length,
  Distinct, if_yes, if_no,
}
use multi_paxos_distributed.Message.{PromiseResponse, Ack}
use multi_paxos_distributed.Node.{Node, is_leader}
use multi_paxos_distributed.Election.{handle_promise, add_promise}
use multi_paxos_distributed.Election.Promises.{
  PromiseOutcome, ignored, counted, wins, handle_promise-PromiseOutcome,
}
use multi_paxos_distributed.Quorum.{handle_accept}

-- The call of an object, with the answer where the node reads it: `PrepareClientCallData`,
-- `AcceptClientCallData`, and `NewViewClientCallData`, `CommitClientCallData`, `ClientCallData`,
-- `AsyncAcceptAckCall`, `AsyncHeartbeatCall`, `AsyncClientReplyCallData`, `AsyncCall` and
-- `TwoPCClientCallData`.
pub data ClientCall : Type 0 where
  prepare_call : PromiseResponse → ClientCall
  accept_call : Ack → ClientCall
  new_view_call commit_call client_call accept_ack_call heartbeat_call reply_call request_call
        two_pc_call :
      ClientCall

-- What the node does with an answer.
unfoldable pub take_answer : ℕ → ClientCall → Node → Option Node
unfolding handle_promise handle_accept
take_answer now (prepare_call reply) s = handle_promise now reply s
take_answer now (accept_call reply) s = handle_accept now reply s
take_answer now _ s = some s

-- `OnComplete(ok)`, with `status_.ok()`.
unfoldable pub on_complete : ℕ → Bool → Bool → ClientCall → Node → Option Node
unfolding take_answer
on_complete now ok status call s = if ok && status then take_answer now call s else some s

-- What `Next` gives: nothing, a null tag, or an object.
pub data Event : Type 0 where
  nothing : Event
  null_tag : Event
  completes : ℕ → Bool → Bool → ClientCall → Event

unfoldable pub on_event : Event → Node → Option Node
unfolding on_complete
on_event nothing s = some s
on_event null_tag s = some s
on_event (completes now ok status call) s = on_complete now ok status call s

-- `PollClientCompletionQueue`, for the events until the queue is shut down.
unfoldable pub poll_client_completion_queue : List Event → Node → Option Node
unfolding on_event
poll_client_completion_queue [] s = some s
poll_client_completion_queue (e ∷ es) s = on_event e s >>= poll_client_completion_queue es

-- `AcceptClientCallData` has queues of its own.
abbrev pub NoAccepts : List Event → Type 0
NoAccepts [] = Unit {0}
NoAccepts (completes now ok status (accept_call reply) ∷ es) = ⊥
NoAccepts (_ ∷ es) = NoAccepts es

-- A Prepare that succeeded, with a promise.
abbrev pub positive : Event → ℕ
positive (completes now ok status (prepare_call reply)) =
    if ok && (status && reply.promised) then 1 else 0
positive _ = 0

abbrev pub positives : List Event → ℕ
positives [] = 0
positives (e ∷ es) = positive e + positives es

-- What one event does to a node that does not lead: a quorum of promises is reached, or at most one
-- more is counted.
record StillWaits (s u : Node) (n : ℕ) : Type 0 where
  follows : is_leader u.role ≡ false
  same_f : u.f ≡ s.f
  grows : length u.promises_received ≤ length s.promises_received + n
  distinct : Distinct u.promises_received

abbrev Progress : Node → Node → ℕ → Type 0
Progress s u n = (s.f + 1 ≤ length s.promises_received + n) ⊎ StillWaits s u n

unmoved :
    (s u : Node) (n : ℕ)
    → is_leader s.role ≡ false
    → Distinct s.promises_received
    → some s ≡ some u
    → Progress s u n
unmoved s u n follows d e =
    subst (λ u. Progress s u n) (some-injective _ _ e)
      (inr (record { follows = follows; same_f = refl; grows = omega arith; distinct = d }))

refused-is_ignored :
    (now : ℕ) (reply : PromiseResponse) (s : Node)
    → reply.promised ≡ false
    → handle_promise now reply s ≡ some s
unfolding handle_promise
refused-is_ignored now reply s h = if_no (s.alive && reply.promised) _ (some s) (ground (arith, h))

promised-Progress :
    (now : ℕ) (reply : PromiseResponse) (s u : Node)
    → is_leader s.role ≡ false
    → Distinct s.promises_received
    → handle_promise now reply s ≡ some u
    → Progress s u 1
unfolding add_promise
promised-Progress now reply s u follows d e =
    by_outcome (handle_promise-PromiseOutcome now reply s d)
  where
    by_outcome : PromiseOutcome now reply s → Progress s u 1
    by_outcome (ignored p) = unmoved s u 1 follows d (sym p ∙ e)
    by_outcome (counted p distinct few) =
        subst (λ u. Progress s u 1) (some-injective _ _ (sym p ∙ e))
          (inr
            (record { follows = follows; same_f = refl; grows = omega arith; distinct = distinct }))
    by_outcome (wins up waiting promised distinct enough p) = inl (omega (arith, enough))

complete-Progress :
    (now : ℕ) (call : ClientCall) (s u : Node) (rest : List Event)
    → NoAccepts (completes now true true call ∷ rest)
    → is_leader s.role ≡ false
    → Distinct s.promises_received
    → take_answer now call s ≡ some u
    → Progress s u (positive (completes now true true call))
unfolding take_answer
complete-Progress now (prepare_call reply) s u rest n follows d e =
    elim (Bool-cases reply.promised) [
      | inl yes_promised ↦
          subst (Progress s u) (sym (if_yes reply.promised 1 0 yes_promised))
            (promised-Progress now reply s u follows d e)
      | inr refused ↦ unmoved s u _ follows d (sym (refused-is_ignored now reply s refused) ∙ e)
    ]
complete-Progress now (accept_call reply) s u rest n follows d e = absurd n
complete-Progress now _ s u rest n follows d e = unmoved s u 0 follows d e

event-Progress :
    (event : Event) (s u : Node) (rest : List Event)
    → NoAccepts (event ∷ rest)
    → is_leader s.role ≡ false
    → Distinct s.promises_received
    → on_event event s ≡ some u
    → Progress s u (positive event)
unfolding on_event on_complete
event-Progress nothing s u rest n follows d e = unmoved s u 0 follows d e
event-Progress null_tag s u rest n follows d e = unmoved s u 0 follows d e
event-Progress (completes now true true call) s u rest n follows d e =
    complete-Progress now call s u rest n follows d e
event-Progress (completes now true false call) s u rest n follows d e = unmoved s u _ follows d e
event-Progress (completes now false status call) s u rest n follows d e = unmoved s u _ follows d e

NoAccepts-tail : (event : Event) (rest : List Event) → NoAccepts (event ∷ rest) → NoAccepts rest
NoAccepts-tail nothing rest n = n
NoAccepts-tail null_tag rest n = n
NoAccepts-tail (completes now ok status (accept_call reply)) rest n = absurd n
NoAccepts-tail (completes now ok status _) rest n = n

-- Over any sequence of events of the queue of a node that does not lead, which has counted promises
-- of different nodes: if the node leads after them, the promises that it had counted and the calls of
-- Prepare that ended well with a promise are together at least `f + 1`. Calls that failed, refusals
-- and other calls never count.
pub leads-positives :
    (events : List Event) (s t : Node)
    → NoAccepts events
    → is_leader s.role ≡ false
    → Distinct s.promises_received
    → poll_client_completion_queue events s ≡ some t
    → is_leader t.role ≡ true
    → s.f + 1 ≤ length s.promises_received + positives events
unfolding poll_client_completion_queue
leads-positives [] s t n follows d e leads =
    absurd
      (ground (arith, ap (λ (u : Node). is_leader u.role) (some-injective _ _ e), follows, leads))
leads-positives (event ∷ rest) s t n follows d e leads =
    let step = bind_some (on_event event s) (poll_client_completion_queue rest) t e in
    elim (event-Progress event s step.0 rest n follows d step.1.0) [
      | inl quorum ↦ omega (arith, quorum)
      | inr w ↦
          let ih =
            leads-positives rest step.0 t (NoAccepts-tail event rest n) w.follows w.distinct
              step.1.1 leads in
          omega (arith, ih, w.grows, w.same_f)
    ]
