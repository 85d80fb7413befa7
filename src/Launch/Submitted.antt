-- ===== src/Launch/Submitted.antt =====
-- A transaction from src/benchmark.h through the test file, `main` of src/node_launch.cpp and the client
-- (src/paxos_client.cpp) to `ExecuteTransaction` of src/paxos_node.cpp.
use multi_paxos_distributed.Prelude.{
  ℕ, zero, suc, not, true, ltb, ◌/◌, ◌%◌, if_cases, ◌+◌, Bool, ◌&&◌, [], ◌∷◌, ◌++◌, ◌+ℤ◌, ap, ◌≤◌,
  ◌≡◌, refl, subst, sym, ◌∙◌, false, true, some, List, update, pos, arith, ◌==◌,
}
use multi_paxos_distributed.Prelude.Map.{find}
use multi_paxos_distributed.Message.{Status}
use multi_paxos_distributed.Ledger.{Ledger, execute_transaction, execute_between}
use multi_paxos_distributed.Launch.Ranges.{find-assign}
use multi_paxos_distributed.Launch.Fields.{triple, parse_transaction}
use multi_paxos_distributed.Launch.Texts.{stoi-to_string}
use multi_paxos_distributed.Launch.Main.{
  Boost, Launcher, next_line, advance, advance_from, read_line, read_row, row_of, run_row,
  enter_set, starts_with, is_empty, is_nonzero, request_for, start_transaction, run_transaction,
}
use multi_paxos_distributed.Client.{PendingRequest, submit, send_request}
use multi_paxos_distributed.Benchmark.{Txn}
use mathlib.Core.List.{append_assoc}
use multi_paxos_distributed.Account.{is_space}
use multi_paxos_distributed.Benchmark.Csv.{transaction, quoted, decimal, to_decimal, comma}
use multi_paxos_distributed.Benchmark.Decimal.{parse_transaction-transaction}

request-executes :
    (from to amount num seqnum : ℕ) (status : Status) (g : Ledger)
    → from ≤ 2147483647
    → to ≤ 2147483647
    → let r = request_for (pos from) (pos to) (pos amount) false num in
      execute_transaction r seqnum status g ≡ some (execute_between from to r seqnum status g)
unfolding execute_transaction request_for
request-executes from to amount num seqnum status g hf ht =
    rw (stoi-to_string from hf) (rw (stoi-to_string to ht) refl)

-- The launcher after it has submitted a transfer at the time `now`: it counts one request more, which is
-- in flight under the next timestamp and first in the heap, due and not yet sent; that request has the
-- amount, and executes on the two accounts.
pub record Carries (now : ℕ) (t : Txn) (l l' : Launcher) : Type 0 where
  pub counted : l'.client.remaining ≡ l.client.remaining +ℤ pos 1
  pub one_more : l'.client.created ≡ l.client.created + 1
  pub next_num : l'.num ≡ l.num + 1
  pub found : find l.num l'.client.inflight ≡ some l.client.created
  pub queued : l'.client.timer_heap ≡ l.client.created ∷ l.client.timer_heap
  pub due : (l'.client.objects l.client.created).expiry ≡ now
  pub not_sent : (l'.client.objects l.client.created).active ≡ false
  pub not_done : (l'.client.objects l.client.created).completed ≡ false
  pub amount : (l'.client.objects l.client.created).request.amount ≡ pos t.amount
  pub timestamp : (l'.client.objects l.client.created).request.timestamp ≡ l.num
  pub read_only : (l'.client.objects l.client.created).request.read_only ≡ false
  pub executes :
      (seqnum : ℕ) (status : Status) (g : Ledger)
      → let r = (l'.client.objects l.client.created).request in
        execute_transaction r seqnum status g ≡ some (execute_between t.src t.dst r seqnum status g)

update_self : {A : Type 0} (f : ℕ → A) (k : ℕ) (v : A) → update f k v k ≡ v
unfolding update
update_self f k v = let here : ((k == k) ≡ true) = ground arith in rw here refl

-- Of the pending request alone.
record Fits (now : ℕ) (t : Txn) (num : ℕ) (p : PendingRequest) : Type 0 where
  due : p.expiry ≡ now
  not_sent : p.active ≡ false
  not_done : p.completed ≡ false
  amount : p.request.amount ≡ pos t.amount
  timestamp : p.request.timestamp ≡ num
  read_only : p.request.read_only ≡ false
  executes :
      (seqnum : ℕ) (status : Status) (g : Ledger)
      → execute_transaction p.request seqnum status g
        ≡ some (execute_between t.src t.dst p.request seqnum status g)

abbrev pending : ℕ → Txn → ℕ → PendingRequest
pending now t num = record {
  request = request_for (pos t.src) (pos t.dst) (pos t.amount) false num;
  expiry = now;
  active = false;
  completed = false;
}

pending-Fits :
    (now : ℕ) (t : Txn) (num : ℕ)
    → t.src ≤ 2147483647
    → t.dst ≤ 2147483647
    → Fits now t num (pending now t num)
unfolding request_for
pending-Fits now t num hs hd = record {
  due = refl;
  not_sent = refl;
  not_done = refl;
  amount = refl;
  timestamp = refl;
  read_only = refl;
  executes = λ seqnum status g. request-executes t.src t.dst t.amount num seqnum status g hs hd;
}

submitted-Carries :
    (now : ℕ) (nodes : List ℕ) (t : Txn) (l : Launcher)
    → t.src ≤ 2147483647
    → t.dst ≤ 2147483647
    → (l' : Launcher) × ((run_transaction now true nodes
            (triple (pos t.src) (pos t.dst) (pos t.amount))
            l
          ≡ some l')
        × Carries now t l l')
unfolding run_transaction start_transaction submit send_request request_for
submitted-Carries now nodes t l hs hd =
    let i = l.client.created in
    let fits =
      subst (Fits now t l.num) (sym (update_self l.client.objects i (pending now t l.num)))
        (pending-Fits now t l.num hs hd) in
    (
      _,
      (
        refl,
        record {
          counted = refl;
          one_more = refl;
          next_num = refl;
          found = find-assign l.num l.num i l.client.inflight ∙ ground arith;
          queued = refl;
          due = fits.due;
          not_sent = fits.not_sent;
          not_done = fits.not_done;
          amount = fits.amount;
          timestamp = fits.timestamp;
          read_only = fits.read_only;
          executes = fits.executes;
        },
      ),
    )

-- The line of a transfer after the first one in the test file: no set number, the transfer in quotes,
-- and no nodes.
abbrev pub line_of : Txn → List ℕ
line_of t = b',' ∷ (quoted (transaction t) ++ b',' ∷ [])

and_false : (b : Bool) → (b && false) ≡ false
and_false true = refl
and_false false = refl

-- A character that stands for itself in a quoted field.
unfoldable pub plain : ℕ → Bool
plain x = not (x == 34) && (not (x == 92) && not (x == 10))

unfoldable pub all_plain : List ℕ → Bool
unfolding plain
all_plain [] = true
all_plain (x ∷ xs) = plain x && all_plain xs

-- What boost documents of its functions: a quoted field is the text between the quotes, and a text that
-- starts and ends with no space is trimmed to itself.
pub record Documented (boost : Boost) : Type 0 where
  pub quoted_field :
      (text : List ℕ)
      → all_plain text ≡ true
      → boost.tokenize (b',' ∷ (quoted text ++ b',' ∷ [])) ≡ [] ∷ text ∷ [] ∷ []
  pub trimmed :
      (x y : ℕ) (text : List ℕ)
      → is_space x ≡ false
      → is_space y ≡ false
      → boost.trim (x ∷ (text ++ y ∷ [])) ≡ x ∷ (text ++ y ∷ [])

all_plain-append :
    (xs ys : List ℕ) → all_plain xs ≡ true → all_plain ys ≡ true → all_plain (xs ++ ys) ≡ true
unfolding all_plain
all_plain-append [] ys h k = k
all_plain-append (x ∷ xs) ys h k = ground (arith, all_plain-append xs ys)

all_plain-decimal : (fuel n : ℕ) → all_plain (decimal fuel n) ≡ true
unfolding decimal all_plain
all_plain-decimal zero n = refl
all_plain-decimal (suc fuel) n =
    if_cases (λ xs. all_plain xs ≡ true) (ltb n 10) ((n + b'0') ∷ []) _ (λ small. ground arith)
      (λ large.
        all_plain-append (decimal fuel (n / 10)) ((n % 10 + b'0') ∷ [])
          (all_plain-decimal fuel (n / 10)) (ground arith))

-- The text of a transfer without its brackets.
abbrev inside : Txn → List ℕ
inside t = to_decimal t.src ++ (comma ++ (to_decimal t.dst ++ (comma ++ to_decimal t.amount)))

transaction-brackets :
    (t : Txn) → t.is_read ≡ false → transaction t ≡ b'(' ∷ (inside t ++ b')' ∷ [])
unfolding transaction
transaction-brackets t moves =
    rw
      (
        moves,
        append_assoc (to_decimal t.src)
            (comma ++ (to_decimal t.dst ++ (comma ++ to_decimal t.amount))) (b')' ∷ []),
        append_assoc (to_decimal t.dst) (comma ++ to_decimal t.amount) (b')' ∷ []),
      )
      refl

all_plain-inside : (t : Txn) → all_plain (inside t ++ b')' ∷ []) ≡ true
unfolding to_decimal all_plain
all_plain-inside t =
    let text = λ (n : ℕ). all_plain-decimal (suc n) n in
    all_plain-append (inside t) (b')' ∷ [])
      (all_plain-append (to_decimal t.src) _ (text t.src) (
        all_plain-append (to_decimal t.dst) (comma ++ to_decimal t.amount) (text t.dst)
          (text t.amount)))
      refl

-- The line is read as a transaction.
line-runs :
    (boost : Boost) (now : ℕ) (t : Txn) (rest : List (List ℕ)) (l : Launcher)
    → boost.tokenize (line_of t) ≡ [] ∷ transaction t ∷ [] ∷ []
    → boost.trim (transaction t) ≡ transaction t
    → l.phase ≡ next_line
    → l.lines ≡ line_of t ∷ rest
    → advance boost now l
      ≡ run_transaction now true
          (boost.trim [])
          (parse_transaction (transaction t))
          (record l { lines = rest })
unfolding advance advance_from read_line read_row row_of run_row enter_set starts_with is_empty
    transaction
line-runs boost now t rest l fields trims phase lines =
    rw (phase, lines, fields, and_false (is_nonzero l.current_set_number), trims, advance) refl

-- A transfer that the benchmark wrote, in a line after the first one of its file, between accounts whose
-- numbers fit into an `int`, with boost as it documents itself. The step of the launcher that reads the
-- line takes the fields out of it and submits one request to the client: `remaining_transactions` is one
-- more, and the request is due in the client's heap and in flight under the launcher's next timestamp,
-- with the amount of the transfer. A node that executes that request, at any sequence number and in any
-- role, executes it on the sender and the receiver.
pub transaction-Carries :
    (boost : Boost) (now : ℕ) (t : Txn) (rest : List (List ℕ)) (l : Launcher)
    → Documented boost
    → t.is_read ≡ false
    → t.src ≤ 2147483647
    → t.dst ≤ 2147483647
    → l.phase ≡ next_line
    → l.lines ≡ line_of t ∷ rest
    → (l' : Launcher) × ((advance boost now l ≡ some l')
        × Carries now t (record l { lines = rest }) l')
unfolding all_plain is_space
transaction-Carries boost now t rest l known moves hs hd phase lines =
    let brackets = transaction-brackets t moves in
    let fields = known.quoted_field (transaction t) (ap all_plain brackets ∙ all_plain-inside t) in
    let trims =
      ap boost.trim brackets ∙ known.trimmed b'(' b')' (inside t) refl refl ∙ sym brackets in
    let nodes = boost.trim [] in
    let (l', (run, carries)) = submitted-Carries now nodes t (record l { lines = rest }) hs hd in
    (
      l',
      (
        line-runs boost now t rest l fields trims phase lines
            ∙ ap (λ f. run_transaction now true nodes f (record l { lines = rest }))
                (parse_transaction-transaction t ∙ rw moves refl)
            ∙ run,
        carries,
      ),
    )
