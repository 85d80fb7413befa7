-- ===== src/Benchmark/Csv.antt =====
-- `write_csv` of src/benchmark.h: the bytes of the file. A number is written in decimal digits, as
-- `std::ostream` writes an `int` that is not negative.
use multi_paxos_distributed.Account.{codes}
use multi_paxos_distributed.Prelude.{
  ℕ, zero, suc, ◌+◌, ◌/◌, ◌%◌, List, [], ◌∷◌, ◌++◌, ltb, if◌then◌else◌,
}
use multi_paxos_distributed.Benchmark.{Txn}

-- `fuel` digits are enough for a number below `fuel`.
unfoldable pub decimal : ℕ → ℕ → List ℕ
decimal zero n = []
decimal (suc fuel) n =
    let rest = decimal fuel (n / 10) in
    if ltb n 10 then (n + b'0') ∷ [] else rest ++ (n % 10 + b'0') ∷ []

unfoldable pub to_decimal : ℕ → List ℕ
unfolding decimal
to_decimal n = decimal (suc n) n

abbrev pub comma : List ℕ
comma = b',' ∷ b' ' ∷ []

-- The text between the quotes.
unfoldable pub transaction : Txn → List ℕ
unfolding to_decimal
transaction t =
    b'('
    ∷ (if t.is_read
        then to_decimal t.src ++ b')' ∷ []
        else to_decimal t.src
          ++ (comma ++ (to_decimal t.dst ++ (comma ++ (to_decimal t.amount ++ b')' ∷ [])))))

abbrev pub quote : ℕ
quote = 34

newline : ℕ
newline = 10

unfoldable pub quoted : List ℕ → List ℕ
quoted text = quote ∷ (text ++ quote ∷ [])

unfoldable pub node_list : List (List ℕ) → List ℕ
node_list [] = []
node_list (n ∷ []) = n
node_list (n ∷ m ∷ ns) = n ++ (comma ++ node_list (m ∷ ns))

rows : List Txn → List ℕ
unfolding transaction quoted newline
rows [] = []
rows (t ∷ ts) = b',' ∷ (quoted (transaction t) ++ (b',' ∷ newline ∷ rows ts))

first_row : List ℕ → List (List ℕ) → List ℕ
unfolding quoted node_list newline
first_row text live_nodes =
    b'1'
    ∷ b','
    ∷ (quoted text
        ++ (b',' ∷ (quoted (b'[' ∷ (node_list live_nodes ++ b']' ∷ [])) ++ newline ∷ [])))

unfoldable pub write_csv : List Txn → List (List ℕ) → List ℕ
unfolding first_row rows transaction newline
write_csv [] live_nodes =
    codes "Set Number,Transactions,Live Nodes" ++ (newline ∷ first_row [] live_nodes)
write_csv (t ∷ ts) live_nodes =
    codes "Set Number,Transactions,Live Nodes"
    ++ (newline ∷ (first_row (transaction t) live_nodes ++ rows ts))
