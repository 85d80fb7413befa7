-- ===== src/Database.antt =====
-- The table of balances that a node keeps in SQLite: `InitializeDatabase`, `InitDB`, `UpdateBalance`,
-- `SetBalance` and `GetBalance` of src/paxos_node.cpp. SQLite is a parameter: a state of the file, and
-- what each statement of the program does to it. The pragmas, which set how it is written, and the
-- messages to `std::cerr` are left out.
use multi_paxos_distributed.Prelude.{
  ℕ, zero, suc, Bool, true, ◌&&◌, Option, none, some, leb, if◌then◌else◌, ℤ, pos, negsuc, ◌-ℤ◌,
}

-- The statements, with whether each succeeds. `select_balance` is `none` where there is no row to read.
pub record Sqlite : Type 1 where
  pub File : Type 0
  pub opens : File → Bool
  pub create_table : File → File × Bool
  pub count_rows : File → Option ℕ
  pub begin_transaction : File → File
  pub commit : File → File
  pub reset_balances : File → File × Bool
  pub prepares_insert : File → Bool
  pub insert_or_ignore : ℕ → File → File × Bool
  pub prepares_update : File → Bool
  pub add_balance : ℤ → ℕ → File → File × Bool
  pub prepares_set : File → Bool
  pub put_balance : ℤ → ℕ → File → File × Bool
  pub select_balance : ℕ → File → Option ℤ

-- `db_` and `update_stmt_`, as tests for null, and `alv_`.
pub record Handle : Type 0 where
  pub is_open : Bool
  pub has_update : Bool
  pub alv : Bool

-- `row_count` is 0 where the rows cannot be counted.
unfoldable pub or_zero : Option ℕ → ℕ
or_zero none = 0
or_zero (some n) = n

module _ (q : Sqlite) where
  open q use {
    File, opens, create_table, count_rows, begin_transaction, commit, reset_balances,
    prepares_insert, insert_or_ignore, prepares_update, add_balance, prepares_set, put_balance,
    select_balance,
  }

  -- The loop over the items, from `item` on.
  unfoldable pub insert_items : ℕ → ℕ → File → File
  insert_items zero item d = d
  insert_items (suc rounds) item d = insert_items rounds (suc item) (insert_or_ignore item d).0

  -- What is done to the rows inside of the transaction.
  unfoldable pub fill_rows : ℕ → File → File
  unfolding insert_items
  fill_rows row_count d =
      if leb 9000 row_count
      then (reset_balances d).0
      else if prepares_insert d
      then insert_items 9000 1 d
      else d

  -- `InitializeDatabase`.
  unfoldable pub initialize_database : File → Handle → File × Handle
  unfolding fill_rows or_zero
  initialize_database d h =
      let made = create_table d in
      let filled = commit (fill_rows (or_zero (count_rows made.0)) (begin_transaction made.0)) in
      let opened : Handle = record h { is_open = true } in
      if opens d
      then (if made.1
          then (filled, record opened { has_update = prepares_update filled })
          else (made.0, opened))
      else (d, h)

  -- `InitDB`: opens the file once more.
  unfoldable pub init_db : File → Handle → Handle
  init_db d h = if opens d then record h { is_open = true; has_update = prepares_update d } else h

  -- `UpdateBalance`.
  unfoldable pub update_balance : ℕ → ℤ → Bool → Handle → File → File
  update_balance item_id amount is_sender h d =
      if h.has_update && h.alv
      then (add_balance (if is_sender then pos 0 -ℤ amount else amount) item_id d).0
      else d

  -- `SetBalance`.
  unfoldable pub set_balance : ℕ → ℤ → Handle → File → File
  set_balance item_id new_balance h d =
      if h.is_open && h.alv
      then (if prepares_set d then (put_balance new_balance item_id d).0 else d)
      else d

  -- `GetBalance`: -1 where there is nothing to read.
  unfoldable pub get_balance : ℕ → Handle → File → ℤ
  get_balance item_id h d =
      if h.is_open && h.alv
      then elim (select_balance item_id d) [ none ↦ negsuc 0 | some b ↦ b ]
      else negsuc 0
