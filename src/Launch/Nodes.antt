-- ===== src/Launch/Nodes.antt =====
-- The list of live nodes of a line of the test file, and the node of a command that fails or revives
-- one: `main` of src/node_launch.cpp. Texts are lists of bytes. The list has been through
-- `boost::algorithm::trim_copy`. An id below 0, which no node has, is left out of the set.
use multi_paxos_distributed.Prelude.{
  ℕ, ◌>>=◌, ◌≡◌, refl, Bool, ◌||◌, Option, none, some, List, [], ◌∷◌, ◌==◌, if◌then◌else◌, ℤ, pos,
  negsuc, insert_set,
}
use multi_paxos_distributed.Launch.Integers.{stoi_int}

-- One of " \t\n\r".
unfoldable pub is_blank : ℕ → Bool
is_blank c = c == b' ' || (c == 9 || (c == 10 || c == 13))

-- `erase(0, find_first_not_of(" \t\n\r"))`.
unfoldable pub trim_left : List ℕ → List ℕ
unfolding is_blank
trim_left [] = []
trim_left (x ∷ xs) = let rest = trim_left xs in if is_blank x then rest else x ∷ xs

unfoldable pub keep_unless_blank : ℕ → List ℕ → List ℕ
unfolding is_blank
keep_unless_blank x [] = if is_blank x then [] else x ∷ []
keep_unless_blank x (y ∷ ys) = x ∷ y ∷ ys

-- `erase(find_last_not_of(" \t\n\r") + 1)`.
unfoldable pub trim_right : List ℕ → List ℕ
unfolding keep_unless_blank
trim_right [] = []
trim_right (x ∷ xs) = keep_unless_blank x (trim_right xs)

unfoldable pub cons_head : ℕ → List (List ℕ) → List (List ℕ)
cons_head x [] = (x ∷ []) ∷ []
cons_head x (s ∷ ss) = (x ∷ s) ∷ ss

-- What `std::getline(nodes_iss, node_id_str, ',')` reads, one after another.
unfoldable pub split_commas : List ℕ → List (List ℕ)
unfolding cons_head
split_commas [] = []
split_commas (x ∷ xs) =
    let rest = split_commas xs in if x == b',' then [] ∷ rest else cons_head x rest

unfoldable pub insert_id : Option ℤ → List ℕ → List ℕ
unfolding insert_set
insert_id none ids = ids
insert_id (some (negsuc n)) ids = ids
insert_id (some (pos n)) ids = insert_set n ids

-- An id like `n3`; others are passed over, and so is one at which `std::stoi` throws.
unfoldable pub insert_name : List ℕ → List ℕ → List ℕ
unfolding insert_id stoi_int
insert_name [] ids = ids
insert_name (x ∷ []) ids = ids
insert_name (x ∷ y ∷ ys) ids = if x == b'n' then insert_id (stoi_int (y ∷ ys)) ids else ids

unfoldable pub insert_names : List (List ℕ) → List ℕ → List ℕ
unfolding trim_left trim_right insert_name
insert_names [] ids = ids
insert_names (name ∷ names) ids = insert_names names (insert_name (trim_right (trim_left name)) ids)

-- The text without its last byte, which must be `]`.
unfoldable pub before_bracket : List ℕ → Option (List ℕ)
before_bracket [] = none
before_bracket (x ∷ []) = if x == b']' then some [] else none
before_bracket (x ∷ y ∷ ys) = before_bracket (y ∷ ys) >>= λ inner. some (x ∷ inner)

unfoldable pub insert_inner : Option (List ℕ) → List ℕ → List ℕ
unfolding insert_names split_commas
insert_inner none ids = ids
insert_inner (some inner) ids = insert_names (split_commas inner) ids

-- `active_nodes_set` after a line with this list.
unfoldable pub parse_nodes : List ℕ → List ℕ → List ℕ
unfolding insert_inner before_bracket
parse_nodes [] ids = ids
parse_nodes (x ∷ xs) ids = if x == b'[' then insert_inner (before_bracket xs) ids else ids

-- What stands before the first `)`.
unfoldable pub until_paren : List ℕ → List ℕ
until_paren [] = []
until_paren (x ∷ xs) = let rest = until_paren xs in if x == b')' then [] else x ∷ rest

-- What stands between the first `n` and the first `)` after it.
unfoldable pub after_n : List ℕ → Option (List ℕ)
unfolding until_paren
after_n [] = none
after_n (x ∷ xs) = let rest = after_n xs in if x == b'n' then some (until_paren xs) else rest

unfoldable pub or_whole : List ℕ → Option (List ℕ) → List ℕ
or_whole text none = text
or_whole text (some id) = id

-- `fail_node_id` and `recover_node_id`. Without an `n` both positions are `npos`, and `substr` gives
-- the whole text.
unfoldable pub command_node : List ℕ → Option ℤ
unfolding after_n or_whole stoi_int
command_node text = stoi_int (or_whole text (after_n text))

command : command_node (b'F' ∷ b'(' ∷ b'n' ∷ b'4' ∷ b')' ∷ []) ≡ some (pos 4)
unfolding command_node
command = refl
