-- ===== src/Launch/NodeNames.antt =====
-- The list of live nodes that `write_csv` (src/benchmark.h) writes, as `main` of src/node_launch.cpp
-- reads it.
use mathlib.Core.List.{append-nil}
use multi_paxos_distributed.Launch.Fields.{scan_int, scan_digits}
use multi_paxos_distributed.Launch.Integers.{stoi_int}
use multi_paxos_distributed.Launch.Nodes.{
  is_blank, trim_left, keep_unless_blank, trim_right, cons_head, split_commas, insert_id,
  insert_name, insert_names, before_bracket, insert_inner, parse_nodes,
}
use multi_paxos_distributed.Benchmark.Csv.{decimal, to_decimal, node_list}
use multi_paxos_distributed.Benchmark.Decimal.{
  scan_digits-decimal, StartsWithDigit, decimal-StartsWithDigit, scan_int-digits,
}
use multi_paxos_distributed.Prelude.{
  ◌≤◌, ◌≢◌, ℕ, zero, suc, ◌+◌, ◌/◌, ◌%◌, ◌<◌, ◌≡◌, refl, ap, subst, ◌∙◌, true, false, some, List,
  [], ◌∷◌, ◌++◌, ◌||◌, ltb, ◌==◌, if_cases, arith, pos, map, contains, insert_set,
  contains-insert_set,
}

-- A text of the digits, after an `n` perhaps: no comma, bracket or space.
abbrev pub Plain : List ℕ → Type 0
Plain [] = Unit {0}
Plain (x ∷ xs) = (b'0' ≤ x) × (x ≤ b'n') × (x ≢ b']') × Plain xs

append-Plain : (xs ys : List ℕ) → Plain xs → Plain ys → Plain (xs ++ ys)
append-Plain [] ys h k = k
append-Plain (x ∷ xs) ys h k = (h.0, h.1, h.2, append-Plain xs ys h.3 k)

decimal-Plain : (fuel n : ℕ) → Plain (decimal fuel n)
unfolding decimal
decimal-Plain zero n = tt
decimal-Plain (suc fuel) n =
    if_cases Plain (ltb n 10) _ _ (λ low. (ground arith, ground arith, ground arith, tt))
      (λ high.
        append-Plain (decimal fuel (n / 10)) ((n % 10 + b'0') ∷ []) (decimal-Plain fuel (n / 10))
          (omega arith, omega arith, omega arith, tt))

-- `n3`.
abbrev pub node_name : ℕ → List ℕ
node_name id = b'n' ∷ to_decimal id

node_name-Plain : (id : ℕ) → Plain (node_name id)
unfolding to_decimal
node_name-Plain id = (omega arith, omega arith, omega arith, decimal-Plain (suc id) id)

split_commas-Plain :
    (xs rest : List ℕ) → Plain xs → split_commas (xs ++ b',' ∷ rest) ≡ xs ∷ split_commas rest
unfolding split_commas
split_commas-Plain [] rest h = refl
split_commas-Plain (x ∷ xs) rest h =
    let no_comma : ((x == b',') ≡ false) = ground (arith, h.0) in
    rw no_comma (ap (cons_head x) (split_commas-Plain xs rest h.3))

split_commas-last : (x : ℕ) (xs : List ℕ) → Plain (x ∷ xs) → split_commas (x ∷ xs) ≡ (x ∷ xs) ∷ []
unfolding split_commas
split_commas-last x [] h =
    let no_comma : ((x == b',') ≡ false) = ground (arith, h.0) in rw no_comma refl
split_commas-last x (y ∷ ys) h =
    let no_comma : ((x == b',') ≡ false) = ground (arith, h.0) in
    rw no_comma (ap (cons_head x) (split_commas-last y ys h.3))

trim_right-Plain : (xs : List ℕ) → Plain xs → trim_right xs ≡ xs
unfolding trim_right keep_unless_blank is_blank
trim_right-Plain [] h = refl
trim_right-Plain (x ∷ []) h = ground (arith, h.0)
trim_right-Plain (x ∷ y ∷ ys) h = ap (keep_unless_blank x) (trim_right-Plain (y ∷ ys) h.3)

trim_left-name : (id : ℕ) → trim_left (node_name id) ≡ node_name id
unfolding trim_left
trim_left-name id = refl

trim_left-space : (id : ℕ) → trim_left (b' ' ∷ node_name id) ≡ node_name id
unfolding trim_left
trim_left-space id = refl

trim-name : (id : ℕ) → trim_right (trim_left (node_name id)) ≡ node_name id
trim-name id =
    ap trim_right (trim_left-name id) ∙ trim_right-Plain (node_name id) (node_name-Plain id)

trim-space : (id : ℕ) → trim_right (trim_left (b' ' ∷ node_name id)) ≡ node_name id
trim-space id =
    ap trim_right (trim_left-space id) ∙ trim_right-Plain (node_name id) (node_name-Plain id)

insert_name-digits :
    (text ids : List ℕ)
    → StartsWithDigit text
    → insert_name (b'n' ∷ text) ids ≡ insert_id (stoi_int text) ids
unfolding insert_name
insert_name-digits [] ids h = absurd h
insert_name-digits (x ∷ xs) ids h = refl

stoi_int-to_decimal : (id : ℕ) → id < 2147483648 → stoi_int (to_decimal id) ≡ some (pos id)
unfolding stoi_int to_decimal scan_digits
stoi_int-to_decimal id h =
    let digits = decimal-StartsWithDigit (suc id) id [] (omega arith) in
    let whole = append-nil (decimal (suc id) id) in
    let fits : (ltb id 2147483648 ≡ true) = ground arith in
    rw
      (subst (λ t. scan_int t ≡ some (pos (scan_digits 0 t).0, (scan_digits 0 t).1)) whole
        (scan_int-digits _ digits))
      (rw
        (subst (λ t. scan_digits 0 t ≡ (id, [])) whole
          (scan_digits-decimal (suc id) id [] (omega arith)))
        (rw fits refl))

insert_name-node_name :
    (id : ℕ) (ids : List ℕ) → id < 2147483648 → insert_name (node_name id) ids ≡ insert_set id ids
unfolding to_decimal insert_id
insert_name-node_name id ids h =
    insert_name-digits (to_decimal id) ids (
      subst StartsWithDigit (append-nil (decimal (suc id) id))
        (decimal-StartsWithDigit (suc id) id [] (omega arith)))
    ∙ ap (λ o. insert_id o ids) (stoi_int-to_decimal id h)

-- Ids that `std::stoi` reads.
abbrev pub Fits : List ℕ → Type 0
Fits [] = Unit {0}
Fits (id ∷ ids) = (id < 2147483648) × Fits ids

abbrev insert_all : List ℕ → List ℕ → List ℕ
insert_all [] s = s
insert_all (id ∷ ids) s = insert_all ids (insert_set id s)

insert_names-spaced :
    (id : ℕ) (ids s : List ℕ)
    → Fits (id ∷ ids)
    → insert_names (split_commas (b' ' ∷ node_list (map node_name (id ∷ ids)))) s
      ≡ insert_all (id ∷ ids) s
unfolding node_list split_commas insert_names
insert_names-spaced id [] s h =
    ap (λ names. insert_names (cons_head b' ' names) s)
      (split_commas-last b'n' (to_decimal id) (node_name-Plain id))
    ∙ ap (λ name. insert_name name s) (trim-space id)
    ∙ insert_name-node_name id s h.0
insert_names-spaced id (j ∷ js) s h =
    ap (λ names. insert_names (cons_head b' ' names) s)
      (split_commas-Plain (node_name id) (b' ' ∷ node_list (map node_name (j ∷ js)))
        (node_name-Plain id))
    ∙ ap
        (λ name.
          insert_names (split_commas (b' ' ∷ node_list (map node_name (j ∷ js))))
            (insert_name name s))
        (trim-space id)
    ∙ ap (insert_names (split_commas (b' ' ∷ node_list (map node_name (j ∷ js)))))
        (insert_name-node_name id s h.0)
    ∙ insert_names-spaced j js (insert_set id s) h.1

insert_names-node_list :
    (ids s : List ℕ)
    → Fits ids
    → insert_names (split_commas (node_list (map node_name ids))) s ≡ insert_all ids s
unfolding node_list insert_names split_commas
insert_names-node_list [] s h = refl
insert_names-node_list (id ∷ []) s h =
    ap (λ names. insert_names names s) (split_commas-last b'n' (to_decimal id) (node_name-Plain id))
    ∙ ap (λ name. insert_name name s) (trim-name id)
    ∙ insert_name-node_name id s h.0
insert_names-node_list (id ∷ j ∷ js) s h =
    ap (λ names. insert_names names s)
      (split_commas-Plain (node_name id) (b' ' ∷ node_list (map node_name (j ∷ js)))
        (node_name-Plain id))
    ∙ ap
        (λ name.
          insert_names (split_commas (b' ' ∷ node_list (map node_name (j ∷ js))))
            (insert_name name s))
        (trim-name id)
    ∙ ap (insert_names (split_commas (b' ' ∷ node_list (map node_name (j ∷ js)))))
        (insert_name-node_name id s h.0)
    ∙ insert_names-spaced j js (insert_set id s) h.1

contains-insert_all :
    (ids s : List ℕ) (k : ℕ) → contains (insert_all ids s) k ≡ contains ids k || contains s k
unfolding contains
contains-insert_all [] s k = refl
contains-insert_all (id ∷ ids) s k =
    ground (arith, contains-insert_all ids (insert_set id s) k, contains-insert_set id k s)

before_bracket-append : (inner : List ℕ) → before_bracket (inner ++ b']' ∷ []) ≡ some inner
unfolding before_bracket
before_bracket-append [] = refl
before_bracket-append (x ∷ []) = refl
before_bracket-append (x ∷ y ∷ ys) = rw (before_bracket-append (y ∷ ys)) refl

-- The launcher reads the list of live nodes that the benchmark writes, with names like `n3` of ids
-- below 2^31, as those ids: they are added to the set of active nodes, and no other id is.
pub parse_nodes-node_list :
    (ids s : List ℕ) (k : ℕ)
    → Fits ids
    → contains (parse_nodes (b'[' ∷ (node_list (map node_name ids) ++ b']' ∷ [])) s) k
      ≡ contains ids k || contains s k
unfolding parse_nodes
parse_nodes-node_list ids s k h =
    ap (λ o. contains (insert_inner o s) k) (before_bracket-append (node_list (map node_name ids)))
    ∙ ap (λ r. contains r k) (insert_names-node_list ids s h)
    ∙ contains-insert_all ids s k
