-- ===== src/Launch/Fields.antt =====
-- The transaction of a line of the test file: `main` of src/node_launch.cpp, after the spaces around
-- the text were removed, and for a text that starts neither with `F` nor with `R`. Texts are lists
-- of bytes. `sscanf` is the one of the C standard; its numbers are not bounded here.
use multi_paxos_distributed.Account.{is_digit, is_space}
use multi_paxos_distributed.Prelude.{
  ℕ, zero, suc, ◌+◌, ◌-◌, ◌*◌, ◌>>=◌, Option, none, some, List, [], ◌∷◌, ◌==◌, if◌then◌else◌, ℤ,
  pos, negsuc,
}

-- The digits at the start of a text, after those with the value `acc`, and what follows them.
unfoldable pub scan_digits : ℕ → List ℕ → ℕ × List ℕ
unfolding is_digit
scan_digits acc [] = (acc, [])
scan_digits acc (x ∷ xs) =
    let rest = scan_digits (acc * 10 + (x - b'0')) xs in if is_digit x then rest else (acc, x ∷ xs)

-- A space of a format.
unfoldable pub skip_spaces : List ℕ → List ℕ
unfolding is_space
skip_spaces [] = []
skip_spaces (x ∷ xs) = let rest = skip_spaces xs in if is_space x then rest else x ∷ xs

unfoldable pub scan_unsigned : List ℕ → Option (ℕ × List ℕ)
unfolding is_digit scan_digits
scan_unsigned [] = none
scan_unsigned (x ∷ xs) = if is_digit x then some (scan_digits 0 (x ∷ xs)) else none

minus : ℕ → ℤ
minus zero = pos zero
minus (suc n) = negsuc n

unfoldable pub scan_signed : List ℕ → Option (ℤ × List ℕ)
unfolding scan_unsigned minus
scan_signed [] = none
scan_signed (x ∷ xs) =
    if x == b'-'
    then (scan_unsigned xs >>= λ r. some (minus r.0, r.1))
    else if x == b'+'
    then (scan_unsigned xs >>= λ r. some (pos r.0, r.1))
    else scan_unsigned (x ∷ xs) >>= λ r. some (pos r.0, r.1)

-- `%d`.
unfoldable pub scan_int : List ℕ → Option (ℤ × List ℕ)
unfolding skip_spaces scan_signed
scan_int text = scan_signed (skip_spaces text)

-- A character of a format that is no space.
unfoldable pub scan_char : ℕ → List ℕ → Option (List ℕ)
scan_char c [] = none
scan_char c (x ∷ xs) = if x == c then some xs else none

-- `read_only` is set for a single item; then `to_c` and `amount` are -1.
pub data Fields : Type 0 where
  failed : Fields
  single : ℤ → Fields
  triple : ℤ → ℤ → ℤ → Fields

-- `sscanf(text, "(%d, %d, %d)", ...) == 3`. What follows the third number is not looked at.
unfoldable pub scan_triple : List ℕ → Option Fields
unfolding scan_int scan_char skip_spaces
scan_triple text = scan_char b'(' text >>= λ text. scan_int text >>= λ from.
    scan_char b',' from.1 >>= λ text. scan_int (skip_spaces text) >>= λ to.
    scan_char b',' to.1 >>= λ text.
    scan_int (skip_spaces text) >>= λ amount. some (triple from.0 to.0 amount.0)

-- `sscanf(text, "(%d)", ...) == 1`.
unfoldable pub scan_single : List ℕ → Option Fields
unfolding scan_int scan_char
scan_single text = scan_char b'(' text >>= λ text. scan_int text >>= λ from. some (single from.0)

unfoldable pub or_else : Option Fields → Fields → Fields
or_else none other = other
or_else (some f) other = f

unfoldable pub parse_transaction : List ℕ → Fields
unfolding scan_triple scan_single or_else
parse_transaction text = or_else (scan_triple text) (or_else (scan_single text) failed)
