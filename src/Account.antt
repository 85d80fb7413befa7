-- ===== src/Account.antt =====
-- Account ids as the messages carry them: decimal texts, which the node reads by `std::stoi`.
use Prim.Native.Char.{code}
use Prim.Native.String.{String}
use multi_paxos_distributed.Prelude.{
  ℕ, zero, ◌+◌, ◌-◌, ◌*◌, ◌≡◌, refl, Bool, ◌&&◌, ◌||◌, Option, none, some, List, [], ◌∷◌, leb, ltb,
  ◌==◌, if◌then◌else◌,
}

abbrev pub codes : String → List ℕ
codes String.[] = []
codes (String.◌∷◌ c s) = code c ∷ codes s

unfoldable pub is_digit : ℕ → Bool
is_digit c = leb b'0' c && leb c b'9'

unfoldable pub is_space : ℕ → Bool
is_space c = c == b' ' || leb 9 c && leb c 13

-- The value of the longest prefix of digits, after the digits read so far.
unfoldable pub read_digits : ℕ → List ℕ → ℕ
unfolding is_digit
read_digits acc [] = acc
read_digits acc (x ∷ xs) =
    let rest = read_digits (acc * 10 + (x - b'0')) xs in if is_digit x then rest else acc

-- `std::stoi` throws without a digit, and past 2147483647.
unfoldable pub unsigned : List ℕ → Option ℕ
unfolding is_digit read_digits
unsigned [] = none
unsigned (x ∷ xs) =
    let n = read_digits 0 (x ∷ xs) in
    if is_digit x then (if ltb 2147483647 n then none else some n) else none

-- `-0` is 0.
unfoldable pub negated : Option ℕ → Option ℕ
negated (some zero) = some zero
negated _ = none

unfoldable pub after_spaces : List ℕ → Option ℕ
unfolding is_space unsigned negated
after_spaces [] = none
after_spaces (x ∷ xs) =
    let rest = after_spaces xs in
    if is_space x
    then rest
    else if x == b'+'
    then unsigned xs
    else if x == b'-'
    then negated (unsigned xs)
    else unsigned (x ∷ xs)

-- `std::stoi(text)`, where it gives a natural number. `none` stands for the exceptions that it
-- throws, which nothing in the program catches, and for a negative number, with which the code
-- would index its vectors of accounts out of bounds.
unfoldable pub stoi : String → Option ℕ
unfolding after_spaces
stoi text = after_spaces (codes text)

stoi_plain : stoi "4001" ≡ some 4001
unfolding stoi
stoi_plain = refl

stoi_prefix : stoi " +12x" ≡ some 12
unfolding stoi
stoi_prefix = refl

-- The empty text, which no-ops and unset messages carry, throws.
pub stoi_empty : stoi "" ≡ none
unfolding stoi
stoi_empty = refl
