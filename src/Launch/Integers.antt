-- ===== src/Launch/Integers.antt =====
-- `std::stoi` and `std::to_string` on the bytes of a text, as `main` of src/node_launch.cpp calls
-- them.
use Prim.Native.Char.{Char}
use Prim.Native.String.{String}
use multi_paxos_distributed.Launch.Fields.{scan_int}
use multi_paxos_distributed.Prelude.{
  ℕ, zero, suc, ◌/◌, ◌%◌, ◌>>=◌, ◌≡◌, refl, Option, none, some, List, [], ◌∷◌, ltb, if◌then◌else◌,
  ℤ, pos, negsuc,
}

-- The values of an `int`.
in_int : ℤ → Option ℤ
in_int (pos n) = if ltb n 2147483648 then some (pos n) else none
in_int (negsuc n) = if ltb n 2147483648 then some (negsuc n) else none

-- `std::stoi`; `none` where it throws.
unfoldable pub stoi_int : List ℕ → Option ℤ
unfolding scan_int in_int
stoi_int text = scan_int text >>= λ r. in_int r.0

unfoldable pub digit : ℕ → Char
digit zero = "0"
digit (suc zero) = "1"
digit (suc (suc zero)) = "2"
digit (suc (suc (suc zero))) = "3"
digit (suc (suc (suc (suc zero)))) = "4"
digit (suc (suc (suc (suc (suc zero))))) = "5"
digit (suc (suc (suc (suc (suc (suc zero)))))) = "6"
digit (suc (suc (suc (suc (suc (suc (suc zero))))))) = "7"
digit (suc (suc (suc (suc (suc (suc (suc (suc zero)))))))) = "8"
digit (suc (suc (suc (suc (suc (suc (suc (suc (suc zero))))))))) = "9"
digit _ = "?"

-- `std::to_string` of a number that is not negative; `fuel` digits are enough for a number below
-- `fuel`.
unfoldable pub text_of : ℕ → ℕ → String → String
unfolding digit
text_of zero n rest = rest
text_of (suc fuel) n rest =
    let more = text_of fuel (n / 10) (String.◌∷◌ (digit (n % 10)) rest) in
    if ltb n 10 then String.◌∷◌ (digit n) rest else more

unfoldable pub to_string : ℤ → String
unfolding text_of
to_string (pos n) = text_of (suc n) n String.[]
to_string (negsuc n) = String.◌∷◌ "-" (text_of (suc (suc n)) (suc n) String.[])

minus_one : to_string (negsuc 0) ≡ "-1"
unfolding to_string
minus_one = refl

four_digits : to_string (pos 4070) ≡ "4070"
unfolding to_string
four_digits = refl

read_back : stoi_int (b'-' ∷ b'1' ∷ b'2' ∷ b')' ∷ []) ≡ some (negsuc 11)
unfolding stoi_int
read_back = refl
