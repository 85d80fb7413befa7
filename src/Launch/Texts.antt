-- ===== src/Launch/Texts.antt =====
-- A number that `main` (src/node_launch.cpp) writes into a request is read back by the nodes and the
-- client, which call `std::stoi`.
use mathlib.Core.List.{append_assoc}
use Prim.Native.Char.{code}
use Prim.Native.String.{String}
use multi_paxos_distributed.Account.{
  codes, is_digit, is_space, read_digits, unsigned, after_spaces, stoi,
}
use multi_paxos_distributed.Launch.Fields.{scan_digits}
use multi_paxos_distributed.Launch.Integers.{digit, text_of, to_string}
use multi_paxos_distributed.Benchmark.Csv.{decimal}
use multi_paxos_distributed.Benchmark.Decimal.{
  scan_digits-decimal, StartsWithDigit, decimal-StartsWithDigit,
}
use multi_paxos_distributed.Prelude.{
  ℕ, zero, suc, ◌+◌, ◌-◌, ◌*◌, ◌/◌, ◌%◌, ◌<◌, ◌≤◌, ◌≡◌, refl, sym, ap, ◌∙◌, Bool-cases, inl, inr,
  some, List, [], ◌∷◌, ◌++◌, ltb, arith, pos,
}

code-digit : (n : ℕ) → n < 10 → code (digit n) ≡ n + b'0'
unfolding digit
code-digit zero h = refl
code-digit (suc zero) h = refl
code-digit (suc (suc zero)) h = refl
code-digit (suc (suc (suc zero))) h = refl
code-digit (suc (suc (suc (suc zero)))) h = refl
code-digit (suc (suc (suc (suc (suc zero))))) h = refl
code-digit (suc (suc (suc (suc (suc (suc zero)))))) h = refl
code-digit (suc (suc (suc (suc (suc (suc (suc zero))))))) h = refl
code-digit (suc (suc (suc (suc (suc (suc (suc (suc zero)))))))) h = refl
code-digit (suc (suc (suc (suc (suc (suc (suc (suc (suc zero))))))))) h = refl
code-digit (suc (suc (suc (suc (suc (suc (suc (suc (suc (suc n)))))))))) h = absurd (omega arith)

codes-text_of :
    (fuel n : ℕ) (rest : String)
    → n < fuel
    → codes (text_of fuel n rest) ≡ decimal fuel n ++ codes rest
unfolding text_of decimal
codes-text_of zero n rest h = absurd (omega arith)
codes-text_of (suc fuel) n rest h = elim (Bool-cases (ltb n 10)) [
  | inl low ↦ rw low (ap (λ c. c ∷ codes rest) (code-digit n (ground arith)))
  | inr high ↦ rw high (
      codes-text_of fuel (n / 10) (String.◌∷◌ (digit (n % 10)) rest) (grind arith)
      ∙ ap (λ c. decimal fuel (n / 10) ++ c ∷ codes rest) (code-digit (n % 10) (omega arith))
      ∙ sym (append_assoc (decimal fuel (n / 10)) ((n % 10 + b'0') ∷ []) (codes rest)))
]

read_digits-scan : (acc : ℕ) (text : List ℕ) → read_digits acc text ≡ (scan_digits acc text).0
unfolding read_digits scan_digits
read_digits-scan acc [] = refl
read_digits-scan acc (x ∷ xs) = elim (Bool-cases (is_digit x)) [
  | inl here ↦ rw here (read_digits-scan (acc * 10 + (x - b'0')) xs)
  | inr ends ↦ rw ends refl
]

unsigned-digits :
    (text : List ℕ) (n : ℕ)
    → StartsWithDigit text
    → (scan_digits 0 text).0 ≡ n
    → n ≤ 2147483647
    → after_spaces text ≡ some n
unfolding after_spaces unsigned is_space is_digit
unsigned-digits [] n d e h = absurd d
unsigned-digits (x ∷ xs) n d e h = ground (arith, read_digits-scan 0 (x ∷ xs))

-- `std::stoi` reads the text that `std::to_string` made of a number that is not negative, and fits
-- into an `int`, as that number.
pub stoi-to_string : (n : ℕ) → n ≤ 2147483647 → stoi (to_string (pos n)) ≡ some n
unfolding stoi to_string scan_digits
stoi-to_string n h =
    let made = codes-text_of (suc n) n String.[] (omega arith) in
    ap after_spaces made
    ∙ unsigned-digits (decimal (suc n) n ++ []) n
        (decimal-StartsWithDigit (suc n) n [] (omega arith))
        (ap (λ r. r.0) (scan_digits-decimal (suc n) n [] (omega arith))) h
