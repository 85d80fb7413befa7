-- ===== src/Benchmark/Decimal.antt =====
-- What the benchmark writes (src/benchmark.h), the launcher reads back (src/node_launch.cpp).
use mathlib.Core.List.{append_assoc}
use multi_paxos_distributed.Account.{is_digit, is_space}
use multi_paxos_distributed.Prelude.{
  ℕ, zero, suc, ◌+◌, ◌*◌, ◌/◌, ◌%◌, ◌<◌, ◌≡◌, refl, sym, ap, subst, ◌∙◌, Bool-cases, inl, inr, true,
  false, none, some, List, [], ◌∷◌, ◌++◌, ltb, ◌==◌, if◌then◌else◌, if_cases, if_yes, if_no, arith,
  pos, ◌>>=◌,
}
use multi_paxos_distributed.Launch.Fields.{
  scan_digits, skip_spaces, scan_unsigned, scan_signed, scan_int, scan_char, single, triple,
  scan_triple, scan_single, or_else, parse_transaction,
}
use multi_paxos_distributed.Benchmark.{Txn}
use multi_paxos_distributed.Benchmark.Csv.{decimal, to_decimal, transaction}

scan_digits-stop :
    (n c : ℕ) (rest : List ℕ) → is_digit c ≡ false → scan_digits n (c ∷ rest) ≡ (n, c ∷ rest)
unfolding scan_digits
scan_digits-stop n c rest h = if_no (is_digit c) _ _ h

scan-digit :
    (acc d : ℕ) (rest : List ℕ)
    → d < 10
    → scan_digits acc ((d + b'0') ∷ rest) ≡ scan_digits (acc * 10 + d) rest
unfolding scan_digits is_digit
scan-digit acc d rest h =
    let digit : (is_digit (d + 48) ≡ true) = ground arith in
    rw digit (ap (λ k. scan_digits (acc * 10 + k) rest) (omega arith))

-- The digits of a number, read back.
pub scan_digits-decimal :
    (fuel n : ℕ) (rest : List ℕ)
    → n < fuel
    → scan_digits 0 (decimal fuel n ++ rest) ≡ scan_digits n rest
unfolding decimal
scan_digits-decimal zero n rest h = absurd (omega arith)
scan_digits-decimal (suc fuel) n rest h =
    if_cases (λ ds. scan_digits 0 (ds ++ rest) ≡ scan_digits n rest) (ltb n 10) _ _
      (λ low. scan-digit 0 n rest (ground arith) ∙ ap (λ k. scan_digits k rest) (omega arith))
      (λ high.
        ap (scan_digits 0) (append_assoc (decimal fuel (n / 10)) ((n % 10 + b'0') ∷ []) rest)
        ∙ scan_digits-decimal fuel (n / 10) ((n % 10 + b'0') ∷ rest) (grind arith)
        ∙ scan-digit (n / 10) (n % 10) rest (omega arith)
        ∙ ap (λ k. scan_digits k rest) (omega arith))

-- A text that starts with a digit.
abbrev pub StartsWithDigit : List ℕ → Type 0
StartsWithDigit [] = ⊥
StartsWithDigit (x ∷ xs) = is_digit x ≡ true

pub decimal-StartsWithDigit :
    (fuel n : ℕ) (rest : List ℕ) → n < fuel → StartsWithDigit (decimal fuel n ++ rest)
unfolding decimal is_digit
decimal-StartsWithDigit zero n rest h = absurd (omega arith)
decimal-StartsWithDigit (suc fuel) n rest h =
    if_cases (λ ds. StartsWithDigit (ds ++ rest)) (ltb n 10) _ _ (λ low. ground arith)
      (λ high.
        subst StartsWithDigit
          (sym (append_assoc (decimal fuel (n / 10)) ((n % 10 + b'0') ∷ []) rest))
          (decimal-StartsWithDigit fuel (n / 10) ((n % 10 + b'0') ∷ rest) (grind arith)))

no_sign :
    (x : ℕ)
    → is_digit x ≡ true
    → (is_space x ≡ false) × (((x == b'-') ≡ false) × ((x == b'+') ≡ false))
unfolding is_digit is_space
no_sign x h = (ground arith, (ground arith, ground arith))

skip_spaces-digit : (x : ℕ) (xs : List ℕ) → is_digit x ≡ true → skip_spaces (x ∷ xs) ≡ x ∷ xs
unfolding skip_spaces
skip_spaces-digit x xs h = rw (no_sign x h).0 refl

scan_signed-digit :
    (x : ℕ) (xs : List ℕ)
    → is_digit x ≡ true
    → scan_signed (x ∷ xs) ≡ (scan_unsigned (x ∷ xs) >>= λ r. some (pos r.0, r.1))
unfolding scan_signed
scan_signed-digit x xs h = rw (no_sign x h).1.0 (rw (no_sign x h).1.1 refl)

scan_unsigned-digit :
    (x : ℕ) (xs : List ℕ)
    → is_digit x ≡ true
    → scan_unsigned (x ∷ xs) ≡ some (scan_digits 0 (x ∷ xs))
unfolding scan_unsigned
scan_unsigned-digit x xs h = if_yes (is_digit x) _ _ h

pub scan_int-digits :
    (text : List ℕ)
    → StartsWithDigit text
    → scan_int text ≡ some (pos (scan_digits 0 text).0, (scan_digits 0 text).1)
unfolding scan_int
scan_int-digits [] h = absurd h
scan_int-digits (x ∷ xs) h =
    ap scan_signed (skip_spaces-digit x xs h)
    ∙ scan_signed-digit x xs h
    ∙ ap (λ o. o >>= λ r. some (pos r.0, r.1)) (scan_unsigned-digit x xs h)

-- `%d` on a number that was written, with a character after it that is no digit.
scan_int-to_decimal :
    (n c : ℕ) (rest : List ℕ)
    → is_digit c ≡ false
    → scan_int (to_decimal n ++ c ∷ rest) ≡ some (pos n, c ∷ rest)
unfolding to_decimal
scan_int-to_decimal n c rest h =
    scan_int-digits _ (decimal-StartsWithDigit (suc n) n (c ∷ rest) (omega arith))
    ∙ ap (λ r. some (pos r.0, r.1))
        (scan_digits-decimal (suc n) n (c ∷ rest) (omega arith) ∙ scan_digits-stop n c rest h)

skip_spaces-digits : (text : List ℕ) → StartsWithDigit text → skip_spaces text ≡ text
skip_spaces-digits [] h = absurd h
skip_spaces-digits (x ∷ xs) h = skip_spaces-digit x xs h

skip_spaces-to_decimal :
    (n c : ℕ) (rest : List ℕ)
    → skip_spaces (b' ' ∷ (to_decimal n ++ c ∷ rest)) ≡ to_decimal n ++ c ∷ rest
unfolding to_decimal skip_spaces is_space
skip_spaces-to_decimal n c rest =
    skip_spaces-digits _ (decimal-StartsWithDigit (suc n) n (c ∷ rest) (omega arith))

comma_ends : is_digit b',' ≡ false
unfolding is_digit
comma_ends = refl

paren_ends : is_digit b')' ≡ false
unfolding is_digit
paren_ends = refl

-- A number after a comma and a space, and what follows it.
scan_next :
    (n c : ℕ) (rest : List ℕ)
    → is_digit c ≡ false
    → scan_int (skip_spaces (b' ' ∷ (to_decimal n ++ c ∷ rest))) ≡ some (pos n, c ∷ rest)
scan_next n c rest h =
    ap scan_int (skip_spaces-to_decimal n c rest) ∙ scan_int-to_decimal n c rest h

scan_triple-triple :
    (a b d : ℕ)
    → scan_triple (
        b'('
        ∷ (to_decimal a
            ++ b',' ∷ b' ' ∷ (to_decimal b ++ b',' ∷ b' ' ∷ (to_decimal d ++ b')' ∷ []))))
      ≡ some (triple (pos a) (pos b) (pos d))
unfolding scan_triple scan_char
scan_triple-triple a b d =
    rw
      (scan_int-to_decimal a b','
        (b' ' ∷ (to_decimal b ++ b',' ∷ b' ' ∷ (to_decimal d ++ b')' ∷ []))) comma_ends)
      (rw (scan_next b b',' (b' ' ∷ (to_decimal d ++ b')' ∷ [])) comma_ends)
        (rw (scan_next d b')' [] paren_ends) refl))

scan_triple-single : (a : ℕ) → scan_triple (b'(' ∷ (to_decimal a ++ b')' ∷ [])) ≡ none
unfolding scan_triple scan_char
scan_triple-single a = rw (scan_int-to_decimal a b')' [] paren_ends) refl

scan_single-single :
    (a : ℕ) → scan_single (b'(' ∷ (to_decimal a ++ b')' ∷ [])) ≡ some (single (pos a))
unfolding scan_single scan_char
scan_single-single a = rw (scan_int-to_decimal a b')' [] paren_ends) refl

parse-triple :
    (a b d : ℕ)
    → parse_transaction (
        b'('
        ∷ (to_decimal a
            ++ b',' ∷ b' ' ∷ (to_decimal b ++ b',' ∷ b' ' ∷ (to_decimal d ++ b')' ∷ []))))
      ≡ triple (pos a) (pos b) (pos d)
unfolding parse_transaction or_else
parse-triple a b d = rw (scan_triple-triple a b d) refl

parse-single : (a : ℕ) → parse_transaction (b'(' ∷ (to_decimal a ++ b')' ∷ [])) ≡ single (pos a)
unfolding parse_transaction or_else
parse-single a = rw (scan_triple-single a) (rw (scan_single-single a) refl)

-- The launcher reads a transaction that the benchmark wrote as the same one: a single item for one
-- that only reads, and else the sender, the receiver and the amount.
pub parse_transaction-transaction :
    (t : Txn)
    → parse_transaction (transaction t)
      ≡ (if t.is_read then single (pos t.src) else triple (pos t.src) (pos t.dst) (pos t.amount))
unfolding transaction
parse_transaction-transaction t = elim (Bool-cases t.is_read) [
  | inl reads ↦ rw reads (parse-single t.src)
  | inr moves ↦ rw moves (parse-triple t.src t.dst t.amount)
]
