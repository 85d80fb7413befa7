-- ===== src/Trace/Window.antt =====
-- `ring_dump` (src/log.h) against the list of all statements.
use mathlib.Core.List.{append_assoc, append-nil}
use multi_paxos_distributed.Prelude.{
  ℕ, zero, suc, ◌+◌, ◌-◌, ◌%◌, ◌^◌, ◌≤◌, ◌<◌, ◌≡◌, ◌≢◌, refl, sym, ap, subst, ◌∙◌, arith, Option,
  none, some, inl, inr, true, false, Bool-cases, ==_iff, not-==, List, [], ◌∷◌, ◌++◌, leb, ltb,
  ◌==◌, if◌then◌else◌, update, length, length-append,
}
use multi_paxos_distributed.Trace.{
  TraceRing, ring_slots, slot_len, take, overwrite, ring_write, c_str, dump_line, dump_from, header,
  footer, ring_dump,
}

abbrev get_elem? : List (List ℕ) → ℕ → Option (List ℕ)
get_elem? [] i = none
get_elem? (x ∷ xs) zero = some x
get_elem? (x ∷ xs) (suc i) = get_elem? xs i

-- The statements from the `n`th on.
abbrev pub drop : ℕ → List (List ℕ) → List (List ℕ)
drop zero ws = ws
drop (suc n) [] = []
drop (suc n) (w ∷ ws) = drop n ws

-- What is kept of a statement: its first 199 bytes, up to a NUL.
abbrev pub shown : List ℕ → List ℕ
shown w = c_str (take (slot_len - 1) w)

abbrev pub lines : List (List ℕ) → List ℕ
lines [] = []
lines (w ∷ ws) = dump_line (shown w) ++ lines ws

-- All statements, oldest first.
abbrev pub write_all : List (List ℕ) → TraceRing → TraceRing
write_all [] r = r
write_all (w ∷ ws) r = write_all ws (ring_write w r)

abbrev zeros : ℕ → List ℕ
zeros zero = []
zeros (suc n) = 0 ∷ zeros n

-- The ring at the start of the program.
abbrev pub empty : TraceRing
empty = record { slots = λ i. zeros slot_len; idx = 0 }

length-overwrite : (xs dst : List ℕ) → length (overwrite xs dst) ≡ length dst
unfolding overwrite
length-overwrite [] dst = refl
length-overwrite (x ∷ xs) [] = refl
length-overwrite (x ∷ xs) (d ∷ dst) = ap suc (length-overwrite xs dst)

c_str-overwrite :
    (xs dst : List ℕ) → length xs < length dst → c_str (overwrite (xs ++ 0 ∷ []) dst) ≡ c_str xs
unfolding overwrite c_str
c_str-overwrite [] [] h = absurd (omega arith)
c_str-overwrite [] (d ∷ dst) h = refl
c_str-overwrite (x ∷ xs) [] h = absurd (omega arith)
c_str-overwrite (x ∷ xs) (d ∷ dst) h =
    ap (λ rest. if x == 0 then [] else x ∷ rest) (c_str-overwrite xs dst (omega arith))

length-take : (n : ℕ) (xs : List ℕ) → length (take n xs) ≤ n
unfolding take
length-take zero xs = omega arith
length-take (suc n) [] = omega arith
length-take (suc n) (x ∷ xs) = omega (arith, length-take n xs)

take_all : (n m : ℕ) (xs : List ℕ) → length xs ≤ n → n ≤ m → take n xs ≡ take m xs
unfolding take
take_all zero zero [] h k = refl
take_all zero (suc m) [] h k = refl
take_all zero m (x ∷ xs) h k = absurd (omega arith)
take_all (suc n) zero xs h k = absurd (omega arith)
take_all (suc n) (suc m) [] h k = refl
take_all (suc n) (suc m) (x ∷ xs) h k = ap (◌∷◌ x) (take_all n m xs (omega arith) (omega arith))

-- What is read back from the slot just written.
written :
    (w slot : List ℕ)
    → length slot ≡ slot_len
    → c_str (
        overwrite
          (take (if leb slot_len (length w) then slot_len - 1 else length w) w ++ 0 ∷ [])
          slot)
      ≡ shown w
written w slot size = elim (Bool-cases (leb slot_len (length w))) [
  | inl long ↦ rw long (c_str-overwrite (take 199 w) slot (omega (arith, length-take 199 w)))
  | inr short ↦ rw short (
      c_str-overwrite (take (length w) w) slot (ground (arith, length-take (length w) w))
      ∙ ap c_str (take_all (length w) 199 w (omega arith) (ground arith)))
]

get_elem?-append :
    (ws : List (List ℕ)) (w v : List ℕ) (k : ℕ)
    → get_elem? (ws ++ w ∷ []) k ≡ some v
    → k ≢ length ws
    → (get_elem? ws k ≡ some v) × (k < length ws)
get_elem?-append [] w v zero e n = absurd (n refl)
get_elem?-append [] w v (suc k) e n = absurd (cc)
get_elem?-append (x ∷ ws) w v zero e n = (e, omega arith)
get_elem?-append (x ∷ ws) w v (suc k) e n =
    let r = get_elem?-append ws w v k e (λ q. n (ap suc q)) in (r.0, omega (arith, r.1))

get_elem?-last :
    (ws : List (List ℕ)) (w v : List ℕ) → get_elem? (ws ++ w ∷ []) (length ws) ≡ some v → w ≡ v
get_elem?-last [] w v e = cc
get_elem?-last (x ∷ ws) w v e = get_elem?-last ws w v e

apart : (n k : ℕ) → k < n → n < k + ring_slots → n % ring_slots ≢ k % ring_slots
apart n k older near same = omega (arith)

-- The ring after the statements `ws`.
record Holds (ws : List (List ℕ)) (r : TraceRing) : Type 0 where
  counted : r.idx ≡ length ws
  sized : (i : ℕ) → length (r.slots i) ≡ slot_len
  kept :
      (k : ℕ) (w : List ℕ)
      → get_elem? ws k ≡ some w
      → length ws ≤ k + ring_slots
      → c_str (r.slots (k % ring_slots)) ≡ shown w

write-Holds :
    (ws : List (List ℕ)) (w : List ℕ) (r : TraceRing)
    → length ws + 1 < 2 ^ 64
    → Holds ws r
    → Holds (ws ++ w ∷ []) (ring_write w r)
unfolding ring_write update
write-Holds ws w r room h = record {
  counted = omega (arith, h.counted, length-append ws (w ∷ []));
  sized = λ i. elim (Bool-cases (r.idx % ring_slots == i)) [
    | inl here ↦ rw here (length-overwrite _ (r.slots _) ∙ h.sized _)
    | inr there ↦ rw there (h.sized i)
  ];
  kept = λ k v e near. elim (Bool-cases (k == length ws)) [
    | inl new ↦
        let at_end = (==_iff k (length ws)).0 new in
        let same : ((r.idx % ring_slots == k % ring_slots) ≡ true) =
          (==_iff (r.idx % ring_slots) (k % ring_slots)).1
            (ap (◌% 300000) (h.counted ∙ sym at_end)) in
        rw same (
          written w (r.slots _) (h.sized _)
          ∙ ap shown
              (get_elem?-last ws w v (subst (λ i. get_elem? (ws ++ w ∷ []) i ≡ some v) at_end e)))
    | inr old ↦
        let r1 = get_elem?-append ws w v k e (λ q. ground (arith, q, old)) in
        let other : ((r.idx % ring_slots == k % ring_slots) ≡ false) =
          ap (λ i. i % ring_slots == k % ring_slots) h.counted
          ∙ not-== (apart (length ws) k r1.1 (omega (arith, near, length-append ws (w ∷ [])))) in
        rw other (h.kept k v r1.0 (omega (arith, near, length-append ws (w ∷ []))))
  ];
}

get_elem?-drop :
    (k : ℕ) (ws : List (List ℕ))
    → k < length ws
    → (w : List ℕ) × ((get_elem? ws k ≡ some w) × (drop k ws ≡ w ∷ drop (suc k) ws))
get_elem?-drop k [] h = absurd (omega arith)
get_elem?-drop zero (w ∷ ws) h = (w, (refl, refl))
get_elem?-drop (suc k) (x ∷ ws) h = get_elem?-drop k ws (omega arith)

drop_all : (ws : List (List ℕ)) → drop (length ws) ws ≡ []
drop_all [] = refl
drop_all (w ∷ ws) = drop_all ws

-- The loop from the statement `k` on prints the statements from there.
dump_from-Holds :
    (ws : List (List ℕ)) (r : TraceRing) (rounds k : ℕ)
    → Holds ws r
    → k + rounds ≡ length ws
    → length ws ≤ k + ring_slots
    → dump_from r rounds k ≡ lines (drop k ws)
unfolding dump_from
dump_from-Holds ws r zero k h all near =
    sym (ap lines (subst (λ i. drop i ws ≡ []) (omega (arith, all)) (drop_all ws)))
dump_from-Holds ws r (suc n) k h all near =
    let q = get_elem?-drop k ws (omega (arith, all)) in
    rw (h.kept k q.0 q.1.0 near) (
      ap (dump_line (shown q.0) ++◌)
        (dump_from-Holds ws r n (suc k) h (omega (arith, all)) (omega (arith, near)))
      ∙ sym (ap lines q.1.1))

length-zeros : (n : ℕ) → length (zeros n) ≡ n
length-zeros zero = refl
length-zeros (suc n) = ap suc (length-zeros n)

empty-Holds : Holds [] empty
empty-Holds = record {
  counted = refl;
  sized = λ i. length-zeros slot_len;
  kept = λ k w e near. absurd (cc);
}

write_all-Holds :
    (done ws : List (List ℕ)) (r : TraceRing)
    → length done + length ws < 2 ^ 64
    → Holds done r
    → Holds (done ++ ws) (write_all ws r)
write_all-Holds done [] r room h = subst (λ l. Holds l r) (sym (append-nil done)) h
write_all-Holds done (w ∷ ws) r room h =
    subst (λ l. Holds l (write_all ws (ring_write w r))) (append_assoc done (w ∷ []) ws)
      (write_all-Holds (done ++ w ∷ []) ws (ring_write w r)
        (omega (arith, length-append done (w ∷ []))) (write-Holds done w r (omega arith) h))

-- After fewer than 2^64 statements, `ring_dump` writes the header, the last 300000 of them (all,
-- if there are fewer) in the order of the calls of `ring_write`, and the footer. Of a statement
-- there is a line with its first 199 bytes, up to a NUL, and no line if that is empty.
pub ring_dump-write_all :
    (ws : List (List ℕ))
    → length ws < 2 ^ 64
    → ring_dump (write_all ws empty)
      ≡ header ++ (lines (drop (length ws - ring_slots) ws) ++ footer)
unfolding ring_dump
ring_dump-write_all ws room =
    let h = write_all-Holds [] ws empty (omega arith) empty-Holds in
    let begin = if ltb ring_slots (length ws) then length ws - ring_slots else 0 in
    rw h.counted (
      ap (λ body. header ++ (body ++ footer))
        (dump_from-Holds ws (write_all ws empty) (length ws - begin) begin h (ground arith)
            (ground arith)
          ∙ ap (λ i. lines (drop i ws)) (ground arith)))
