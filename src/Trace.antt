-- ===== src/Trace.antt =====
-- The trace in memory: `ring_write` and `ring_dump` of src/log.h. A call of `ring_write` is one
-- step; the calls of several threads come in some order. Bytes are numbers.
pub mod Window
use multi_paxos_distributed.Account.{codes}
use multi_paxos_distributed.Prelude.{
  ℕ, zero, suc, ◌+◌, ◌-◌, ◌%◌, ◌^◌, Bool, List, [], ◌∷◌, ◌++◌, leb, ltb, ◌==◌, if◌then◌else◌,
  update, length,
}

-- `kRingSlots` and `kRingSlotLen`.
abbrev pub ring_slots : ℕ
ring_slots = 300000

abbrev pub slot_len : ℕ
slot_len = 200

-- `ring_buf()` and `ring_idx()`.
pub record TraceRing : Type 0 where
  pub slots : ℕ → List ℕ
  pub idx : ℕ

unfoldable pub take : ℕ → List ℕ → List ℕ
take zero xs = []
take (suc n) [] = []
take (suc n) (x ∷ xs) = x ∷ take n xs

-- The bytes `xs` over the first ones of a slot.
unfoldable pub overwrite : List ℕ → List ℕ → List ℕ
overwrite [] dst = dst
overwrite (x ∷ xs) [] = []
overwrite (x ∷ xs) (d ∷ dst) = x ∷ overwrite xs dst

-- `ring_write`.
unfoldable pub ring_write : List ℕ → TraceRing → TraceRing
unfolding take overwrite update
ring_write text r =
    let slot = r.idx % ring_slots in
    let n = if leb slot_len (length text) then slot_len - 1 else length text in
    record {
      slots = update r.slots slot (overwrite (take n text ++ 0 ∷ []) (r.slots slot));
      idx = (r.idx + 1) % 2 ^ 64;
    }

-- The bytes up to the first NUL, as `strnlen` counts them.
unfoldable pub c_str : List ℕ → List ℕ
c_str [] = []
c_str (x ∷ xs) = let rest = c_str xs in if x == 0 then [] else x ∷ rest

-- A statement and a newline, unless it is empty.
unfoldable pub dump_line : List ℕ → List ℕ
dump_line [] = []
dump_line (x ∷ xs) = (x ∷ xs) ++ 10 ∷ []

-- The loop, from the statement `k` on.
unfoldable pub dump_from : TraceRing → ℕ → ℕ → List ℕ
unfolding c_str dump_line
dump_from r zero k = []
dump_from r (suc rounds) k =
    dump_line (c_str (r.slots (k % ring_slots))) ++ dump_from r rounds (suc k)

abbrev pub header : List ℕ
header = 10 ∷ codes "=== TRACE RING (oldest -> newest) ===" ++ 10 ∷ []

abbrev pub footer : List ℕ
footer = codes "=== END TRACE RING ===" ++ 10 ∷ []

-- `ring_dump`: the bytes that it writes.
unfoldable pub ring_dump : TraceRing → List ℕ
unfolding dump_from
ring_dump r =
    let begin = if ltb ring_slots r.idx then r.idx - ring_slots else 0 in
    header ++ (dump_from r (r.idx - begin) begin ++ footer)
