-- ===== src/IoTracker/Laws.antt =====
-- src/backends/common/io_tracking.rs: what the tracker says after any run of the backend.
use ubiblk.Prelude.{
  ℕ, zero, suc, ◌+◌, ◌*◌, ◌%◌, ◌^◌, ◌<◌, ◌≡◌, refl, ap, none, some, List, [], ◌∷◌, ltb, ◌==◌,
  if◌then◌else◌, length, set, replicate, get_elem?, get_elem?-set_self, get_elem?-set_ne,
  get_elem?-lt, arith, inl, inr, same_or_not,
}
use ubiblk.IoTracker.{
  IoTracker, IoRecord, free, new, add_read, add_write, add_flush, clear, store_kind,
  cumulative_stats,
}

-- What a backend does.
pub data IoOp : Type 0 where
  reads : (slot off len : ℕ) → IoOp
  writes : (slot off len : ℕ) → IoOp
  flushes : (slot : ℕ) → IoOp
  clears : (slot : ℕ) → IoOp

unfoldable pub run : IoTracker → List IoOp → IoTracker
run t [] = t
run t (reads slot off len ∷ ops) = run (add_read t slot off len) ops
run t (writes slot off len ∷ ops) = run (add_write t slot off len) ops
run t (flushes slot ∷ ops) = run (add_flush t slot) ops
run t (clears slot ∷ ops) = run (clear t slot) ops

-- The record of one slot, by the operations on that slot alone.
pub record_after : ℕ → IoRecord → List IoOp → IoRecord
record_after i io [] = io
record_after i io (reads slot off len ∷ ops) =
    record_after i
      (if slot == i then record { kind = 1; offset_sectors = off; length_sectors = len } else io)
      ops
record_after i io (writes slot off len ∷ ops) =
    record_after i
      (if slot == i then record { kind = 2; offset_sectors = off; length_sectors = len } else io)
      ops
record_after i io (flushes slot ∷ ops) =
    record_after i (if slot == i then record io { kind = 3 } else io) ops
record_after i io (clears slot ∷ ops) =
    record_after i (if slot == i then record io { kind = 0 } else io) ops

set_at :
    (ios : List IoRecord) (slot i : ℕ) (io v : IoRecord)
    → get_elem? ios i ≡ some io
    → get_elem? (if ltb slot (length ios) then set ios slot v else ios) i
      ≡ some (if slot == i then v else io)
set_at ios slot i io v e = elim (same_or_not slot i) [
  | inl same ↦
      let inside : slot < length ios = omega (arith, same, get_elem?-lt ios i io e) in
      ground (arith, same, get_elem?-set_self ios slot v inside, inside)
  | inr ne ↦ ground (arith, e, ne, get_elem?-set_ne ios slot i v ne)
]

store_kind_lem :
    (ios : List IoRecord) (slot i kind : ℕ) (io : IoRecord)
    → get_elem? ios i ≡ some io
    → get_elem? (store_kind ios slot kind) i
      ≡ some (if slot == i then record io { kind = kind } else io)
unfolding store_kind
store_kind_lem ios slot i kind io e = elim (same_or_not slot i) [
  | inl same ↦
      let inside : slot < length ios = omega (arith, same, get_elem?-lt ios i io e) in
      ground (
        arith,
        same,
        e,
        ap (get_elem? ios) same,
        get_elem?-set_self ios slot (record io { kind = kind }) inside,
      )
  | inr ne ↦
      (elim (get_elem? ios slot)
          as (λ o.
            get_elem? ios slot ≡ o
            → get_elem? (store_kind ios slot kind) i
              ≡ some (if slot == i then record io { kind = kind } else io)) [
                | none ↦ λ at. ground (arith, at, e, ne)
                | some other ↦ λ at. ground (
                  arith,
                  at,
                  e,
                  ne,
                  get_elem?-set_ne ios slot i (record other { kind = kind }) ne,
                )
              ])
        refl
]

-- Each slot shows what the last operations on it have left, whatever was done to the others.
slot_after :
    (t : IoTracker) (ops : List IoOp) (i : ℕ) (io : IoRecord)
    → get_elem? t.ios i ≡ some io
    → get_elem? (run t ops).ios i ≡ some (record_after i io ops)
unfolding run record_after add_read add_write add_flush clear
slot_after t [] i io e = e
slot_after t (reads slot off len ∷ ops) i io e =
    slot_after (add_read t slot off len) ops i _ (set_at t.ios slot i io _ e)
slot_after t (writes slot off len ∷ ops) i io e =
    slot_after (add_write t slot off len) ops i _ (set_at t.ios slot i io _ e)
slot_after t (flushes slot ∷ ops) i io e =
    slot_after (add_flush t slot) ops i _ (store_kind_lem t.ios slot i 3 io e)
slot_after t (clears slot ∷ ops) i io e =
    slot_after (clear t slot) ops i _ (store_kind_lem t.ios slot i 0 io e)

new_slot : (n i : ℕ) → i < n → get_elem? (replicate n free) i ≡ some free
unfolding replicate
new_slot zero i h = absurd (omega arith)
new_slot (suc n) zero h = refl
new_slot (suc n) (suc i) h = new_slot n i (omega arith)

-- A new tracker, after any operations: every slot, of which there are eight more than asked for,
-- holds what the operations on that slot alone lead to. A flush keeps the offset and the length that
-- the slot had before.
pub run_lem :
    (size : ℕ) (ops : List IoOp) (i : ℕ)
    → i < size + 8
    → get_elem? (run (new size) ops).ios i ≡ some (record_after i free ops)
unfolding new
run_lem size ops i h = slot_after (new size) ops i free (new_slot (size + 8) i h)

-- The totals, by the operations alone.
pub count_reads : List IoOp → ℕ
count_reads [] = 0
count_reads (reads slot off len ∷ ops) = 1 + count_reads ops
count_reads (writes slot off len ∷ ops) = count_reads ops
count_reads (flushes slot ∷ ops) = count_reads ops
count_reads (clears slot ∷ ops) = count_reads ops

pub count_writes : List IoOp → ℕ
count_writes [] = 0
count_writes (reads slot off len ∷ ops) = count_writes ops
count_writes (writes slot off len ∷ ops) = 1 + count_writes ops
count_writes (flushes slot ∷ ops) = count_writes ops
count_writes (clears slot ∷ ops) = count_writes ops

pub count_flushes : List IoOp → ℕ
count_flushes [] = 0
count_flushes (reads slot off len ∷ ops) = count_flushes ops
count_flushes (writes slot off len ∷ ops) = count_flushes ops
count_flushes (flushes slot ∷ ops) = 1 + count_flushes ops
count_flushes (clears slot ∷ ops) = count_flushes ops

pub sectors_read : List IoOp → ℕ
sectors_read [] = 0
sectors_read (reads slot off len ∷ ops) = len + sectors_read ops
sectors_read (writes slot off len ∷ ops) = sectors_read ops
sectors_read (flushes slot ∷ ops) = sectors_read ops
sectors_read (clears slot ∷ ops) = sectors_read ops

pub sectors_written : List IoOp → ℕ
sectors_written [] = 0
sectors_written (reads slot off len ∷ ops) = sectors_written ops
sectors_written (writes slot off len ∷ ops) = len + sectors_written ops
sectors_written (flushes slot ∷ ops) = sectors_written ops
sectors_written (clears slot ∷ ops) = sectors_written ops

-- The totals of any run, from any totals below 2 ^ 64: bytes and operations add up, modulo 2 ^ 64.
pub cumulative_stats-run :
    (t : IoTracker) (ops : List IoOp)
    → (t.total_bytes_read < 2 ^ 64)
      × (t.total_bytes_written < 2 ^ 64)
      × (t.total_read_ops < 2 ^ 64)
      × (t.total_write_ops < 2 ^ 64)
      × (t.total_flush_ops < 2 ^ 64)
    → cumulative_stats (run t ops) ≡ (
      (t.total_bytes_read + sectors_read ops * 512) % 2 ^ 64,
      (t.total_bytes_written + sectors_written ops * 512) % 2 ^ 64,
      (t.total_read_ops + count_reads ops) % 2 ^ 64,
      (t.total_write_ops + count_writes ops) % 2 ^ 64,
      (t.total_flush_ops + count_flushes ops) % 2 ^ 64,
    )
unfolding run cumulative_stats count_reads count_writes count_flushes sectors_read sectors_written
    add_read add_write add_flush clear
cumulative_stats-run t [] h = ground arith
cumulative_stats-run t (reads slot off len ∷ ops) h =
    ground (arith, cumulative_stats-run (add_read t slot off len) ops)
cumulative_stats-run t (writes slot off len ∷ ops) h =
    ground (arith, cumulative_stats-run (add_write t slot off len) ops)
cumulative_stats-run t (flushes slot ∷ ops) h =
    ground (arith, cumulative_stats-run (add_flush t slot) ops)
cumulative_stats-run t (clears slot ∷ ops) h = cumulative_stats-run (clear t slot) ops h
