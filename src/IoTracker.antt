-- ===== src/IoTracker.antt =====
-- src/backends/common/io_tracking.rs: which requests are in flight, slot by slot, and the totals.
-- An atomic is a number; its operations wrap at 64 bits.
pub mod Laws
mod Examples
use ubiblk.Prelude.{
  ℕ, zero, suc, ◌+◌, ◌*◌, ◌%◌, ◌^◌, Bool, true, false, Option, none, some, List, [], ◌∷◌, Result,
  ok, panic, ◌>>=◌, ltb, ◌==◌, if◌then◌else◌, length, set, replicate, get_elem?,
}
use ubiblk.Metadata.{sector_size}

abbrev pub extra_tracking_slots : ℕ
extra_tracking_slots = 8

pub data IoKind : Type 0 where
  read write flush : IoKind

-- `IoKind::Read as u8`; 0 is a free slot.
abbrev pub code_of : IoKind → ℕ
code_of read = 1
code_of write = 2
code_of flush = 3

pub record IoRecord : Type 0 where
  pub kind : ℕ
  pub offset_sectors : ℕ
  pub length_sectors : ℕ

pub record IoTracker : Type 0 where
  pub ios : List IoRecord
  pub total_bytes_read : ℕ
  pub total_bytes_written : ℕ
  pub total_read_ops : ℕ
  pub total_write_ops : ℕ
  pub total_flush_ops : ℕ

abbrev pub free : IoRecord
free = record { kind = 0; offset_sectors = 0; length_sectors = 0 }

unfoldable pub new : ℕ → IoTracker
new size = record {
  ios = replicate (size + extra_tracking_slots) free;
  total_bytes_read = 0;
  total_bytes_written = 0;
  total_read_ops = 0;
  total_write_ops = 0;
  total_flush_ops = 0;
}

-- `fetch_add`
abbrev pub fetch_add : ℕ → ℕ → ℕ
fetch_add total n = (total + n) % 2 ^ 64

-- Storing outside the slots does nothing; the code tests for that and returns.
unfoldable pub add_read : IoTracker → ℕ → ℕ → ℕ → IoTracker
add_read t slot offset_sectors length_sectors = record t {
  total_bytes_read = fetch_add t.total_bytes_read (length_sectors * sector_size % 2 ^ 64);
  total_read_ops = fetch_add t.total_read_ops 1;
  ios =
      if ltb slot (length t.ios)
      then set t.ios slot (record {
        kind = code_of read;
        offset_sectors = offset_sectors;
        length_sectors = length_sectors;
      })
      else t.ios;
}

unfoldable pub add_write : IoTracker → ℕ → ℕ → ℕ → IoTracker
add_write t slot offset_sectors length_sectors = record t {
  total_bytes_written = fetch_add t.total_bytes_written (length_sectors * sector_size % 2 ^ 64);
  total_write_ops = fetch_add t.total_write_ops 1;
  ios =
      if ltb slot (length t.ios)
      then set t.ios slot (record {
        kind = code_of write;
        offset_sectors = offset_sectors;
        length_sectors = length_sectors;
      })
      else t.ios;
}

-- Only the kind of the record is stored.
unfoldable pub store_kind : List IoRecord → ℕ → ℕ → List IoRecord
store_kind ios slot kind = elim (get_elem? ios slot) [
  | none ↦ ios
  | some io ↦ set ios slot (record io { kind = kind })
]

unfoldable pub add_flush : IoTracker → ℕ → IoTracker
unfolding store_kind
add_flush t slot = record t {
  total_flush_ops = fetch_add t.total_flush_ops 1;
  ios = store_kind t.ios slot (code_of flush);
}

unfoldable pub clear : IoTracker → ℕ → IoTracker
unfolding store_kind
clear t slot = record t { ios = store_kind t.ios slot 0 }

-- The match on a kind that is not 0, with its `unreachable!()`.
unfoldable pub kind_of : ℕ → Result IoKind
kind_of kind =
    if kind == 1
    then ok read
    else (if kind == 2 then ok write else (if kind == 3 then ok flush else panic))

unfoldable pub snapshot_of : List IoRecord → Result (List (IoKind × ℕ × ℕ))
unfolding kind_of
snapshot_of [] = ok []
snapshot_of (io ∷ ios) = elim (io.kind == 0) [
  | true ↦ snapshot_of ios
  | false ↦ do
    kind ← kind_of io.kind
    rest ← snapshot_of ios
    ok ((kind, io.offset_sectors, io.length_sectors) ∷ rest)
]

unfoldable pub snapshot : IoTracker → Result (List (IoKind × ℕ × ℕ))
unfolding snapshot_of
snapshot t = snapshot_of t.ios

unfoldable pub cumulative_stats : IoTracker → ℕ × ℕ × ℕ × ℕ × ℕ
cumulative_stats t = (
  t.total_bytes_read, t.total_bytes_written, t.total_read_ops, t.total_write_ops, t.total_flush_ops,
)
