-- ===== src/IoTracker/Examples.antt =====
-- src/backends/common/io_tracking.rs: a read, a write beyond the slots, and a flush in the read's slot.
use ubiblk.Prelude.{
  ◌+◌, ◌*◌, ◌<◌, ◌%◌, ◌^◌, ◌≡◌, refl, some, List, [], ◌∷◌, ok, get_elem?, replicate, arith,
}
use ubiblk.IoTracker.{
  flush, free, new, add_read, add_write, add_flush, clear, store_kind, snapshot, snapshot_of,
  kind_of, cumulative_stats,
}
use ubiblk.IoTracker.Laws.{
  IoOp, reads, writes, flushes, clears, run, record_after, run_lem, cumulative_stats-run,
  sectors_read, sectors_written, count_reads, count_writes, count_flushes,
}

abbrev ops : List IoOp
ops = reads 0 100 8 ∷ writes 12 200 16 ∷ clears 0 ∷ flushes 0 ∷ []

-- The flush shows the extent of the read before it.
snapshot_runs : snapshot (run (new 2) ops) ≡ ok ((flush, 100, 8) ∷ [])
unfolding run new add_read add_write add_flush clear store_kind snapshot snapshot_of kind_of
    replicate
snapshot_runs = refl

run_example : get_elem? (run (new 2) ops).ios 0 ≡ some (record_after 0 free ops)
run_example = run_lem 2 ops 0 (omega arith)

cumulative_stats-run_example : cumulative_stats (run (new 2) ops) ≡ (
  ((new 2).total_bytes_read + sectors_read ops * 512) % 2 ^ 64,
  ((new 2).total_bytes_written + sectors_written ops * 512) % 2 ^ 64,
  ((new 2).total_read_ops + count_reads ops) % 2 ^ 64,
  ((new 2).total_write_ops + count_writes ops) % 2 ^ 64,
  ((new 2).total_flush_ops + count_flushes ops) % 2 ^ 64,
)
cumulative_stats-run_example = cumulative_stats-run (new 2) ops small
  where
    small :
        ((new 2).total_bytes_read < 2 ^ 64)
        × ((new 2).total_bytes_written < 2 ^ 64)
        × ((new 2).total_read_ops < 2 ^ 64)
        × ((new 2).total_write_ops < 2 ^ 64)
        × ((new 2).total_flush_ops < 2 ^ 64)
    small = unfold new in (omega arith, omega arith, omega arith, omega arith, omega arith)
