-- ===== src/StatusReport/Laws.antt =====
-- src/block_device/bdev_lazy/status_report.rs: the figures fit together.
use ubiblk.Prelude.{◌^◌, ◌≤◌, ◌<◌, ◌≡◌, length, arith}
use ubiblk.Metadata.{UbiMetadata}
use ubiblk.SharedState.{new, source_stripes, fetched_stripes}
use ubiblk.SharedState.Counting.{count-le-length, has_source, fetched-le-source}
use ubiblk.SharedState.Invariant.{stray, new-IsConsistent}
use ubiblk.SharedState.Steps.{Reach, Reach-IsConsistent}
use ubiblk.StatusReport.{StatusReporter, report}

-- From metadata without a header that has FETCHED and no HAS_SOURCE, after any reports of the
-- worker: the report never has more fetched stripes than stripes with a source, nor more of those
-- than there are stripes.
pub report_fits :
    (m : UbiMetadata) (r : StatusReporter)
    → stray m.stripe_headers ≡ 0
    → length m.stripe_headers < 2 ^ 64
    → Reach (new m) r.shared_state
    → ((report r).fetched ≤ (report r).source)
      × ((report r).source ≤ length r.shared_state.stripe_fetch_states)
unfolding report source_stripes fetched_stripes
report_fits m r clean small reach =
    let c = Reach-IsConsistent reach (new-IsConsistent m clean small) in
    let states = r.shared_state.stripe_fetch_states in
    (
      omega (arith, c.fetched_counted, c.source_counted, fetched-le-source states),
      omega (arith, c.source_counted, count-le-length has_source states),
    )
