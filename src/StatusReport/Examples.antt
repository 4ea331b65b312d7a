-- ===== src/StatusReport/Examples.antt =====
-- src/block_device/bdev_lazy/status_report.rs: the report of a device with one stripe to fetch.
use ubiblk.Prelude.{◌≤◌, ◌≡◌, refl, [], ◌∷◌, arith}
use ubiblk.Metadata.{UbiMetadata, ubi_magic, metadata_version_major, metadata_version_minor}
use ubiblk.SharedState.{new}
use ubiblk.SharedState.Invariant.{stray}
use ubiblk.SharedState.Steps.{here}
use ubiblk.StatusReport.{StatusReporter, report}
use ubiblk.StatusReport.Laws.{report_fits}

abbrev metadata : UbiMetadata
metadata = record {
  magic = ubi_magic;
  version_major = metadata_version_major;
  version_minor = metadata_version_minor;
  stripe_sector_count_shift = 3;
  stripe_headers = 4 ∷ 5 ∷ 0 ∷ [];
}

reporter : StatusReporter
reporter = record { shared_state = new metadata; target_sector_count = 20 }

clean : stray (4 ∷ 5 ∷ 0 ∷ []) ≡ 0
unfolding stray
clean = refl

report_fits_example :
    ((report reporter).fetched ≤ (report reporter).source) × ((report reporter).source ≤ 3)
unfolding reporter new
report_fits_example = report_fits metadata reporter clean (omega arith) here
