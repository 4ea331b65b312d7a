-- ===== src/StatusReport.antt =====
-- src/block_device/bdev_lazy/status_report.rs: what the status report says of the stripes.
pub mod Laws
mod Examples
use ubiblk.Prelude.{ℕ}
use ubiblk.Metadata.{div_ceil}
use ubiblk.SharedState.{SharedMetadataState, stripe_sector_count, source_stripes, fetched_stripes}

pub record StripesRecord : Type 0 where
  pub total : ℕ
  pub source : ℕ
  pub fetched : ℕ

pub record StatusReporter : Type 0 where
  pub shared_state : SharedMetadataState
  pub target_sector_count : ℕ

unfoldable pub report : StatusReporter → StripesRecord
unfolding stripe_sector_count source_stripes fetched_stripes
report r = record {
  total = div_ceil r.target_sector_count (stripe_sector_count r.shared_state);
  source = source_stripes r.shared_state;
  fetched = fetched_stripes r.shared_state;
}
