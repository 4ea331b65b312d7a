-- ===== src/SharedState/Examples.antt =====
-- src/block_device/bdev_lazy/metadata/shared_state.rs: runs of the shared state.
use ubiblk.Prelude.{ℕ, ◌+◌, ◌<◌, ◌≡◌, ◌↔◌, refl, true, List, [], ◌∷◌, ok, arith}
use ubiblk.Metadata.{UbiMetadata, ubi_magic, metadata_version_major, metadata_version_minor}
use ubiblk.SharedState.{
  SharedMetadataState, new, scan, header_fetch_state, header_write_state, mark_fetched,
  mark_written, set_stripe_header, stripe_fetch_state, stripe_fetched_if_needed, fetched_stripes,
  source_stripes,
}
use ubiblk.SharedState.Counting.{count, is_fetched, has_source}
use ubiblk.SharedState.Invariant.{stray, new_counts}
use ubiblk.SharedState.Steps.{Step, report, here, next, counters_eq_iff}

abbrev metadata_of : List ℕ → UbiMetadata
metadata_of headers = record {
  magic = ubi_magic;
  version_major = metadata_version_major;
  version_minor = metadata_version_minor;
  stripe_sector_count_shift = 3;
  stripe_headers = headers;
}

-- The first stripe waits, the second is fetched, the third has no source.
abbrev three_stripes : UbiMetadata
three_stripes = metadata_of (4 ∷ 5 ∷ 0 ∷ [])

abbrev all_there : SharedMetadataState
all_there = record {
  stripe_fetch_states = 1 ∷ 1 ∷ 3 ∷ [];
  stripe_write_states = 0 ∷ 0 ∷ 0 ∷ [];
  stripe_sector_count_shift = 3;
  fetched_stripes_count = 2;
  source_stripes_count = 2;
}

report_runs : set_stripe_header (new three_stripes) 0 5 ≡ ok all_there
unfolding new scan header_fetch_state header_write_state set_stripe_header mark_fetched mark_written
report_runs = refl

-- A header FETCHED without HAS_SOURCE: one stripe is counted as fetched, none has a source.
stray_runs : fetched_stripes (new (metadata_of (1 ∷ []))) ≡ 1
unfolding fetched_stripes new scan header_fetch_state header_write_state
stray_runs = refl

new_counts_example :
    (fetched_stripes (new (metadata_of (1 ∷ 5 ∷ [])))
      ≡ count is_fetched (new (metadata_of (1 ∷ 5 ∷ []))).stripe_fetch_states + stray (1 ∷ 5 ∷ []))
    × (source_stripes (new (metadata_of (1 ∷ 5 ∷ [])))
        ≡ count has_source (new (metadata_of (1 ∷ 5 ∷ []))).stripe_fetch_states)
new_counts_example = new_counts (metadata_of (1 ∷ 5 ∷ []))

reported : Step (new three_stripes) all_there
unfolding new scan header_fetch_state header_write_state stripe_fetch_state
reported = report 0 5 (λ f e. cc) report_runs

no_stray : stray (4 ∷ 5 ∷ 0 ∷ []) ≡ 0
unfolding stray
no_stray = refl

counters_eq_iff_example :
    (source_stripes all_there ≡ fetched_stripes all_there)
    ↔ ((stripe_id : ℕ) → stripe_id < 3 → stripe_fetched_if_needed all_there stripe_id ≡ ok true)
counters_eq_iff_example =
    counters_eq_iff three_stripes all_there no_stray (omega arith) (next here reported)
