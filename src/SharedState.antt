-- ===== src/SharedState.antt =====
-- src/block_device/bdev_lazy/metadata/shared_state.rs: what the I/O channels and the background
-- worker share. Each atomic is a number; an operation is one step on the whole state.
pub mod Counting
pub mod Invariant
pub mod Steps
pub mod Sizes
mod Examples
use ubiblk.Prelude.{
  ℕ, zero, suc, ◌+◌, ◌/◌, ◌%◌, ◌^◌, Bool, true, false, not, ◌&&◌, ◌||◌, List, [], ◌∷◌, Result, ok,
  ◌>>=◌, ◌>>◌, unwrap, ◌==◌, if◌then◌else◌, get_elem?, set,
}
use ubiblk.Metadata.{UbiMetadata, has_flag, fetched_flag, written_flag, has_source_flag}

pub record SharedMetadataState : Type 0 where
  pub stripe_fetch_states : List ℕ
  pub stripe_write_states : List ℕ
  pub stripe_sector_count_shift : ℕ
  pub fetched_stripes_count : ℕ
  pub source_stripes_count : ℕ

-- Fetch states.
abbrev pub not_fetched : ℕ
not_fetched = 0

abbrev pub fetched : ℕ
fetched = 1

abbrev pub failed : ℕ
failed = 2

abbrev pub no_source : ℕ
no_source = 3

-- Write states.
abbrev pub not_written : ℕ
not_written = 0

abbrev pub written : ℕ
written = 1

-- The loop body of `new`, for one header.
header_fetch_state : ℕ → ℕ
header_fetch_state header =
    if has_flag header has_source_flag
    then (if has_flag header fetched_flag then fetched else not_fetched)
    else no_source

header_write_state : ℕ → ℕ
header_write_state header = if has_flag header written_flag then written else not_written

-- The loop of `new`, from the last header to the first.
scan : ℕ → List ℕ → SharedMetadataState
unfolding header_fetch_state header_write_state
scan shift [] = record {
  stripe_fetch_states = [];
  stripe_write_states = [];
  stripe_sector_count_shift = shift;
  fetched_stripes_count = 0;
  source_stripes_count = 0;
}
scan shift (header ∷ headers) =
    let rest = scan shift headers in
    record {
      stripe_fetch_states = header_fetch_state header ∷ rest.stripe_fetch_states;
      stripe_write_states = header_write_state header ∷ rest.stripe_write_states;
      stripe_sector_count_shift = shift;
      fetched_stripes_count =
          (if has_flag header fetched_flag then 1 else 0) + rest.fetched_stripes_count;
      source_stripes_count =
          (if has_flag header has_source_flag then 1 else 0) + rest.source_stripes_count;
    }

unfoldable pub new : UbiMetadata → SharedMetadataState
unfolding scan
new metadata = scan metadata.stripe_sector_count_shift metadata.stripe_headers

unfoldable pub stripe_sector_count : SharedMetadataState → ℕ
stripe_sector_count s = 2 ^ (s.stripe_sector_count_shift % 64)

unfoldable pub sector_to_stripe_id : SharedMetadataState → ℕ → ℕ
sector_to_stripe_id s sector = sector / 2 ^ (s.stripe_sector_count_shift % 64)

unfoldable pub stripe_fetch_state : SharedMetadataState → ℕ → Result ℕ
stripe_fetch_state s stripe_id = unwrap (get_elem? s.stripe_fetch_states stripe_id)

unfoldable pub stripe_fetched_if_needed : SharedMetadataState → ℕ → Result Bool
unfolding stripe_fetch_state
stripe_fetched_if_needed s stripe_id = do
  state ← stripe_fetch_state s stripe_id
  ok ((state == fetched) || (state == no_source))

unfoldable pub stripe_written : SharedMetadataState → ℕ → Result Bool
stripe_written s stripe_id = do
  state ← unwrap (get_elem? s.stripe_write_states stripe_id)
  ok (state == written)

-- `swap(Fetched)`, and the count goes up if that is news; `fetch_add` wraps.
unfoldable pub mark_fetched : SharedMetadataState → ℕ → Result SharedMetadataState
mark_fetched s stripe_id = do
  prev ← unwrap (get_elem? s.stripe_fetch_states stripe_id)
  let news = not (prev == fetched) && not (prev == no_source)
  ok (record s {
    stripe_fetch_states = set s.stripe_fetch_states stripe_id fetched;
    fetched_stripes_count =
        if news then (s.fetched_stripes_count + 1) % 2 ^ 64 else s.fetched_stripes_count;
  })

unfoldable pub mark_written : SharedMetadataState → ℕ → Result SharedMetadataState
mark_written s stripe_id = do
  _ ← unwrap (get_elem? s.stripe_write_states stripe_id)
  ok (record s { stripe_write_states = set s.stripe_write_states stripe_id written })

unfoldable pub set_stripe_header : SharedMetadataState → ℕ → ℕ → Result SharedMetadataState
unfolding mark_fetched mark_written
set_stripe_header s stripe_id header = do
  marked ← if has_flag header fetched_flag then mark_fetched s stripe_id else ok s
  if has_flag header written_flag then mark_written marked stripe_id else ok marked

unfoldable pub set_stripe_failed : SharedMetadataState → ℕ → Result SharedMetadataState
set_stripe_failed s stripe_id = do
  _ ← unwrap (get_elem? s.stripe_fetch_states stripe_id)
  ok (record s { stripe_fetch_states = set s.stripe_fetch_states stripe_id failed })

unfoldable pub fetched_stripes : SharedMetadataState → ℕ
fetched_stripes s = s.fetched_stripes_count

unfoldable pub source_stripes : SharedMetadataState → ℕ
source_stripes s = s.source_stripes_count
