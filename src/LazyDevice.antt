-- ===== src/LazyDevice.antt =====
-- src/block_device/bdev_lazy/device.rs: a channel that serves a device whose stripes are fetched
-- on demand. `Base` and `Image` are the channels under it.
-- The metadata state is shared with the background worker: a field here, which `observe` renews
-- between two operations; within one operation it stands still.
pub mod Requests
pub mod Queue
pub mod Operations
pub mod Device
pub mod Safety
pub mod Methods
pub mod Progress
pub mod Runs
pub mod History
pub mod Serving
pub mod Fifo
pub mod Recorder
mod Examples
use ubiblk.Prelude.{
  ℕ, zero, suc, ◌+◌, ◌-◌, ◌%◌, ◌^◌, Bool, true, false, not, ◌&&◌, ◌||◌, Option, none, some, List,
  [], ◌∷◌, ◌++◌, Result, ok, err, panic, ◌>>=◌, ◌>>◌, ◌==◌, if◌then◌else◌, range_from, contains,
  add_to_set, discard,
}
use ubiblk.BufferPool.{SharedBuffer}
use ubiblk.IoChannel.{IoChannel, Completion}
use ubiblk.SharedState.{
  SharedMetadataState, stripe_fetch_state, stripe_written, stripe_fetched_if_needed,
  sector_to_stripe_id,
}

-- bgworker.rs: what the channels ask of the worker.
pub data BgWorkerRequest : Type 0 where
  fetch : ℕ → BgWorkerRequest
  set_written : ℕ → BgWorkerRequest
  shutdown : BgWorkerRequest

-- The sending end of the queue to the worker: what was sent, and whether there is a receiver.
pub record Sender : Type 0 where
  pub sent : List BgWorkerRequest
  pub connected : Bool

pub data RequestType : Type 0 where
  inward outward : RequestType

pub data StripesFetchStatus : Type 0 where
  pending : StripesFetchStatus
  complete : StripesFetchStatus
  failed : ℕ → StripesFetchStatus

pub record RwRequest : Type 0 where
  pub id : ℕ
  pub kind : RequestType
  pub sector_offset : ℕ
  pub sector_count : ℕ
  pub buf : SharedBuffer
  pub stripe_id_first : ℕ
  pub stripe_id_last : ℕ

-- `stripe_id_first..=stripe_id_last`
abbrev pub stripes_of : RwRequest → List ℕ
stripes_of r = range_from r.stripe_id_first (r.stripe_id_last + 1 - r.stripe_id_first)

-- An unknown state is passed over, as by the last arm of the match.
pub fetch_status_of : SharedMetadataState → List ℕ → Result StripesFetchStatus
fetch_status_of s [] = ok complete
fetch_status_of s (stripe_id ∷ stripe_ids) = do
  state ← stripe_fetch_state s stripe_id
  let rest = fetch_status_of s stripe_ids
  let unfetched =
      if state == 0 then ok pending else (if state == 2 then ok (failed stripe_id) else rest)
  if (state == 1) || (state == 3) then rest else unfetched

pub all_written : SharedMetadataState → List ℕ → Result Bool
all_written s [] = ok true
all_written s (stripe_id ∷ stripe_ids) = do
  written ← stripe_written s stripe_id
  let rest = all_written s stripe_ids
  if written then rest else ok false

-- Stripes are taken out of the set of requested fetches.
pub discard_all : List ℕ → List ℕ → List ℕ
discard_all [] requested = requested
discard_all (stripe_id ∷ stripe_ids) requested =
    discard_all stripe_ids (discard stripe_id requested)

pub all_failed : List ℕ → List Completion
all_failed [] = []
all_failed (id ∷ ids) = (id, false) ∷ all_failed ids

pub record LazyIoChannel (Base Image : IoChannel) : Type 0 where
  pub base : Base.State
  pub image : Option Image.State
  pub queued_rw_requests : List RwRequest
  pub finished_requests : List Completion
  pub bgworker_ch : Sender
  pub metadata_state : SharedMetadataState
  pub stripe_fetches_requested : List ℕ
  pub track_written : Bool

module _ {Base Image : IoChannel} where
  pub new :
      Base.State
      → Option Image.State
      → Sender
      → SharedMetadataState
      → Bool
      → LazyIoChannel Base Image
  new base image bgworker_ch metadata_state track_written = record {
    base = base;
    image = image;
    queued_rw_requests = [];
    finished_requests = [];
    bgworker_ch = bgworker_ch;
    metadata_state = metadata_state;
    stripe_fetches_requested = [];
    track_written = track_written;
  }

  -- The worker has changed the shared state.
  pub observe : LazyIoChannel Base Image → SharedMetadataState → LazyIoChannel Base Image
  observe c s = record c { metadata_state = s }
