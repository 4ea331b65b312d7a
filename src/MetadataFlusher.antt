-- ===== src/MetadataFlusher.antt =====
-- src/block_device/bdev_lazy/metadata_flusher.rs: the stripe headers' way to the metadata device.
-- `Channel` is the channel to that device, `crc32` the hash of the package crc32fast.
-- `memory` is what the shared buffers hold, by their address; a write hands over the buffer.
pub mod Operations
pub mod Books
pub mod Invariant
pub mod Completions
pub mod Polling
pub mod Cleanup
pub mod Rounds
pub mod Entries
pub mod Starting
pub mod Updating
pub mod Life
mod Examples
use ubiblk.Prelude.{
  ℕ, zero, suc, ◌+◌, ◌-◌, ◌*◌, min, bit_and, bit_or, Bool, true, false, not, ◌&&◌, ◌||◌, Option,
  none, some, List, [], ◌∷◌, ◌++◌, Result, ok, err, panic, ◌>>=◌, ◌>>◌, fail_if, assert, unwrap,
  ltb, leb, ◌==◌, if◌then◌else◌, length, get_elem?, set, slice, lookup, insert, remove, contains,
  add_to_set, discard, replicate,
}
use ubiblk.Error.{invalid_parameter, source_stripes_exceed_metadata}
use ubiblk.BufferPool.{SharedBuffer, AlignedBufferPool, get_buffer, return_buffer, has_available}
use ubiblk.BufferPool
use ubiblk.IoChannel.{IoChannel, Completion}
use ubiblk.Metadata.{
  UbiMetadata, sector_size, fetched_flag, written_flag, stripe_headers_per_sector,
  stripe_id_to_sector, stripe_id_to_group, stripe_count, stripe_sector_count, has_flag, div_ceil,
}
use ubiblk.Metadata.Codec.{write_sector_with_crc32}
use ubiblk.SharedState.{SharedMetadataState, set_stripe_header}

abbrev pub max_concurrent_changes : ℕ
max_concurrent_changes = 16

pub data MetadataFlusherRequestKind : Type 0 where
  set_fetched set_written : MetadataFlusherRequestKind

pub record MetadataFlusherRequest : Type 0 where
  pub stripe_id : ℕ
  pub kind : MetadataFlusherRequestKind

pub data RequestStage : Type 0 where
  writing flushing : RequestStage

pub record HeaderUpdateStatus : Type 0 where
  pub buffer : SharedBuffer
  pub stage : RequestStage
  pub stripe_id : ℕ
  pub header : ℕ
  pub requested_bitmask : ℕ
  pub sector : ℕ

pub record MetadataFlusher (Channel : IoChannel) : Type 0 where
  pub channel : Channel.State
  pub metadata : UbiMetadata
  pub shared_state : SharedMetadataState
  pub sectors_being_updated : List ℕ
  pub header_updates : List (ℕ × HeaderUpdateStatus)
  pub queued_requests : List MetadataFlusherRequest
  pub buffer_pool : AlignedBufferPool
  pub memory : List (ℕ × List ℕ)

-- The match on `req.kind`.
abbrev pub bitmask_of : MetadataFlusherRequestKind → ℕ
bitmask_of set_fetched = fetched_flag
bitmask_of set_written = written_flag

-- `headers[stripe_id] &= !bitmask`, on a `u8`.
unfoldable pub clear_bits : UbiMetadata → ℕ → ℕ → Result UbiMetadata
clear_bits m stripe_id bitmask = do
  header ← unwrap (get_elem? m.stripe_headers stripe_id)
  ok (record m { stripe_headers = set m.stripe_headers stripe_id (bit_and header (255 - bitmask)) })

-- `headers[stripe_id] |= bitmask`.
unfoldable pub set_bits : UbiMetadata → ℕ → ℕ → Result UbiMetadata
set_bits m stripe_id bitmask = do
  header ← unwrap (get_elem? m.stripe_headers stripe_id)
  ok (record m { stripe_headers = set m.stripe_headers stripe_id (bit_or header bitmask) })

-- The headers of a group, for its sector.
unfoldable pub headers_of_group : UbiMetadata → ℕ → Result (List ℕ)
headers_of_group m group = do
  let headers_start = group * stripe_headers_per_sector
  let headers_end = min (headers_start + stripe_headers_per_sector) (length m.stripe_headers)
  assert (leb headers_start headers_end)
  ok (slice m.stripe_headers headers_start (headers_end - headers_start))

module _ {Channel : IoChannel} where
  -- `metadata` is what was loaded from the device, over the channel `channel`; the pool's buffers
  -- are allocated from the address `ptr` on.
  unfoldable pub new :
      Channel.State → UbiMetadata → ℕ → SharedMetadataState → ℕ → Result (MetadataFlusher Channel)
  unfolding stripe_sector_count stripe_count
  new channel metadata source_sector_count shared_state ptr = do
    let source_stripe_count = div_ceil source_sector_count (stripe_sector_count metadata)
    fail_if (ltb (stripe_count metadata) source_stripe_count)
        (invalid_parameter source_stripes_exceed_metadata)
    ok (record {
      channel = channel;
      metadata = metadata;
      shared_state = shared_state;
      sectors_being_updated = [];
      header_updates = [];
      queued_requests = [];
      buffer_pool = BufferPool.new ptr max_concurrent_changes sector_size;
      memory = [];
    })

  unfoldable pub busy : MetadataFlusher Channel → Bool
  busy f = not (length f.sectors_being_updated == 0) || not (length f.queued_requests == 0)

  unfoldable pub set_stripe_fetched : MetadataFlusher Channel → ℕ → MetadataFlusher Channel
  set_stripe_fetched f stripe_id = record f {
    queued_requests =
        f.queued_requests ++ record { stripe_id = stripe_id; kind = set_fetched } ∷ [];
  }

  unfoldable pub set_stripe_written : MetadataFlusher Channel → ℕ → MetadataFlusher Channel
  set_stripe_written f stripe_id = record f {
    queued_requests =
        f.queued_requests ++ record { stripe_id = stripe_id; kind = set_written } ∷ [];
  }

  -- An update that has failed: its bit is taken back, its sector is free again.
  unfoldable pub abandon :
      MetadataFlusher Channel → HeaderUpdateStatus → Bool → Result (MetadataFlusher Channel)
  unfolding clear_bits
  abandon f status give_back = do
    metadata' ← clear_bits f.metadata status.stripe_id status.requested_bitmask
    pool' ← if give_back then return_buffer f.buffer_pool status.buffer else ok f.buffer_pool
    ok (record f {
      metadata = metadata';
      buffer_pool = pool';
      sectors_being_updated = discard status.sector f.sectors_being_updated;
    })

  unfoldable pub cleanup_failed_submission :
      MetadataFlusher Channel → List ℕ → Bool → Result (MetadataFlusher Channel)
  unfolding abandon
  cleanup_failed_submission f [] give_back = ok f
  cleanup_failed_submission f (stripe_id ∷ stripe_ids) give_back =
      elim (lookup stripe_id f.header_updates) [
        | none ↦ cleanup_failed_submission f stripe_ids give_back
        | some status ↦ do
          f' ←
              abandon (record f { header_updates = remove stripe_id f.header_updates }) status
                give_back
          cleanup_failed_submission f' stripe_ids give_back
      ]
