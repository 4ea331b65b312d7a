-- ===== src/StripeSource.antt =====
-- src/stripe_source/mod.rs and src/stripe_source/bdev.rs: where stripes are fetched from.
pub mod Laws
mod Examples
use ubiblk.Error.{invalid_parameter, stripe_beyond_source}
use ubiblk.Prelude.{
  ℕ, ◌+◌, ◌-◌, ◌*◌, ◌%◌, ◌^◌, min, Bool, List, Result, ok, err, panic, ◌>>=◌, ltb, leb,
  if◌then◌else◌,
}
use ubiblk.BufferPool.{SharedBuffer}
use ubiblk.IoChannel.{IoChannel, BlockDevice, Completion}

-- The trait. `request` changes the source also where it answers with an error.
pub record StripeSource : Type 1 where
  pub State : Type 0
  pub request : State → ℕ → SharedBuffer → State × Result (Unit {0})
  pub poll : State → Result (State × List Completion)
  pub busy : State → Bool
  pub sector_count : State → ℕ
  pub has_stripe : State → ℕ → Bool

pub record BlockDeviceStripeSource (Channel : IoChannel) : Type 0 where
  pub channel : Channel.State
  pub stripe_sector_count : ℕ
  pub source_sector_count : ℕ

pub new : (Device : BlockDevice) → ℕ → Result (BlockDeviceStripeSource Device.channel)
new Device stripe_sector_count = do
  channel ← Device.create_channel
  ok (record {
    channel = channel;
    stripe_sector_count = stripe_sector_count;
    source_sector_count = Device.sector_count;
  })

module _ {Channel : IoChannel} where
  -- `stripe_id as u64 * self.stripe_sector_count`, which wraps in a release build.
  unfoldable pub offset_of : BlockDeviceStripeSource Channel → ℕ → ℕ
  offset_of s stripe_id = stripe_id * s.stripe_sector_count % 2 ^ 64

  -- The read is queued, and the channel is asked to submit.
  unfoldable pub request_read :
      BlockDeviceStripeSource Channel
      → ℕ
      → SharedBuffer
      → ℕ
      → BlockDeviceStripeSource Channel × Result (Unit {0})
  request_read s stripe_id buffer offset =
      let count = min s.stripe_sector_count (s.source_sector_count - offset) % 2 ^ 32 in
      elim (Channel.add_read s.channel offset count buffer stripe_id) [
        | ok channel' ↦
            let (channel'', result) = Channel.submit channel' in
            (record s { channel = channel'' }, result)
        | err e ↦ (s, err e)
        | panic ↦ (s, panic)
      ]

  unfoldable pub request :
      BlockDeviceStripeSource Channel
      → ℕ
      → SharedBuffer
      → BlockDeviceStripeSource Channel × Result (Unit {0})
  unfolding offset_of request_read
  request s stripe_id buffer =
      let offset = offset_of s stripe_id in
      if leb s.source_sector_count offset
      then (s, err (invalid_parameter (stripe_beyond_source stripe_id)))
      else request_read s stripe_id buffer offset

  unfoldable pub poll :
      BlockDeviceStripeSource Channel → Result (BlockDeviceStripeSource Channel × List Completion)
  poll s = do
    (channel', completions) ← Channel.poll s.channel
    ok (record s { channel = channel' }, completions)

  unfoldable pub busy : BlockDeviceStripeSource Channel → Bool
  busy s = Channel.busy s.channel

  unfoldable pub sector_count : BlockDeviceStripeSource Channel → ℕ
  sector_count s = s.source_sector_count

  unfoldable pub has_stripe : BlockDeviceStripeSource Channel → ℕ → Bool
  unfolding offset_of
  has_stripe s stripe_id = ltb (offset_of s stripe_id) s.source_sector_count

-- A block device as a stripe source.
abbrev pub source : IoChannel → StripeSource
source Channel = record {
  State = BlockDeviceStripeSource Channel;
  request = request;
  poll = poll;
  busy = busy;
  sector_count = sector_count;
  has_stripe = has_stripe;
}
