-- ===== src/IoChannel.antt =====
-- src/block_device/mod.rs: the traits that every layer of the block device stack implements and
-- takes. An operation returns the channel's new state; it may panic.
use ubiblk.Prelude.{ℕ, Bool, List, Result}
use ubiblk.BufferPool.{SharedBuffer}
use ubiblk.Metadata.{div_ceil}

-- A finished request: its id, and whether it succeeded.
abbrev pub Completion : Type 0
Completion = ℕ × Bool

pub record IoChannel : Type 1 where
  pub State : Type 0
  -- The sector offset, the sector count, the buffer and the request's id.
  pub add_read : State → ℕ → ℕ → SharedBuffer → ℕ → Result State
  pub add_write : State → ℕ → ℕ → SharedBuffer → ℕ → Result State
  pub add_flush : State → ℕ → Result State
  -- The channel is changed also where `submit` answers with an error.
  pub submit : State → State × Result (Unit {0})
  pub poll : State → Result (State × List Completion)
  pub busy : State → Bool

pub record BlockDevice : Type 1 where
  pub channel : IoChannel
  pub create_channel : Result channel.State
  pub sector_count : ℕ

-- The default method of the trait, for a positive stripe size.
pub stripe_count : BlockDevice → ℕ → ℕ
stripe_count d stripe_sector_count = div_ceil d.sector_count stripe_sector_count
