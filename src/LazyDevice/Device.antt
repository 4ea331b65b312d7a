-- ===== src/LazyDevice/Device.antt =====
-- src/block_device/bdev_lazy/device.rs: the device itself, which builds the channels.
use ubiblk.Prelude.{Bool, true, false, Option, none, some, Result, ok, ◌>>=◌}
use ubiblk.IoChannel.{BlockDevice}
use ubiblk.SharedState.{SharedMetadataState}
use ubiblk.LazyDevice.{LazyIoChannel, new, Sender}
use ubiblk.LazyDevice.Operations.{channel}

pub record LazyBlockDevice (Base Image : BlockDevice) : Type 0 where
  pub has_image : Bool
  pub bgworker_ch : Sender
  pub metadata_state : SharedMetadataState
  pub track_written : Bool

image_channel : (Image : BlockDevice) → Bool → Result (Option Image.channel.State)
image_channel Image false = ok none
image_channel Image true = do image ← Image.create_channel; ok (some image)

module _ {Base Image : BlockDevice} where
  unfoldable pub create_channel :
      LazyBlockDevice Base Image → Result (LazyIoChannel Base.channel Image.channel)
  unfolding image_channel
  create_channel d = do
    base_channel ← Base.create_channel
    image ← image_channel Image d.has_image
    ok (new base_channel image d.bgworker_ch d.metadata_state d.track_written)

  -- The lazy device is a block device again.
  abbrev pub device : LazyBlockDevice Base Image → BlockDevice
  device d = record {
    channel = channel Base.channel Image.channel;
    create_channel = create_channel d;
    sector_count = Base.sector_count;
  }
