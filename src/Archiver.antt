-- ===== src/Archiver.antt =====
-- src/archive/archiver.rs: `StripeArchiver`, which copies the stripes of a device into a store.
-- A method returns the new archiver; after an error the archiver is given up.
pub mod Operations
pub mod Finishing
pub mod Ledger
pub mod Handed
pub mod Rounds
pub mod Covered
pub mod Uploaded
pub mod Complete
pub mod Mapping
pub mod Restoring
mod Examples
use ubiblk.Prelude.{
  ℕ, ◌*◌, ◌/◌, ◌%◌, ◌^◌, Bool, true, false, not, ◌&&◌, ◌||◌, Option, none, some, List, [], ◌∷◌,
  Result, ok, ◌>>=◌, ◌>>◌, assert, unwrap, ◌==◌, length, get_elem?,
}
use ubiblk.BufferPool.{SharedBuffer, AlignedBufferPool}
use ubiblk.BufferPool
use ubiblk.IoChannel.{IoChannel, BlockDevice, stripe_count}
use ubiblk.StripeSource.{StripeSource}
use ubiblk.Metadata.{
  UbiMetadata, has_flag, written_flag, fetched_flag, has_source_flag, stripe_sector_count,
  sector_size,
}
use ubiblk.Crypt.{Xts, XtsBlockCipher, encrypt}
use ubiblk.Crypt.Keys.{KeyEncryptionCipher}
use ubiblk.Archive.{ArchiveStore, ArchiveCompressionAlgorithm, ObjectName}
use ubiblk.Archive.StripeMapping.{StripeContentMap}

-- `HashSet<String>` is a list.
pub record StripeArchiver (Source : StripeSource) (Channel : IoChannel) (Store : ArchiveStore)
    : Type 0 where
  pub stripe_source : Source.State
  pub io_channel : Channel.State
  pub stripe_count : ℕ
  pub metadata : UbiMetadata
  pub archive_store : Store.State
  pub block_cipher : Option XtsBlockCipher
  pub kek : KeyEncryptionCipher
  pub buffer_pool : AlignedBufferPool
  pub inflight_puts : ℕ
  pub stripe_fetch_buffers : List (ℕ × SharedBuffer)
  pub seen_object_keys : List ObjectName
  pub stripe_hashes : StripeContentMap
  pub hmac_key : List ℕ
  pub compression : ArchiveCompressionAlgorithm
  pub physical_size_bytes : ℕ

-- The keys are random in the source: `block_cipher` is there if the archive is encrypted. `ptr` is the
-- address of the pool's first buffer.
pub new :
    (Source : StripeSource) (Device : BlockDevice) (Store : ArchiveStore)
    → Source.State
    → UbiMetadata
    → Store.State
    → Option XtsBlockCipher
    → List ℕ
    → ArchiveCompressionAlgorithm
    → KeyEncryptionCipher
    → ℕ
    → ℕ
    → Result (StripeArchiver Source Device.channel Store)
new Source Device Store stripe_source metadata archive_store block_cipher hmac_key compression kek
      concurrency ptr =
    do
      io_channel ← Device.create_channel
      ok (record {
        stripe_source = stripe_source;
        io_channel = io_channel;
        stripe_count = stripe_count Device (stripe_sector_count metadata);
        metadata = metadata;
        archive_store = archive_store;
        block_cipher = block_cipher;
        kek = kek;
        buffer_pool =
            BufferPool.new ptr concurrency (stripe_sector_count metadata * sector_size % 2 ^ 64);
        inflight_puts = 0;
        stripe_fetch_buffers = [];
        seen_object_keys = [];
        stripe_hashes = [];
        hmac_key = hmac_key;
        compression = compression;
        physical_size_bytes = 0;
      })

-- `self.metadata.stripe_headers[stripe_id] & flag != 0`
abbrev pub header_has : UbiMetadata → ℕ → ℕ → Result Bool
header_has metadata flag stripe_id = do
  header ← unwrap (get_elem? metadata.stripe_headers stripe_id)
  ok (has_flag header flag)

unfoldable pub stripe_written : UbiMetadata → ℕ → Result Bool
stripe_written metadata stripe_id = header_has metadata written_flag stripe_id

unfoldable pub stripe_fetched : UbiMetadata → ℕ → Result Bool
stripe_fetched metadata stripe_id = header_has metadata fetched_flag stripe_id

unfoldable pub stripe_exists_in_source : UbiMetadata → ℕ → Result Bool
stripe_exists_in_source metadata stripe_id = header_has metadata has_source_flag stripe_id

-- `a || b`, where either may panic.
abbrev pub or_else : Result Bool → Result Bool → Result Bool
or_else a b = do first ← a; elim first [ true ↦ ok true | false ↦ b ]

unfoldable pub stripe_should_be_archived : UbiMetadata → ℕ → Result Bool
unfolding stripe_written stripe_exists_in_source
stripe_should_be_archived metadata stripe_id =
    or_else (stripe_written metadata stripe_id) (stripe_exists_in_source metadata stripe_id)

-- `stripe_id as u64 * stripe_sector_count`, which wraps in a release build.
unfoldable pub stripe_offset : UbiMetadata → ℕ → ℕ
stripe_offset metadata stripe_id = stripe_id * stripe_sector_count metadata % 2 ^ 64

unfoldable pub is_zero_stripe : List ℕ → Bool
is_zero_stripe [] = true
is_zero_stripe (byte ∷ bytes) = byte == 0 && is_zero_stripe bytes

-- The new contents of `buffer`. The length is asserted also if nothing is encrypted.
unfoldable pub maybe_encrypt :
    Xts → Option XtsBlockCipher → UbiMetadata → ℕ → List ℕ → Result (List ℕ)
unfolding stripe_offset
maybe_encrypt X block_cipher metadata stripe_id buffer = do
  assert (length buffer % sector_size == 0)
  elim block_cipher [
    | none ↦ ok buffer
    | some cipher ↦
        encrypt X cipher buffer (stripe_offset metadata stripe_id) (length buffer / sector_size)
  ]
