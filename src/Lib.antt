-- ===== src/Lib.antt =====
-- Verification library of ubiblk, a user-space block device whose data is fetched on demand.
--
-- The program. A vhost or ublk backend serves a guest's requests through channels, one above the
-- other. The lazy device (src/block_device/bdev_lazy) is the core: its base device holds the data
-- that is there, stripe by stripe; a stripe that is not there yet is fetched from a stripe source
-- (src/stripe_source). The channels of the lazy device pass a request on to the base device when its
-- stripes are there, else they queue it and ask the background worker. The worker owns a stripe
-- fetcher, which copies stripes from the source to the base device, and a metadata flusher, which
-- records in the metadata on disk which stripes are fetched or written. Channels and worker share the
-- metadata state, an array of atomics. The archiver (src/archive) copies the stripes of a device into
-- a store of objects, compressed, encrypted (src/crypt) and named by their hashes, with a signed
-- mapping from stripes to hashes and signed metadata; the archive stripe source reads them back. A
-- stripe server (src/stripe_server) serves the stripes of a volume to remote clients.
--
-- Which file models which part:
--   Error           src/error.rs, the error values that the modelled code builds
--   BufferPool      src/utils/aligned_buffer_pool.rs, AlignedBufferPool
--   IoChannel       src/block_device/mod.rs, the traits IoChannel and BlockDevice as records
--   Metadata        src/block_device/bdev_lazy/metadata/types.rs, UbiMetadata; Metadata.Codec is
--                   from_bytes, write_to_buf and the sector checksums
--   SharedState     src/block_device/bdev_lazy/metadata/shared_state.rs, SharedMetadataState
--   LazyDevice      src/block_device/bdev_lazy/device.rs, LazyIoChannel: Requests asks the worker,
--                   Queue is process_queued_rw_requests, Operations the methods of the trait
--   MetadataFlusher src/block_device/bdev_lazy/metadata_flusher.rs; Operations is update with its
--                   loops
--   StripeSource    src/stripe_source/mod.rs and src/stripe_source/bdev.rs
--   StripeFetcher   src/block_device/bdev_lazy/stripe_fetcher.rs; Operations is update with its loops
--   Prelude         shared notation, lists, results and maps; it models nothing
--   BgWorker        src/block_device/bdev_lazy/bgworker.rs, over the fetcher and the flusher
--   StatusReport    src/block_device/bdev_lazy/status_report.rs
--   Waiting         src/block_device/wait_for_completion.rs and src/stripe_source/wait.rs
--   IoTracker       src/backends/common/io_tracking.rs
--   Crypt           src/crypt/block.rs, XtsBlockCipher; Crypt.Keys is src/crypt/key.rs and the wrapping
--                   of the two keys
--   Archive         src/archive/mod.rs; Compression, Hmac, StripeMapping (stripe_hashes.rs) and FileStore
--                   (fs_store.rs) are the files of src/archive with these names
--   Archiver        src/archive/archiver.rs: Operations is fetching, uploading and the two loops,
--                   Finishing the metadata, the mapping and archive_all; Ledger is what the code uses of
--                   a store, seen from outside, Handed and Rounds what the archiver hands it
--   ArchiveSource   src/stripe_source/archive.rs; Operations is the requests and their answers
--   StripeServer    src/stripe_server/mod.rs; Session is session.rs, Client client.rs, and Wire joins the
--                   two by a connection that keeps every byte in order
--   Memory          src/utils/aligned_buffer.rs: what the buffers hold, by their addresses
-- A function has the name of the method it models; a helper that is a part of a method says so.
--
-- How it is modelled. A method is a function from the old state to the new one, in Result: a value, an
-- error, or a panic (an index out of range, a failed assertion, unwrap of None). Numbers are the
-- native natural numbers; where the code's arithmetic on u64 can wrap, the remainder is written out.
-- usize has 64 bits and the build is a release build. A hash map is an association list, a hash set a
-- list. A shared buffer is a handle: its address, the id and the length; what it holds is part of the
-- state of the component that fills it. What lies under a component is a parameter: the channels
-- under the lazy channel, the metadata device under the flusher, source and target of the fetcher,
-- crc32, the hash of the package crc32fast, and for the archive AES-XTS, AES-GCM, HMAC, SHA-256, zstd,
-- CBOR, JSON and the file system. Their laws are named hypotheses (IsXts, IsGcm, IsLossless, IsCbor,
-- IsFileSystem). What a store is handed and has not reported is a parameter too (Ledger), and the
-- tags of HMAC are any bytes. Random keys and nonces are arguments. The shared metadata
-- state is a field of each channel,
-- which a step of its own renews, so another thread's changes fall between two calls, not within one.
-- The worker, its fetcher and its flusher hold the same atomics: after each of the two has run,
-- the worker's model hands its state to the other.
--
-- Loops are structural recursion over the list they work off. The loop of start_fetches, which can
-- lengthen its own queue by retries, runs on fuel: four rounds for each queued stripe, since a stripe is
-- tried four times at most; StripeFetcher.Progress shows that this is enough. The two waiting loops
-- run on the number of polls that fit before the timeout, and so do put_object and get_object. The two
-- loops of the archiver poll until the device, the source and the store have answered, which they may
-- never do: they run on fuel, and none says that it ran out. A run in Archiver.Examples ends.
-- A session of the stripe server runs on fuel too: one round for each byte that the client has sent,
-- and one more, which StripeServer.Ending shows to be enough.
--
-- Not modelled: logging; the worker's construction and thread; loading and saving of the metadata, which
-- need a device that moves bytes; the other devices and sources; the dialling, the keys and
-- the older volumes of the stripe server; the S3 store and
-- the export of an archive; the serialisation of keys; the backends and the configuration.
-- src/backends/vhost/request.rs is a copy of another project's code.
pub mod Error
pub mod Prelude
pub mod BufferPool
pub mod Metadata
pub mod SharedState
pub mod IoChannel
pub mod LazyDevice
pub mod StripeSource
pub mod StripeFetcher
pub mod BgWorker
pub mod StatusReport
pub mod IoTracker
pub mod Waiting
pub mod Crypt
pub mod MetadataFlusher
pub mod Archive
pub mod Memory
pub mod ArchiveSource
pub mod Archiver
pub mod StripeServer
