-- ===== src/Archiver/Operations.antt =====
-- src/archive/archiver.rs: fetching stripes, uploading them, and the two loops.
-- `holds` says what a buffer holds that the channel or the stripe source has filled. `to_json` is
-- serde_json, and the nonces are those that wrap the two keys.
use ubiblk.Error.{
  archive_error, stripe_fetch_error, stripe_buffer_missing, unexpected_upload_completion,
}
use ubiblk.Prelude.{
  ℕ, zero, suc, ◌+◌, ◌-◌, ◌%◌, ◌^◌, min, Bool, true, false, not, ◌&&◌, ◌||◌, Option, none, some,
  List, [], ◌∷◌, ◌++◌, Result, ok, err, panic, ◌>>=◌, ◌>>◌, fail_if, ltb, ◌==◌, if◌then◌else◌,
  length, lookup, insert, remove, beq_bytes,
}
use ubiblk.BufferPool
use ubiblk.BufferPool.{SharedBuffer}
use ubiblk.IoChannel.{IoChannel, Completion}
use ubiblk.StripeSource.{StripeSource}
use ubiblk.Metadata.{stripe_sector_count}
use ubiblk.Crypt.{Xts}
use ubiblk.Archive.{ArchiveStore, ObjectName}
use ubiblk.Archive.Compression.{Zstd, compress}
use ubiblk.Archive.StripeMapping.{zeroes, hashed}
use ubiblk.ArchiveSource.Operations.{object_key, is_empty}
use ubiblk.Archiver.{
  StripeArchiver, stripe_written, stripe_fetched, stripe_should_be_archived, or_else, stripe_offset,
  is_zero_stripe, maybe_encrypt,
}

-- `HashSet::contains`
unfoldable pub has_key : ObjectName → List ObjectName → Bool
has_key key [] = false
has_key key (k ∷ keys) = beq_bytes k key || has_key key keys

-- `u64::saturating_add`
abbrev pub saturating_add : ℕ → ℕ → ℕ
saturating_add a b = min (a + b) (2 ^ 64 - 1)

module _ {Source : StripeSource} {Channel : IoChannel} {Store : ArchiveStore} where
  unfoldable pub start_fetch_stripe :
      StripeArchiver Source Channel Store
      → ℕ
      → SharedBuffer
      → Result (StripeArchiver Source Channel Store)
  start_fetch_stripe a stripe_id buffer = do
    present ← or_else (stripe_written a.metadata stripe_id) (stripe_fetched a.metadata stripe_id)
    elim present [
      | true ↦ do
        channel ←
            Channel.add_read a.io_channel (stripe_offset a.metadata stripe_id)
              (stripe_sector_count a.metadata % 2 ^ 32) buffer stripe_id
        let (channel', submitted) = Channel.submit channel
        submitted
        ok (record a { io_channel = channel' })
      | false ↦ do
        let (source', requested) = Source.request a.stripe_source stripe_id buffer
        requested
        ok (record a { stripe_source = source' })
    ]

  -- The stripe is started if there was a buffer for it.
  unfoldable pub start_with :
      StripeArchiver Source Channel Store
      → ℕ
      → BufferPool.AlignedBufferPool
      → Option SharedBuffer
      → Result (StripeArchiver Source Channel Store × Bool)
  start_with a stripe_id pool none = ok (record a { buffer_pool = pool }, false)
  start_with a stripe_id pool (some buffer) = do
    a' ←
        start_fetch_stripe
          (record a {
            buffer_pool = pool;
            stripe_fetch_buffers = insert stripe_id buffer a.stripe_fetch_buffers;
          })
          stripe_id buffer
    ok (a', true)

  unfoldable pub maybe_start_next_stripe :
      StripeArchiver Source Channel Store → ℕ → Result (StripeArchiver Source Channel Store × Bool)
  unfolding start_with
  maybe_start_next_stripe a stripe_id = do
    (got, pool) ← BufferPool.get_buffer a.buffer_pool
    start_with a stripe_id pool got

  -- The completions of the store: each takes one upload off those in flight.
  unfoldable pub finish_uploads :
      StripeArchiver Source Channel Store
      → List (ObjectName × Result (Unit {0}))
      → Result (StripeArchiver Source Channel Store)
  finish_uploads a [] = ok a
  finish_uploads a ((obj_name, result) ∷ results) = do
    result
    fail_if (a.inflight_puts == 0) (archive_error unexpected_upload_completion)
    finish_uploads (record a { inflight_puts = a.inflight_puts - 1 }) results

  unfoldable pub poll_uploads :
      StripeArchiver Source Channel Store → Result (StripeArchiver Source Channel Store)
  unfolding finish_uploads
  poll_uploads a =
      let (store', results) = Store.poll_puts a.archive_store in
      finish_uploads (record a { archive_store = store' }) results

  module _ (X : Xts) (Z : Zstd) (sha256 hex_encode : List ℕ → List ℕ)
      (holds : Channel.State → Source.State → SharedBuffer → List ℕ) where
    -- An object that is not the first with its key is not uploaded again.
    unfoldable pub upload_object :
        StripeArchiver Source Channel Store → List ℕ → List ℕ → StripeArchiver Source Channel Store
    unfolding has_key
    upload_object a hash object_data =
        let key = object_key hex_encode hash in
        if has_key key a.seen_object_keys then a else record a {
          seen_object_keys = key ∷ a.seen_object_keys;
          archive_store = Store.start_put_object a.archive_store key object_data;
          physical_size_bytes = saturating_add a.physical_size_bytes (length object_data);
          inflight_puts = a.inflight_puts + 1;
        }

    -- The stripe's data, which are not all zero, as an object.
    unfoldable pub upload_data :
        StripeArchiver Source Channel Store
        → ℕ
        → SharedBuffer
        → List ℕ
        → Result (StripeArchiver Source Channel Store)
    unfolding upload_object
    upload_data a stripe_id buffer bytes = do
      packed ← compress Z a.compression bytes
      pool ← BufferPool.return_buffer a.buffer_pool buffer
      object_data ← maybe_encrypt X a.block_cipher a.metadata stripe_id packed
      let hash = sha256 object_data
      ok (
          upload_object
            (record a {
              buffer_pool = pool;
              stripe_hashes = insert stripe_id (hashed hash) a.stripe_hashes;
            })
            hash object_data)

    -- The stripe holds zeros only: there is no object for it.
    unfoldable pub note_zeroes :
        StripeArchiver Source Channel Store
        → ℕ
        → SharedBuffer
        → Result (StripeArchiver Source Channel Store)
    note_zeroes a stripe_id buffer = do
      pool ← BufferPool.return_buffer a.buffer_pool buffer
      ok (record a { stripe_hashes = insert stripe_id zeroes a.stripe_hashes; buffer_pool = pool })

    unfoldable pub upload_stripe :
        StripeArchiver Source Channel Store
        → ℕ
        → SharedBuffer
        → List ℕ
        → Result (StripeArchiver Source Channel Store)
    upload_stripe a stripe_id buffer bytes =
        if is_zero_stripe bytes
        then note_zeroes a stripe_id buffer
        else upload_data a stripe_id buffer bytes

    unfoldable pub start_upload_stripe :
        StripeArchiver Source Channel Store → ℕ → Result (StripeArchiver Source Channel Store)
    unfolding upload_stripe
    start_upload_stripe a stripe_id = elim (lookup stripe_id a.stripe_fetch_buffers) [
      | none ↦ err (archive_error (stripe_buffer_missing stripe_id))
      | some buffer ↦
          upload_stripe
            (record a { stripe_fetch_buffers = remove stripe_id a.stripe_fetch_buffers }) stripe_id
            buffer (holds a.io_channel a.stripe_source buffer)
    ]

    unfoldable pub finish_fetches :
        StripeArchiver Source Channel Store
        → List Completion
        → Result (StripeArchiver Source Channel Store)
    unfolding start_upload_stripe
    finish_fetches a [] = ok a
    finish_fetches a ((stripe_id, success) ∷ completed) = do
      fail_if (not success) (archive_error (stripe_fetch_error stripe_id))
      a' ← start_upload_stripe a stripe_id
      finish_fetches a' completed

    unfoldable pub poll_fetches :
        StripeArchiver Source Channel Store → Result (StripeArchiver Source Channel Store)
    unfolding finish_fetches
    poll_fetches a = do
      (channel', read) ← Channel.poll a.io_channel
      (source', fetched) ← Source.poll a.stripe_source
      finish_fetches (record a { io_channel = channel'; stripe_source = source' }) (read ++ fetched)

    -- One round of the first loop, for a stripe that is to be archived: was it started?
    unfoldable pub start_round :
        StripeArchiver Source Channel Store
        → ℕ
        → Result (StripeArchiver Source Channel Store × Bool)
    start_round a stripe_id = do
      (a1, started) ← maybe_start_next_stripe a stripe_id
      a2 ← poll_fetches a1
      a3 ← poll_uploads a2
      ok (a3, started)

    -- The first loop; `none` means that the fuel ran out.
    unfoldable pub start_loop :
        ℕ
        → StripeArchiver Source Channel Store
        → ℕ
        → Option (Result (StripeArchiver Source Channel Store))
    start_loop zero a next_stripe_id = none
    start_loop (suc fuel) a next_stripe_id =
        if ltb next_stripe_id a.stripe_count
        then (elim (stripe_should_be_archived a.metadata next_stripe_id) [
          | ok false ↦ start_loop fuel a (next_stripe_id + 1)
          | ok true ↦ elim (start_round a next_stripe_id) [
            | ok (a', true) ↦ start_loop fuel a' (next_stripe_id + 1)
            | ok (a', false) ↦ start_loop fuel a' next_stripe_id
            | err e ↦ some (err e)
            | panic ↦ some panic
          ]
          | err e ↦ some (err e)
          | panic ↦ some panic
        ])
        else some (ok a)

    -- The second loop: what is in flight is waited for.
    unfoldable pub drain_loop :
        ℕ
        → StripeArchiver Source Channel Store
        → Option (Result (StripeArchiver Source Channel Store))
    drain_loop zero a = none
    drain_loop (suc fuel) a =
        if is_empty a.stripe_fetch_buffers && a.inflight_puts == 0
        then some (ok a)
        else (elim (poll_fetches a >>= poll_uploads) [
          | ok a' ↦ drain_loop fuel a'
          | err e ↦ some (err e)
          | panic ↦ some panic
        ])
