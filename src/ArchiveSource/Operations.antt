-- ===== src/ArchiveSource/Operations.antt =====
-- src/stripe_source/archive.rs: the methods of the stripe source.
-- `sha256` and `hex_encode` are those of the packages sha2 and hex.
use ubiblk.Error.{archive_error, stripe_not_sector_aligned, stripe_exceeds_buffer, sha256_mismatch}
use ubiblk.Prelude.{
  ℕ, ◌+◌, ◌-◌, ◌*◌, ◌/◌, ◌%◌, ◌^◌, Bool, true, false, not, ◌&&◌, Option, none, some, List, [], ◌∷◌,
  ◌++◌, Result, ok, err, panic, ◌>>=◌, ◌>>◌, fail_if, assert, leb, ltb, ◌==◌, if◌then◌else◌, length,
  lookup, replicate, beq_bytes,
}
use ubiblk.Prelude.ByteMaps
use ubiblk.BufferPool.{SharedBuffer}
use ubiblk.Memory.{Memory, fill}
use ubiblk.IoChannel.{Completion}
use ubiblk.StripeSource.{StripeSource}
use ubiblk.Metadata.{sector_size}
use ubiblk.Crypt.{Xts, XtsBlockCipher, decrypt}
use ubiblk.Archive.{ArchiveStore, ObjectName}
use ubiblk.Archive.Compression.{Zstd, decompress}
use ubiblk.Archive.StripeMapping.{zeroes, hashed}
use ubiblk.ArchiveSource.{PendingRequest, ArchiveStripeSource, data_prefix}

-- A list without an entry.
abbrev pub is_empty : {A : Type 0} → List A → Bool
is_empty [] = true
is_empty (x ∷ xs) = false

module _ (hex_encode : List ℕ → List ℕ) where
  unfoldable pub object_key : List ℕ → ObjectName
  object_key hash = data_prefix ++ hex_encode hash

module _ (Store : ArchiveStore) (X : Xts) (Z : Zstd) (sha256 hex_encode : List ℕ → List ℕ) where
  unfoldable pub start_fetch_stripe :
      ArchiveStripeSource Store → ℕ → List ℕ → SharedBuffer → ArchiveStripeSource Store
  start_fetch_stripe s stripe_id hash buffer =
      let object_name = object_key hex_encode hash in
      elim (ByteMaps.lookup object_name s.pending_requests) [
        | some pending ↦
            let pending' = record pending {
              pending_stripes = pending.pending_stripes ++ (stripe_id, buffer) ∷ [];
            } in
            record s { pending_requests = ByteMaps.insert object_name pending' s.pending_requests }
        | none ↦
            let pending : PendingRequest = record {
              pending_stripes = (stripe_id, buffer) ∷ [];
              expected_sha256 = hash;
            } in
            record s {
              store = Store.start_get_object s.store object_name;
              pending_requests = ByteMaps.insert object_name pending s.pending_requests;
            }
      ]

  unfoldable pub verify_stripe_data : ℕ → List ℕ → List ℕ → Result (Unit {0})
  verify_stripe_data stripe_id bytes expected_sha256 =
      fail_if (not (beq_bytes (sha256 bytes) expected_sha256))
        (archive_error (sha256_mismatch stripe_id))

  -- The new contents of `bytes`.
  unfoldable pub maybe_decrypt : Option XtsBlockCipher → ℕ → List ℕ → ℕ → Result (List ℕ)
  maybe_decrypt none stripe_sector_count bytes stripe_id = ok bytes
  maybe_decrypt (some cipher) stripe_sector_count bytes stripe_id = do
    fail_if (not (length bytes % sector_size == 0))
        (archive_error (stripe_not_sector_aligned stripe_id))
    let sector_start = stripe_id * stripe_sector_count % 2 ^ 64
    decrypt X cipher bytes sector_start (length bytes / sector_size)

  -- The stripe's data and zeros behind it, in the destination buffer. The slice
  -- `buf[..decompressed_data.len()]` panics where the data is longer.
  unfoldable pub finish_stripe_fetch :
      ArchiveStripeSource Store → ℕ → SharedBuffer → List ℕ → List ℕ → Result Memory
  unfolding verify_stripe_data
  finish_stripe_fetch s stripe_id destination fetched_data expected_sha256 = do
    verify_stripe_data stripe_id fetched_data expected_sha256
    decrypted_data ← maybe_decrypt s.xts_cipher s.stripe_sector_count fetched_data stripe_id
    decompressed_data ← decompress Z s.compression decrypted_data
    fail_if (ltb destination.len (length decompressed_data))
        (archive_error (stripe_exceeds_buffer stripe_id))
    assert (leb (length decompressed_data) destination.len)
    ok (
        fill s.memory destination
          (decompressed_data ++ replicate (destination.len - length decompressed_data) 0))

  -- The new memory, and the verdict that is reported.
  abbrev pub settle :
      ArchiveStripeSource Store → ℕ → Result Memory → Result (ArchiveStripeSource Store)
  settle s stripe_id (ok memory) = ok (record s {
    memory = memory;
    finished_requests = s.finished_requests ++ (stripe_id, true) ∷ [];
  })
  settle s stripe_id (err e) =
      ok (record s { finished_requests = s.finished_requests ++ (stripe_id, false) ∷ [] })
  settle s stripe_id panic = panic

  unfoldable pub finish_pending_request :
      ArchiveStripeSource Store
      → List (ℕ × SharedBuffer)
      → List ℕ
      → List ℕ
      → Result (ArchiveStripeSource Store)
  finish_pending_request s [] bytes expected_sha256 = ok s
  finish_pending_request s ((stripe_id, buffer) ∷ pending_stripes) bytes expected_sha256 = do
    s' ← settle s stripe_id (finish_stripe_fetch s stripe_id buffer bytes expected_sha256)
    finish_pending_request s' pending_stripes bytes expected_sha256

  -- The stripes of an object that could not be got.
  unfoldable pub fail_pending : List (ℕ × SharedBuffer) → List Completion
  fail_pending [] = []
  fail_pending ((stripe_id, buffer) ∷ pending_stripes) =
      (stripe_id, false) ∷ fail_pending pending_stripes

  -- The result of one object that was asked for.
  unfoldable pub finish_object :
      ArchiveStripeSource Store
      → PendingRequest
      → Result (List ℕ)
      → Result (ArchiveStripeSource Store)
  finish_object s pending (ok bytes) =
      finish_pending_request s pending.pending_stripes bytes pending.expected_sha256
  finish_object s pending (err e) =
      ok (record s {
        finished_requests = s.finished_requests ++ fail_pending pending.pending_stripes;
      })
  finish_object s pending panic = panic

  unfoldable pub finish_objects :
      ArchiveStripeSource Store
      → List (ObjectName × Result (List ℕ))
      → Result (ArchiveStripeSource Store)
  finish_objects s [] = ok s
  finish_objects s ((object_name, result) ∷ completions) =
      elim (ByteMaps.lookup object_name s.pending_requests) [
        | none ↦ finish_objects s completions
        | some pending ↦ do
          s' ←
              finish_object
                (record s { pending_requests = ByteMaps.remove object_name s.pending_requests })
                pending result
          finish_objects s' completions
      ]

  unfoldable pub request :
      ArchiveStripeSource Store → ℕ → SharedBuffer → ArchiveStripeSource Store × Result (Unit {0})
  request s stripe_id buffer =
      let zeroed = record s {
        memory = fill s.memory buffer (replicate buffer.len 0);
        finished_requests = s.finished_requests ++ (stripe_id, true) ∷ [];
      } in
      elim (lookup stripe_id s.stripe_hashes) [
        | none ↦ (zeroed, ok tt)
        | some zeroes ↦ (zeroed, ok tt)
        | some (hashed hash) ↦ (start_fetch_stripe s stripe_id hash buffer, ok tt)
      ]

  unfoldable pub poll :
      ArchiveStripeSource Store → Result (ArchiveStripeSource Store × List Completion)
  poll s = do
    let (store', completions) = Store.poll_gets s.store
    s' ← finish_objects (record s { store = store' }) completions
    ok (record s' { finished_requests = [] }, s'.finished_requests)

  unfoldable pub busy : ArchiveStripeSource Store → Bool
  busy s = not (is_empty s.pending_requests && is_empty s.finished_requests)

  -- `(max + 1) as u64 * count`, which wraps in a release build.
  unfoldable pub sector_count : ArchiveStripeSource Store → ℕ
  sector_count s =
      if is_empty s.stripe_hashes then 0 else (s.max_stripe_id + 1) * s.stripe_sector_count % 2 ^ 64

  unfoldable pub has_stripe : ArchiveStripeSource Store → ℕ → Bool
  has_stripe s stripe_id = elim (lookup stripe_id s.stripe_hashes) [
    | none ↦ false
    | some found ↦ true
  ]

  abbrev pub source : StripeSource
  source = record {
    State = ArchiveStripeSource Store;
    request = request;
    poll = poll;
    busy = busy;
    sector_count = sector_count;
    has_stripe = has_stripe;
  }
