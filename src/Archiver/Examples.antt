-- ===== src/Archiver/Examples.antt =====
-- src/archive/archiver.rs: a device of three stripes, one of them neither written nor in the source,
-- archived with a single buffer.
use ubiblk.Prelude.{
  ℕ, ◌≡◌, ◌⊎◌, inl, inr, length, refl, true, false, not, none, some, List, [], ◌∷◌, ◌++◌, Result,
  ok, arith, replicate, take, lookup, insert, remove, beq_bytes,
}
use ubiblk.BufferPool
use ubiblk.BufferPool.{SharedBuffer}
use ubiblk.IoChannel.{IoChannel, Completion}
use ubiblk.StripeSource.{StripeSource}
use ubiblk.Metadata.{UbiMetadata, stripe_sector_count}
use ubiblk.Crypt.{Xts}
use ubiblk.Crypt.Keys.{Gcm, plain, encrypt_key_data}
use ubiblk.Archive.{ArchiveStore, ObjectName, uncompressed, put_object}
use ubiblk.Archive.Compression.{Zstd, compress}
use ubiblk.Archive.Hmac.{Mac, compute_hmac_tag, compute_metadata_hmac_tag}
use ubiblk.Archive.StripeMapping.{
  Cbor, StripeContentSpecifier, hashed, serialize_stripe_mapping, encrypt_mapping,
}
use ubiblk.ArchiveSource.Operations.{object_key, is_empty}
use ubiblk.Archiver.{
  StripeArchiver, stripe_should_be_archived, maybe_encrypt, is_zero_stripe, stripe_fetched,
}
use ubiblk.Archiver.Operations.{
  has_key, start_loop, drain_loop, start_round, maybe_start_next_stripe, start_with,
  start_fetch_stripe, poll_fetches, poll_uploads, finish_fetches, finish_uploads,
  start_upload_stripe, upload_stripe, upload_data, upload_object,
}
use ubiblk.Archiver.Finishing.{
  archive_all, put_manifest, put_metadata, put_stripe_mapping, archive_metadata, wrapped_cipher,
}
use ubiblk.ArchiveSource.{ArchiveStripeSource, metadata_name, manifest_name}
use ubiblk.ArchiveSource.Operations.{finish_stripe_fetch}
use ubiblk.ArchiveSource.Restore.{padded_to}
use ubiblk.Archive.Compression.Laws.{as_it_is}
use ubiblk.Crypt.Loops.{IsXts}
use ubiblk.Memory.{Memory, contents}
use ubiblk.Archiver.Restoring.{finish_stripe_fetch-compress}
use ubiblk.Archiver.Ledger.{Ledger}
use ubiblk.Archiver.Handed.{Handed}
use ubiblk.Archiver.Mapping.{archive_all_covers, archive_all_uploads}

-- What is asked for is reported at the next poll.
abbrev reports : List ℕ → Result (List ℕ × List Completion)
reports [] = ok ([], [])
reports (id ∷ ids) = ok (ids, (id, true) ∷ [])

abbrev channel : IoChannel
channel = record {
  State = List ℕ;
  add_read = λ ids _ _ _ id. ok (ids ++ id ∷ []);
  add_write = λ ids _ _ _ _. ok ids;
  add_flush = λ ids _. ok ids;
  submit = λ ids. (ids, ok tt);
  poll = reports;
  busy = λ ids. not (is_empty ids);
}

abbrev stripes : StripeSource
stripes = record {
  State = List ℕ;
  request = λ ids id _. (ids ++ id ∷ [], ok tt);
  poll = reports;
  busy = λ ids. not (is_empty ids);
  sector_count = λ _. 3;
  has_stripe = λ _ _. true;
}

abbrev all_put : List ObjectName → List (ObjectName × Result (Unit {0}))
all_put [] = []
all_put (name ∷ names) = (name, ok tt) ∷ all_put names

-- A store that notes what it is handed, and the uploads that it has not reported.
abbrev notes_store : ArchiveStore
notes_store = record {
  State = List (ObjectName × List ℕ) × List ObjectName;
  start_put_object = λ s name bytes. ((name, bytes) ∷ s.0, name ∷ s.1);
  start_get_object = λ s name. s;
  poll_puts = λ s. ((s.0, []), all_put s.1);
  poll_gets = λ s. (s, []);
}

abbrev Noted : List (ObjectName × List ℕ) → ObjectName → List ℕ → Type 0
Noted [] name bytes = true ≡ false
Noted (entry ∷ entries) name bytes =
    ((entry.0 ≡ name) × (entry.1 ≡ bytes)) ⊎ Noted entries name bytes

length-all_put : (names : List ObjectName) → length (all_put names) ≡ length names
length-all_put [] = refl
length-all_put (name ∷ names) = omega (arith, length-all_put names)

abbrev notes : Ledger notes_store
notes = record {
  handed = λ s name bytes. Noted s.0 name bytes;
  running = λ s. length s.1;
  handed_now = λ s name bytes. inl (refl, refl);
  handed_before = λ s name other bytes others h. inr h;
  handed_polled = λ s name bytes h. h;
  running_put = λ s name bytes. omega arith;
  running_polled = λ s. omega (arith, length-all_put s.1);
}

abbrev nothing_encrypted : Xts
nothing_encrypted = record { enc = λ key2 key1 tweak xs. xs; dec = λ key2 key1 tweak xs. xs }

abbrev no_zstd : Zstd
no_zstd = record { encode_all = λ bytes level. none; decode_all = λ bytes. none }

abbrev same_key : Gcm
same_key = record {
  takes_key = λ key. true;
  encrypt = λ key nonce aad msg. some msg;
  decrypt = λ key nonce aad msg. some msg;
}

abbrev short_tag : Mac
short_tag = record { takes_key = λ key. true; tag = λ key xs. replicate 32 9 }

abbrev no_bytes : Cbor
no_bytes = record {
  map_to_vec = λ m. some [];
  map_from_slice = λ bytes. none;
  file_to_vec = λ f. some [];
  file_from_slice = λ bytes. none;
}

-- The first stripe was written, the second is unknown, and the third is in the source.
abbrev device : UbiMetadata
device = record {
  magic = [];
  version_major = [];
  version_minor = [];
  stripe_sector_count_shift = 0;
  stripe_headers = 2 ∷ 0 ∷ 4 ∷ [];
}

abbrev three_stripes : StripeArchiver stripes channel notes_store
three_stripes = record {
  stripe_source = [];
  io_channel = [];
  stripe_count = 3;
  metadata = device;
  archive_store = ([], []);
  block_cipher = none;
  kek = record { method = plain; key = none; auth_data = none };
  buffer_pool = record {
    buffers = record { ptr = 4096; id = 0; len = 512 } ∷ [];
    available_buffers = 0 ∷ [];
    in_use = false ∷ [];
  };
  inflight_puts = 0;
  stripe_fetch_buffers = [];
  seen_object_keys = [];
  stripe_hashes = [];
  hmac_key = replicate 32 1;
  compression = uncompressed;
  physical_size_bytes = 0;
}

abbrev sevens : List ℕ → List ℕ → SharedBuffer → List ℕ
sevens channel_state source_state buffer = replicate 512 7

abbrev archived : StripeArchiver stripes channel notes_store
archived = record three_stripes {
  archive_store = (
    (manifest_name, [])
        ∷ (metadata_name, [])
        ∷ (object_key (λ hash. hash) (7 ∷ []), replicate 512 7)
        ∷ [],
    [],
  );
  seen_object_keys = object_key (λ hash. hash) (7 ∷ []) ∷ [];
  stripe_hashes = (0, hashed (7 ∷ [])) ∷ (2, hashed (7 ∷ [])) ∷ [];
  physical_size_bytes = 512;
}

-- Both stripes have one object, which is uploaded once.
runs :
    archive_all same_key short_tag [] []
      (λ metadata. some [])
      2
      no_bytes
      nothing_encrypted
      no_zstd
      (take 1)
      (λ hash. hash)
      sevens
      9
      three_stripes
    ≡ some (ok archived)
unfolding archive_all start_loop drain_loop put_manifest stripe_should_be_archived start_round
    maybe_start_next_stripe start_with start_fetch_stripe poll_fetches poll_uploads finish_fetches
    finish_uploads start_upload_stripe upload_stripe upload_data upload_object has_key object_key
    maybe_encrypt is_zero_stripe put_metadata put_stripe_mapping archive_metadata wrapped_cipher
    BufferPool.get_buffer BufferPool.return_buffer lookup insert remove replicate beq_bytes compress
    stripe_fetched serialize_stripe_mapping encrypt_mapping compute_hmac_tag encrypt_key_data
    compute_metadata_hmac_tag put_object
runs = refl

archive_all_covers_example :
    (content : StripeContentSpecifier) × (lookup 2 archived.stripe_hashes ≡ some content)
unfolding stripe_should_be_archived
archive_all_covers_example =
    archive_all_covers same_key short_tag [] [] (λ metadata. some []) 2 no_bytes nothing_encrypted
      no_zstd (take 1) (λ hash. hash) sevens 9 three_stripes archived 2 runs (omega arith) refl

archive_all_uploads_example :
    Handed notes (take 1) (λ hash. hash) archived.archive_store (object_key (λ hash. hash) (7 ∷ []))
    × (notes.running archived.archive_store ≡ 0)
unfolding lookup
archive_all_uploads_example =
    archive_all_uploads same_key short_tag [] [] (λ metadata. some []) 2 no_bytes nothing_encrypted
      no_zstd (take 1) (λ hash. hash) sevens notes 9 three_stripes archived 2 (7 ∷ []) runs refl
      refl refl refl

-- Sevens are restored into a buffer of two sectors.
abbrev from_archive : ArchiveStripeSource notes_store
from_archive = record {
  store = ([], []);
  xts_cipher = some (record { key1 = []; key2 = [] });
  stripe_hashes = [];
  max_stripe_id = 0;
  stripe_sector_count = 1;
  compression = uncompressed;
  finished_requests = [];
  pending_requests = [];
  memory = [];
}

abbrev destination : SharedBuffer
destination = record { ptr = 4096; id = 0; len = 1024 }

nothing_encrypted-IsXts : IsXts nothing_encrypted
nothing_encrypted-IsXts = record {
  length-enc = λ key2 key1 tweak xs h. h;
  length-dec = λ key2 key1 tweak xs h. h;
  dec-enc = λ key2 key1 tweak xs h. refl;
}

finish_stripe_fetch-compress_example :
    (packed : List ℕ) × (object : List ℕ) × (memory : Memory) × (compress no_zstd uncompressed
        (replicate 512 7)
      ≡ ok packed)
    × (maybe_encrypt nothing_encrypted from_archive.xts_cipher device 2 packed ≡ ok object)
    × (finish_stripe_fetch notes_store nothing_encrypted no_zstd
          (take 1)
          (λ hash. hash)
          from_archive
          2
          destination
          object
          (take 1 object)
        ≡ ok memory)
    × (contents memory destination ≡ padded_to 1024 (replicate 512 7))
unfolding stripe_sector_count replicate
finish_stripe_fetch-compress_example =
    finish_stripe_fetch-compress notes_store nothing_encrypted no_zstd (take 1) (λ hash. hash)
      from_archive device 2 destination (replicate 512 7) nothing_encrypted-IsXts
      (record { decode-encode = λ bytes level compressed e. cc }) refl refl (omega arith) as_it_is
