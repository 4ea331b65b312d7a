-- ===== src/MetadataFlusher/Examples.antt =====
-- src/block_device/bdev_lazy/metadata_flusher.rs: one update over a device that takes everything.
use ubiblk.Prelude.{
  ℕ, ◌+◌, ◌%◌, ◌^◌, ◌≡◌, refl, true, false, List, [], ◌∷◌, ◌++◌, ok, arith, not, ◌==◌,
}
use ubiblk.BufferPool
use ubiblk.IoChannel.{IoChannel, Completion}
use ubiblk.Metadata.{
  UbiMetadata, ubi_magic, metadata_version_major, metadata_version_minor, stripe_sector_count,
  stripe_count,
}
use ubiblk.SharedState.{SharedMetadataState}
use ubiblk.MetadataFlusher.{MetadataFlusher, new, set_stripe_fetched}
use ubiblk.MetadataFlusher.Operations.{update}
use ubiblk.MetadataFlusher.Invariant.{InOrder}
use ubiblk.MetadataFlusher.Completions.{IsCalm}
use ubiblk.MetadataFlusher.Life.{Reach, here, further, fetched, flusher_runs}

-- A device that finishes every request at the next poll; it fails those of stripe 1.
abbrev answers : IoChannel
answers = record {
  State = List Completion;
  add_read = λ log _ _ _ id. ok (log ++ (id, true) ∷ []);
  add_write = λ log _ _ _ id. ok (log ++ (id, not (id == 1)) ∷ []);
  add_flush = λ log id. ok (log ++ (id, true) ∷ []);
  submit = λ log. (log, ok tt);
  poll = λ log. ok ([], log);
  busy = λ _. false;
}

answers-IsCalm : IsCalm answers
answers-IsCalm = record {
  writes = λ c off count buf id. (_, refl);
  flushes = λ c id. (_, refl);
  submits = λ c e. cc;
  polls = λ c. (_, _, refl);
}

abbrev sum : List ℕ → ℕ
sum [] = 0
sum (b ∷ bs) = (b + sum bs) % 2 ^ 32

abbrev metadata : UbiMetadata
metadata = record {
  magic = ubi_magic;
  version_major = metadata_version_major;
  version_minor = metadata_version_minor;
  stripe_sector_count_shift = 3;
  stripe_headers = 4 ∷ 4 ∷ [];
}

abbrev shared : SharedMetadataState
shared = record {
  stripe_fetch_states = 0 ∷ 0 ∷ [];
  stripe_write_states = 0 ∷ 0 ∷ [];
  stripe_sector_count_shift = 3;
  fetched_stripes_count = 0;
  source_stripes_count = 2;
}

first : MetadataFlusher answers
first = record {
  channel = [];
  metadata = metadata;
  shared_state = shared;
  sectors_being_updated = [];
  header_updates = [];
  queued_requests = [];
  buffer_pool = BufferPool.new 100 16 512;
  memory = [];
}

first_made : new {Channel = answers} [] metadata 16 shared 100 ≡ ok first
unfolding new first stripe_sector_count stripe_count
first_made = refl

requested : Reach sum first (set_stripe_fetched first 0)
unfolding first
requested = further here (fetched 0 (omega arith) refl)

flusher_runs_example :
    InOrder [] (set_stripe_fetched first 0)
    × (h : MetadataFlusher answers) × (update sum (set_stripe_fetched first 0) ≡ ok h)
flusher_runs_example =
    flusher_runs answers-IsCalm sum [] metadata 16 shared 100 first (set_stripe_fetched first 0)
      refl refl first_made requested
