-- ===== src/BgWorker/Examples.antt =====
-- src/block_device/bdev_lazy/bgworker.rs: a worker that finds two requests waiting.
use ubiblk.Error.{channel_error}
use ubiblk.Prelude.{ℕ, suc, ◌≡◌, refl, true, false, some, [], ◌∷◌, ok, err, lookup, insert}
use ubiblk.BufferPool
use ubiblk.IoChannel.{IoChannel}
use ubiblk.Metadata.{ubi_magic, metadata_version_major, metadata_version_minor}
use ubiblk.SharedState.{SharedMetadataState, stripe_fetched_if_needed, stripe_fetch_state}
use ubiblk.StripeSource.{StripeSource}
use ubiblk.StripeFetcher.{StripeFetcher, handle_fetch_request, queued}
use ubiblk.MetadataFlusher.{MetadataFlusher, set_stripe_written}
use ubiblk.MetadataFlusher
use ubiblk.LazyDevice.{fetch, set_written}
use ubiblk.BgWorker.{BgWorker, receive_requests, receive_all, process_request}
use ubiblk.BgWorker.Receiving.{Handled, receive_requests-Handled}

abbrev refuses : StripeSource
refuses = record {
  State = ℕ;
  request = λ n _ _. (suc n, err channel_error);
  poll = λ n. ok (n, []);
  busy = λ _. false;
  sector_count = λ _. 16;
  has_stripe = λ _ _. true;
}

abbrev silent : IoChannel
silent = record {
  State = Unit {0};
  add_read = λ c _ _ _ _. ok c;
  add_write = λ c _ _ _ _. ok c;
  add_flush = λ c _. ok c;
  submit = λ c. (c, ok tt);
  poll = λ c. ok (c, []);
  busy = λ _. false;
}

abbrev state : SharedMetadataState
state = record {
  stripe_fetch_states = 0 ∷ 0 ∷ [];
  stripe_write_states = 0 ∷ 0 ∷ [];
  stripe_sector_count_shift = 3;
  fetched_stripes_count = 0;
  source_stripes_count = 2;
}

abbrev fetcher : StripeFetcher refuses silent
fetcher = record {
  stripe_source = 0;
  fetch_target_channel = tt;
  source_sector_count = 16;
  target_sector_count = 16;
  stripe_sector_count = 8;
  fetch_queue = [];
  autofetch_queue = [];
  buffer_pool = BufferPool.new 100 16 4096;
  shared_metadata_state = state;
  stripe_states = [];
  stripe_fetch_retries = [];
  allocated_buffers = [];
  finished_fetches = [];
  autofetch = false;
  disconnected = false;
}

abbrev flusher : MetadataFlusher silent
flusher = record {
  channel = tt;
  metadata = record {
    magic = ubi_magic;
    version_major = metadata_version_major;
    version_minor = metadata_version_minor;
    stripe_sector_count_shift = 3;
    stripe_headers = 4 ∷ 4 ∷ [];
  };
  shared_state = state;
  sectors_being_updated = [];
  header_updates = [];
  queued_requests = [];
  buffer_pool = BufferPool.new 200 16 512;
  memory = [];
}

abbrev before : BgWorker refuses silent silent
before = record {
  stripe_fetcher = fetcher;
  metadata_flusher = flusher;
  req_receiver = record { waiting = fetch 0 ∷ set_written 1 ∷ fetch 0 ∷ []; connected = false };
  metadata_state = state;
  done = false;
}

-- One fetch, one mark; no sender is left, so the worker stops.
abbrev after : BgWorker refuses silent silent
after = record {
  stripe_fetcher = record fetcher { fetch_queue = 0 ∷ []; stripe_states = (0, queued) ∷ [] };
  metadata_flusher = record flusher {
    queued_requests = record { stripe_id = 1; kind = MetadataFlusher.set_written } ∷ [];
  };
  req_receiver = record { waiting = []; connected = false };
  metadata_state = state;
  done = true;
}

received : receive_requests before true ≡ ok (some after)
unfolding receive_requests receive_all process_request handle_fetch_request set_stripe_written
    stripe_fetched_if_needed stripe_fetch_state lookup insert
received = refl

receive_requests-Handled_example : Handled before (fetch 0 ∷ set_written 1 ∷ fetch 0 ∷ []) after
receive_requests-Handled_example = receive_requests-Handled before after true received
