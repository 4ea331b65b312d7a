-- ===== src/StripeFetcher/Examples.antt =====
-- src/block_device/bdev_lazy/stripe_fetcher.rs: a source that takes no request.
use ubiblk.Error.{channel_error}
use ubiblk.Prelude.{ℕ, suc, refl, true, false, [], ◌∷◌, ok, err, arith, contains}
use ubiblk.BufferPool.{SharedBuffer, AlignedBufferPool, get_buffer, return_buffer, has_available}
use ubiblk.BufferPool
use ubiblk.BufferPool.Laws.{new-IsValid}
use ubiblk.IoChannel.{IoChannel}
use ubiblk.StripeSource.{StripeSource}
use ubiblk.StripeFetcher.{StripeFetcher, queued}
use ubiblk.StripeFetcher.Operations.{start_fetches}
use ubiblk.StripeFetcher.Loop.{IsReady}
use ubiblk.StripeFetcher.Progress.{Ends, start_fetches-Ends}

-- It counts the requests that it turns down.
abbrev refuses : StripeSource
refuses = record {
  State = ℕ;
  request = λ n _ _. (suc n, err channel_error);
  poll = λ n. ok (n, []);
  busy = λ _. false;
  sector_count = λ _. 16;
  has_stripe = λ _ _. true;
}

abbrev silent : IoChannel
silent = record {
  State = Unit {0};
  add_read = λ c _ _ _ _. ok c;
  add_write = λ c _ _ _ _. ok c;
  add_flush = λ c _. ok c;
  submit = λ c. (c, ok tt);
  poll = λ c. ok (c, []);
  busy = λ _. false;
}

-- Two stripes of eight sectors are queued.
abbrev two_queued : StripeFetcher refuses silent
two_queued = record {
  stripe_source = 0;
  fetch_target_channel = tt;
  source_sector_count = 16;
  target_sector_count = 16;
  stripe_sector_count = 8;
  fetch_queue = 0 ∷ 1 ∷ [];
  autofetch_queue = [];
  buffer_pool = BufferPool.new 100 16 4096;
  shared_metadata_state = record {
    stripe_fetch_states = 0 ∷ 0 ∷ [];
    stripe_write_states = 0 ∷ 0 ∷ [];
    stripe_sector_count_shift = 3;
    fetched_stripes_count = 0;
    source_stripes_count = 2;
  };
  stripe_states = (0, queued) ∷ (1, queued) ∷ [];
  stripe_fetch_retries = [];
  allocated_buffers = [];
  finished_fetches = [];
  autofetch = false;
  disconnected = false;
}

ready : IsReady two_queued
unfolding contains
ready = record {
  pool_ok = new-IsValid 100 16 4096;
  distinct = (refl, (refl, tt));
  in_range = (omega arith, (omega arith, tt));
}

start_fetches-Ends_example : Ends (start_fetches two_queued)
start_fetches-Ends_example = start_fetches-Ends (λ n id b e. cc) two_queued ready
