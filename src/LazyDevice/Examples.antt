-- ===== src/LazyDevice/Examples.antt =====
-- src/block_device/bdev_lazy/device.rs: a read that waits for its stripe, over recorders.
use ubiblk.Prelude.{◌≡◌, refl, true, [], ◌∷◌, ok, none, All, contains, add_to_set, discard}
use ubiblk.BufferPool.{SharedBuffer}
use ubiblk.SharedState.{
  SharedMetadataState, stripe_fetch_state, stripe_fetched_if_needed, sector_to_stripe_id,
  set_stripe_header, mark_fetched, mark_written,
}
use ubiblk.LazyDevice.{
  LazyIoChannel, RwRequest, inward, fetch, Sender, fetch_status_of, new, observe, discard_all,
}
use ubiblk.LazyDevice.Requests.{
  request_stripes_fetch_status, start_stripe_fetches, fetch_each, send,
}
use ubiblk.LazyDevice.Queue.{
  process_queued_rw_requests, process_loop, process_front, front_ready, must_be_written,
  start_front, add_to_base, submit_added,
}
use ubiblk.LazyDevice.Operations.{
  add_read, make_request, fetch_and_enqueue, enqueue, poll, poll_image,
}
use ubiblk.LazyDevice.Runs.{reads, polls, observes, Reach, here, next}
use ubiblk.SharedState.Steps.{Step as Report, report}
use ubiblk.LazyDevice.Fifo.{Drained, process_loop-Drained}
use ubiblk.LazyDevice.Recorder.{recorder, IsServed, recorded-IsServed}

-- Two stripes of eight sectors, none of them fetched.
abbrev none_fetched : SharedMetadataState
none_fetched = record {
  stripe_fetch_states = 0 ∷ 0 ∷ [];
  stripe_write_states = 0 ∷ 0 ∷ [];
  stripe_sector_count_shift = 3;
  fetched_stripes_count = 0;
  source_stripes_count = 2;
}

abbrev first_fetched : SharedMetadataState
first_fetched = record none_fetched { stripe_fetch_states = 1 ∷ 0 ∷ []; fetched_stripes_count = 1 }

abbrev buffer : SharedBuffer
buffer = record { ptr = 100; id = 0; len = 512 }

abbrev worker : Sender
worker = record { sent = []; connected = true }

abbrev start : LazyIoChannel recorder recorder
start = new {Base = recorder} {Image = recorder} [] none worker none_fetched true

abbrev waiting : RwRequest
waiting = record {
  id = 9;
  kind = inward;
  sector_offset = 2;
  sector_count = 4;
  buf = buffer;
  stripe_id_first = 0;
  stripe_id_last = 0;
}

-- After the read: it waits, and the worker has been asked.
abbrev asked : LazyIoChannel recorder recorder
asked = record {
  base = [];
  image = none;
  queued_rw_requests = waiting ∷ [];
  finished_requests = [];
  bgworker_ch = record { sent = fetch 0 ∷ []; connected = true };
  metadata_state = none_fetched;
  stripe_fetches_requested = 0 ∷ [];
  track_written = true;
}

read_waits : add_read start 2 4 buffer 9 ≡ ok asked
unfolding new add_read make_request request_stripes_fetch_status fetch_and_enqueue
    start_stripe_fetches fetch_each send enqueue fetch_status_of stripe_fetch_state
    stripe_fetched_if_needed sector_to_stripe_id contains add_to_set
read_waits = refl

-- After the fetch: the read has reached the base device.
abbrev served : LazyIoChannel recorder recorder
served = record asked {
  base = record { kind = inward; sector_offset = 2; sector_count = 4 } ∷ [];
  queued_rw_requests = [];
  stripe_fetches_requested = [];
  metadata_state = first_fetched;
}

poll_serves : poll (record asked { metadata_state = first_fetched }) ≡ ok (served, [])
unfolding poll poll_image process_queued_rw_requests process_loop process_front front_ready
    must_be_written start_front add_to_base submit_added request_stripes_fetch_status
    fetch_status_of stripe_fetch_state discard discard_all
poll_serves = refl

history : Reach start served
unfolding observe new set_stripe_header mark_fetched mark_written stripe_fetch_state
history =
    next
      (next (next here (reads 2 4 buffer 9 read_waits))
        (observes first_fetched (report 0 1 (λ f e. cc) refl) refl))
      (polls [] poll_serves)

recorded-IsServed_example : All (IsServed true first_fetched) served.base
recorded-IsServed_example =
    recorded-IsServed {Image = recorder} true none worker none_fetched served history

drained :
    process_loop {Base = recorder} {Image = recorder}
      (record asked { metadata_state = first_fetched })
      (waiting ∷ [])
      []
    ≡ ok (served, 9 ∷ [])
unfolding process_loop process_front front_ready must_be_written start_front add_to_base
    request_stripes_fetch_status fetch_status_of stripe_fetch_state discard discard_all
drained = refl

process_loop-Drained_example :
    Drained (record asked { metadata_state = first_fetched }) served (waiting ∷ []) [] (9 ∷ [])
process_loop-Drained_example =
    process_loop-Drained (record asked { metadata_state = first_fetched }) served (waiting ∷ []) []
      (9 ∷ []) drained

reported : Report none_fetched first_fetched
unfolding set_stripe_header mark_fetched mark_written stripe_fetch_state
reported = report 0 1 (λ f e. cc) refl
