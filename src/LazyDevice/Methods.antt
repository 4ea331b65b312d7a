-- ===== src/LazyDevice/Methods.antt =====
-- device.rs: what each method does to the base device.
use ubiblk.Prelude.{
  ℕ, ◌≡◌, Bool, true, List, [], ◌∷◌, ◌++◌, ok, ◌>>=◌, >>=-eq-ok, if◌then◌else◌, arith, ◌⊎◌,
  add_to_set,
}
use ubiblk.BufferPool.{SharedBuffer}
use ubiblk.IoChannel.{IoChannel}
use ubiblk.LazyDevice.{LazyIoChannel, RwRequest, inward, outward, stripes_of, fetch, set_written}
use ubiblk.LazyDevice.Requests.{
  request_stripes_fetch_status, request_stripes_written, start_stripe_fetches,
  start_stripe_set_written, fetch_each, set_written_each, send,
}
use ubiblk.LazyDevice.Queue.{add_to_base}
use ubiblk.LazyDevice.Operations.{
  add_read, add_write, make_request, fetch_and_enqueue, announce_and_enqueue, finish_failed,
  enqueue,
}
use ubiblk.LazyDevice.Safety.{IsAllowed}

-- The base device is untouched, and so are the queue and what the channel knows of the stripes.
pub record SameBase {Base Image : IoChannel} (c c' : LazyIoChannel Base Image) : Type 0 where
  pub base_same : c'.base ≡ c.base
  pub state_same : c'.metadata_state ≡ c.metadata_state
  pub track_same : c'.track_written ≡ c.track_written
  pub queue_same : c'.queued_rw_requests ≡ c.queued_rw_requests

-- So it is where a request `r` waits, or fails; the request may be new at the end of the queue.
pub record Waits {Base Image : IoChannel} (c c' : LazyIoChannel Base Image) (r : RwRequest)
    : Type 0 where
  pub base_kept : c'.base ≡ c.base
  pub state_kept : c'.metadata_state ≡ c.metadata_state
  pub track_kept : c'.track_written ≡ c.track_written
  pub queue_grown :
      (c'.queued_rw_requests ≡ c.queued_rw_requests)
      ⊎ (c'.queued_rw_requests ≡ c.queued_rw_requests ++ r ∷ [])

module _ {Base Image : IoChannel} where
  fetch_each-SameBase :
      (c c' : LazyIoChannel Base Image) (ids : List ℕ) (sent : Bool)
      → fetch_each c ids ≡ ok (c', sent)
      → SameBase c c'
  unfolding fetch_each send
  fetch_each-SameBase c c' [] sent e = ground arith
  fetch_each-SameBase c c' (i ∷ ids) sent e = ground (
    arith,
    fetch_each-SameBase c c' ids sent,
    fetch_each-SameBase
        (record c {
          bgworker_ch = record { sent = c.bgworker_ch.sent ++ fetch i ∷ []; connected = true };
          stripe_fetches_requested = add_to_set i c.stripe_fetches_requested;
        })
        c' ids sent,
  )

  set_written_each-SameBase :
      (c c' : LazyIoChannel Base Image) (ids : List ℕ) (sent : Bool)
      → set_written_each c ids ≡ ok (c', sent)
      → SameBase c c'
  unfolding set_written_each send
  set_written_each-SameBase c c' [] sent e = ground arith
  set_written_each-SameBase c c' (i ∷ ids) sent e = ground (
    arith,
    set_written_each-SameBase c c' ids sent,
    set_written_each-SameBase
        (record c {
          bgworker_ch = record {
            sent = c.bgworker_ch.sent ++ set_written i ∷ [];
            connected = true;
          };
        })
        c' ids sent,
  )

  fetch_and_enqueue-Waits :
      (c c' : LazyIoChannel Base Image) (r : RwRequest)
      → fetch_and_enqueue c r ≡ ok c'
      → Waits c c' r
  unfolding fetch_and_enqueue start_stripe_fetches enqueue finish_failed
  fetch_and_enqueue-Waits c c' r e =
      let ((d, sent), f, e') = >>=-eq-ok (fetch_each c (stripes_of r)) _ e in
      ground (arith, fetch_each-SameBase c d (stripes_of r) sent f, e')

  mark_and_enqueue-Waits :
      (c c' : LazyIoChannel Base Image) (r : RwRequest)
      → (set_written_each c (stripes_of r) >>= λ p.
          ok (if p.1 then enqueue p.0 r else finish_failed p.0 r.id))
        ≡ ok c'
      → Waits c c' r
  unfolding enqueue finish_failed
  mark_and_enqueue-Waits c c' r e =
      let ((d, sent), f, e') = >>=-eq-ok (set_written_each c (stripes_of r)) _ e in
      ground (arith, set_written_each-SameBase c d (stripes_of r) sent f, e')

  announce_and_enqueue-Waits :
      (c c' : LazyIoChannel Base Image) (r : RwRequest)
      → announce_and_enqueue c r ≡ ok c'
      → Waits c c' r
  unfolding announce_and_enqueue start_stripe_fetches start_stripe_set_written enqueue finish_failed
  announce_and_enqueue-Waits c c' r e =
      let ((d, sent), f, e') = >>=-eq-ok (fetch_each c (stripes_of r)) _ e in
      let first = fetch_each-SameBase c d (stripes_of r) sent f in
      ground (arith, first, e', mark_and_enqueue-Waits d c' r)

-- What a request leads to at the base device: nothing, or the request itself, which is allowed.
pub record Reaches {Base Image : IoChannel} (c c' : LazyIoChannel Base Image) (r : RwRequest)
    : Type 0 where
  pub state_kept : c'.metadata_state ≡ c.metadata_state
  pub track_kept : c'.track_written ≡ c.track_written
  pub queue_grown :
      (c'.queued_rw_requests ≡ c.queued_rw_requests)
      ⊎ (c'.queued_rw_requests ≡ c.queued_rw_requests ++ r ∷ [])
  pub base_step :
      (c'.base ≡ c.base)
      ⊎ (IsAllowed c.metadata_state c.track_written r × (add_to_base Base c.base r ≡ ok c'.base))

module _ {Base Image : IoChannel} where
  pub add_read-Reaches :
      (c c' : LazyIoChannel Base Image) (off count : ℕ) (buf : SharedBuffer) (id : ℕ)
      → add_read c off count buf id ≡ ok c'
      → Reaches c c' (make_request c inward off count buf id)
  unfolding add_read make_request request_stripes_fetch_status finish_failed add_to_base
  add_read-Reaches c c' off count buf id e =
      ground (arith, fetch_and_enqueue-Waits c c' (make_request c inward off count buf id))

  pub add_write-Reaches :
      (c c' : LazyIoChannel Base Image) (off count : ℕ) (buf : SharedBuffer) (id : ℕ)
      → add_write c off count buf id ≡ ok c'
      → Reaches c c' (make_request c outward off count buf id)
  unfolding add_write make_request request_stripes_fetch_status request_stripes_written
      finish_failed add_to_base
  add_write-Reaches c c' off count buf id e =
      ground (arith, announce_and_enqueue-Waits c c' (make_request c outward off count buf id))
