-- ===== src/LazyDevice/Queue.antt =====
-- device.rs: the queue of requests that wait for their stripes.
use ubiblk.Prelude.{
  ℕ, Bool, true, false, ◌&&◌, List, [], ◌∷◌, ◌++◌, Result, ok, err, panic, ◌>>=◌, if◌then◌else◌,
}
use ubiblk.IoChannel.{IoChannel}
use ubiblk.LazyDevice.{
  LazyIoChannel, RwRequest, inward, outward, pending, complete, failed, stripes_of, discard_all,
  all_failed,
}
use ubiblk.LazyDevice.Requests.{request_stripes_fetch_status, request_stripes_written}

-- The request is passed on to the base device.
unfoldable pub add_to_base : (Base : IoChannel) → Base.State → RwRequest → Result Base.State
add_to_base Base b r = elim r.kind [
  | inward ↦ Base.add_read b r.sector_offset r.sector_count r.buf r.id
  | outward ↦ Base.add_write b r.sector_offset r.sector_count r.buf r.id
]

-- What one round of the loop does with the request at the front: it stays and ends the loop, or it
-- is given up, or it is passed on to the base device.
pub data Front (Base Image : IoChannel) : Type 0 where
  stays : Front Base Image
  gives_up : LazyIoChannel Base Image → Front Base Image
  starts : LazyIoChannel Base Image → Front Base Image

module _ {Base Image : IoChannel} where
  unfoldable pub must_be_written : LazyIoChannel Base Image → RwRequest → Bool
  must_be_written c r = c.track_written && elim r.kind [ inward ↦ false | outward ↦ true ]

  unfoldable pub start_front : LazyIoChannel Base Image → RwRequest → Result (Front Base Image)
  unfolding add_to_base
  start_front c front = do
    base' ← add_to_base Base c.base front
    ok (
        starts (record c {
          base = base';
          stripe_fetches_requested = discard_all (stripes_of front) c.stripe_fetches_requested;
        }))

  unfoldable pub front_ready : LazyIoChannel Base Image → RwRequest → Result Bool
  unfolding must_be_written request_stripes_written
  front_ready c front = if must_be_written c front then request_stripes_written c front else ok true

  unfoldable pub process_front : LazyIoChannel Base Image → RwRequest → Result (Front Base Image)
  unfolding request_stripes_fetch_status front_ready start_front
  process_front c front = do
    status ← request_stripes_fetch_status c front
    elim status [
      | pending ↦ ok stays
      | failed stripe_id ↦ ok (
          gives_up (record c { finished_requests = c.finished_requests ++ (front.id, false) ∷ [] }))
      | complete ↦ do
        ready ← front_ready c front
        elim ready [ false ↦ ok stays | true ↦ start_front c front ]
    ]

  -- The loop over the queue, front first; `added` are the ids passed on so far.
  unfoldable pub process_loop :
      LazyIoChannel Base Image
      → List RwRequest
      → List ℕ
      → Result (LazyIoChannel Base Image × List ℕ)
  process_loop c [] added = ok (record c { queued_rw_requests = [] }, added)
  process_loop c (front ∷ rest) added = do
    outcome ← process_front c front
    elim outcome [
      | stays ↦ ok (record c { queued_rw_requests = front ∷ rest }, added)
      | gives_up c' ↦ process_loop c' rest added
      | starts c' ↦ process_loop c' rest (added ++ front.id ∷ [])
    ]

  unfoldable pub submit_added :
      LazyIoChannel Base Image → List ℕ → Result (LazyIoChannel Base Image)
  submit_added c [] = ok c
  submit_added c (id ∷ ids) =
      let (base', result) = Base.submit c.base in
      elim result [
        | ok _ ↦ ok (record c { base = base' })
        | err _ ↦ ok (record c {
          base = base';
          finished_requests = c.finished_requests ++ all_failed (id ∷ ids);
        })
        | panic ↦ panic
      ]

  unfoldable pub process_queued_rw_requests :
      LazyIoChannel Base Image → Result (LazyIoChannel Base Image)
  unfolding process_loop submit_added
  process_queued_rw_requests c = do
    (c', added) ← process_loop c c.queued_rw_requests []
    submit_added c' added
