-- ===== src/LazyDevice/Requests.antt =====
-- device.rs: what a request needs of its stripes, and asking the worker for it.
use ubiblk.Prelude.{
  ℕ, Bool, true, false, ◌||◌, List, [], ◌∷◌, ◌++◌, Result, ok, ◌>>=◌, if◌then◌else◌, contains,
  add_to_set,
}
use ubiblk.IoChannel.{IoChannel}
use ubiblk.SharedState.{stripe_fetched_if_needed, stripe_written}
use ubiblk.LazyDevice.{
  LazyIoChannel, RwRequest, StripesFetchStatus, BgWorkerRequest, fetch, set_written, stripes_of,
  fetch_status_of, all_written,
}

module _ {Base Image : IoChannel} where
  unfoldable pub request_stripes_fetch_status :
      LazyIoChannel Base Image → RwRequest → Result StripesFetchStatus
  request_stripes_fetch_status c request = fetch_status_of c.metadata_state (stripes_of request)

  unfoldable pub request_stripes_written : LazyIoChannel Base Image → RwRequest → Result Bool
  request_stripes_written c request = all_written c.metadata_state (stripes_of request)

  -- `Sender::send` fails when the receiver is gone.
  unfoldable pub send : LazyIoChannel Base Image → BgWorkerRequest → LazyIoChannel Base Image × Bool
  send c message =
      if c.bgworker_ch.connected
      then (
        record c {
          bgworker_ch = record { sent = c.bgworker_ch.sent ++ message ∷ []; connected = true };
        },
        true,
      )
      else (c, false)

  -- `true` is `Ok(())`; on an error the requests already sent stay sent.
  unfoldable pub fetch_each :
      LazyIoChannel Base Image → List ℕ → Result (LazyIoChannel Base Image × Bool)
  unfolding send
  fetch_each c [] = ok (c, true)
  fetch_each c (stripe_id ∷ stripe_ids) = do
    done ← stripe_fetched_if_needed c.metadata_state stripe_id
    elim (done || contains stripe_id c.stripe_fetches_requested) [
      | true ↦ fetch_each c stripe_ids
      | false ↦
          let (c', sent) = send c (fetch stripe_id) in
          elim sent [
            | false ↦ ok (c', false)
            | true ↦
                fetch_each
                  (record c' {
                    stripe_fetches_requested = add_to_set stripe_id c'.stripe_fetches_requested;
                  })
                  stripe_ids
          ]
    ]

  unfoldable pub start_stripe_fetches :
      LazyIoChannel Base Image → RwRequest → Result (LazyIoChannel Base Image × Bool)
  unfolding fetch_each
  start_stripe_fetches c request = fetch_each c (stripes_of request)

  unfoldable pub set_written_each :
      LazyIoChannel Base Image → List ℕ → Result (LazyIoChannel Base Image × Bool)
  unfolding send
  set_written_each c [] = ok (c, true)
  set_written_each c (stripe_id ∷ stripe_ids) = do
    written ← stripe_written c.metadata_state stripe_id
    elim written [
      | true ↦ set_written_each c stripe_ids
      | false ↦
          let (c', sent) = send c (set_written stripe_id) in
          elim sent [ false ↦ ok (c', false) | true ↦ set_written_each c' stripe_ids ]
    ]

  unfoldable pub start_stripe_set_written :
      LazyIoChannel Base Image → RwRequest → Result (LazyIoChannel Base Image × Bool)
  unfolding set_written_each
  start_stripe_set_written c request = set_written_each c (stripes_of request)
