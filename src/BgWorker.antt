-- ===== src/BgWorker.antt =====
-- src/block_device/bdev_lazy/bgworker.rs: the background worker over its fetcher and its flusher.
-- The fetcher and the flusher hold the same atomics: what one has changed is handed to the other
-- before it runs.
pub mod Receiving
mod Examples
use ubiblk.Prelude.{
  ℕ, zero, suc, Bool, true, false, not, ◌&&◌, ◌||◌, Option, none, some, List, [], ◌∷◌, ◌++◌, Result,
  ok, err, panic, ◌>>=◌, ◌>>◌, if◌then◌else◌,
}
use ubiblk.IoChannel.{IoChannel, Completion}
use ubiblk.SharedState.{SharedMetadataState}
use ubiblk.StripeSource.{StripeSource}
use ubiblk.StripeFetcher
use ubiblk.StripeFetcher.{StripeFetcher, handle_fetch_request, take_finished_fetches}
use ubiblk.StripeFetcher.Operations.{disconnect_from_source_if_all_fetched}
use ubiblk.StripeFetcher.Operations as Fetching
use ubiblk.MetadataFlusher
use ubiblk.MetadataFlusher.{MetadataFlusher, set_stripe_fetched, set_stripe_written}
use ubiblk.MetadataFlusher.Operations as Flushing
use ubiblk.LazyDevice.{BgWorkerRequest, fetch, set_written, shutdown}

-- The receiving end: what is waiting in it, and whether a sender is left.
pub record Receiver : Type 0 where
  pub waiting : List BgWorkerRequest
  pub connected : Bool

pub record BgWorker (Source : StripeSource) (Target Device : IoChannel) : Type 0 where
  pub stripe_fetcher : StripeFetcher Source Target
  pub metadata_flusher : MetadataFlusher Device
  pub req_receiver : Receiver
  pub metadata_state : SharedMetadataState
  pub done : Bool

-- The loop over the finished fetches; that one has failed is only logged.
unfoldable pub report_fetches :
    {Device : IoChannel} → MetadataFlusher Device → List Completion → MetadataFlusher Device
report_fetches f [] = f
report_fetches f ((stripe_id, true) ∷ finished) =
    report_fetches (set_stripe_fetched f stripe_id) finished
report_fetches f ((stripe_id, false) ∷ finished) = report_fetches f finished

module _ {Source : StripeSource} {Target Device : IoChannel} where
  -- All three see the same atomics.
  unfoldable pub share :
      BgWorker Source Target Device → SharedMetadataState → BgWorker Source Target Device
  share w s = record w {
    metadata_state = s;
    stripe_fetcher = record (w.stripe_fetcher) { shared_metadata_state = s };
    metadata_flusher = record (w.metadata_flusher) { shared_state = s };
  }

  unfoldable pub process_request :
      BgWorker Source Target Device → BgWorkerRequest → Result (BgWorker Source Target Device)
  process_request w (fetch stripe_id) = do
    f ← handle_fetch_request w.stripe_fetcher stripe_id
    ok (record w { stripe_fetcher = f })
  process_request w (set_written stripe_id) =
      ok (record w { metadata_flusher = set_stripe_written w.metadata_flusher stripe_id })
  process_request w shutdown = ok (record w { done = true })

  -- The loop over `try_recv`, through what is waiting.
  unfoldable pub receive_all :
      BgWorker Source Target Device → List BgWorkerRequest → Result (BgWorker Source Target Device)
  unfolding process_request
  receive_all w [] =
      let w' = record w {
        req_receiver = record { waiting = []; connected = w.req_receiver.connected };
      } in
      ok (if w.req_receiver.connected then w' else record w' { done = true })
  receive_all w (request ∷ requests) = do w' ← process_request w request; receive_all w' requests

  -- `none`: a blocking call finds nothing, and waits on.
  unfoldable pub receive_requests :
      BgWorker Source Target Device → Bool → Result (Option (BgWorker Source Target Device))
  unfolding receive_all
  receive_requests w false = do w' ← receive_all w w.req_receiver.waiting; ok (some w')
  receive_requests w true = elim w.req_receiver.waiting [
    | request ∷ requests ↦ do w' ← receive_all w (request ∷ requests); ok (some w')
    | [] ↦ elim w.req_receiver.connected [
      | true ↦ ok none
      | false ↦ ok (some (record w { done = true }))
    ]
  ]

  module _ (crc32 : List ℕ → ℕ) (null_source : Source.State) where
    unfoldable pub update : BgWorker Source Target Device → Result (BgWorker Source Target Device)
    unfolding share report_fetches
    update w = do
      f ← Fetching.update w.stripe_fetcher
      let (f', finished) = take_finished_fetches f
      let w' = share (record w { stripe_fetcher = f' }) f'.shared_metadata_state
      m ← Flushing.update crc32 (report_fetches w'.metadata_flusher finished)
      let w'' = share (record w' { metadata_flusher = m }) m.shared_state
      ok (record w'' {
        stripe_fetcher = disconnect_from_source_if_all_fetched null_source w''.stripe_fetcher;
      })

    unfoldable pub busy : BgWorker Source Target Device → Bool
    busy w = StripeFetcher.busy w.stripe_fetcher || MetadataFlusher.busy w.metadata_flusher

    -- One round of the loop of `run`.
    unfoldable pub round :
        BgWorker Source Target Device → Result (Option (BgWorker Source Target Device))
    unfolding receive_requests update busy
    round w = do
      received ← receive_requests w (not (busy w))
      elim received [ none ↦ ok none | some w' ↦ do w'' ← update w'; ok (some w'') ]

    -- The loop, with what the senders do before each round.
    unfoldable pub run :
        List (List BgWorkerRequest × Bool)
        → BgWorker Source Target Device
        → Result (BgWorker Source Target Device)
    unfolding round
    run [] w = ok w
    run ((arrived, connected) ∷ later) w =
        let w' = record w {
          req_receiver = record {
            waiting = w.req_receiver.waiting ++ arrived;
            connected = connected;
          };
        } in
        elim w.done [
          | true ↦ ok w
          | false ↦ do next ← round w'; elim next [ none ↦ run later w' | some w'' ↦ run later w'' ]
        ]
