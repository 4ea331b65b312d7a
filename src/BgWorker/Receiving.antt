-- ===== src/BgWorker/Receiving.antt =====
-- src/block_device/bdev_lazy/bgworker.rs: what becomes of the requests that the worker is sent.
use ubiblk.Prelude.{
  ℕ, ◌≡◌, ◌≢◌, refl, sym, ap, ◌∙◌, subst, Bool, true, false, not, ◌||◌, none, some, List, [], ◌∷◌,
  ◌++◌, append-nil, append_assoc, ok, ◌>>=◌, >>=-eq-ok, ok_eq, arith, ◌⊎◌, inl, inr, lookup, insert,
}
use ubiblk.IoChannel.{IoChannel}
use ubiblk.SharedState.{stripe_fetched_if_needed}
use ubiblk.StripeSource.{StripeSource}
use ubiblk.StripeFetcher.{StripeFetcher, handle_fetch_request, queued, is_some}
use ubiblk.MetadataFlusher.{
  MetadataFlusher, MetadataFlusherRequest, set_fetched, set_stripe_fetched, set_stripe_written,
}
use ubiblk.MetadataFlusher
use ubiblk.LazyDevice.{BgWorkerRequest, fetch, set_written, shutdown}
use ubiblk.BgWorker.{BgWorker, process_request, receive_all, receive_requests}

-- The marks that the requests ask for, in their order.
pub marks_asked : List BgWorkerRequest → List MetadataFlusherRequest
marks_asked [] = []
marks_asked (fetch id ∷ requests) = marks_asked requests
marks_asked (set_written id ∷ requests) =
    record { stripe_id = id; kind = MetadataFlusher.set_written } ∷ marks_asked requests
marks_asked (shutdown ∷ requests) = marks_asked requests

pub asks_to_stop : List BgWorkerRequest → Bool
asks_to_stop [] = false
asks_to_stop (fetch id ∷ requests) = asks_to_stop requests
asks_to_stop (set_written id ∷ requests) = asks_to_stop requests
asks_to_stop (shutdown ∷ requests) = true

-- The fetches that are queued for the requests: one for each stripe that needs it, has none
-- yet, and was not asked for before.
pub data Queued {Source : StripeSource} {Target : IoChannel}
    : StripeFetcher Source Target
      → List BgWorkerRequest
      → StripeFetcher Source Target
      → Type 0 where
  finished : {f : StripeFetcher Source Target} → Queued f [] f
  passed :
      {f g : StripeFetcher Source Target} {requests : List BgWorkerRequest}
      (request : BgWorkerRequest)
      → ((id : ℕ) → request ≢ fetch id)
      → Queued f requests g
      → Queued f (request ∷ requests) g
  ignored :
      {f g : StripeFetcher Source Target} {requests : List BgWorkerRequest} (id : ℕ)
      → (stripe_fetched_if_needed f.shared_metadata_state id ≡ ok true)
        ⊎ (is_some (lookup id f.stripe_states) ≡ true)
      → Queued f requests g
      → Queued f (fetch id ∷ requests) g
  added :
      {f g : StripeFetcher Source Target} {requests : List BgWorkerRequest} (id : ℕ)
      → stripe_fetched_if_needed f.shared_metadata_state id ≡ ok false
      → lookup id f.stripe_states ≡ none
      → Queued
          (record f {
            fetch_queue = f.fetch_queue ++ id ∷ [];
            stripe_states = insert id queued f.stripe_states;
          })
          requests
          g
      → Queued f (fetch id ∷ requests) g

-- After all requests that were waiting.
pub record Handled {Source : StripeSource} {Target Device : IoChannel}
    (w : BgWorker Source Target Device) (requests : List BgWorkerRequest)
    (w' : BgWorker Source Target Device) : Type 0 where
  pub emptied : w'.req_receiver.waiting ≡ []
  pub marks :
      w'.metadata_flusher.queued_requests
      ≡ w.metadata_flusher.queued_requests ++ marks_asked requests
  pub stops : w'.done ≡ (w.done || (asks_to_stop requests || not w.req_receiver.connected))
  pub fetches : Queued w.stripe_fetcher requests w'.stripe_fetcher

stop_or : (a : Bool) → true ≡ (a || true)
stop_or true = refl
stop_or false = refl

module _ {Source : StripeSource} {Target : IoChannel} where
  fetch_cases :
      (f g : StripeFetcher Source Target) (id : ℕ)
      → handle_fetch_request f id ≡ ok g
      → ((g ≡ f)
          × ((stripe_fetched_if_needed f.shared_metadata_state id ≡ ok true)
              ⊎ (is_some (lookup id f.stripe_states) ≡ true)))
        ⊎ ((g ≡ record f {
          fetch_queue = f.fetch_queue ++ id ∷ [];
          stripe_states = insert id queued f.stripe_states;
        })
            × (stripe_fetched_if_needed f.shared_metadata_state id ≡ ok false)
            × (lookup id f.stripe_states ≡ none))
  unfolding handle_fetch_request
  fetch_cases f g id e = ground arith

module _ {Source : StripeSource} {Target Device : IoChannel} where
  nothing_left :
      (w w' : BgWorker Source Target Device)
      → receive_all w [] ≡ ok w'
      → (w'.req_receiver.waiting ≡ [])
        × (w'.metadata_flusher ≡ w.metadata_flusher)
        × (w'.done ≡ (w.done || not w.req_receiver.connected))
        × (w'.stripe_fetcher ≡ w.stripe_fetcher)
  unfolding receive_all
  nothing_left w w' e = ground arith

  -- A request to fetch, then the others.
  after_fetch :
      (w w' : BgWorker Source Target Device) (f : StripeFetcher Source Target) (id : ℕ)
      (requests : List BgWorkerRequest)
      → handle_fetch_request w.stripe_fetcher id ≡ ok f
      → Handled (record w { stripe_fetcher = f }) requests w'
      → Handled w (fetch id ∷ requests) w'
  unfolding marks_asked asks_to_stop
  after_fetch w w' f id requests handled h = record {
    emptied = h.emptied;
    marks = h.marks;
    stops = h.stops;
    fetches = elim (fetch_cases w.stripe_fetcher f id handled) [
      | inl (same, known) ↦ ignored id known (
          subst (λ (g : StripeFetcher Source Target). Queued g requests w'.stripe_fetcher) same
            h.fetches)
      | inr (same, needed, fresh) ↦ added id needed fresh (
          subst (λ (g : StripeFetcher Source Target). Queued g requests w'.stripe_fetcher) same
            h.fetches)
    ];
  }

  receive_all-Handled :
      (requests : List BgWorkerRequest) (w w' : BgWorker Source Target Device)
      → receive_all w requests ≡ ok w'
      → Handled w requests w'
  unfolding receive_all process_request marks_asked asks_to_stop set_stripe_written
  receive_all-Handled [] w w' e =
      let (emptied, flusher, stops, fetcher) = nothing_left w w' e in
      record {
        emptied = emptied;
        marks =
            ap (λ (m : MetadataFlusher Device). m.queued_requests) flusher
            ∙ sym (append-nil w.metadata_flusher.queued_requests);
        stops = stops;
        fetches =
            subst (λ (g : StripeFetcher Source Target). Queued w.stripe_fetcher [] g) (sym fetcher)
              finished;
      }
  receive_all-Handled (fetch id ∷ requests) w w' e =
      let (w1, processed, e') = >>=-eq-ok (process_request w (fetch id)) _ e in
      let (f, handled, made) = >>=-eq-ok (handle_fetch_request w.stripe_fetcher id) _ processed in
      after_fetch w w' f id requests handled (
        receive_all-Handled requests (record w { stripe_fetcher = f }) w'
          (ap (λ (t : BgWorker Source Target Device). receive_all t requests) (ok_eq made) ∙ e'))
  receive_all-Handled (set_written id ∷ requests) w w' e =
      let h =
        receive_all-Handled requests
          (record w { metadata_flusher = set_stripe_written w.metadata_flusher id }) w' e in
      record {
        emptied = h.emptied;
        marks =
            h.marks
            ∙ append_assoc w.metadata_flusher.queued_requests
                (record { stripe_id = id; kind = MetadataFlusher.set_written } ∷ [])
                (marks_asked requests);
        stops = h.stops;
        fetches = passed (set_written id) (λ i same. cc) h.fetches;
      }
  receive_all-Handled (shutdown ∷ requests) w w' e =
      let h = receive_all-Handled requests (record w { done = true }) w' e in
      record {
        emptied = h.emptied;
        marks = h.marks;
        stops = h.stops ∙ stop_or w.done;
        fetches = passed shutdown (λ i same. cc) h.fetches;
      }

  ended :
      (w w' : BgWorker Source Target Device) (requests : List BgWorkerRequest)
      → (receive_all w requests >>= λ t. ok (some t)) ≡ ok (some w')
      → receive_all w requests ≡ ok w'
  ended w w' requests e =
      let (t, ran, e') = >>=-eq-ok (receive_all w requests) (λ t. ok (some t)) e in cc (ran, e')

  some_waiting :
      (w : BgWorker Source Target Device) (request : BgWorkerRequest)
      (requests : List BgWorkerRequest)
      → w.req_receiver.waiting ≡ request ∷ requests
      → receive_requests w true ≡ (receive_all w (request ∷ requests) >>= λ t. ok (some t))
  unfolding receive_requests
  some_waiting w request requests at = ground (arith, at)

  blocked_some :
      (w w' : BgWorker Source Target Device) (request : BgWorkerRequest)
      (requests : List BgWorkerRequest)
      → w.req_receiver.waiting ≡ request ∷ requests
      → receive_requests w true ≡ ok (some w')
      → receive_all w (request ∷ requests) ≡ ok w'
  blocked_some w w' request requests at e =
      ended w w' (request ∷ requests) (sym (some_waiting w request requests at) ∙ e)

  blocked_none :
      (w w' : BgWorker Source Target Device)
      → w.req_receiver.waiting ≡ []
      → receive_requests w true ≡ ok (some w')
      → (record w { done = true } ≡ w') × (w.req_receiver.connected ≡ false)
  unfolding receive_requests
  blocked_none w w' at e = ground (arith, at, e)

  gone-Handled :
      (w : BgWorker Source Target Device)
      → w.req_receiver.waiting ≡ []
      → w.req_receiver.connected ≡ false
      → Handled w [] (record w { done = true })
  unfolding marks_asked asks_to_stop
  gone-Handled w at gone = record {
    emptied = at;
    marks = sym (append-nil w.metadata_flusher.queued_requests);
    stops = rw gone (stop_or w.done);
    fetches = finished;
  }

  -- A call that does not wait on, blocking or not: every request that was waiting is handled, in
  -- its order; the marks asked for are queued at the flusher and the fetches at the fetcher, one for each
  -- stripe that needs it; and the worker stops if it was to stop already, if one of the requests
  -- says so, or if no sender is left.
  pub receive_requests-Handled :
      (w w' : BgWorker Source Target Device) (block : Bool)
      → receive_requests w block ≡ ok (some w')
      → Handled w w.req_receiver.waiting w'
  unfolding receive_requests
  receive_requests-Handled w w' false e =
      receive_all-Handled w.req_receiver.waiting w w' (ended w w' w.req_receiver.waiting e)
  receive_requests-Handled w w' true e =
      (elim w.req_receiver.waiting as (λ q. w.req_receiver.waiting ≡ q → Handled w q w') [
        | [] ↦ λ at.
            let (same, gone) = blocked_none w w' at e in
            subst (Handled w []) same (gone-Handled w at gone)
        | request ∷ requests ↦ λ at.
            receive_all-Handled (request ∷ requests) w w' (blocked_some w w' request requests at e)
      ])
        refl
