-- ===== src/LazyDevice/Serving.antt =====
-- src/block_device/bdev_lazy/device.rs: what becomes of each request in the queue.
use ubiblk.Prelude.{
  ℕ, ◌≡◌, refl, ap, subst, Bool, true, false, List, [], ◌∷◌, ◌++◌, Result, ok, ◌>>=◌, >>=-eq-ok,
  ok_eq, arith, ◌⊎◌,
}
use ubiblk.IoChannel.{IoChannel, Completion}
use ubiblk.SharedState.{SharedMetadataState}
use ubiblk.LazyDevice.{
  LazyIoChannel, RwRequest, inward, outward, pending, complete, failed, stripes_of, discard_all,
  fetch_status_of, all_written,
}
use ubiblk.LazyDevice.Requests.{request_stripes_fetch_status, request_stripes_written}
use ubiblk.LazyDevice.Queue.{
  add_to_base, process_front, front_ready, must_be_written, start_front, Front, stays, gives_up,
  starts,
}

-- A request reaches the base device: a read as a read and a write as a write, with its extent, its
-- buffer and its id, and the device takes it.
pub data PassedOn (Base : IoChannel) (b : Base.State) (r : RwRequest) (b' : Base.State)
    : Type 0 where
  as_read :
      r.kind ≡ inward
      → Base.add_read b r.sector_offset r.sector_count r.buf r.id ≡ ok b'
      → PassedOn Base b r b'
  as_write :
      r.kind ≡ outward
      → Base.add_write b r.sector_offset r.sector_count r.buf r.id ≡ ok b'
      → PassedOn Base b r b'

-- A request needs no marks, or all its stripes are marked as written.
abbrev pub IsMarked : SharedMetadataState → Bool → RwRequest → Type 0
IsMarked s track r =
    (track ≡ false) ⊎ ((r.kind ≡ inward) ⊎ (all_written s (stripes_of r) ≡ ok true))

-- What the queued requests lead to, front first, at a metadata state and from a state of the base
-- device: the completions of those that are given up, the ids of those passed on, the queue that
-- remains, and the state of the base device.
pub data Served (Base : IoChannel) (s : SharedMetadataState) (track : Bool)
    : Base.State
      → List RwRequest
      → List Completion
      → List ℕ
      → List RwRequest
      → Base.State
      → Type 0 where
  emptied : {b : Base.State} → Served Base s track b [] [] [] [] b
  blocked :
      {b : Base.State} (r : RwRequest) (rest : List RwRequest)
      → (fetch_status_of s (stripes_of r) ≡ ok pending)
        ⊎ ((fetch_status_of s (stripes_of r) ≡ ok complete)
            × (track ≡ true)
            × (r.kind ≡ outward)
            × (all_written s (stripes_of r) ≡ ok false))
      → Served Base s track b (r ∷ rest) [] [] (r ∷ rest) b
  given_up :
      {b b' : Base.State} (r : RwRequest) (stripe_id : ℕ) {rest : List RwRequest}
      {finished : List Completion} {added : List ℕ} {left : List RwRequest}
      → fetch_status_of s (stripes_of r) ≡ ok (failed stripe_id)
      → Served Base s track b rest finished added left b'
      → Served Base s track b (r ∷ rest) ((r.id, false) ∷ finished) added left b'
  passed_on :
      {b b' b'' : Base.State} (r : RwRequest) {rest : List RwRequest} {finished : List Completion}
      {added : List ℕ} {left : List RwRequest}
      → fetch_status_of s (stripes_of r) ≡ ok complete
      → IsMarked s track r
      → PassedOn Base b r b'
      → Served Base s track b' rest finished added left b''
      → Served Base s track b (r ∷ rest) finished (r.id ∷ added) left b''

base-PassedOn :
    (Base : IoChannel) (b b' : Base.State) (r : RwRequest)
    → add_to_base Base b r ≡ ok b'
    → PassedOn Base b r b'
unfolding add_to_base
base-PassedOn Base b b' r e =
    elim r.kind as (λ k. r.kind ≡ k → PassedOn Base b r b') [
      | inward ↦ λ k. as_read k (rw k at e)
      | outward ↦ λ k. as_write k (rw k at e)
    ]
      refl

starts_eq : {Base Image : IoChannel} {c d : LazyIoChannel Base Image} → starts c ≡ starts d → c ≡ d
starts_eq e = cc

module _ {Base Image : IoChannel} where
  -- What each outcome of a round says of the request at the front.
  abbrev pub Means : LazyIoChannel Base Image → RwRequest → Front Base Image → Type 0
  Means c r stays =
      (fetch_status_of c.metadata_state (stripes_of r) ≡ ok pending)
      ⊎ ((fetch_status_of c.metadata_state (stripes_of r) ≡ ok complete)
          × (c.track_written ≡ true)
          × (r.kind ≡ outward)
          × (all_written c.metadata_state (stripes_of r) ≡ ok false))
  Means c r (gives_up d) =
      (d ≡ record c { finished_requests = c.finished_requests ++ (r.id, false) ∷ [] })
      × (i : ℕ) × (fetch_status_of c.metadata_state (stripes_of r) ≡ ok (failed i))
  Means c r (starts d) =
      (d.metadata_state ≡ c.metadata_state)
      × (d.track_written ≡ c.track_written)
      × (d.finished_requests ≡ c.finished_requests)
      × (fetch_status_of c.metadata_state (stripes_of r) ≡ ok complete)
      × IsMarked c.metadata_state c.track_written r
      × PassedOn Base c.base r d.base

  -- A request that is started was complete, had its marks, and reached the base device.
  abbrev IsStarted : LazyIoChannel Base Image → LazyIoChannel Base Image → RwRequest → Type 0
  IsStarted c d r =
      (d ≡ record c {
        base = d.base;
        stripe_fetches_requested = discard_all (stripes_of r) c.stripe_fetches_requested;
      })
      × (fetch_status_of c.metadata_state (stripes_of r) ≡ ok complete)
      × IsMarked c.metadata_state c.track_written r
      × (add_to_base Base c.base r ≡ ok d.base)

  front_ready-IsMarked :
      (c : LazyIoChannel Base Image) (r : RwRequest)
      → front_ready c r ≡ ok true
      → IsMarked c.metadata_state c.track_written r
  unfolding front_ready must_be_written request_stripes_written
  front_ready-IsMarked c r e = ground arith

  started_ready :
      (c d : LazyIoChannel Base Image) (r : RwRequest) (ready : Bool)
      → request_stripes_fetch_status c r ≡ ok complete
      → front_ready c r ≡ ok ready
      → (elim ready as (λ _. Result (Front Base Image)) [
        | false ↦ ok stays
        | true ↦ start_front c r
      ])
        ≡ ok (starts d)
      → IsStarted c d r
  unfolding request_stripes_fetch_status start_front
  started_ready c d r false now marks e = cc
  started_ready c d r true now marks e =
      let (base', took, e') = >>=-eq-ok (add_to_base Base c.base r) _ e in
      let (same, base) : (d ≡ record c {
        base = d.base;
        stripe_fetches_requested = discard_all (stripes_of r) c.stripe_fetches_requested;
      })
          × (add_to_base Base c.base r ≡ ok d.base) =
        subst
          (λ (t : LazyIoChannel Base Image).
            (t ≡ record c {
              base = t.base;
              stripe_fetches_requested = discard_all (stripes_of r) c.stripe_fetches_requested;
            })
            × (add_to_base Base c.base r ≡ ok t.base))
          (starts_eq (ok_eq e')) (refl, took) in
      (same, now, front_ready-IsMarked c r marks, base)

  started :
      (c d : LazyIoChannel Base Image) (r : RwRequest)
      → process_front c r ≡ ok (starts d)
      → IsStarted c d r
  unfolding process_front request_stripes_fetch_status
  started c d r e =
      let (status, now, e1) = >>=-eq-ok (request_stripes_fetch_status c r) _ e in
      (elim status
          as (λ x.
            request_stripes_fetch_status c r ≡ ok x
            → (elim x as (λ _. Result (Front Base Image)) [
              | pending ↦ ok stays
              | failed stripe_id ↦ ok (
                  gives_up
                    (record c { finished_requests = c.finished_requests ++ (r.id, false) ∷ [] }))
              | complete ↦ do
                ready ← front_ready c r
                elim ready [ false ↦ ok stays | true ↦ start_front c r ]
            ])
              ≡ ok (starts d)
            → IsStarted c d r) [
              | pending ↦ λ now e1. cc
              | failed i ↦ λ now e1. cc
              | complete ↦ λ now e1.
                  let (ready, marks, e2) = >>=-eq-ok (front_ready c r) _ e1 in
                  started_ready c d r ready now marks e2
            ])
        now e1

  pub front-Means :
      (c : LazyIoChannel Base Image) (r : RwRequest) (outcome : Front Base Image)
      → process_front c r ≡ ok outcome
      → Means c r outcome
  unfolding process_front front_ready must_be_written request_stripes_written
      request_stripes_fetch_status start_front
  front-Means c r stays e = ground arith
  front-Means c r (gives_up d) e = ground arith
  front-Means c r (starts d) e =
      let (same, status, marks, base) = started c d r e in
      (
        ap (λ (t : LazyIoChannel Base Image). t.metadata_state) same,
        ap (λ (t : LazyIoChannel Base Image). t.track_written) same,
        ap (λ (t : LazyIoChannel Base Image). t.finished_requests) same,
        status,
        marks,
        base-PassedOn Base c.base d.base r base,
      )
