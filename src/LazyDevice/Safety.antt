-- ===== src/LazyDevice/Safety.antt =====
-- The base device sees a request only when its stripes are there.
use ubiblk.Prelude.{
  ℕ, ◌+◌, ◌-◌, ◌%◌, ◌^◌, All, ◌≡◌, ap, subst, Bool, true, false, List, [], ◌∷◌, ◌++◌, Result, ok,
  >>=-eq-ok, ok_eq, arith,
}
use ubiblk.IoChannel.{IoChannel}
use ubiblk.SharedState.{SharedMetadataState, sector_to_stripe_id}
use ubiblk.LazyDevice.{
  LazyIoChannel, RwRequest, outward, complete, stripes_of, fetch_status_of, all_written,
  discard_all,
}
use ubiblk.LazyDevice.Requests.{request_stripes_fetch_status, request_stripes_written}
use ubiblk.LazyDevice.Queue.{
  add_to_base, stays, gives_up, starts, must_be_written, start_front, front_ready, process_front,
  process_loop,
}

-- The request's stripes are those of its sectors.
pub record IsCovered (s : SharedMetadataState) (r : RwRequest) : Type 0 where
  pub first_here : r.stripe_id_first ≡ sector_to_stripe_id s r.sector_offset
  pub last_here :
      r.stripe_id_last
      ≡ sector_to_stripe_id s ((r.sector_offset + r.sector_count + 2 ^ 64 - 1) % 2 ^ 64)

-- Every stripe of the request is fetched or has no source; and a write that is tracked has its
-- stripes marked as written.
pub record IsAllowed (s : SharedMetadataState) (track_written : Bool) (r : RwRequest) : Type 0 where
  pub covered : IsCovered s r
  pub present : fetch_status_of s (stripes_of r) ≡ ok complete
  pub marked : track_written ≡ true → r.kind ≡ outward → all_written s (stripes_of r) ≡ ok true

module _ {Base Image : IoChannel} where
  -- Each outcome of a round, with what holds of it.
  pub front_starts :
      (c c' : LazyIoChannel Base Image) (front : RwRequest)
      → process_front c front ≡ ok (starts c')
      → IsCovered c.metadata_state front
      → IsAllowed c.metadata_state c.track_written front
        × (add_to_base Base c.base front ≡ ok c'.base)
        × (c' ≡ record c {
          base = c'.base;
          stripe_fetches_requested = discard_all (stripes_of front) c.stripe_fetches_requested;
        })
  unfolding process_front front_ready must_be_written request_stripes_written
      request_stripes_fetch_status start_front
  front_starts c c' front e covered = ground arith

  pub front_gives_up :
      (c c' : LazyIoChannel Base Image) (front : RwRequest)
      → process_front c front ≡ ok (gives_up c')
      → c' ≡ record c { finished_requests = c.finished_requests ++ (front.id, false) ∷ [] }
  unfolding process_front front_ready request_stripes_written request_stripes_fetch_status
      start_front
  front_gives_up c c' front e = ground arith

-- What every round keeps, the whole loop keeps; the requests that stay queued are some of those
-- that were.
module _ {ℓ κ} {Base Image : IoChannel} (Q : LazyIoChannel Base Image → Type ℓ)
    (R : RwRequest → Type κ)
    (on_stop : (c : LazyIoChannel Base Image) (queue : List RwRequest)
      → Q c
      → Q (record c { queued_rw_requests = queue }))
    (on_give_up : (c d : LazyIoChannel Base Image) (front : RwRequest)
      → process_front c front ≡ ok (gives_up d)
      → Q c
      → Q d)
    (on_start : (c d : LazyIoChannel Base Image) (front : RwRequest)
      → process_front c front ≡ ok (starts d)
      → R front
      → Q c
      → Q d) where
  abbrev Ends : LazyIoChannel Base Image → Type (ℓ ⊔ κ)
  Ends c = Q c × All R c.queued_rw_requests

  stop_Ends :
      (c c' : LazyIoChannel Base Image) (queue : List RwRequest) (added added' : List ℕ)
      → ◌≡◌ {A = Result (LazyIoChannel Base Image × List ℕ)}
          (ok (record c { queued_rw_requests = queue }, added))
          (ok (c', added'))
      → All R queue
      → Q c
      → Ends c'
  stop_Ends c c' queue added added' e rs q =
      subst Ends (ap (λ (t : LazyIoChannel Base Image × List ℕ). t.0) (ok_eq e))
        (on_stop c queue q, rs)

  pub process_loop_induct :
      (c c' : LazyIoChannel Base Image) (queue : List RwRequest) (added added' : List ℕ)
      → process_loop c queue added ≡ ok (c', added')
      → All R queue
      → Q c
      → Q c' × All R c'.queued_rw_requests
  unfolding process_loop
  process_loop_induct c c' [] added added' e rs q = stop_Ends c c' [] added added' e rs q
  process_loop_induct c c' (front ∷ rest) added added' e rs q =
      let (outcome, o, e') = >>=-eq-ok (process_front c front) _ e in
      (elim outcome as (λ x. process_front c front ≡ ok x → Ends c') [
        | stays ↦ λ o. stop_Ends c c' (front ∷ rest) added added' (rw o at e) rs q
        | gives_up d ↦ λ o.
            process_loop_induct d c' rest added added' (rw o at e) rs.1 (on_give_up c d front o q)
        | starts d ↦ λ o.
            process_loop_induct d c' rest (added ++ front.id ∷ []) added' (rw o at e) rs.1
              (on_start c d front o rs.0 q)
      ])
        o
