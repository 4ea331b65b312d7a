-- ===== src/LazyDevice/Fifo.antt =====
-- src/block_device/bdev_lazy/device.rs: the order in which queued requests are served.
use ubiblk.Prelude.{
  append-nil, append_assoc, ℕ, ◌≡◌, sym, ap, ◌∙◌, subst, Bool, false, List, [], ◌∷◌, ◌++◌, Result,
  ok, >>=-eq-ok, ok_eq,
}
use ubiblk.IoChannel.{IoChannel, Completion}
use ubiblk.SharedState.{SharedMetadataState}
use ubiblk.LazyDevice.{LazyIoChannel, RwRequest}
use ubiblk.LazyDevice.Queue.{process_loop, process_front, stays, gives_up, starts}
use ubiblk.LazyDevice.Serving.{Served, emptied, blocked, given_up, passed_on, Means, front-Means}

-- What the loop does: the requests in the order of the queue, none of them twice and none lost.
pub record Drained {Base Image : IoChannel} (c c' : LazyIoChannel Base Image)
    (queue : List RwRequest) (added added' : List ℕ) : Type 0 where
  pub now_finished : List Completion
  pub now_added : List ℕ
  pub finished_here : c'.finished_requests ≡ c.finished_requests ++ now_finished
  pub added_here : added' ≡ added ++ now_added
  pub served :
      Served Base c.metadata_state c.track_written c.base queue now_finished now_added
        c'.queued_rw_requests c'.base

module _ {Base Image : IoChannel} where
  stop-Drained :
      (c c' : LazyIoChannel Base Image) (queue : List RwRequest) (added added' : List ℕ)
      → ◌≡◌ {A = Result (LazyIoChannel Base Image × List ℕ)}
          (ok (record c { queued_rw_requests = queue }, added))
          (ok (c', added'))
      → Served Base c.metadata_state c.track_written c.base queue [] [] queue c.base
      → Drained c c' queue added added'
  stop-Drained c c' queue added added' e served =
      subst (λ (t : LazyIoChannel Base Image × List ℕ). Drained c t.0 queue added t.1) (ok_eq e)
        (record {
          now_finished = [];
          now_added = [];
          finished_here = sym (append-nil c.finished_requests);
          added_here = sym (append-nil added);
          served = served;
        })

  give_up-Drained :
      (c d c' : LazyIoChannel Base Image) (r : RwRequest) (rest : List RwRequest)
      (added added' : List ℕ)
      → Means c r (gives_up d)
      → Drained d c' rest added added'
      → Drained c c' (r ∷ rest) added added'
  give_up-Drained c d c' r rest added added' (same, i, status) h = record {
    now_finished = (r.id, false) ∷ h.now_finished;
    now_added = h.now_added;
    finished_here =
        h.finished_here
        ∙ ap (λ (t : LazyIoChannel Base Image). t.finished_requests ++ h.now_finished) same
        ∙ append_assoc c.finished_requests ((r.id, false) ∷ []) h.now_finished;
    added_here = h.added_here;
    served = given_up r i status (
        subst
          (λ (t : LazyIoChannel Base Image).
            Served Base t.metadata_state t.track_written t.base rest h.now_finished h.now_added
              c'.queued_rw_requests c'.base)
          same h.served);
  }

  start-Drained :
      (c d c' : LazyIoChannel Base Image) (r : RwRequest) (rest : List RwRequest)
      (added added' : List ℕ)
      → Means c r (starts d)
      → Drained d c' rest (added ++ r.id ∷ []) added'
      → Drained c c' (r ∷ rest) added added'
  start-Drained c d c' r rest added added' (es, et, ef, status, marks, took) h = record {
    now_finished = h.now_finished;
    now_added = r.id ∷ h.now_added;
    finished_here = h.finished_here ∙ ap (λ (t : List Completion). t ++ h.now_finished) ef;
    added_here = h.added_here ∙ append_assoc added (r.id ∷ []) h.now_added;
    served = passed_on r status marks took (
        subst
          (λ (s : SharedMetadataState).
            Served Base s c.track_written d.base rest h.now_finished h.now_added
              c'.queued_rw_requests c'.base)
          es
          (subst
            (λ (t : Bool).
              Served Base d.metadata_state t d.base rest h.now_finished h.now_added
                c'.queued_rw_requests c'.base)
            et h.served));
  }

  -- If the loop ends without an error or a panic: it has served the queue in order, up to the first
  -- request that has to wait. A request with a failed stripe is given up. One whose stripes are all
  -- there, and marked as written where that is tracked and it is a write, has been taken by the base
  -- device as what it is; no other call reached that device, and no request is lost or repeated.
  pub process_loop-Drained :
      (c c' : LazyIoChannel Base Image) (queue : List RwRequest) (added added' : List ℕ)
      → process_loop c queue added ≡ ok (c', added')
      → Drained c c' queue added added'
  unfolding process_loop
  process_loop-Drained c c' [] added added' e = stop-Drained c c' [] added added' e emptied
  process_loop-Drained c c' (r ∷ rest) added added' e =
      let (outcome, o, e') = >>=-eq-ok (process_front c r) _ e in
      (elim outcome as (λ x. process_front c r ≡ ok x → Drained c c' (r ∷ rest) added added') [
        | stays ↦ λ o.
            stop-Drained c c' (r ∷ rest) added added' (rw o at e)
              (blocked r rest (front-Means c r stays o))
        | gives_up d ↦ λ o.
            give_up-Drained c d c' r rest added added' (front-Means c r (gives_up d) o)
              (process_loop-Drained d c' rest added added' (rw o at e))
        | starts d ↦ λ o.
            start-Drained c d c' r rest added added' (front-Means c r (starts d) o)
              (process_loop-Drained d c' rest (added ++ r.id ∷ []) added' (rw o at e))
      ])
        o
