-- ===== src/LazyDevice/History.antt =====
-- src/block_device/bdev_lazy/device.rs: what every run of a lazy channel keeps.
use ubiblk.Prelude.{
  ℕ, ◌≡◌, refl, sym, ap, ◌∙◌, subst, Bool, List, [], ◌∷◌, ◌++◌, ok, >>=-eq-ok, ok_eq, Option, arith,
  ◌⊎◌, inl, inr, All, All-append,
}
use ubiblk.IoChannel.{IoChannel, Completion}
use ubiblk.SharedState.{SharedMetadataState}
use ubiblk.LazyDevice.{LazyIoChannel, RwRequest, inward, outward, observe, new, Sender}
use ubiblk.LazyDevice.Queue.{
  add_to_base, process_loop, process_front, gives_up, starts, submit_added,
  process_queued_rw_requests,
}
use ubiblk.LazyDevice.Operations.{add_flush, submit, submit_base, poll, poll_image, make_request}
use ubiblk.LazyDevice.Safety.{
  IsAllowed, IsCovered, front_starts, front_gives_up, process_loop_induct,
}
use ubiblk.LazyDevice.Methods.{Reaches, add_read-Reaches, add_write-Reaches}
use ubiblk.LazyDevice.Progress.{Later, Step-Later}
use ubiblk.LazyDevice.Runs.{
  Keeps, Step, reads, writes, flushes, submits, polls, observes, Reach, here, next,
}

Later-All :
    (s s' : SharedMetadataState) (rs : List RwRequest)
    → Later s s'
    → All (IsCovered s) rs
    → All (IsCovered s') rs
Later-All s s' [] later q = tt
Later-All s s' (r ∷ rs) later q = (
  record {
    first_here = q.0.first_here ∙ sym (later.same_stripes _);
    last_here = q.0.last_here ∙ sym (later.same_stripes _);
  },
  Later-All s s' rs later q.1,
)

module _ {Base Image : IoChannel} (P : SharedMetadataState → Base.State → Type 0) (track : Bool)
    (keeps : Keeps Base track P) where
  record Holds (c : LazyIoChannel Base Image) : Type 0 where
    tracked : c.track_written ≡ track
    queue_covered : All (IsCovered c.metadata_state) c.queued_rw_requests
    base_holds : P c.metadata_state c.base

  -- A request that arrives.
  Reaches-Holds :
      (c c' : LazyIoChannel Base Image) (r : RwRequest)
      → IsCovered c.metadata_state r
      → Reaches c c' r
      → Holds c
      → Holds c'
  Reaches-Holds c c' r covered reach h = record {
    tracked = reach.track_kept ∙ h.tracked;
    queue_covered =
        subst (λ (s : SharedMetadataState). All (IsCovered s) c'.queued_rw_requests)
          (sym reach.state_kept) (grown reach.queue_grown);
    base_holds =
        subst (λ (s : SharedMetadataState). P s c'.base) (sym reach.state_kept)
          (base_after reach.base_step);
  }
    where
      grown :
          (c'.queued_rw_requests ≡ c.queued_rw_requests)
            ⊎ (c'.queued_rw_requests ≡ c.queued_rw_requests ++ r ∷ [])
          → All (IsCovered c.metadata_state) c'.queued_rw_requests
      grown (inl e) = subst (All (IsCovered c.metadata_state)) (sym e) h.queue_covered
      grown (inr e) = subst (All (IsCovered c.metadata_state)) (sym e) (
          All-append (IsCovered c.metadata_state) c.queued_rw_requests (r ∷ []) h.queue_covered
            (covered, tt))

      base_after :
          (c'.base ≡ c.base)
            ⊎ (IsAllowed c.metadata_state c.track_written r
                × (add_to_base Base c.base r ≡ ok c'.base))
          → P c.metadata_state c'.base
      base_after (inl e) = subst (P c.metadata_state) (sym e) h.base_holds
      base_after (inr (allowed, e)) =
          keeps.passes c.metadata_state r c.base c'.base
            (subst (λ (t : Bool). IsAllowed c.metadata_state t r) h.tracked allowed) e h.base_holds

  -- The part of `Holds` that does not speak of the queue, at a fixed metadata state.
  record Core (s : SharedMetadataState) (c : LazyIoChannel Base Image) : Type 0 where
    state_is : c.metadata_state ≡ s
    track_is : c.track_written ≡ track
    base_is : P s c.base

  Core→Holds :
      (s : SharedMetadataState) (c : LazyIoChannel Base Image)
      → Core s c
      → All (IsCovered s) c.queued_rw_requests
      → Holds c
  Core→Holds s c k q = record {
    tracked = k.track_is;
    queue_covered =
        subst (λ (t : SharedMetadataState). All (IsCovered t) c.queued_rw_requests) (sym k.state_is)
          q;
    base_holds = subst (λ (t : SharedMetadataState). P t c.base) (sym k.state_is) k.base_is;
  }

  start-Core :
      (s : SharedMetadataState) (c d : LazyIoChannel Base Image) (front : RwRequest)
      → process_front c front ≡ ok (starts d)
      → IsCovered s front
      → Core s c
      → Core s d
  start-Core s c d front e covered k =
      let covered' =
        subst (λ (t : SharedMetadataState). IsCovered t front) (sym k.state_is) covered in
      let (allowed, passed, same) = front_starts c d front e covered' in
      let allowed' : IsAllowed s track front =
        subst (λ (t : SharedMetadataState). IsAllowed t track front) k.state_is
          (subst (λ (t : Bool). IsAllowed c.metadata_state t front) k.track_is allowed) in
      record {
        state_is = ap (λ (x : LazyIoChannel Base Image). x.metadata_state) same ∙ k.state_is;
        track_is = ap (λ (x : LazyIoChannel Base Image). x.track_written) same ∙ k.track_is;
        base_is = keeps.passes s front c.base d.base allowed' passed k.base_is;
      }

  give_up-Core :
      (s : SharedMetadataState) (c d : LazyIoChannel Base Image) (front : RwRequest)
      → process_front c front ≡ ok (gives_up d)
      → Core s c
      → Core s d
  give_up-Core s c d front e k =
      subst (Core s) (sym (front_gives_up c d front e))
        (record { state_is = k.state_is; track_is = k.track_is; base_is = k.base_is })

  submit_added-Core :
      (s : SharedMetadataState) (c d : LazyIoChannel Base Image) (added : List ℕ)
      → submit_added c added ≡ ok d
      → Core s c
      → Core s d × (d.queued_rw_requests ≡ c.queued_rw_requests)
  unfolding submit_added
  submit_added-Core s c d [] e k = (subst (Core s) (ok_eq e) k, ground arith)
  submit_added-Core s c d (id ∷ ids) e k =
      let facts : (d.metadata_state ≡ c.metadata_state)
          × (d.track_written ≡ c.track_written)
          × (d.queued_rw_requests ≡ c.queued_rw_requests)
          × (d.base ≡ (Base.submit c.base).0) =
        ground arith in
      (
        record {
          state_is = facts.0 ∙ k.state_is;
          track_is = facts.1 ∙ k.track_is;
          base_is = subst (P s) (sym facts.3) (keeps.submits s c.base k.base_is);
        },
        facts.2,
      )

  process_queued-Core :
      (s : SharedMetadataState) (c d : LazyIoChannel Base Image)
      → process_queued_rw_requests c ≡ ok d
      → Core s c
      → All (IsCovered s) c.queued_rw_requests
      → Core s d × All (IsCovered s) d.queued_rw_requests
  unfolding process_queued_rw_requests
  process_queued-Core s c d e k q =
      let ((m, added), looped, e') = >>=-eq-ok (process_loop c c.queued_rw_requests []) _ e in
      let (k', q') =
        process_loop_induct (Core s) (IsCovered s)
          (λ x queue y. record {
            state_is = y.state_is;
            track_is = y.track_is;
            base_is = y.base_is;
          })
          (give_up-Core s) (start-Core s) c m c.queued_rw_requests [] added looped q k in
      let (k'', same) = submit_added-Core s m d added e' k' in
      (k'', subst (All (IsCovered s)) (sym same) q')

  poll_image_keeps :
      (c d : LazyIoChannel Base Image) (completions : List Completion)
      → poll_image c ≡ ok (d, completions)
      → (d.metadata_state ≡ c.metadata_state)
        × (d.track_written ≡ c.track_written)
        × (d.queued_rw_requests ≡ c.queued_rw_requests)
        × (d.base ≡ c.base)
  unfolding poll_image
  poll_image_keeps c d completions e = ground arith

  poll-Holds :
      (c c' : LazyIoChannel Base Image) (completions : List Completion)
      → poll c ≡ ok (c', completions)
      → Holds c
      → Holds c'
  unfolding poll
  poll-Holds c c' completions e h =
      let s = c.metadata_state in
      let core : Core s c = record {
        state_is = refl;
        track_is = h.tracked;
        base_is = h.base_holds;
      } in
      let (m, processed, e') = >>=-eq-ok (process_queued_rw_requests c) _ e in
      let (k, q) = process_queued-Core s c m processed core h.queue_covered in
      let ((b, from_base), polled, e'') = >>=-eq-ok (Base.poll m.base) _ e' in
      let ((d, from_image), imaged, last) =
        >>=-eq-ok (poll_image (record m { base = b; finished_requests = [] })) _ e'' in
      let (es, et, eq, eb) = poll_image_keeps _ d from_image imaged in
      subst Holds (ap (λ (t : LazyIoChannel Base Image × List Completion). t.0) (ok_eq last)) (
        Core→Holds s d
          (record {
            state_is = es ∙ k.state_is;
            track_is = et ∙ k.track_is;
            base_is = subst (P s) (sym eb) (keeps.polls s m.base b from_base polled k.base_is);
          })
          (subst (All (IsCovered s)) (sym eq) q))

  submit_keeps :
      (c : LazyIoChannel Base Image)
      → ((submit c).0.metadata_state ≡ c.metadata_state)
        × ((submit c).0.track_written ≡ c.track_written)
        × ((submit c).0.queued_rw_requests ≡ c.queued_rw_requests)
        × (((submit c).0.base ≡ c.base) ⊎ ((submit c).0.base ≡ (Base.submit c.base).0))
  unfolding submit submit_base
  submit_keeps c = ground arith

  submit-Holds : (c : LazyIoChannel Base Image) → Holds c → Holds (submit c).0
  submit-Holds c h =
      let s = c.metadata_state in
      let (es, et, eq, eb) = submit_keeps c in
      Core→Holds s (submit c).0
        (record { state_is = es; track_is = et ∙ h.tracked; base_is = after eb })
        (subst (All (IsCovered s)) (sym eq) h.queue_covered)
    where
      after :
          ((submit c).0.base ≡ c.base) ⊎ ((submit c).0.base ≡ (Base.submit c.base).0)
          → P c.metadata_state (submit c).0.base
      after (inl e) = subst (P c.metadata_state) (sym e) h.base_holds
      after (inr e) =
          subst (P c.metadata_state) (sym e) (keeps.submits c.metadata_state c.base h.base_holds)

  flush-Holds :
      (c c' : LazyIoChannel Base Image) (id : ℕ) → add_flush c id ≡ ok c' → Holds c → Holds c'
  unfolding add_flush
  flush-Holds c c' id e h =
      let (b, flushed, e') = >>=-eq-ok (Base.add_flush c.base id) _ e in
      subst Holds (ok_eq e') (record {
        tracked = h.tracked;
        queue_covered = h.queue_covered;
        base_holds = keeps.flushes c.metadata_state c.base b id flushed h.base_holds;
      })

  observe-Holds :
      (c : LazyIoChannel Base Image) (s : SharedMetadataState)
      → Later c.metadata_state s
      → Holds c
      → Holds (observe c s)
  unfolding observe
  observe-Holds c s later h = record {
    tracked = h.tracked;
    queue_covered = Later-All c.metadata_state s c.queued_rw_requests later h.queue_covered;
    base_holds = keeps.observes c.metadata_state s c.base later h.base_holds;
  }

  Step-Holds : {c c' : LazyIoChannel Base Image} → Step c c' → Holds c → Holds c'
  unfolding make_request
  Step-Holds {c} {c'} (reads off count buf id e) h =
      Reaches-Holds c c' (make_request c inward off count buf id)
        (record { first_here = refl; last_here = refl }) (add_read-Reaches c c' off count buf id e)
        h
  Step-Holds {c} {c'} (writes off count buf id e) h =
      Reaches-Holds c c' (make_request c outward off count buf id)
        (record { first_here = refl; last_here = refl }) (add_write-Reaches c c' off count buf id e)
        h
  Step-Holds {c} {c'} (flushes id e) h = flush-Holds c c' id e h
  Step-Holds {c} {c'} (submits e) h = subst Holds e (submit-Holds c h)
  Step-Holds {c} {c'} (polls completions e) h = poll-Holds c c' completions e h
  Step-Holds {c} {c'} (observes s reported e) h =
      subst Holds e (observe-Holds c s (Step-Later reported) h)

  Reach-Holds : {c d : LazyIoChannel Base Image} → Reach c d → Holds c → Holds d
  Reach-Holds here h = h
  Reach-Holds (next r st) h = Step-Holds st (Reach-Holds r h)

-- A new channel, after any calls of its methods and any progress of the worker in between: what
-- allowed requests keep holds of the base channel. So the base device is read or written only
-- where every stripe of the request is present, and marked as written if a tracked write needs it.
pub base_is_safe :
    {Base Image : IoChannel} (P : SharedMetadataState → Base.State → Type 0) (track : Bool)
    (base : Base.State) (image : Option Image.State) (bgworker_ch : Sender)
    (s : SharedMetadataState) (c : LazyIoChannel Base Image)
    → Keeps Base track P
    → P s base
    → Reach (new {Base = Base} {Image = Image} base image bgworker_ch s track) c
    → P c.metadata_state c.base
unfolding new
base_is_safe P track base image bgworker_ch s c keeps p r =
    let end =
      Reach-Holds P track keeps r (record { tracked = refl; queue_covered = tt; base_holds = p }) in
    end.base_holds
