-- ===== src/MetadataFlusher/Rounds.antt =====
-- src/block_device/bdev_lazy/metadata_flusher.rs: the loops of `poll_channel`.
use ubiblk.Prelude.{
  >>=-eq-ok, ℕ, ◌<◌, ◌≡◌, ◌≢◌, refl, sym, ap, ◌∙◌, subst, true, false, none, some, List, [], ◌∷◌,
  ◌++◌, Result, ok, arith, All, lookup, remove, contains, remove_inv, remove_other, contains-append,
  contains-head, All-append, ◌⊎◌, inl, inr, >>=_ok,
}
use ubiblk.BufferPool.{AlignedBufferPool}
use ubiblk.IoChannel.{IoChannel, Completion}
use ubiblk.SharedState.{set_stripe_header}
use ubiblk.SharedState.Sizes.{set_stripe_header-Sets}
use ubiblk.MetadataFlusher.{MetadataFlusher, HeaderUpdateStatus, RequestStage, writing, flushing}
use ubiblk.MetadataFlusher.Operations.{
  is_writing, Finished, poll_status, poll_each, finish_each, poll_channel,
}
use ubiblk.MetadataFlusher.Invariant.{InOrder}
use ubiblk.MetadataFlusher.Completions.{IsCalm, ids_of, ids_of-append}
use ubiblk.MetadataFlusher.Cleanup.{Kept, Staged, channel-InOrder, submit_or_cleanup-Kept}
use ubiblk.MetadataFlusher.Polling.{Polled, stripes, poll_status-Polled, no_member}
use ubiblk.MetadataFlusher.Books.{Updates, Sectors, Buffers}

abbrev Known : ℕ → List Finished → Type 0
Known n finished = All (λ (p : Finished). p.0 < n) finished

-- After the loop over the completions.
record PolledAll {Channel : IoChannel} (f : MetadataFlusher Channel)
    (r : Result (MetadataFlusher Channel × List Finished × List ℕ)) : Type 0 where
  next : MetadataFlusher Channel
  finished : List Finished
  flushed : List ℕ
  runs : r ≡ ok (next, finished, flushed)
  in_order : InOrder (ids_of finished) next
  stripes_kept : stripes next ≡ stripes f
  known : Known (stripes f) finished
  staged : Staged next flushed false

flushing_stage : (stage : RequestStage) → stage ≡ flushing → false ≡ is_writing stage
unfolding is_writing
flushing_stage stage e = rw e refl

writing_or_not : (stage : RequestStage) → false ≡ is_writing stage → stage ≡ flushing
unfolding is_writing
writing_or_not writing e = cc
writing_or_not flushing e = refl

module _ {Channel : IoChannel} (calm : IsCalm Channel) where
  next-Staged :
      (f : MetadataFlusher Channel) (done flushed : List ℕ)
      (r : Result (MetadataFlusher Channel × List Finished × List ℕ)) (p : Polled f done r)
      → Staged f flushed false
      → Staged p.next (flushed ++ p.flushed) false
  next-Staged f done flushed r p staged j su c e = elim (member_cases j flushed p.flushed c) [
    | inl before ↦ elim (p.stages_kept j su e) [
      | inl idle ↦ flushing_stage su.stage idle
      | inr old ↦ staged j su before old
    ]
    | inr now ↦ flushing_stage su.stage (p.now_flushing j su now e)
  ]
    where
      member_cases :
          (k : ℕ) (xs ys : List ℕ)
          → contains k (xs ++ ys) ≡ true
          → (contains k xs ≡ true) ⊎ (contains k ys ≡ true)
      member_cases k xs ys c = ground (arith, contains-append k xs ys)

  poll_each-PolledAll :
      (f : MetadataFlusher Channel) (completions : List Completion) (finished : List Finished)
      (flushed : List ℕ)
      → InOrder (ids_of finished) f
      → Known (stripes f) finished
      → Staged f flushed false
      → PolledAll f (poll_each f completions finished flushed)
  unfolding poll_each
  poll_each-PolledAll f [] finished flushed h known staged = record {
    next = f;
    finished = finished;
    flushed = flushed;
    runs = refl;
    in_order = h;
    stripes_kept = refl;
    known = known;
    staged = staged;
  }
  poll_each-PolledAll f ((id, success) ∷ completions) finished flushed h known staged =
      (elim (lookup id f.header_updates)
          as (λ o.
            lookup id f.header_updates ≡ o
            → PolledAll f (poll_each f ((id, success) ∷ completions) finished flushed)) [
              | none ↦ λ e.
                  let k = poll_each-PolledAll f completions finished flushed h known staged in
                  record {
                    next = k.next;
                    finished = k.finished;
                    flushed = k.flushed;
                    runs = rw (e, poll_each) k.runs;
                    in_order = k.in_order;
                    stripes_kept = k.stripes_kept;
                    known = k.known;
                    staged = k.staged;
                  }
              | some st ↦ λ e.
                  let p = poll_status-Polled calm (ids_of finished) f id st success e h in
                  let known' : Known (stripes p.next) (finished ++ p.finished) =
                    subst (λ (n : ℕ). Known n (finished ++ p.finished)) (sym p.stripes_kept)
                      (All-append (λ (q : Finished). q.0 < stripes f) finished p.finished known
                        p.known) in
                  let h' : InOrder (ids_of (finished ++ p.finished)) p.next =
                    subst (λ (d : List ℕ). InOrder d p.next)
                      (sym (ids_of-append finished p.finished)) p.in_order in
                  let k =
                    poll_each-PolledAll p.next completions (finished ++ p.finished)
                      (flushed ++ p.flushed) h' known'
                      (next-Staged f (ids_of finished) flushed _ p staged) in
                  record {
                    next = k.next;
                    finished = k.finished;
                    flushed = k.flushed;
                    runs =
                        rw (e, poll_each)
                          (>>=_ok (poll_status f id st success) _ _ p.runs ∙ k.runs);
                    in_order = k.in_order;
                    stripes_kept = k.stripes_kept ∙ p.stripes_kept;
                    known = subst (λ (n : ℕ). Known n k.finished) p.stripes_kept k.known;
                    staged = k.staged;
                  }
            ])
        refl

-- An update that is on the device is struck off.
finish-Sectors :
    (n id : ℕ) (done : List ℕ) (updates : Updates) (sectors : List ℕ)
    → Sectors n (id ∷ done) updates sectors
    → Sectors n done (remove id updates) sectors
unfolding contains
finish-Sectors n id done updates sectors s = record {
  known = λ j su e. s.known j su (remove_inv id j updates su e).1;
  marked = λ j su e fresh.
      let (ne, e') = remove_inv id j updates su e in s.marked j su e' (ground arith);
  owned = λ sector h.
      let (j, su, e, at, fresh) = s.owned sector h in
      (j, su, remove_other id j updates su (ground arith) e, at, ground arith);
  apart = λ i j su sv e e'.
      s.apart i j su sv (remove_inv id i updates su e).1 (remove_inv id j updates sv e').1;
  flushed = λ j su d e. s.flushed j su (ground arith) (remove_inv id j updates su e).1;
}

finish-Buffers :
    (n id : ℕ) (done : List ℕ) (updates : Updates) (sectors : List ℕ) (pool : AlignedBufferPool)
    → Sectors n (id ∷ done) updates sectors
    → Buffers updates pool
    → Buffers (remove id updates) pool
finish-Buffers n id done updates sectors pool s b = record {
  pool_ok = b.pool_ok;
  big = b.big;
  held = λ j su e. b.held j su (remove_inv id j updates su e).1;
  own = λ i j su sv e e'.
      b.own i j su sv (remove_inv id i updates su e).1 (remove_inv id j updates sv e').1;
  no_leak = λ k used.
      let (j, su, e, w, at) = b.no_leak k used in
      (j, su, remove_other id j updates su (busy j su e w) e, w, at);
}
  where
    busy :
        (j : ℕ) (su : HeaderUpdateStatus) → lookup j updates ≡ some su → su.stage ≡ writing → id ≢ j
    busy j su e w = λ same.
        let idle : su.stage ≡ flushing =
          s.flushed j su (ap (λ (i : ℕ). contains i (id ∷ done)) (sym same) ∙ contains-head id done)
            e in
        cc (w, idle)

module _ {Channel : IoChannel} where
  finish_each-Kept :
      (f : MetadataFlusher Channel) (finished : List Finished)
      → Known (stripes f) finished
      → InOrder (ids_of finished) f
      → Kept f (finish_each f finished)
  unfolding finish_each
  finish_each-Kept f [] known h = record {
    next = f;
    runs = refl;
    in_order = h;
    stripes_kept = refl;
  }
  finish_each-Kept f ((id, header) ∷ finished) known h =
      let set =
        set_stripe_header-Sets f.shared_state id header (omega (arith, known.0, h.fetch_sized))
          (omega (arith, known.0, h.write_sized)) in
      let f' : MetadataFlusher Channel = record f {
        header_updates = remove id f.header_updates;
        shared_state = set.next;
      } in
      let ordered : InOrder (ids_of finished) f' = record {
        sectors_ok =
            finish-Sectors (stripes f) id (ids_of finished) f.header_updates f.sectors_being_updated
              h.sectors_ok;
        buffers_ok =
            finish-Buffers (stripes f) id (ids_of finished) f.header_updates f.sectors_being_updated
              f.buffer_pool h.sectors_ok h.buffers_ok;
        queued_ok = h.queued_ok;
        fetch_sized = set.fetch_size ∙ h.fetch_sized;
        write_sized = set.write_size ∙ h.write_sized;
      } in
      let k = finish_each-Kept f' finished known.1 ordered in
      record {
        next = k.next;
        runs = >>=_ok (set_stripe_header f.shared_state id header) _ set.next set.runs ∙ k.runs;
        in_order = k.in_order;
        stripes_kept = k.stripes_kept;
      }

  finish_each_old :
      (f f' : MetadataFlusher Channel) (finished : List Finished) (j : ℕ) (su : HeaderUpdateStatus)
      → finish_each f finished ≡ ok f'
      → lookup j f'.header_updates ≡ some su
      → lookup j f.header_updates ≡ some su
  unfolding finish_each
  finish_each_old f f' [] j su e at = cc
  finish_each_old f f' ((id, header) ∷ finished) j su e at =
      let (shared, _, e') = >>=-eq-ok (set_stripe_header f.shared_state id header) _ e in
      let old =
        finish_each_old
          (record f { header_updates = remove id f.header_updates; shared_state = shared }) f'
          finished j su e' at in
      (remove_inv id j f.header_updates su old).1

  -- Whatever the device answers, `poll_channel` does not panic and leaves the flusher in order.
  pub poll_channel-Kept :
      (calm : IsCalm Channel) (f : MetadataFlusher Channel) → InOrder [] f → Kept f (poll_channel f)
  unfolding poll_channel
  poll_channel-Kept calm f h =
      let (c, completions, polled) = calm.polls f.channel in
      let a =
        poll_each-PolledAll calm (record f { channel = c }) completions [] []
          (channel-InOrder [] f c h) tt (λ j su c e. absurd (no_member j c)) in
      let k =
        finish_each-Kept a.next a.finished
          (subst (λ (n : ℕ). Known n a.finished) (sym a.stripes_kept) a.known) a.in_order in
      let staged : Staged k.next a.flushed false =
        λ j su c e. a.staged j su c (finish_each_old a.next k.next a.finished j su k.runs e) in
      let s = submit_or_cleanup-Kept calm k.next a.flushed false staged k.in_order in
      record {
        next = s.next;
        runs =
            >>=_ok (Channel.poll f.channel) _ (c, completions) polled
            ∙ >>=_ok (poll_each (record f { channel = c }) completions [] []) _ _ a.runs
            ∙ >>=_ok (finish_each a.next a.finished) _ k.next k.runs
            ∙ s.runs;
        in_order = s.in_order;
        stripes_kept = s.stripes_kept ∙ k.stripes_kept ∙ a.stripes_kept;
      }
