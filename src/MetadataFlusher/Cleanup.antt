-- ===== src/MetadataFlusher/Cleanup.antt =====
-- src/block_device/bdev_lazy/metadata_flusher.rs: the clean-up after a submission that
-- failed.
use ubiblk.Prelude.{
  ℕ, ◌≡◌, refl, sym, ap, ◌∙◌, Bool, true, none, some, List, [], ◌∷◌, Result, ok, err, panic, arith,
  lookup, contains, remove_inv, contains-head, >>=_ok,
}
use ubiblk.IoChannel.{IoChannel}
use ubiblk.MetadataFlusher.{MetadataFlusher, HeaderUpdateStatus, cleanup_failed_submission}
use ubiblk.MetadataFlusher.Operations.{is_writing, submit_or_cleanup}
use ubiblk.MetadataFlusher.Invariant.{InOrder, abandon-InOrder}
use ubiblk.MetadataFlusher.Completions.{IsCalm}
use ubiblk.MetadataFlusher.Polling.{stripes}

-- The stage that an update has to be in for its buffer to be given back, or not.
abbrev pub Staged : {Channel : IoChannel} → MetadataFlusher Channel → List ℕ → Bool → Type 0
Staged f ids give_back =
    (j : ℕ) (su : HeaderUpdateStatus)
    → contains j ids ≡ true
    → lookup j f.header_updates ≡ some su
    → give_back ≡ is_writing su.stage

-- The same stripes, and the flusher in order.
pub record Kept {Channel : IoChannel} (f : MetadataFlusher Channel)
    (r : Result (MetadataFlusher Channel)) : Type 0 where
  pub next : MetadataFlusher Channel
  pub runs : r ≡ ok next
  pub in_order : InOrder [] next
  pub stripes_kept : stripes next ≡ stripes f

module _ {Channel : IoChannel} where
  Staged-rest :
      (f : MetadataFlusher Channel) (id : ℕ) (ids : List ℕ) (give_back : Bool)
      → Staged f (id ∷ ids) give_back
      → Staged f ids give_back
  unfolding contains
  Staged-rest f id ids give_back h j su c e = h j su (ground arith) e

  -- Every update that failed to be submitted is undone.
  pub cleanup-Kept :
      (f : MetadataFlusher Channel) (ids : List ℕ) (give_back : Bool)
      → Staged f ids give_back
      → InOrder [] f
      → Kept f (cleanup_failed_submission f ids give_back)
  unfolding cleanup_failed_submission
  cleanup-Kept f [] give_back staged h = record {
    next = f;
    runs = refl;
    in_order = h;
    stripes_kept = refl;
  }
  cleanup-Kept f (id ∷ ids) give_back staged h =
      (elim (lookup id f.header_updates)
          as (λ o.
            lookup id f.header_updates ≡ o
            → Kept f (cleanup_failed_submission f (id ∷ ids) give_back)) [
              | none ↦ λ e.
                  let k = cleanup-Kept f ids give_back (Staged-rest f id ids give_back staged) h in
                  record {
                    next = k.next;
                    runs = rw (e, cleanup_failed_submission) k.runs;
                    in_order = k.in_order;
                    stripes_kept = k.stripes_kept;
                  }
              | some st ↦ λ e.
                  let (f', ran, ordered, same, len) =
                    abandon-InOrder [] f id st give_back e (staged id st (contains-head id ids) e)
                      h in
                  let staged' : Staged f' ids give_back = λ j su c e'.
                    Staged-rest f id ids give_back staged j su c
                      (remove_inv id j f.header_updates su (ap (lookup j) (sym same) ∙ e')).1 in
                  let k = cleanup-Kept f' ids give_back staged' ordered in
                  record {
                    next = k.next;
                    runs = rw (e, cleanup_failed_submission) (>>=_ok _ _ f' ran ∙ k.runs);
                    in_order = k.in_order;
                    stripes_kept = k.stripes_kept ∙ len;
                  }
            ])
        refl

  -- A channel in another state.
  pub channel-InOrder :
      (done : List ℕ) (f : MetadataFlusher Channel) (c : Channel.State)
      → InOrder done f
      → InOrder done (record f { channel = c })
  channel-InOrder done f c h = record {
    sectors_ok = h.sectors_ok;
    buffers_ok = h.buffers_ok;
    queued_ok = h.queued_ok;
    fetch_sized = h.fetch_sized;
    write_sized = h.write_sized;
  }

  pub submit_or_cleanup-Kept :
      (calm : IsCalm Channel) (f : MetadataFlusher Channel) (ids : List ℕ) (give_back : Bool)
      → Staged f ids give_back
      → InOrder [] f
      → Kept f (submit_or_cleanup f ids give_back)
  unfolding submit_or_cleanup
  submit_or_cleanup-Kept calm f [] give_back staged h = record {
    next = f;
    runs = refl;
    in_order = h;
    stripes_kept = refl;
  }
  submit_or_cleanup-Kept calm f (id ∷ ids) give_back staged h =
      let f' : MetadataFlusher Channel = record f { channel = (Channel.submit f.channel).0 } in
      let h' = channel-InOrder [] f (Channel.submit f.channel).0 h in
      (elim (Channel.submit f.channel).1
          as (λ r.
            (Channel.submit f.channel).1 ≡ r → Kept f (submit_or_cleanup f (id ∷ ids) give_back)) [
              | ok t ↦ λ e. record {
                next = f';
                runs = rw (e, submit_or_cleanup) refl;
                in_order = h';
                stripes_kept = refl;
              }
              | err x ↦ λ e.
                  let k = cleanup-Kept f' (id ∷ ids) give_back staged h' in
                  record {
                    next = k.next;
                    runs = rw (e, submit_or_cleanup) k.runs;
                    in_order = k.in_order;
                    stripes_kept = k.stripes_kept;
                  }
              | panic ↦ λ e. absurd (calm.submits f.channel e)
            ])
        refl
