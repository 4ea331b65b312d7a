-- ===== src/MetadataFlusher/Updating.antt =====
-- src/block_device/bdev_lazy/metadata_flusher.rs: `start_writes`, and the whole `update`.
use ubiblk.Prelude.{
  Bool-cases, ℕ, ◌+◌, ◌/◌, ◌<◌, ◌≡◌, refl, sym, ◌∙◌, subst, Bool, true, false, not, ◌&&◌, some,
  List, [], ◌∷◌, ◌++◌, Result, ok, arith, get_elem?, get_elem?-total, set, All, contains, inl, inr,
  >>=_ok,
}
use ubiblk.BufferPool.{has_available}
use ubiblk.IoChannel.{IoChannel}
use ubiblk.Metadata.{has_flag, stripe_id_to_sector}
use ubiblk.MetadataFlusher.{MetadataFlusher, MetadataFlusherRequest, bitmask_of}
use ubiblk.MetadataFlusher.Operations.{is_writing, start_write, start_each, start_writes, update}
use ubiblk.MetadataFlusher.Invariant.{InOrder}
use ubiblk.MetadataFlusher.Completions.{either, IsCalm}
use ubiblk.MetadataFlusher.Rounds.{poll_channel-Kept}
use ubiblk.MetadataFlusher.Cleanup.{Kept, Staged, submit_or_cleanup-Kept}
use ubiblk.MetadataFlusher.Polling.{stripes, no_member}
use ubiblk.MetadataFlusher.Starting.{Started, start_write-Started}

module _ {Channel : IoChannel} (calm : IsCalm Channel) (crc32 : List ℕ → ℕ) where
  -- The loop over the queue: every round keeps the flusher in order, and what is new is to be written.
  record StartedAll (f : MetadataFlusher Channel) (r : Result (MetadataFlusher Channel × List ℕ))
      : Type 0 where
    next : MetadataFlusher Channel
    added : List ℕ
    runs : r ≡ ok (next, added)
    in_order : InOrder [] next
    stripes_kept : stripes next ≡ stripes f
    staged : Staged next added true

  requeue-InOrder :
      (f : MetadataFlusher Channel) (queue : List MetadataFlusherRequest)
      → All (λ (r : MetadataFlusherRequest). r.stripe_id < stripes f) queue
      → InOrder [] f
      → InOrder [] (record f { queued_requests = queue })
  requeue-InOrder f queue q h = record {
    sectors_ok = h.sectors_ok;
    buffers_ok = h.buffers_ok;
    queued_ok = q;
    fetch_sized = h.fetch_sized;
    write_sized = h.write_sized;
  }

  added-Staged :
      (f : MetadataFlusher Channel) (id : ℕ) (added : List ℕ) (r : Result (MetadataFlusher Channel))
      (s : Started f id r)
      → Staged f added true
      → Staged s.kept.next (added ++ id ∷ []) true
  unfolding is_writing
  added-Staged f id added r s staged j su c e = elim (s.grown j su e) [
    | inl (same, w) ↦ rw w refl
    | inr (ne, old) ↦ elim (either j added id c) [
      | inl before ↦ staged j su before old
      | inr same ↦ absurd (ne same)
    ]
  ]

  -- May the request at the front be taken up?
  abbrev takes : MetadataFlusher Channel → MetadataFlusherRequest → Bool
  takes f req =
      has_available f.buffer_pool
      && not (contains (req.stripe_id / 508 + 1) f.sectors_being_updated)

  -- The three ways of a round.
  stop_round :
      (f : MetadataFlusher Channel) (req : MetadataFlusherRequest)
      (rest : List MetadataFlusherRequest) (added : List ℕ)
      → takes f req ≡ false
      → start_each crc32 f (req ∷ rest) added
        ≡ ok (record f { queued_requests = req ∷ rest }, added)
  unfolding start_each stripe_id_to_sector
  stop_round f req rest added e = ground arith

  skip_round :
      (f : MetadataFlusher Channel) (req : MetadataFlusherRequest)
      (rest : List MetadataFlusherRequest) (added : List ℕ) (header : ℕ)
      → takes f req ≡ true
      → get_elem? f.metadata.stripe_headers req.stripe_id ≡ some header
      → has_flag header (bitmask_of req.kind) ≡ true
      → start_each crc32 f (req ∷ rest) added ≡ start_each crc32 f rest added
  unfolding start_each stripe_id_to_sector
  skip_round f req rest added header e eh set = ground arith

  start_round :
      (f f' : MetadataFlusher Channel) (req : MetadataFlusherRequest)
      (rest : List MetadataFlusherRequest) (added : List ℕ) (header : ℕ)
      → takes f req ≡ true
      → get_elem? f.metadata.stripe_headers req.stripe_id ≡ some header
      → has_flag header (bitmask_of req.kind) ≡ false
      → start_write crc32 f req ≡ ok f'
      → start_each crc32 f (req ∷ rest) added
        ≡ start_each crc32 f' rest (added ++ req.stripe_id ∷ [])
  unfolding start_each stripe_id_to_sector
  start_round f f' req rest added header e eh unset ran = ground arith

  start_each-StartedAll :
      (f : MetadataFlusher Channel) (queue : List MetadataFlusherRequest) (added : List ℕ)
      → All (λ (r : MetadataFlusherRequest). r.stripe_id < stripes f) queue
      → InOrder [] f
      → Staged f added true
      → StartedAll f (start_each crc32 f queue added)
  unfolding start_each
  start_each-StartedAll f [] added q h staged = record {
    next = record f { queued_requests = [] };
    added = added;
    runs = refl;
    in_order = requeue-InOrder f [] tt h;
    stripes_kept = refl;
    staged = staged;
  }
  start_each-StartedAll f (req ∷ rest) added q h staged = elim (Bool-cases (takes f req)) [
    | inr e ↦ record {
      next = record f { queued_requests = req ∷ rest };
      added = added;
      runs = stop_round f req rest added e;
      in_order = requeue-InOrder f (req ∷ rest) q h;
      stripes_kept = refl;
      staged = staged;
    }
    | inl e ↦
        let (available, free) = both e in
        let (header, eh) = get_elem?-total f.metadata.stripe_headers req.stripe_id q.0 in
        elim (Bool-cases (has_flag header (bitmask_of req.kind))) [
          | inl set ↦
              let k = start_each-StartedAll f rest added q.1 h staged in
              record {
                next = k.next;
                added = k.added;
                runs = skip_round f req rest added header e eh set ∙ k.runs;
                in_order = k.in_order;
                stripes_kept = k.stripes_kept;
                staged = k.staged;
              }
          | inr unset ↦
              let s = start_write-Started calm crc32 f req available free q.0 h in
              let k =
                start_each-StartedAll s.kept.next rest (added ++ req.stripe_id ∷ [])
                  (subst (λ (n : ℕ). All (λ (r : MetadataFlusherRequest). r.stripe_id < n) rest)
                    (sym s.kept.stripes_kept) q.1)
                  s.kept.in_order (added-Staged f req.stripe_id added _ s staged) in
              record {
                next = k.next;
                added = k.added;
                runs =
                    start_round f s.kept.next req rest added header e eh unset s.kept.runs ∙ k.runs;
                in_order = k.in_order;
                stripes_kept = k.stripes_kept ∙ s.kept.stripes_kept;
                staged = k.staged;
              }
        ]
  ]
    where
      both : {a b : Bool} → (a && not b) ≡ true → (a ≡ true) × (b ≡ false)
      both {a} {b} e = ground arith

  start_writes-Kept : (f : MetadataFlusher Channel) → InOrder [] f → Kept f (start_writes crc32 f)
  unfolding start_writes
  start_writes-Kept f h =
      let k =
        start_each-StartedAll f f.queued_requests [] h.queued_ok h
          (λ j su c e. absurd (no_member j c)) in
      let s = submit_or_cleanup-Kept calm k.next k.added true k.staged k.in_order in
      record {
        next = s.next;
        runs = >>=_ok (start_each crc32 f f.queued_requests []) _ _ k.runs ∙ s.runs;
        in_order = s.in_order;
        stripes_kept = s.stripes_kept ∙ k.stripes_kept;
      }

  -- One `update` of a flusher in order, whatever the metadata device reports and whether or not it
  -- takes submissions: no index is out of range, no buffer is returned twice or missing, and the
  -- flusher is in order again. So each sector has one update at a time, each buffer lent out belongs
  -- to one update that is being written, and none is lost.
  pub update-Kept : (f : MetadataFlusher Channel) → InOrder [] f → Kept f (update crc32 f)
  unfolding update
  update-Kept f h =
      let a = start_writes-Kept f h in
      let b = poll_channel-Kept calm a.next a.in_order in
      record {
        next = b.next;
        runs = >>=_ok (start_writes crc32 f) _ a.next a.runs ∙ b.runs;
        in_order = b.in_order;
        stripes_kept = b.stripes_kept ∙ a.stripes_kept;
      }
