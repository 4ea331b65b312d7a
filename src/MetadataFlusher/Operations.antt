-- ===== src/MetadataFlusher/Operations.antt =====
-- src/block_device/bdev_lazy/metadata_flusher.rs: `update`, the two halves of it and their loops.
use ubiblk.Prelude.{
  ℕ, Bool, true, false, not, ◌&&◌, none, some, List, [], ◌∷◌, ◌++◌, Result, ok, err, panic, ◌>>=◌,
  unwrap, get_elem?, lookup, insert, remove, contains, add_to_set, discard, replicate,
}
use ubiblk.BufferPool.{get_buffer, return_buffer, has_available}
use ubiblk.IoChannel.{IoChannel, Completion}
use ubiblk.Metadata.{stripe_id_to_sector, stripe_id_to_group, has_flag}
use ubiblk.Metadata.Codec.{write_sector_with_crc32}
use ubiblk.SharedState.{set_stripe_header}
use ubiblk.MetadataFlusher.{
  MetadataFlusher, MetadataFlusherRequest, HeaderUpdateStatus, RequestStage, writing, flushing,
  bitmask_of, set_bits, headers_of_group, abandon, cleanup_failed_submission,
}

-- A stripe whose update is on the device, with its header.
abbrev pub Finished : Type 0
Finished = ℕ × ℕ

unfoldable pub is_writing : RequestStage → Bool
is_writing writing = true
is_writing flushing = false

module _ {Channel : IoChannel} where
  -- The arms of the match for a stripe that has an update.
  unfoldable pub poll_status :
      MetadataFlusher Channel
      → ℕ
      → HeaderUpdateStatus
      → Bool
      → Result (MetadataFlusher Channel × List Finished × List ℕ)
  unfolding abandon is_writing
  poll_status f id status false = do
    f' ←
        abandon (record f { header_updates = remove id f.header_updates }) status
          (is_writing status.stage)
    ok (f', [], [])
  poll_status f id status true = elim status.stage [
    | writing ↦ do
      pool' ← return_buffer f.buffer_pool status.buffer
      channel' ← Channel.add_flush f.channel id
      ok (
        record f {
          buffer_pool = pool';
          channel = channel';
          header_updates = insert id (record status { stage = flushing }) f.header_updates;
        },
        [],
        id ∷ [],
      )
    | flushing ↦ ok (
      record f { sectors_being_updated = discard status.sector f.sectors_being_updated },
      (status.stripe_id, status.header) ∷ [],
      [],
    )
  ]

  -- The loop over the completions: what has finished, and what is to be flushed.
  unfoldable pub poll_each :
      MetadataFlusher Channel
      → List Completion
      → List Finished
      → List ℕ
      → Result (MetadataFlusher Channel × List Finished × List ℕ)
  unfolding poll_status
  poll_each f [] finished_stripes newly_flushing = ok (f, finished_stripes, newly_flushing)
  poll_each f ((id, success) ∷ completions) finished_stripes newly_flushing =
      elim (lookup id f.header_updates) [
        | none ↦ poll_each f completions finished_stripes newly_flushing
        | some status ↦ do
          (f', finished, flushed) ← poll_status f id status success
          poll_each f' completions (finished_stripes ++ finished) (newly_flushing ++ flushed)
      ]

  unfoldable pub finish_each :
      MetadataFlusher Channel → List Finished → Result (MetadataFlusher Channel)
  finish_each f [] = ok f
  finish_each f ((stripe, header) ∷ finished) = do
    shared' ← set_stripe_header f.shared_state stripe header
    finish_each
        (record f { header_updates = remove stripe f.header_updates; shared_state = shared' })
        finished

  -- The end of both halves: what was added is submitted, or taken back.
  unfoldable pub submit_or_cleanup :
      MetadataFlusher Channel → List ℕ → Bool → Result (MetadataFlusher Channel)
  submit_or_cleanup f [] give_back = ok f
  submit_or_cleanup f (id ∷ ids) give_back =
      let (channel', result) = Channel.submit f.channel in
      let f' = record f { channel = channel' } in
      elim result [
        | ok _ ↦ ok f'
        | err e ↦ cleanup_failed_submission f' (id ∷ ids) give_back
        | panic ↦ panic
      ]

  unfoldable pub poll_channel : MetadataFlusher Channel → Result (MetadataFlusher Channel)
  unfolding poll_each finish_each submit_or_cleanup
  poll_channel f = do
    (channel', completions) ← Channel.poll f.channel
    (f', finished_stripes, newly_flushing) ←
        poll_each (record f { channel = channel' }) completions [] []
    f'' ← finish_each f' finished_stripes
    submit_or_cleanup f'' newly_flushing false

  module _ (crc32 : List ℕ → ℕ) where
    -- The rest of a round, for a request whose bit is not set yet. The buffer is zeroed before it is
    -- filled, so only its length counts.
    unfoldable pub start_write :
        MetadataFlusher Channel → MetadataFlusherRequest → Result (MetadataFlusher Channel)
    unfolding set_bits headers_of_group stripe_id_to_sector stripe_id_to_group
    start_write f req = do
      let group = stripe_id_to_group req.stripe_id
      let sector = stripe_id_to_sector req.stripe_id
      let bitmask = bitmask_of req.kind
      (maybe_buf, pool') ← get_buffer f.buffer_pool
      buf ← unwrap maybe_buf
      metadata' ← set_bits f.metadata req.stripe_id bitmask
      headers ← headers_of_group metadata' group
      bytes ← write_sector_with_crc32 crc32 (replicate buf.len 0) headers
      channel' ← Channel.add_write f.channel sector 1 buf req.stripe_id
      header ← unwrap (get_elem? metadata'.stripe_headers req.stripe_id)
      ok (record f {
        channel = channel';
        metadata = metadata';
        buffer_pool = pool';
        memory = insert buf.ptr bytes f.memory;
        sectors_being_updated = add_to_set sector f.sectors_being_updated;
        header_updates =
            insert req.stripe_id
              (record {
                buffer = buf;
                stage = writing;
                stripe_id = req.stripe_id;
                header = header;
                requested_bitmask = bitmask;
                sector = sector;
              })
              f.header_updates;
      })

    -- The loop over the queue, with the stripes whose updates are new.
    unfoldable pub start_each :
        MetadataFlusher Channel
        → List MetadataFlusherRequest
        → List ℕ
        → Result (MetadataFlusher Channel × List ℕ)
    unfolding start_write stripe_id_to_sector
    start_each f [] newly_added = ok (record f { queued_requests = [] }, newly_added)
    start_each f (req ∷ rest) newly_added =
        let sector = stripe_id_to_sector req.stripe_id in
        elim (has_available f.buffer_pool && not (contains sector f.sectors_being_updated)) [
          | false ↦ ok (record f { queued_requests = req ∷ rest }, newly_added)
          | true ↦ do
            header ← unwrap (get_elem? f.metadata.stripe_headers req.stripe_id)
            elim (has_flag header (bitmask_of req.kind)) [
              | true ↦ start_each f rest newly_added
              | false ↦ do
                f' ← start_write f req
                start_each f' rest (newly_added ++ req.stripe_id ∷ [])
            ]
        ]

    unfoldable pub start_writes : MetadataFlusher Channel → Result (MetadataFlusher Channel)
    unfolding start_each submit_or_cleanup
    start_writes f = do
      (f', newly_added) ← start_each f f.queued_requests []
      submit_or_cleanup f' newly_added true

    unfoldable pub update : MetadataFlusher Channel → Result (MetadataFlusher Channel)
    unfolding start_writes poll_channel
    update f = do f' ← start_writes f; poll_channel f'
