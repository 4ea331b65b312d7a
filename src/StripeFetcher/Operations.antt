-- ===== src/StripeFetcher/Operations.antt =====
-- src/block_device/bdev_lazy/stripe_fetcher.rs: `update`, its loops, and the end of the fetching.
use ubiblk.Prelude.{
  ℕ, zero, suc, ◌+◌, ◌-◌, ◌*◌, ◌%◌, ◌^◌, min, Bool, true, false, not, ◌&&◌, none, some, List, [],
  ◌∷◌, Result, ok, err, panic, ◌>>=◌, unwrap, ◌==◌, if◌then◌else◌, length, lookup, insert,
}
use ubiblk.BufferPool.{SharedBuffer, get_buffer, has_available}
use ubiblk.IoChannel.{IoChannel, Completion}
use ubiblk.SharedState.{source_stripes, fetched_stripes}
use ubiblk.StripeSource.{StripeSource}
use ubiblk.StripeFetcher.{
  StripeFetcher, queued, fetching, flushing, fetched, busy, update_autofetch, fetch_completed,
}

module _ {Source : StripeSource} {Target : IoChannel} where
  -- One round of the loop of `start_fetches`, with a stripe taken from the queue.
  unfoldable pub start_fetch :
      StripeFetcher Source Target → ℕ → Result (StripeFetcher Source Target)
  start_fetch f stripe_id = do
    (maybe_buf, pool') ← get_buffer f.buffer_pool
    buf ← unwrap maybe_buf
    let (source', result) = Source.request f.stripe_source stripe_id buf
    let f' = record f {
      buffer_pool = pool';
      allocated_buffers = insert stripe_id buf f.allocated_buffers;
      stripe_source = source';
    }
    elim result [
      | ok _ ↦ ok (record f' { stripe_states = insert stripe_id fetching f'.stripe_states })
      | err e ↦ fetch_completed f' stripe_id false
      | panic ↦ panic
    ]

  -- The loop, on fuel.
  unfoldable pub start_loop : ℕ → StripeFetcher Source Target → Result (StripeFetcher Source Target)
  unfolding start_fetch
  start_loop zero f = ok f
  start_loop (suc fuel) f = elim f.fetch_queue [
    | [] ↦ ok f
    | stripe_id ∷ rest ↦ elim (has_available f.buffer_pool) [
      | false ↦ ok f
      | true ↦ do f' ← start_fetch (record f { fetch_queue = rest }) stripe_id; start_loop fuel f'
    ]
  ]

  -- A stripe is tried four times at most.
  unfoldable pub start_fetches : StripeFetcher Source Target → Result (StripeFetcher Source Target)
  unfolding start_loop
  start_fetches f = start_loop (4 * length f.fetch_queue) f

  -- The offset wraps in a release build, and so does the difference.
  unfoldable pub write_extent : StripeFetcher Source Target → ℕ → ℕ × ℕ
  write_extent f stripe_id =
      let offset = stripe_id * f.stripe_sector_count % 2 ^ 64 in
      let room = (f.target_sector_count + 2 ^ 64 - offset) % 2 ^ 64 in
      (offset, min f.stripe_sector_count room % 2 ^ 32)

  -- `true` is a submission that was taken.
  unfoldable pub submit_target :
      StripeFetcher Source Target → Result (StripeFetcher Source Target × Bool)
  submit_target f =
      let (channel', result) = Target.submit f.fetch_target_channel in
      let f' = record f { fetch_target_channel = channel' } in
      elim result [ ok _ ↦ ok (f', true) | err e ↦ ok (f', false) | panic ↦ panic ]

  unfoldable pub start_write :
      StripeFetcher Source Target → SharedBuffer → ℕ → Result (StripeFetcher Source Target × Bool)
  unfolding write_extent submit_target
  start_write f buf stripe_id = do
    let (offset, count) = write_extent f stripe_id
    channel' ← Target.add_write f.fetch_target_channel offset count buf stripe_id
    submit_target (record f { fetch_target_channel = channel' })

  unfoldable pub start_flush :
      StripeFetcher Source Target → ℕ → Result (StripeFetcher Source Target × Bool)
  unfolding submit_target
  start_flush f stripe_id = do
    channel' ← Target.add_flush f.fetch_target_channel stripe_id
    submit_target (record f { fetch_target_channel = channel' })

  -- A completion of the source.
  unfoldable pub source_done :
      StripeFetcher Source Target → ℕ → Bool → Result (StripeFetcher Source Target)
  unfolding start_write
  source_done f stripe_id success = elim (lookup stripe_id f.allocated_buffers) [
    | none ↦ ok f
    | some buf ↦ elim success [
      | false ↦ fetch_completed f stripe_id false
      | true ↦ do
        (f', started) ← start_write f buf stripe_id
        elim started [ true ↦ ok f' | false ↦ fetch_completed f' stripe_id false ]
    ]
  ]

  -- A completion of the target.
  unfoldable pub target_done :
      StripeFetcher Source Target → ℕ → Bool → Result (StripeFetcher Source Target)
  unfolding start_flush
  target_done f stripe_id false = fetch_completed f stripe_id false
  target_done f stripe_id true = elim (lookup stripe_id f.stripe_states) [
    | none ↦ ok f
    | some state ↦ elim state [
      | fetching ↦ do
        (f', started) ← start_flush f stripe_id
        elim started [
          | true ↦ ok (record f' { stripe_states = insert stripe_id flushing f'.stripe_states })
          | false ↦ fetch_completed f' stripe_id false
        ]
      | flushing ↦ fetch_completed f stripe_id true
      | queued ↦ ok f
      | fetched ↦ ok f
    ]
  ]

  unfoldable pub source_each :
      StripeFetcher Source Target → List Completion → Result (StripeFetcher Source Target)
  unfolding source_done
  source_each f [] = ok f
  source_each f ((stripe_id, success) ∷ completions) = do
    f' ← source_done f stripe_id success
    source_each f' completions

  unfoldable pub target_each :
      StripeFetcher Source Target → List Completion → Result (StripeFetcher Source Target)
  unfolding target_done
  target_each f [] = ok f
  target_each f ((stripe_id, success) ∷ completions) = do
    f' ← target_done f stripe_id success
    target_each f' completions

  unfoldable pub poll_fetches : StripeFetcher Source Target → Result (StripeFetcher Source Target)
  unfolding source_each target_each
  poll_fetches f = do
    (source', from_source) ← Source.poll f.stripe_source
    f' ← source_each (record f { stripe_source = source' }) from_source
    (target', from_target) ← Target.poll f'.fetch_target_channel
    target_each (record f' { fetch_target_channel = target' }) from_target

  unfoldable pub update : StripeFetcher Source Target → Result (StripeFetcher Source Target)
  unfolding start_fetches poll_fetches
  update f = do f' ← update_autofetch f; f'' ← start_fetches f'; poll_fetches f''

  -- `null_source` is the new source over a null device.
  unfoldable pub disconnect_from_source_if_all_fetched :
      Source.State → StripeFetcher Source Target → StripeFetcher Source Target
  disconnect_from_source_if_all_fetched null_source f =
      if not f.disconnected
        && not (busy f)
        && (source_stripes f.shared_metadata_state == fetched_stripes f.shared_metadata_state)
      then record f { stripe_source = null_source; disconnected = true }
      else f
