-- ===== src/StripeFetcher.antt =====
-- src/block_device/bdev_lazy/stripe_fetcher.rs: stripes on their way from the source to the device.
-- `Source` is the stripe source, `Target` the channel of the device.
pub mod Operations
pub mod Loop
pub mod Progress
mod Examples
use ubiblk.Prelude.{
  ℕ, zero, suc, ◌+◌, ◌-◌, ◌*◌, ◌%◌, ◌^◌, ◌/◌, min, Bool, true, false, not, ◌&&◌, ◌||◌, Option, none,
  some, List, [], ◌∷◌, ◌++◌, Result, ok, err, panic, ◌>>=◌, ◌>>◌, fail_if, unwrap, ltb, leb, ◌==◌,
  if◌then◌else◌, length, range_from, lookup, insert, remove,
}
use ubiblk.Error.{invalid_parameter, stripe_size_too_large, target_too_small}
use ubiblk.BufferPool.{SharedBuffer, AlignedBufferPool, get_buffer, return_buffer, has_available}
use ubiblk.BufferPool
use ubiblk.IoChannel.{IoChannel, Completion}
use ubiblk.Metadata.{sector_size, div_ceil}
use ubiblk.SharedState.{
  SharedMetadataState, stripe_fetched_if_needed, set_stripe_failed, source_stripes, fetched_stripes,
}
use ubiblk.StripeSource.{StripeSource}

abbrev pub max_concurrent_fetches : ℕ
max_concurrent_fetches = 16

abbrev pub max_fetch_retries : ℕ
max_fetch_retries = 3

pub data FetchState : Type 0 where
  queued fetching flushing fetched : FetchState

pub record StripeFetcher (Source : StripeSource) (Target : IoChannel) : Type 0 where
  pub stripe_source : Source.State
  pub fetch_target_channel : Target.State
  pub source_sector_count : ℕ
  pub target_sector_count : ℕ
  pub stripe_sector_count : ℕ
  pub fetch_queue : List ℕ
  pub autofetch_queue : List ℕ
  pub buffer_pool : AlignedBufferPool
  pub shared_metadata_state : SharedMetadataState
  pub stripe_states : List (ℕ × FetchState)
  pub stripe_fetch_retries : List (ℕ × ℕ)
  pub allocated_buffers : List (ℕ × SharedBuffer)
  pub finished_fetches : List Completion
  pub autofetch : Bool
  pub disconnected : Bool

abbrev pub is_empty {ℓ} : {A : Type ℓ} → List A → Bool
is_empty [] = true
is_empty (x ∷ xs) = false

-- `contains_key`, `is_some`.
abbrev pub is_some {ℓ} : {A : Type ℓ} → Option A → Bool
is_some (some a) = true
is_some none = false

abbrev pub unwrap_or : Option ℕ → ℕ → ℕ
unwrap_or (some a) b = a
unwrap_or none b = b

module _ {Source : StripeSource} {Target : IoChannel} where
  -- `fetch_target_channel` is the target's new channel, `ptr` the address of the first buffer.
  unfoldable pub new :
      Source.State
      → Target.State
      → ℕ
      → ℕ
      → SharedMetadataState
      → ℕ
      → Bool
      → Result (StripeFetcher Source Target)
  new stripe_source fetch_target_channel target_sector_count stripe_sector_count state ptr
        autofetch =
      do
        fail_if (leb (2 ^ 64) (stripe_sector_count * sector_size))
            (invalid_parameter stripe_size_too_large)
        let source_sector_count = Source.sector_count stripe_source
        fail_if (ltb target_sector_count source_sector_count) (invalid_parameter target_too_small)
        let source_stripe_count = div_ceil source_sector_count stripe_sector_count
        ok (record {
          stripe_source = stripe_source;
          fetch_target_channel = fetch_target_channel;
          source_sector_count = source_sector_count;
          target_sector_count = target_sector_count;
          stripe_sector_count = stripe_sector_count;
          fetch_queue = [];
          autofetch_queue = if autofetch then range_from 0 source_stripe_count else [];
          buffer_pool =
              BufferPool.new ptr max_concurrent_fetches (stripe_sector_count * sector_size);
          shared_metadata_state = state;
          stripe_states = [];
          stripe_fetch_retries = [];
          allocated_buffers = [];
          finished_fetches = [];
          autofetch = autofetch;
          disconnected = false;
        })

  unfoldable pub busy : StripeFetcher Source Target → Bool
  busy f =
      not (is_empty f.fetch_queue)
      || Source.busy f.stripe_source
      || Target.busy f.fetch_target_channel
      || not (is_empty f.finished_fetches)
      || not (is_empty f.autofetch_queue)

  unfoldable pub handle_fetch_request :
      StripeFetcher Source Target → ℕ → Result (StripeFetcher Source Target)
  handle_fetch_request f stripe_id = do
    done ← stripe_fetched_if_needed f.shared_metadata_state stripe_id
    ok (
        if done || is_some (lookup stripe_id f.stripe_states) then f else record f {
          fetch_queue = f.fetch_queue ++ stripe_id ∷ [];
          stripe_states = insert stripe_id queued f.stripe_states;
        })

  unfoldable pub update_autofetch :
      StripeFetcher Source Target → Result (StripeFetcher Source Target)
  unfolding handle_fetch_request
  update_autofetch f = elim (f.autofetch && is_empty f.fetch_queue) [
    | false ↦ ok f
    | true ↦ elim f.autofetch_queue [
      | [] ↦ ok f
      | stripe_id ∷ rest ↦ handle_fetch_request (record f { autofetch_queue = rest }) stripe_id
    ]
  ]

  -- The buffer of a stripe goes back; that there is none is only logged.
  unfoldable pub release_buffer :
      StripeFetcher Source Target → ℕ → Result (StripeFetcher Source Target)
  release_buffer f stripe_id = elim (lookup stripe_id f.allocated_buffers) [
    | none ↦ ok f
    | some buf ↦ do
      pool' ← return_buffer f.buffer_pool buf
      ok (record f {
        buffer_pool = pool';
        allocated_buffers = remove stripe_id f.allocated_buffers;
      })
  ]

  unfoldable pub fetch_succeeded : StripeFetcher Source Target → ℕ → StripeFetcher Source Target
  fetch_succeeded f stripe_id = record f {
    stripe_states = insert stripe_id fetched f.stripe_states;
    stripe_fetch_retries = remove stripe_id f.stripe_fetch_retries;
    finished_fetches = f.finished_fetches ++ (stripe_id, true) ∷ [];
  }

  -- The stripe is queued again, or given up after the third retry.
  unfoldable pub fetch_failed :
      StripeFetcher Source Target → ℕ → Result (StripeFetcher Source Target)
  fetch_failed f stripe_id =
      let retries = unwrap_or (lookup stripe_id f.stripe_fetch_retries) 0 in
      elim (ltb retries max_fetch_retries) [
        | true ↦ ok (record f {
          stripe_fetch_retries = insert stripe_id (retries + 1) f.stripe_fetch_retries;
          fetch_queue = f.fetch_queue ++ stripe_id ∷ [];
          stripe_states = insert stripe_id queued f.stripe_states;
        })
        | false ↦ do
          state' ← set_stripe_failed f.shared_metadata_state stripe_id
          ok (record f {
            shared_metadata_state = state';
            stripe_states = remove stripe_id f.stripe_states;
            stripe_fetch_retries = remove stripe_id f.stripe_fetch_retries;
            finished_fetches = f.finished_fetches ++ (stripe_id, false) ∷ [];
          })
      ]

  unfoldable pub fetch_completed :
      StripeFetcher Source Target → ℕ → Bool → Result (StripeFetcher Source Target)
  unfolding release_buffer fetch_succeeded fetch_failed
  fetch_completed f stripe_id success = do
    f' ← release_buffer f stripe_id
    elim success [ true ↦ ok (fetch_succeeded f' stripe_id) | false ↦ fetch_failed f' stripe_id ]

  unfoldable pub take_finished_fetches :
      StripeFetcher Source Target → StripeFetcher Source Target × List Completion
  take_finished_fetches f = (record f { finished_fetches = [] }, f.finished_fetches)
