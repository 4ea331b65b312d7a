-- ===== src/SharedState/Sizes.antt =====
-- src/block_device/bdev_lazy/metadata/shared_state.rs: in range, no setter panics, and none changes
-- the number of stripes.
use ubiblk.Prelude.{
  ℕ, ◌<◌, ◌≡◌, refl, ◌∙◌, Bool, true, false, Result, ok, ◌>>=◌, >>=_ok, unwrap_ok, length,
  get_elem?, set, length-set, get_elem?-total, if◌then◌else◌, ◌%◌, ◌^◌, ◌+◌, ◌==◌, not, ◌&&◌, arith,
}
use ubiblk.Metadata.{has_flag, fetched_flag, written_flag}
use ubiblk.SharedState.{
  SharedMetadataState, set_stripe_header, set_stripe_failed, mark_fetched, mark_written,
  stripe_fetched_if_needed, stripe_fetch_state,
}

-- The operation answers with a state of as many stripes.
pub record Sets (s : SharedMetadataState) (r : Result SharedMetadataState) : Type 0 where
  pub next : SharedMetadataState
  pub runs : r ≡ ok next
  pub fetch_size : length next.stripe_fetch_states ≡ length s.stripe_fetch_states
  pub write_size : length next.stripe_write_states ≡ length s.stripe_write_states

pub set_stripe_failed-Sets :
    (s : SharedMetadataState) (id : ℕ)
    → id < length s.stripe_fetch_states
    → Sets s (set_stripe_failed s id)
unfolding set_stripe_failed
set_stripe_failed-Sets s id h =
    let (x, e) = get_elem?-total s.stripe_fetch_states id h in
    record {
      next = record s { stripe_fetch_states = set s.stripe_fetch_states id 2 };
      runs = unwrap_ok (get_elem? s.stripe_fetch_states id) _ x e;
      fetch_size = length-set s.stripe_fetch_states id 2;
      write_size = refl;
    }

mark_fetched-Sets :
    (s : SharedMetadataState) (id : ℕ)
    → id < length s.stripe_fetch_states
    → Sets s (mark_fetched s id)
unfolding mark_fetched
mark_fetched-Sets s id h =
    let (x, e) = get_elem?-total s.stripe_fetch_states id h in
    record {
      next = record s {
        stripe_fetch_states = set s.stripe_fetch_states id 1;
        fetched_stripes_count =
            if not (x == 1) && not (x == 3)
            then (s.fetched_stripes_count + 1) % 2 ^ 64
            else s.fetched_stripes_count;
      };
      runs = unwrap_ok (get_elem? s.stripe_fetch_states id) _ x e;
      fetch_size = length-set s.stripe_fetch_states id 1;
      write_size = refl;
    }

mark_written-Sets :
    (s : SharedMetadataState) (id : ℕ)
    → id < length s.stripe_write_states
    → Sets s (mark_written s id)
unfolding mark_written
mark_written-Sets s id h =
    let (x, e) = get_elem?-total s.stripe_write_states id h in
    record {
      next = record s { stripe_write_states = set s.stripe_write_states id 1 };
      runs = unwrap_ok (get_elem? s.stripe_write_states id) _ x e;
      fetch_size = refl;
      write_size = length-set s.stripe_write_states id 1;
    }

flags-Sets :
    (s : SharedMetadataState) (id : ℕ) (f w : Bool)
    → id < length s.stripe_fetch_states
    → id < length s.stripe_write_states
    → Sets s (
        (if f then mark_fetched s id else ok s) >>= λ marked.
        if w then mark_written marked id else ok marked)
flags-Sets s id f w hf hw =
    let a = first f in
    let b = second a.next w (omega (arith, a.write_size)) in
    record {
      next = b.next;
      runs = >>=_ok (if f then mark_fetched s id else ok s) _ a.next a.runs ∙ b.runs;
      fetch_size = b.fetch_size ∙ a.fetch_size;
      write_size = b.write_size ∙ a.write_size;
    }
  where
    unchanged : (t : SharedMetadataState) → Sets t (ok t)
    unchanged t = record { next = t; runs = refl; fetch_size = refl; write_size = refl }

    first : (f : Bool) → Sets s (if f then mark_fetched s id else ok s)
    first true = mark_fetched-Sets s id hf
    first false = unchanged s

    second :
        (t : SharedMetadataState) (w : Bool)
        → id < length t.stripe_write_states
        → Sets t (if w then mark_written t id else ok t)
    second t true h = mark_written-Sets t id h
    second t false h = unchanged t

pub set_stripe_header-Sets :
    (s : SharedMetadataState) (id header : ℕ)
    → id < length s.stripe_fetch_states
    → id < length s.stripe_write_states
    → Sets s (set_stripe_header s id header)
unfolding set_stripe_header
set_stripe_header-Sets s id header hf hw =
    flags-Sets s id (has_flag header fetched_flag) (has_flag header written_flag) hf hw

-- In range, asking for a stripe does not panic.
pub stripe_fetched_if_needed-total :
    (s : SharedMetadataState) (id : ℕ)
    → id < length s.stripe_fetch_states
    → (b : Bool) × (stripe_fetched_if_needed s id ≡ ok b)
unfolding stripe_fetched_if_needed stripe_fetch_state
stripe_fetched_if_needed-total s id h =
    let (x, e) = get_elem?-total s.stripe_fetch_states id h in
    (_, unwrap_ok (get_elem? s.stripe_fetch_states id) _ x e)
