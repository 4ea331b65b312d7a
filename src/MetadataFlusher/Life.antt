-- ===== src/MetadataFlusher/Life.antt =====
-- src/block_device/bdev_lazy/metadata_flusher.rs: a flusher from its creation on.
use ubiblk.Prelude.{
  ltb, fail_if_inv, ok_eq, ℕ, ◌<◌, ◌≡◌, ◌≢◌, sym, ◌∙◌, subst, some, List, [], ◌∷◌, ◌++◌, ok, length,
  lookup, contains, All-append,
}
use ubiblk.BufferPool.Laws.{new-IsValid}
use ubiblk.BufferPool.Lending.{new_buffers_len, new_unused}
use ubiblk.IoChannel.{IoChannel}
use ubiblk.Metadata.{div_ceil, stripe_sector_count, stripe_count, UbiMetadata}
use ubiblk.SharedState.{SharedMetadataState}
use ubiblk.MetadataFlusher.{
  MetadataFlusher, MetadataFlusherRequest, new, set_stripe_fetched, set_stripe_written, set_fetched,
  set_written,
}
use ubiblk.MetadataFlusher.Operations.{update}
use ubiblk.MetadataFlusher.Invariant.{InOrder}
use ubiblk.MetadataFlusher.Completions.{IsCalm}
use ubiblk.MetadataFlusher.Updating.{update-Kept}
use ubiblk.MetadataFlusher.Polling.{stripes}

no_update {ℓ} : {V : Type ℓ} (k : ℕ) (v : V) → lookup k [] ≢ some v
unfolding lookup
no_update k v e = cc

module _ {Channel : IoChannel} where
  -- The calls that the background worker makes, for stripes of the device.
  pub data Step (crc32 : List ℕ → ℕ) (f f' : MetadataFlusher Channel) : Type 0 where
    fetched : (id : ℕ) → id < stripes f → set_stripe_fetched f id ≡ f' → Step crc32 f f'
    written : (id : ℕ) → id < stripes f → set_stripe_written f id ≡ f' → Step crc32 f f'
    updated : update crc32 f ≡ ok f' → Step crc32 f f'

  pub data Reach (crc32 : List ℕ → ℕ) (f : MetadataFlusher Channel)
      : MetadataFlusher Channel → Type 0 where
    here : Reach crc32 f f
    further : {g h : MetadataFlusher Channel} → Reach crc32 f g → Step crc32 g h → Reach crc32 f h

  -- A new flusher, whose shared state has as many stripes as the metadata, is in order.
  new-InOrder :
      (c : Channel.State) (m : UbiMetadata) (source_sector_count : ℕ) (s : SharedMetadataState)
      (ptr : ℕ) (f : MetadataFlusher Channel)
      → length s.stripe_fetch_states ≡ length m.stripe_headers
      → length s.stripe_write_states ≡ length m.stripe_headers
      → new c m source_sector_count s ptr ≡ ok f
      → InOrder [] f
  unfolding new contains
  new-InOrder c m count s ptr f hf hw e =
      let (_, made) =
        fail_if_inv (ltb (stripe_count m) (div_ceil count (stripe_sector_count m))) _ _ e in
      subst (InOrder []) (ok_eq made) (record {
        sectors_ok = record {
          known = λ id st e. absurd (no_update id st e);
          marked = λ id st e. absurd (no_update id st e);
          owned = λ sector h. cc h;
          apart = λ i j st su e. absurd (no_update i st e);
          flushed = λ id st d e. absurd (no_update id st e);
        };
        buffers_ok = record {
          pool_ok = new-IsValid ptr 16 512;
          big = new_buffers_len ptr;
          held = λ id st e. absurd (no_update id st e);
          own = λ i j st su e. absurd (no_update i st e);
          no_leak = λ k used. absurd (new_unused ptr k used);
        };
        queued_ok = tt;
        fetch_sized = hf;
        write_sized = hw;
      })

  module _ (calm : IsCalm Channel) (crc32 : List ℕ → ℕ) where
    push-InOrder :
        (f : MetadataFlusher Channel) (r : MetadataFlusherRequest)
        → r.stripe_id < stripes f
        → InOrder [] f
        → InOrder [] (record f { queued_requests = f.queued_requests ++ r ∷ [] })
    push-InOrder f r small h = record {
      sectors_ok = h.sectors_ok;
      buffers_ok = h.buffers_ok;
      queued_ok =
          All-append (λ (q : MetadataFlusherRequest). q.stripe_id < stripes f) f.queued_requests
            (r ∷ []) h.queued_ok (small, tt);
      fetch_sized = h.fetch_sized;
      write_sized = h.write_sized;
    }

    Step-InOrder : {f f' : MetadataFlusher Channel} → Step crc32 f f' → InOrder [] f → InOrder [] f'
    unfolding set_stripe_fetched set_stripe_written
    Step-InOrder {f} {f'} (fetched id small e) h =
        subst (InOrder []) e
          (push-InOrder f (record { stripe_id = id; kind = set_fetched }) small h)
    Step-InOrder {f} {f'} (written id small e) h =
        subst (InOrder []) e
          (push-InOrder f (record { stripe_id = id; kind = set_written }) small h)
    Step-InOrder {f} {f'} (updated e) h =
        let k = update-Kept calm crc32 f h in subst (InOrder []) (ok_eq (sym k.runs ∙ e)) k.in_order

    Reach-InOrder : {f g : MetadataFlusher Channel} → Reach crc32 f g → InOrder [] f → InOrder [] g
    Reach-InOrder here h = h
    Reach-InOrder (further r st) h = Step-InOrder st (Reach-InOrder r h)

-- A new flusher over a channel whose calls do not panic, after any requests for stripes of the
-- device and any updates, whatever the device reports: it is in order, and the next update
-- does not panic.
pub flusher_runs :
    {Channel : IoChannel} (calm : IsCalm Channel) (crc32 : List ℕ → ℕ) (c : Channel.State)
    (m : UbiMetadata) (source_sector_count : ℕ) (s : SharedMetadataState) (ptr : ℕ)
    (f g : MetadataFlusher Channel)
    → length s.stripe_fetch_states ≡ length m.stripe_headers
    → length s.stripe_write_states ≡ length m.stripe_headers
    → new c m source_sector_count s ptr ≡ ok f
    → Reach crc32 f g
    → InOrder [] g × (h : MetadataFlusher Channel) × (update crc32 g ≡ ok h)
flusher_runs calm crc32 c m count s ptr f g hf hw made r =
    let ordered = Reach-InOrder calm crc32 r (new-InOrder c m count s ptr f hf hw made) in
    let k = update-Kept calm crc32 g ordered in (ordered, k.next, k.runs)
