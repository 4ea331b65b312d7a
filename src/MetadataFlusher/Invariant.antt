-- ===== src/MetadataFlusher/Invariant.antt =====
-- src/block_device/bdev_lazy/metadata_flusher.rs: the flusher's invariant, and what a
-- failed update leaves of it.
use ubiblk.Prelude.{
  ℕ, ◌<◌, ◌≡◌, refl, sym, ◌∙◌, subst, Bool, some, List, ok, arith, length, get_elem?,
  get_elem?-total, length-set, set, All, lookup, remove, discard, if◌then◌else◌, ◌⊎◌, inl, inr,
  unwrap_ok, bit_and, ◌-◌, >>=_ok,
}
use ubiblk.BufferPool.{AlignedBufferPool, return_buffer}
use ubiblk.BufferPool.Lending.{return_buffer-TakesBack}
use ubiblk.IoChannel.{IoChannel}
use ubiblk.Metadata.{UbiMetadata}
use ubiblk.MetadataFlusher.{
  MetadataFlusher, MetadataFlusherRequest, HeaderUpdateStatus, RequestStage, writing, flushing,
  abandon, clear_bits,
}
use ubiblk.MetadataFlusher.Operations.{is_writing}
use ubiblk.MetadataFlusher.Books.{
  Updates, Sectors, Buffers, drop-Sectors, drop-Buffers, give_back-Buffers,
}

pub record InOrder {Channel : IoChannel} (done : List ℕ) (f : MetadataFlusher Channel)
    : Type 0 where
  pub sectors_ok :
      Sectors (length f.metadata.stripe_headers) done f.header_updates f.sectors_being_updated
  pub buffers_ok : Buffers f.header_updates f.buffer_pool
  pub queued_ok :
      All
        (λ (r : MetadataFlusherRequest). r.stripe_id < length f.metadata.stripe_headers)
        f.queued_requests
  pub fetch_sized : length f.shared_state.stripe_fetch_states ≡ length f.metadata.stripe_headers
  pub write_sized : length f.shared_state.stripe_write_states ≡ length f.metadata.stripe_headers

clear_bits_lem :
    (m : UbiMetadata) (id bitmask : ℕ)
    → id < length m.stripe_headers
    → (m' : UbiMetadata) × (clear_bits m id bitmask ≡ ok m')
      × (length m'.stripe_headers ≡ length m.stripe_headers)
unfolding clear_bits
clear_bits_lem m id bitmask h =
    let (header, e) = get_elem?-total m.stripe_headers id h in
    (
      record m { stripe_headers = set m.stripe_headers id (bit_and header (255 - bitmask)) },
      unwrap_ok (get_elem? m.stripe_headers id) _ header e,
      length-set m.stripe_headers id _,
    )

pub stage_cases : (stage : RequestStage) → (stage ≡ writing) ⊎ (stage ≡ flushing)
stage_cases writing = inl refl
stage_cases flushing = inr refl

-- The pool after an update is struck off.
dropped-Buffers :
    (updates : Updates) (pool : AlignedBufferPool) (id : ℕ) (st : HeaderUpdateStatus)
    → lookup id updates ≡ some st
    → Buffers updates pool
    → (q : AlignedBufferPool) × ((if is_writing st.stage
          then return_buffer pool st.buffer
          else ok pool)
        ≡ ok q)
      × Buffers (remove id updates) q
unfolding is_writing
dropped-Buffers updates pool id st here b = elim (stage_cases st.stage) [
  | inl w ↦
      let (q, e, t) = return_buffer-TakesBack pool st.buffer b.pool_ok (b.held id st here w) in
      (q, rw w e, give_back-Buffers updates pool q id st here w t b)
  | inr i ↦ (pool, rw i refl, drop-Buffers updates pool id st here i b)
]

module _ {Channel : IoChannel} where
  -- A failed update, whichever stage it is in, leaves the flusher in order; nothing panics.
  pub abandon-InOrder :
      (done : List ℕ) (f : MetadataFlusher Channel) (id : ℕ) (st : HeaderUpdateStatus)
      (give_back : Bool)
      → lookup id f.header_updates ≡ some st
      → give_back ≡ is_writing st.stage
      → InOrder done f
      → (f' : MetadataFlusher Channel) × (abandon
            (record f { header_updates = remove id f.header_updates })
            st
            give_back
          ≡ ok f')
        × InOrder done f'
        × (f'.header_updates ≡ remove id f.header_updates)
        × (length f'.metadata.stripe_headers ≡ length f.metadata.stripe_headers)
  unfolding abandon
  abandon-InOrder done f id st give_back here stage h =
      let (same, at, small) = h.sectors_ok.known id st here in
      let small' : st.stripe_id < length f.metadata.stripe_headers = omega (arith, same, small) in
      let (m, em, len) = clear_bits_lem f.metadata st.stripe_id st.requested_bitmask small' in
      let (q, eq, b) = dropped-Buffers f.header_updates f.buffer_pool id st here h.buffers_ok in
      let eq' : (if give_back then return_buffer f.buffer_pool st.buffer else ok f.buffer_pool)
          ≡ ok q =
        rw stage eq in
      (
        record f {
          metadata = m;
          buffer_pool = q;
          sectors_being_updated = discard st.sector f.sectors_being_updated;
          header_updates = remove id f.header_updates;
        },
        >>=_ok (clear_bits f.metadata st.stripe_id st.requested_bitmask) _ m em
            ∙ >>=_ok (if give_back then return_buffer f.buffer_pool st.buffer else ok f.buffer_pool)
                _ q eq',
        record {
          sectors_ok =
              subst
                (λ (n : ℕ).
                  Sectors n done (remove id f.header_updates)
                    (discard st.sector f.sectors_being_updated))
                (sym len)
                (drop-Sectors (length f.metadata.stripe_headers) done f.header_updates
                  f.sectors_being_updated id st here h.sectors_ok);
          buffers_ok = b;
          queued_ok =
              subst
                (λ (n : ℕ). All (λ (r : MetadataFlusherRequest). r.stripe_id < n) f.queued_requests)
                (sym len) h.queued_ok;
          fetch_sized = h.fetch_sized ∙ sym len;
          write_sized = h.write_sized ∙ sym len;
        },
        refl,
        len,
      )
