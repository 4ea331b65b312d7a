-- ===== src/MetadataFlusher/Starting.antt =====
-- src/block_device/bdev_lazy/metadata_flusher.rs: one round of `start_writes` that
-- starts a write.
use ubiblk.Prelude.{
  replicate, length-replicate, ℕ, ◌+◌, ◌/◌, ◌<◌, ◌≡◌, ◌≢◌, refl, sym, ap, ◌∙◌, subst, true, false,
  some, List, [], Result, arith, get_elem?, get_elem?-total, All, lookup, insert, contains,
  add_to_set, insert_inv, ◌⊎◌, inl, inr, unwrap_ok, >>=_ok,
}
use ubiblk.BufferPool.{get_buffer, has_available, SharedBuffer}
use ubiblk.BufferPool.Lending.{get_buffer-Lends}
use ubiblk.IoChannel.{IoChannel}
use ubiblk.Metadata.{stripe_id_to_sector, stripe_id_to_group}
use ubiblk.Metadata.Codec.{write_sector_with_crc32}
use ubiblk.Metadata.Codec.Sectors.{sector, write_sector_lem}
use ubiblk.MetadataFlusher.{
  MetadataFlusher, MetadataFlusherRequest, HeaderUpdateStatus, writing, set_bits, headers_of_group,
  bitmask_of,
}
use ubiblk.MetadataFlusher.Operations.{start_write}
use ubiblk.MetadataFlusher.Invariant.{InOrder}
use ubiblk.MetadataFlusher.Completions.{IsCalm}
use ubiblk.MetadataFlusher.Entries.{
  set_bits_lem, headers_of_group_lem, start-Sectors, start-Buffers,
}
use ubiblk.MetadataFlusher.Cleanup.{Kept}
use ubiblk.MetadataFlusher.Polling.{stripes}
use ubiblk.MetadataFlusher.Books.{Sectors}

-- The flusher is in order, and only the request's stripe has a new update, to be written.
pub record Started {Channel : IoChannel} (f : MetadataFlusher Channel) (id : ℕ)
    (r : Result (MetadataFlusher Channel)) : Type 0 where
  pub kept : Kept f r
  pub queue_kept : kept.next.queued_requests ≡ f.queued_requests
  pub grown :
      (j : ℕ) (su : HeaderUpdateStatus)
      → lookup j kept.next.header_updates ≡ some su
      → ((id ≡ j) × (su.stage ≡ writing)) ⊎ ((id ≢ j) × (lookup j f.header_updates ≡ some su))

module _ {Channel : IoChannel} (calm : IsCalm Channel) (crc32 : List ℕ → ℕ) where
  -- A request whose bit is not set yet, for a sector that is free.
  pub start_write-Started :
      (f : MetadataFlusher Channel) (req : MetadataFlusherRequest)
      → has_available f.buffer_pool ≡ true
      → contains (req.stripe_id / 508 + 1) f.sectors_being_updated ≡ false
      → req.stripe_id < stripes f
      → InOrder [] f
      → Started f req.stripe_id (start_write crc32 f req)
  unfolding start_write stripe_id_to_sector stripe_id_to_group
  start_write-Started f req available free small h =
      let (buf, q, eb, lends) = get_buffer-Lends f.buffer_pool h.buffers_ok.pool_ok available in
      let (m, em, len) = set_bits_lem f.metadata req.stripe_id (bitmask_of req.kind) small in
      let (headers, eh, fits) = headers_of_group_lem m req.stripe_id (omega (arith, len, small)) in
      let full : buf.len ≡ 512 = h.buffers_ok.big buf.id buf (
        ap (λ (bs : List SharedBuffer). get_elem? bs buf.id) (sym lends.same_buffers)
        ∙ lends.lent.0) in
      let ew =
        write_sector_lem crc32 (replicate buf.len 0) headers
          (length-replicate {A = ℕ} buf.len 0 ∙ full) fits in
      let (c, ec) = calm.writes f.channel (req.stripe_id / 508 + 1) 1 buf req.stripe_id in
      let (header, ex) =
        get_elem?-total m.stripe_headers req.stripe_id (omega (arith, len, small)) in
      let st : HeaderUpdateStatus = record {
        buffer = buf;
        stage = writing;
        stripe_id = req.stripe_id;
        header = header;
        requested_bitmask = bitmask_of req.kind;
        sector = req.stripe_id / 508 + 1;
      } in
      record {
        kept = record {
          next = record f {
            channel = c;
            metadata = m;
            buffer_pool = q;
            memory = insert buf.ptr (sector crc32 headers) f.memory;
            sectors_being_updated = add_to_set st.sector f.sectors_being_updated;
            header_updates = insert req.stripe_id st f.header_updates;
          };
          runs =
              >>=_ok (get_buffer f.buffer_pool) _ _ eb
              ∙ >>=_ok (set_bits f.metadata req.stripe_id (bitmask_of req.kind)) _ m em
              ∙ >>=_ok (headers_of_group m (req.stripe_id / 508)) _ headers eh
              ∙ >>=_ok (write_sector_with_crc32 crc32 (replicate buf.len 0) headers) _ _ ew
              ∙ >>=_ok (Channel.add_write f.channel (req.stripe_id / 508 + 1) 1 buf req.stripe_id) _
                  c ec
              ∙ unwrap_ok (get_elem? m.stripe_headers req.stripe_id) _ header ex;
          in_order = record {
            sectors_ok =
                subst
                  (λ (n : ℕ).
                    Sectors n [] (insert req.stripe_id st f.header_updates)
                      (add_to_set st.sector f.sectors_being_updated))
                  (sym len)
                  (start-Sectors (stripes f) req.stripe_id f.header_updates f.sectors_being_updated
                    st refl refl small free h.sectors_ok);
            buffers_ok =
                start-Buffers req.stripe_id f.header_updates f.buffer_pool q st refl
                  (unused f req.stripe_id free h.sectors_ok) lends h.buffers_ok;
            queued_ok =
                subst
                  (λ (n : ℕ).
                    All (λ (r : MetadataFlusherRequest). r.stripe_id < n) f.queued_requests)
                  (sym len) h.queued_ok;
            fetch_sized = h.fetch_sized ∙ sym len;
            write_sized = h.write_sized ∙ sym len;
          };
          stripes_kept = len;
        };
        queue_kept = refl;
        grown = λ j su e. elim (insert_inv req.stripe_id j f.header_updates st su e) [
          | inl (same, it) ↦ inl (same, ap (λ (x : HeaderUpdateStatus). x.stage) (sym it))
          | inr both ↦ inr both
        ];
      }
    where
      unused :
          (f : MetadataFlusher Channel) (id : ℕ)
          → contains (id / 508 + 1) f.sectors_being_updated ≡ false
          → Sectors (stripes f) [] f.header_updates f.sectors_being_updated
          → (su : HeaderUpdateStatus) → lookup id f.header_updates ≢ some su
      unused f id free s su e =
          let (_, at, _) = s.known id su e in
          cc (
            free,
            ap (λ (x : ℕ). contains x f.sectors_being_updated) at,
            s.marked id su e (unfold contains in refl),
          )
