-- ===== src/MetadataFlusher/Polling.antt =====
-- src/block_device/bdev_lazy/metadata_flusher.rs: the invariant through the completions
-- of the metadata device.
use ubiblk.Prelude.{
  append-nil, ℕ, ◌<◌, ◌≡◌, ◌≢◌, refl, sym, ap, ◌∙◌, subst, Bool, true, false, some, List, [], ◌∷◌,
  ◌++◌, Result, ok, arith, length, All, lookup, insert, contains, discard, remove_inv, insert_inv,
  ◌⊎◌, inl, inr, >>=_ok,
}
use ubiblk.BufferPool.{return_buffer}
use ubiblk.BufferPool.Lending.{return_buffer-TakesBack}
use ubiblk.IoChannel.{IoChannel}
use ubiblk.MetadataFlusher.{MetadataFlusher, HeaderUpdateStatus, writing, flushing}
use ubiblk.MetadataFlusher.Operations.{is_writing, Finished, poll_status}
use ubiblk.MetadataFlusher.Invariant.{InOrder, abandon-InOrder, stage_cases}
use ubiblk.MetadataFlusher.Completions.{
  IsCalm, ids_of, done-Sectors, advanced, advance-Sectors, advance-Buffers,
}

pub no_member : (k : ℕ) → contains k [] ≢ true
unfolding contains
no_member k e = cc

only_member : (k x : ℕ) → contains k (x ∷ []) ≡ true → x ≡ k
unfolding contains
only_member k x e = ground arith

-- How many stripes there are.
abbrev pub stripes : {Channel : IoChannel} → MetadataFlusher Channel → ℕ
stripes f = length f.metadata.stripe_headers

-- What a completion of a stripe that has an update leads to, whatever it says: nothing panics, the
-- flusher stays in order, and what is to be flushed is in that stage.
pub record Polled {Channel : IoChannel} (f : MetadataFlusher Channel) (done : List ℕ)
    (r : Result (MetadataFlusher Channel × List Finished × List ℕ)) : Type 0 where
  pub next : MetadataFlusher Channel
  pub finished : List Finished
  pub flushed : List ℕ
  pub runs : r ≡ ok (next, finished, flushed)
  pub in_order : InOrder (done ++ ids_of finished) next
  pub stripes_kept : stripes next ≡ stripes f
  pub known : All (λ (p : Finished). p.0 < stripes f) finished
  pub stages_kept :
      (j : ℕ) (su : HeaderUpdateStatus)
      → lookup j next.header_updates ≡ some su
      → (su.stage ≡ flushing) ⊎ (lookup j f.header_updates ≡ some su)
  pub now_flushing :
      (j : ℕ) (su : HeaderUpdateStatus)
      → contains j flushed ≡ true
      → lookup j next.header_updates ≡ some su
      → su.stage ≡ flushing

module _ {Channel : IoChannel} (calm : IsCalm Channel) where
  failed-Polled :
      (done : List ℕ) (f : MetadataFlusher Channel) (id : ℕ) (st : HeaderUpdateStatus)
      → lookup id f.header_updates ≡ some st
      → InOrder done f
      → Polled f done (poll_status f id st false)
  unfolding poll_status
  failed-Polled done f id st here h =
      let (f', e, ordered, same, len) =
        abandon-InOrder done f id st (is_writing st.stage) here refl h in
      record {
        next = f';
        finished = [];
        flushed = [];
        runs = >>=_ok _ _ f' e;
        in_order = subst (λ (d : List ℕ). InOrder d f') (sym (append-nil done)) ordered;
        stripes_kept = len;
        known = tt;
        stages_kept =
            λ j su e. inr (remove_inv id j f.header_updates su (ap (lookup j) (sym same) ∙ e)).1;
        now_flushing = λ j su c e. absurd (no_member j c);
      }

  written-Polled :
      (done : List ℕ) (f : MetadataFlusher Channel) (id : ℕ) (st : HeaderUpdateStatus)
      → lookup id f.header_updates ≡ some st
      → st.stage ≡ writing
      → InOrder done f
      → Polled f done (poll_status f id st true)
  unfolding poll_status
  written-Polled done f id st here w h =
      let b = h.buffers_ok in
      let (q, eq, t) =
        return_buffer-TakesBack f.buffer_pool st.buffer b.pool_ok (b.held id st here w) in
      let (c, ec) = calm.flushes f.channel id in
      let f' : MetadataFlusher Channel = record f {
        buffer_pool = q;
        channel = c;
        header_updates = insert id (advanced st) f.header_updates;
      } in
      record {
        next = f';
        finished = [];
        flushed = id ∷ [];
        runs = rw w (
            >>=_ok (return_buffer f.buffer_pool st.buffer) _ q eq
            ∙ >>=_ok (Channel.add_flush f.channel id) _ c ec);
        in_order =
            subst (λ (d : List ℕ). InOrder d f') (sym (append-nil done))
              (record {
                sectors_ok =
                    advance-Sectors (stripes f) done f.header_updates f.sectors_being_updated id st
                      here h.sectors_ok;
                buffers_ok = advance-Buffers f.header_updates f.buffer_pool q id st here w t b;
                queued_ok = h.queued_ok;
                fetch_sized = h.fetch_sized;
                write_sized = h.write_sized;
              });
        stripes_kept = refl;
        known = tt;
        stages_kept = λ j su e. elim (insert_inv id j f.header_updates (advanced st) su e) [
          | inl (same, it) ↦ inl (cc it)
          | inr (ne, e') ↦ inr e'
        ];
        now_flushing = λ j su c e. elim (insert_inv id j f.header_updates (advanced st) su e) [
          | inl (same, it) ↦ cc it
          | inr (ne, e') ↦ absurd (ne (only_member j id c))
        ];
      }

  flushed-Polled :
      (done : List ℕ) (f : MetadataFlusher Channel) (id : ℕ) (st : HeaderUpdateStatus)
      → lookup id f.header_updates ≡ some st
      → st.stage ≡ flushing
      → InOrder done f
      → Polled f done (poll_status f id st true)
  unfolding poll_status
  flushed-Polled done f id st here w h =
      let (same, at, small) = h.sectors_ok.known id st here in
      let f' : MetadataFlusher Channel = record f {
        sectors_being_updated = discard st.sector f.sectors_being_updated;
      } in
      record {
        next = f';
        finished = (st.stripe_id, st.header) ∷ [];
        flushed = [];
        runs = rw w refl;
        in_order =
            subst (λ (i : ℕ). InOrder (done ++ i ∷ []) f') (sym same)
              (record {
                sectors_ok =
                    done-Sectors (stripes f) done f.header_updates f.sectors_being_updated id st
                      here w h.sectors_ok;
                buffers_ok = h.buffers_ok;
                queued_ok = h.queued_ok;
                fetch_sized = h.fetch_sized;
                write_sized = h.write_sized;
              });
        stripes_kept = refl;
        known = (omega (arith, same, small), tt);
        stages_kept = λ j su e. inr e;
        now_flushing = λ j su c e. absurd (no_member j c);
      }

  pub poll_status-Polled :
      (done : List ℕ) (f : MetadataFlusher Channel) (id : ℕ) (st : HeaderUpdateStatus)
      (success : Bool)
      → lookup id f.header_updates ≡ some st
      → InOrder done f
      → Polled f done (poll_status f id st success)
  poll_status-Polled done f id st false here h = failed-Polled done f id st here h
  poll_status-Polled done f id st true here h = elim (stage_cases st.stage) [
    | inl w ↦ written-Polled done f id st here w h
    | inr w ↦ flushed-Polled done f id st here w h
  ]
