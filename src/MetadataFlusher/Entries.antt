-- ===== src/MetadataFlusher/Entries.antt =====
-- src/block_device/bdev_lazy/metadata_flusher.rs: what a new update does to the books.
use ubiblk.Prelude.{
  bit_or, min, slice, leb, le→leb, assert_ok, length-take, drop, ◌*◌, ℕ, ◌+◌, ◌/◌, ◌≤◌, ◌<◌, ◌≡◌,
  ◌≢◌, refl, sym, ap, ◌∙◌, subst, false, some, List, [], ok, arith, length, get_elem?,
  get_elem?-total, length-set, set, lookup, insert, contains, add_to_set, same_or_not, insert_inv,
  insert_self, insert_other, contains-add_to_set, inl, inr, unwrap_ok, ◌-◌,
}
use ubiblk.BufferPool.{SharedBuffer, AlignedBufferPool}
use ubiblk.BufferPool.Laws.{IsLent}
use ubiblk.BufferPool.Lending.{Lends}
use ubiblk.Metadata.{UbiMetadata}
use ubiblk.MetadataFlusher.{HeaderUpdateStatus, writing, set_bits, headers_of_group}
use ubiblk.MetadataFlusher.Polling.{no_member}
use ubiblk.MetadataFlusher.Books.{Updates, Sectors, Buffers}

pub set_bits_lem :
    (m : UbiMetadata) (id bitmask : ℕ)
    → id < length m.stripe_headers
    → (m' : UbiMetadata) × (set_bits m id bitmask ≡ ok m')
      × (length m'.stripe_headers ≡ length m.stripe_headers)
unfolding set_bits
set_bits_lem m id bitmask h =
    let (header, e) = get_elem?-total m.stripe_headers id h in
    (
      record m { stripe_headers = set m.stripe_headers id (bit_or header bitmask) },
      unwrap_ok (get_elem? m.stripe_headers id) _ header e,
      length-set m.stripe_headers id _,
    )

-- The headers of a group fit into a sector.
pub headers_of_group_lem :
    (m : UbiMetadata) (id : ℕ)
    → id < length m.stripe_headers
    → (headers : List ℕ) × (headers_of_group m (id / 508) ≡ ok headers) × (length headers ≤ 508)
unfolding headers_of_group
headers_of_group_lem m id h =
    let start = id / 508 * 508 in
    let end = min (start + 508) (length m.stripe_headers) in
    (
      slice m.stripe_headers start (end - start),
      assert_ok (leb start end) _ (le→leb _ _ (omega arith)),
      omega (arith, length-take (end - start) (drop start m.stripe_headers)),
    )

-- A new update, for a sector that nobody updates.
pub start-Sectors :
    (n id : ℕ) (updates : Updates) (sectors : List ℕ) (st : HeaderUpdateStatus)
    → st.stripe_id ≡ id
    → st.sector ≡ id / 508 + 1
    → id < n
    → contains st.sector sectors ≡ false
    → Sectors n [] updates sectors
    → Sectors n [] (insert id st updates) (add_to_set st.sector sectors)
start-Sectors n id updates sectors st same at small fresh s = record {
  known = λ j su e. elim (insert_inv id j updates st su e) [
    | inl (k, it) ↦ (
      ap (λ (x : HeaderUpdateStatus). x.stripe_id) (sym it) ∙ same ∙ k,
      ap (λ (x : HeaderUpdateStatus). x.sector) (sym it) ∙ at ∙ ap (λ (x : ℕ). x / 508 + 1) k,
      omega (arith, k, small),
    )
    | inr (ne, e') ↦ s.known j su e'
  ];
  marked = λ j su e d. elim (insert_inv id j updates st su e) [
    | inl (k, it) ↦ ground (
      arith,
      contains-add_to_set st.sector su.sector sectors,
      ap (λ (x : HeaderUpdateStatus). x.sector) it,
    )
    | inr (ne, e') ↦
        ground (arith, contains-add_to_set st.sector su.sector sectors, s.marked j su e' d)
  ];
  owned = λ sec h. elim (same_or_not st.sector sec) [
    | inl here ↦ (id, st, insert_self id updates st, here, none_done id)
    | inr ne ↦
        let (j, su, e, at', d) =
          s.owned sec (ground (arith, contains-add_to_set st.sector sec sectors)) in
        (j, su, insert_other id j updates st su (unlike j su e) e, at', d)
  ];
  apart = λ i j su sv e e' eq. elim (insert_inv id i updates st su e) [
    | inl (k, it) ↦ elim (insert_inv id j updates st sv e') [
      | inl (k', it') ↦ sym k ∙ k'
      | inr (ne', f') ↦ absurd (away j sv f' (ap (λ (x : HeaderUpdateStatus). x.sector) it ∙ eq))
    ]
    | inr (ne, f) ↦ elim (insert_inv id j updates st sv e') [
      | inl (k', it') ↦
          absurd (away i su f (ap (λ (x : HeaderUpdateStatus). x.sector) it' ∙ sym eq))
      | inr (ne', f') ↦ s.apart i j su sv f f' eq
    ]
  ];
  flushed = λ j su d e. absurd (no_member j d);
}
  where
    none_done : (j : ℕ) → contains j [] ≡ false
    none_done j = unfold contains in refl

    away : (j : ℕ) (su : HeaderUpdateStatus) → lookup j updates ≡ some su → st.sector ≢ su.sector
    away j su e eq =
        cc (fresh, ap (λ (x : ℕ). contains x sectors) eq, s.marked j su e (none_done j))

    unlike : (j : ℕ) (su : HeaderUpdateStatus) → lookup j updates ≡ some su → id ≢ j
    unlike j su e eq =
        let (_, at', _) = s.known j su e in
        away j su e (at ∙ ap (λ (x : ℕ). x / 508 + 1) eq ∙ sym at')

pub start-Buffers :
    (id : ℕ) (updates : Updates) (p q : AlignedBufferPool) (st : HeaderUpdateStatus)
    → st.stage ≡ writing
    → ((su : HeaderUpdateStatus) → lookup id updates ≢ some su)
    → Lends p q st.buffer
    → Buffers updates p
    → Buffers (insert id st updates) q
start-Buffers id updates p q st w none_here l b = record {
  pool_ok = l.valid;
  big =
      λ i x e. b.big i x (ap (λ (bs : List SharedBuffer). get_elem? bs i) (sym l.same_buffers) ∙ e);
  held = λ j su e w'. elim (insert_inv id j updates st su e) [
    | inl (k, it) ↦ subst (λ (x : HeaderUpdateStatus). IsLent q x.buffer) it l.lent
    | inr (ne, e') ↦ l.keeps su.buffer (b.held j su e' w')
  ];
  own = λ i j su sv e e' wu wv eq. elim (insert_inv id i updates st su e) [
    | inl (k, it) ↦ elim (insert_inv id j updates st sv e') [
      | inl (k', it') ↦ sym k ∙ k'
      | inr (ne', f') ↦ absurd (l.differs sv.buffer (b.held j sv f' wv) (sym (id_of su it ∙ eq)))
    ]
    | inr (ne, f) ↦ elim (insert_inv id j updates st sv e') [
      | inl (k', it') ↦ absurd (l.differs su.buffer (b.held i su f wu) (eq ∙ sym (id_of sv it')))
      | inr (ne', f') ↦ b.own i j su sv f f' wu wv eq
    ]
  ];
  no_leak = λ k used. elim (l.only k used) [
    | inl here ↦ (id, st, insert_self id updates st, w, sym here)
    | inr used' ↦
        let (j, su, e, w', at) = b.no_leak k used' in
        (
          j,
          su,
          insert_other id j updates st su
              (λ same. none_here su (ap (λ (i : ℕ). lookup i updates) same ∙ e)) e,
          w',
          at,
        )
  ];
}
  where
    id_of : (su : HeaderUpdateStatus) → st ≡ su → st.buffer.id ≡ su.buffer.id
    id_of su it = ap (λ (x : HeaderUpdateStatus). x.buffer.id) it
