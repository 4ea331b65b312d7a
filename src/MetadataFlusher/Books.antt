-- ===== src/MetadataFlusher/Books.antt =====
-- src/block_device/bdev_lazy/metadata_flusher.rs: the flusher's books: who updates which sector, and
-- who holds which buffer.
use ubiblk.Prelude.{
  ℕ, ◌+◌, ◌/◌, ◌<◌, ◌≡◌, ◌≢◌, sym, ap, ◌∙◌, true, false, some, List, get_elem?, lookup, remove,
  contains, discard, remove_inv, remove_other, discard_inv, discard_other,
}
use ubiblk.BufferPool.{SharedBuffer, AlignedBufferPool}
use ubiblk.BufferPool.Laws.{IsValid, IsLent}
use ubiblk.BufferPool.Lending.{InUse, TakesBack}
use ubiblk.MetadataFlusher.{HeaderUpdateStatus, writing, flushing}

abbrev pub Updates : Type 0
Updates = List (ℕ × HeaderUpdateStatus)

-- The updates in flight and the sectors marked as being updated; `done` are the stripes whose
-- updates are on the device and only have to be struck off.
pub record Sectors (stripes : ℕ) (done : List ℕ) (updates : Updates) (sectors : List ℕ)
    : Type 0 where
  pub known :
      (id : ℕ) (st : HeaderUpdateStatus)
      → lookup id updates ≡ some st
      → (st.stripe_id ≡ id) × (st.sector ≡ id / 508 + 1) × (id < stripes)
  pub marked :
      (id : ℕ) (st : HeaderUpdateStatus)
      → lookup id updates ≡ some st
      → contains id done ≡ false
      → contains st.sector sectors ≡ true
  pub owned :
      (sector : ℕ)
      → contains sector sectors ≡ true
      → (id : ℕ) × (st : HeaderUpdateStatus) × (lookup id updates ≡ some st)
        × (st.sector ≡ sector)
        × (contains id done ≡ false)
  pub apart :
      (i j : ℕ) (st su : HeaderUpdateStatus)
      → lookup i updates ≡ some st
      → lookup j updates ≡ some su
      → st.sector ≡ su.sector
      → i ≡ j
  pub flushed :
      (id : ℕ) (st : HeaderUpdateStatus)
      → contains id done ≡ true
      → lookup id updates ≡ some st
      → st.stage ≡ flushing

-- The buffers lent out are those of the updates being written, one each.
pub record Buffers (updates : Updates) (pool : AlignedBufferPool) : Type 0 where
  pub pool_ok : IsValid pool
  pub big : (i : ℕ) (b : SharedBuffer) → get_elem? pool.buffers i ≡ some b → b.len ≡ 512
  pub held :
      (id : ℕ) (st : HeaderUpdateStatus)
      → lookup id updates ≡ some st
      → st.stage ≡ writing
      → IsLent pool st.buffer
  pub own :
      (i j : ℕ) (st su : HeaderUpdateStatus)
      → lookup i updates ≡ some st
      → lookup j updates ≡ some su
      → st.stage ≡ writing
      → su.stage ≡ writing
      → st.buffer.id ≡ su.buffer.id
      → i ≡ j
  pub no_leak :
      (k : ℕ)
      → InUse pool k
      → (id : ℕ) × (st : HeaderUpdateStatus) × (lookup id updates ≡ some st)
        × (st.stage ≡ writing)
        × (st.buffer.id ≡ k)

-- An update is struck off, with its sector.
pub drop-Sectors :
    (stripes : ℕ) (done : List ℕ) (updates : Updates) (sectors : List ℕ) (id : ℕ)
    (st : HeaderUpdateStatus)
    → lookup id updates ≡ some st
    → Sectors stripes done updates sectors
    → Sectors stripes done (remove id updates) (discard st.sector sectors)
drop-Sectors stripes done updates sectors id st here s = record {
  known = λ j su e. s.known j su (remove_inv id j updates su e).1;
  marked = λ j su e fresh.
      let (ne, e') = remove_inv id j updates su e in
      discard_other st.sector su.sector sectors (λ same. ne (s.apart id j st su here e' same))
        (s.marked j su e' fresh);
  owned = λ sector h.
      let (ne, h') = discard_inv st.sector sector sectors h in
      let (j, su, e, at, fresh) = s.owned sector h' in
      (j, su, remove_other id j updates su (λ same. ne (of_same j su e same ∙ at)) e, at, fresh);
  apart = λ i j su sv e e'.
      s.apart i j su sv (remove_inv id i updates su e).1 (remove_inv id j updates sv e').1;
  flushed = λ j su d e. s.flushed j su d (remove_inv id j updates su e).1;
}
  where
    of_same :
        (j : ℕ) (su : HeaderUpdateStatus)
        → lookup j updates ≡ some su
        → id ≡ j
        → st.sector ≡ su.sector
    of_same j su e same = cc

-- An update that holds no buffer is struck off.
pub drop-Buffers :
    (updates : Updates) (pool : AlignedBufferPool) (id : ℕ) (st : HeaderUpdateStatus)
    → lookup id updates ≡ some st
    → st.stage ≡ flushing
    → Buffers updates pool
    → Buffers (remove id updates) pool
drop-Buffers updates pool id st here idle b = record {
  pool_ok = b.pool_ok;
  big = b.big;
  held = λ j su e. b.held j su (remove_inv id j updates su e).1;
  own = λ i j su sv e e'.
      b.own i j su sv (remove_inv id i updates su e).1 (remove_inv id j updates sv e').1;
  no_leak = λ k used.
      let (j, su, e, w, at) = b.no_leak k used in
      (j, su, remove_other id j updates su (busy j su e w) e, w, at);
}
  where
    busy :
        (j : ℕ) (su : HeaderUpdateStatus) → lookup j updates ≡ some su → su.stage ≡ writing → id ≢ j
    busy j su e w = λ same. cc

-- An update gives back its buffer, and is struck off.
pub give_back-Buffers :
    (updates : Updates) (p q : AlignedBufferPool) (id : ℕ) (st : HeaderUpdateStatus)
    → lookup id updates ≡ some st
    → st.stage ≡ writing
    → TakesBack p q st.buffer
    → Buffers updates p
    → Buffers (remove id updates) q
give_back-Buffers updates p q id st here w t b = record {
  pool_ok = t.valid;
  big =
      λ i x e. b.big i x (ap (λ (bs : List SharedBuffer). get_elem? bs i) (sym t.same_buffers) ∙ e);
  held = λ j su e w'.
      let (ne, e') = remove_inv id j updates su e in
      t.keeps su.buffer (b.held j su e' w') (λ same. ne (b.own id j st su here e' w w' (sym same)));
  own = λ i j su sv e e'.
      b.own i j su sv (remove_inv id i updates su e).1 (remove_inv id j updates sv e').1;
  no_leak = λ k used.
      let (used', ne) = t.only k used in
      let (j, su, e, w', at) = b.no_leak k used' in
      (j, su, remove_other id j updates su (λ same. ne (sym at ∙ of_same j su e same)) e, w', at);
}
  where
    of_same :
        (j : ℕ) (su : HeaderUpdateStatus)
        → lookup j updates ≡ some su
        → id ≡ j
        → su.buffer.id ≡ st.buffer.id
    of_same j su e same = cc
