-- ===== src/MetadataFlusher/Completions.antt =====
-- src/block_device/bdev_lazy/metadata_flusher.rs: what a completion of the metadata
-- device does to the books.
use ubiblk.Prelude.{
  ℕ, ◌≡◌, ◌≢◌, refl, sym, ap, ◌∙◌, subst, true, false, some, List, [], ◌∷◌, ◌++◌, ok, panic, arith,
  get_elem?, lookup, insert, contains, discard, discard_inv, discard_other, same_or_not, insert_inv,
  insert_self, insert_other, ◌==◌, ◌||◌, ◌⊎◌, inl, inr,
}
use ubiblk.BufferPool.{SharedBuffer, AlignedBufferPool}
use ubiblk.BufferPool.Lending.{TakesBack}
use ubiblk.IoChannel.{IoChannel, Completion}
use ubiblk.MetadataFlusher.{HeaderUpdateStatus, writing, flushing}
use ubiblk.MetadataFlusher.Operations.{Finished}
use ubiblk.MetadataFlusher.Books.{Updates, Sectors, Buffers}

-- What the code relies on of a channel: no call panics. Whether a request succeeds is open.
pub record IsCalm (Channel : IoChannel) : Type 0 where
  pub writes :
      (c : Channel.State) (off count : ℕ) (buf : SharedBuffer) (id : ℕ)
      → (c' : Channel.State) × (Channel.add_write c off count buf id ≡ ok c')
  pub flushes :
      (c : Channel.State) (id : ℕ) → (c' : Channel.State) × (Channel.add_flush c id ≡ ok c')
  pub submits : (c : Channel.State) → (Channel.submit c).1 ≢ panic
  pub polls :
      (c : Channel.State)
      → (c' : Channel.State) × (completions : List Completion) × (Channel.poll c
          ≡ ok (c', completions))

abbrev pub ids_of : List Finished → List ℕ
ids_of [] = []
ids_of ((id, header) ∷ finished) = id ∷ ids_of finished

pub ids_of-append : (xs ys : List Finished) → ids_of (xs ++ ys) ≡ ids_of xs ++ ids_of ys
ids_of-append [] ys = refl
ids_of-append ((id, header) ∷ xs) ys = ap (λ (t : List ℕ). id ∷ t) (ids_of-append xs ys)

pub contains-push :
    (k : ℕ) (xs : List ℕ) (x : ℕ) → contains k (xs ++ x ∷ []) ≡ (contains k xs || (x == k))
unfolding contains
contains-push k [] x = ground arith
contains-push k (y ∷ xs) x = ground (arith, contains-push k xs x)

not_before :
    (k : ℕ) (xs : List ℕ) (x : ℕ)
    → contains k (xs ++ x ∷ []) ≡ false
    → (contains k xs ≡ false) × (x ≢ k)
not_before k xs x e = ground (arith, contains-push k xs x)

pub either :
    (k : ℕ) (xs : List ℕ) (x : ℕ)
    → contains k (xs ++ x ∷ []) ≡ true
    → (contains k xs ≡ true) ⊎ (x ≡ k)
either k xs x e = ground (arith, contains-push k xs x)

-- An update is on the device: its sector is free, the update is to be struck off.
pub done-Sectors :
    (stripes : ℕ) (done : List ℕ) (updates : Updates) (sectors : List ℕ) (id : ℕ)
    (st : HeaderUpdateStatus)
    → lookup id updates ≡ some st
    → st.stage ≡ flushing
    → Sectors stripes done updates sectors
    → Sectors stripes (done ++ id ∷ []) updates (discard st.sector sectors)
done-Sectors stripes done updates sectors id st here idle s = record {
  known = s.known;
  marked = λ j su e fresh.
      let (fresh', ne) = not_before j done id fresh in
      discard_other st.sector su.sector sectors (λ same. ne (s.apart id j st su here e same))
        (s.marked j su e fresh');
  owned = λ sector h.
      let (ne, h') = discard_inv st.sector sector sectors h in
      let (j, su, e, at, fresh) = s.owned sector h' in
      (j, su, e, at, ground (arith, contains-push j done id, fresh, other j su e at ne));
  apart = s.apart;
  flushed = λ j su d e. elim (either j done id d) [
    | inl before ↦ s.flushed j su before e
    | inr same ↦ of_same j su e same
  ];
}
  where
    other :
        (j : ℕ) (su : HeaderUpdateStatus)
        → lookup j updates ≡ some su
        → {sector : ℕ} → su.sector ≡ sector
        → st.sector ≢ sector
        → id ≢ j
    other j su e at ne = λ same. ne (cc (same, e, here, at))

    of_same :
        (j : ℕ) (su : HeaderUpdateStatus)
        → lookup j updates ≡ some su
        → id ≡ j
        → su.stage ≡ flushing
    of_same j su e same = cc

-- The write of an update has succeeded.
abbrev pub advanced : HeaderUpdateStatus → HeaderUpdateStatus
advanced st = record st { stage = flushing }

pub advance-Sectors :
    (stripes : ℕ) (done : List ℕ) (updates : Updates) (sectors : List ℕ) (id : ℕ)
    (st : HeaderUpdateStatus)
    → lookup id updates ≡ some st
    → Sectors stripes done updates sectors
    → Sectors stripes done (insert id (advanced st) updates) sectors
advance-Sectors stripes done updates sectors id st here s = record {
  known = λ j su e.
      let (su', e', _, same) = before j su e in let (a, b, c) = s.known j su' e' in ground arith;
  marked = λ j su e fresh.
      let (su', e', same, _) = before j su e in
      subst (λ (x : ℕ). contains x sectors ≡ true) same (s.marked j su' e' fresh);
  owned = λ sector h.
      let (j, su, e, at, fresh) = s.owned sector h in
      let (su', e', same) = after j su e in (j, su', e', same ∙ at, fresh);
  apart = λ i j su sv e e' same.
      let (su', eu, a, _) = before i su e in
      let (sv', ev, b, _) = before j sv e' in s.apart i j su' sv' eu ev (a ∙ same ∙ sym b);
  flushed = λ j su d e. elim (insert_inv id j updates (advanced st) su e) [
    | inl (same, it) ↦ cc
    | inr (ne, e') ↦ s.flushed j su d e'
  ];
}
  where
    before :
        (j : ℕ) (su : HeaderUpdateStatus)
        → lookup j (insert id (advanced st) updates) ≡ some su
        → (su' : HeaderUpdateStatus) × (lookup j updates ≡ some su')
          × (su'.sector ≡ su.sector)
          × (su'.stripe_id ≡ su.stripe_id)
    before j su e = elim (insert_inv id j updates (advanced st) su e) [
      | inl (same, it) ↦ (st, cc, cc, cc)
      | inr (ne, e') ↦ (su, e', refl, refl)
    ]

    after :
        (j : ℕ) (su : HeaderUpdateStatus)
        → lookup j updates ≡ some su
        → (su' : HeaderUpdateStatus) × (lookup j (insert id (advanced st) updates) ≡ some su')
          × (su'.sector ≡ su.sector)
    after j su e = elim (same_or_not id j) [
      | inl same ↦ (
        advanced st,
        ap (λ (k : ℕ). lookup k (insert id (advanced st) updates)) (sym same)
            ∙ insert_self id updates (advanced st),
        cc,
      )
      | inr ne ↦ (su, insert_other id j updates (advanced st) su ne e, refl)
    ]

pub advance-Buffers :
    (updates : Updates) (p q : AlignedBufferPool) (id : ℕ) (st : HeaderUpdateStatus)
    → lookup id updates ≡ some st
    → st.stage ≡ writing
    → TakesBack p q st.buffer
    → Buffers updates p
    → Buffers (insert id (advanced st) updates) q
advance-Buffers updates p q id st here w t b = record {
  pool_ok = t.valid;
  big =
      λ i x e. b.big i x (ap (λ (bs : List SharedBuffer). get_elem? bs i) (sym t.same_buffers) ∙ e);
  held = λ j su e w'.
      let (ne, e') = before j su e w' in
      t.keeps su.buffer (b.held j su e' w') (λ same. ne (b.own id j st su here e' w w' (sym same)));
  own = λ i j su sv e e' wu wv. b.own i j su sv (before i su e wu).1 (before j sv e' wv).1 wu wv;
  no_leak = λ k used.
      let (used', ne) = t.only k used in
      let (j, su, e, w', at) = b.no_leak k used' in
      (
        j,
        su,
        insert_other id j updates (advanced st) su (λ same. ne (sym at ∙ of_same j su e same)) e,
        w',
        at,
      );
}
  where
    before :
        (j : ℕ) (su : HeaderUpdateStatus)
        → lookup j (insert id (advanced st) updates) ≡ some su
        → su.stage ≡ writing
        → (id ≢ j) × (lookup j updates ≡ some su)
    before j su e w' = elim (insert_inv id j updates (advanced st) su e) [
      | inl (same, it) ↦ cc
      | inr both ↦ both
    ]

    of_same :
        (j : ℕ) (su : HeaderUpdateStatus)
        → lookup j updates ≡ some su
        → id ≡ j
        → su.buffer.id ≡ st.buffer.id
    of_same j su e same = cc
