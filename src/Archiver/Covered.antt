-- ===== src/Archiver/Covered.antt =====
-- src/archive/archiver.rs: no stripe that was started is lost, and no hash has a key that was not seen.
use ubiblk.Prelude.{
  ℕ, ◌-◌, ◌≡◌, ◌⊎◌, inl, inr, sym, ap, ◌∙◌, subst, Bool, true, Option, none, some, List, [], ◌∷◌,
  Result, ok, err, panic, >>=-eq-ok, fail_if_inv, arith, lookup, insert, same_or_not, lookup-insert,
  insert_self, insert_other, ◌==◌,
}
use ubiblk.BufferPool
use ubiblk.BufferPool.{SharedBuffer}
use ubiblk.IoChannel.{IoChannel}
use ubiblk.StripeSource.{StripeSource}
use ubiblk.Archive.{ArchiveStore, ObjectName}
use ubiblk.Archive.StripeMapping.{hashed}
use ubiblk.ArchiveSource.Operations.{object_key}
use ubiblk.Archiver.{StripeArchiver}
use ubiblk.Archiver.Operations.{
  has_key, start_fetch_stripe, start_with, maybe_start_next_stripe, finish_uploads, poll_uploads,
}

-- There is an entry for the key.
abbrev pub Known : {V : Type 0} → ℕ → List (ℕ × V) → Type 0
Known {V} k m = (v : V) × (lookup k m ≡ some v)

Known-insert :
    {V : Type 0} (k j : ℕ) (w : V) (m : List (ℕ × V)) → Known j m → Known j (insert k w m)
Known-insert k j w m (v, e) = elim (same_or_not k j) [
  | inl same ↦ (w, ground (arith, lookup-insert k j w m))
  | inr ne ↦ (v, insert_other k j m w v ne e)
]

module _ {Source : StripeSource} {Channel : IoChannel} {Store : ArchiveStore} where
  -- The stripe stands in the mapping, or it is being fetched.
  abbrev pub Covered : ℕ → StripeArchiver Source Channel Store → Type 0
  Covered id a = Known id a.stripe_hashes ⊎ Known id a.stripe_fetch_buffers

  -- The key of every hash in the mapping was seen.
  abbrev pub HasObjects : (List ℕ → List ℕ) → StripeArchiver Source Channel Store → Type 0
  HasObjects hex a =
      (id : ℕ) (hash : List ℕ)
      → lookup id a.stripe_hashes ≡ some (hashed hash)
      → has_key (object_key hex hash) a.seen_object_keys ≡ true

  -- What every step keeps.
  pub record Keeps (hex : List ℕ → List ℕ) (a b : StripeArchiver Source Channel Store)
      : Type 0 where
    pub same_metadata : b.metadata ≡ a.metadata
    pub same_count : b.stripe_count ≡ a.stripe_count
    pub covers : (id : ℕ) → Covered id a → Covered id b
    pub objects : HasObjects hex a → HasObjects hex b

  pub keeps_trans :
      {hex : List ℕ → List ℕ} {a b c : StripeArchiver Source Channel Store}
      → Keeps hex a b
      → Keeps hex b c
      → Keeps hex a c
  keeps_trans k l = record {
    same_metadata = l.same_metadata ∙ k.same_metadata;
    same_count = l.same_count ∙ k.same_count;
    covers = λ id c. l.covers id (k.covers id c);
    objects = λ h. l.objects (k.objects h);
  }

  -- The parts of the archiver that the invariant is about, unchanged.
  unfoldable pub SameBooks :
      StripeArchiver Source Channel Store → StripeArchiver Source Channel Store → Type 0
  SameBooks a b =
      (b.metadata ≡ a.metadata)
      × (b.stripe_count ≡ a.stripe_count)
      × (b.stripe_hashes ≡ a.stripe_hashes)
      × (b.stripe_fetch_buffers ≡ a.stripe_fetch_buffers)
      × (b.seen_object_keys ≡ a.seen_object_keys)

  pub same_keeps :
      {hex : List ℕ → List ℕ} {a b : StripeArchiver Source Channel Store}
      → SameBooks a b
      → Keeps hex a b
  unfolding SameBooks
  same_keeps {hex} (m, n, hashes, buffers, seen) = record {
    same_metadata = m;
    same_count = n;
    covers = λ id c. elim c [
      | inl (v, e) ↦ inl (v, ap (lookup id) hashes ∙ e)
      | inr (v, e) ↦ inr (v, ap (lookup id) buffers ∙ e)
    ];
    objects = λ h id hash e.
        ap (has_key (object_key hex hash)) seen ∙ h id hash (sym (ap (lookup id) hashes) ∙ e);
  }

  start_fetch-SameBooks :
      (a b : StripeArchiver Source Channel Store) (id : ℕ) (buffer : SharedBuffer)
      → start_fetch_stripe a id buffer ≡ ok b
      → SameBooks a b
  unfolding start_fetch_stripe SameBooks
  start_fetch-SameBooks a b id buffer e = ground arith

  finish_uploads-SameBooks :
      (a b : StripeArchiver Source Channel Store) (results : List (ObjectName × Result (Unit {0})))
      → finish_uploads a results ≡ ok b
      → SameBooks a b
  unfolding finish_uploads SameBooks
  finish_uploads-SameBooks a b [] e = ground arith
  finish_uploads-SameBooks a b ((name, ok x) ∷ results) e =
      let (some_left, rest) = fail_if_inv (a.inflight_puts == 0) _ _ e in
      finish_uploads-SameBooks (record a { inflight_puts = a.inflight_puts - 1 }) b results rest
  finish_uploads-SameBooks a b ((name, err x) ∷ results) e = cc
  finish_uploads-SameBooks a b ((name, panic) ∷ results) e = cc

  module _ (hex : List ℕ → List ℕ) where
    start_with-Keeps :
        (a b : StripeArchiver Source Channel Store) (id : ℕ) (pool : BufferPool.AlignedBufferPool)
        (got : Option SharedBuffer) (started : Bool)
        → start_with a id pool got ≡ ok (b, started)
        → Keeps hex a b × (started ≡ true → Covered id b)
    unfolding start_with SameBooks
    start_with-Keeps a b id pool none started e = (same_keeps (ground arith), λ yes. ground arith)
    start_with-Keeps a b id pool (some buffer) started e =
        let (c, ran, e1) =
          >>=-eq-ok
            (start_fetch_stripe
              (record a {
                buffer_pool = pool;
                stripe_fetch_buffers = insert id buffer a.stripe_fetch_buffers;
              })
              id buffer)
            _ e in
        let (m, n, hashes, buffers, seen) = start_fetch-SameBooks _ c id buffer ran in
        let same : c ≡ b = ground arith in
        subst
          (λ (x : StripeArchiver Source Channel Store).
            Keeps hex a x × (started ≡ true → Covered id x))
          same
          (
            record {
              same_metadata = m;
              same_count = n;
              covers = λ j known. elim known [
                | inl (v, k) ↦ inl (v, ap (lookup j) hashes ∙ k)
                | inr fetching ↦
                    let (v, k) = Known-insert id j buffer a.stripe_fetch_buffers fetching in
                    inr (v, ap (lookup j) buffers ∙ k)
              ];
              objects = λ h j hash k.
                  ap (has_key (object_key hex hash)) seen
                  ∙ h j hash (sym (ap (lookup j) hashes) ∙ k);
            },
            λ yes.
                inr (buffer, ap (lookup id) buffers ∙ insert_self id a.stripe_fetch_buffers buffer),
          )

    -- A stripe that is started is being fetched.
    pub maybe_start-Keeps :
        (a b : StripeArchiver Source Channel Store) (id : ℕ) (started : Bool)
        → maybe_start_next_stripe a id ≡ ok (b, started)
        → Keeps hex a b × (started ≡ true → Covered id b)
    unfolding maybe_start_next_stripe
    maybe_start-Keeps a b id started e =
        let (got, _, e1) = >>=-eq-ok (BufferPool.get_buffer a.buffer_pool) _ e in
        start_with-Keeps a b id got.1 got.0 started e1

    pub poll_uploads-Keeps :
        (a b : StripeArchiver Source Channel Store) → poll_uploads a ≡ ok b → Keeps hex a b
    unfolding poll_uploads SameBooks
    poll_uploads-Keeps a b e = same_keeps (
        finish_uploads-SameBooks (record a { archive_store = (Store.poll_puts a.archive_store).0 })
          b (Store.poll_puts a.archive_store).1 e)
