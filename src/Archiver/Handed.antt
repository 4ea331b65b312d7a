-- ===== src/Archiver/Handed.antt =====
-- src/archive/archiver.rs: every object whose key was seen has been handed to the store, and the
-- counter of uploads is the store's.
use ubiblk.Prelude.{
  ℕ, ◌+◌, ◌-◌, ◌≡◌, refl, sym, ap, ◌∙◌, subst, inl, inr, Bool, true, not, Option, none, some, List,
  [], ◌∷◌, ◌++◌, Result, ok, err, panic, >>=-eq-ok, ok_eq, fail_if_inv, arith, Bool-cases,
  Option-cases, lookup, insert, remove, length, ◌==◌, beq_bytes, beq_bytes_eq,
}
use ubiblk.BufferPool
use ubiblk.BufferPool.{SharedBuffer}
use ubiblk.IoChannel.{IoChannel, Completion}
use ubiblk.StripeSource.{StripeSource}
use ubiblk.Crypt.{Xts}
use ubiblk.Archive.{ArchiveStore, ObjectName}
use ubiblk.Archive.Compression.{Zstd, compress}
use ubiblk.Archive.StripeMapping.{hashed}
use ubiblk.ArchiveSource.Operations.{object_key}
use ubiblk.Archiver.{StripeArchiver, maybe_encrypt, is_zero_stripe}
use ubiblk.Archiver.Operations.{
  has_key, start_fetch_stripe, start_with, maybe_start_next_stripe, finish_uploads, poll_uploads,
  upload_object, upload_data, note_zeroes, upload_stripe, start_upload_stripe, finish_fetches,
  poll_fetches,
}
use ubiblk.Archiver.Ledger.{Ledger}

-- An object with this key was handed to the store: bytes with the key's hash.
abbrev pub Handed :
    {Store : ArchiveStore}
    → Ledger Store
    → (List ℕ → List ℕ)
    → (List ℕ → List ℕ)
    → Store.State
    → ObjectName
    → Type 0
Handed L sha256 hex store key =
    (bytes : List ℕ) × L.handed store key bytes × (object_key hex (sha256 bytes) ≡ key)

module _ {Source : StripeSource} {Channel : IoChannel} {Store : ArchiveStore} where
  -- The store and what is noted of it are unchanged.
  unfoldable pub SameUploads :
      StripeArchiver Source Channel Store → StripeArchiver Source Channel Store → Type 0
  SameUploads a b =
      (b.archive_store ≡ a.archive_store)
      × (b.seen_object_keys ≡ a.seen_object_keys)
      × (b.inflight_puts ≡ a.inflight_puts)

  start_fetch-SameUploads :
      (a b : StripeArchiver Source Channel Store) (id : ℕ) (buffer : SharedBuffer)
      → start_fetch_stripe a id buffer ≡ ok b
      → SameUploads a b
  unfolding start_fetch_stripe SameUploads
  start_fetch-SameUploads a b id buffer e = ground arith

  start_with-SameUploads :
      (a b : StripeArchiver Source Channel Store) (id : ℕ) (pool : BufferPool.AlignedBufferPool)
      (got : Option SharedBuffer) (started : Bool)
      → start_with a id pool got ≡ ok (b, started)
      → SameUploads a b
  unfolding start_with SameUploads
  start_with-SameUploads a b id pool none started e = ground arith
  start_with-SameUploads a b id pool (some buffer) started e =
      let (c, ran, e1) =
        >>=-eq-ok
          (start_fetch_stripe
            (record a {
              buffer_pool = pool;
              stripe_fetch_buffers = insert id buffer a.stripe_fetch_buffers;
            })
            id buffer)
          _ e in
      let same : c ≡ b = ground arith in
      subst (λ (x : StripeArchiver Source Channel Store). SameUploads a x) same
        (start_fetch-SameUploads _ c id buffer ran)

  pub maybe_start-SameUploads :
      (a b : StripeArchiver Source Channel Store) (id : ℕ) (started : Bool)
      → maybe_start_next_stripe a id ≡ ok (b, started)
      → SameUploads a b
  unfolding maybe_start_next_stripe
  maybe_start-SameUploads a b id started e =
      let (got, _, e1) = >>=-eq-ok (BufferPool.get_buffer a.buffer_pool) _ e in
      start_with-SameUploads a b id got.1 got.0 started e1

  -- Each result that is handled takes one off the uploads in flight.
  finish_uploads-counts :
      (a b : StripeArchiver Source Channel Store) (results : List (ObjectName × Result (Unit {0})))
      → finish_uploads a results ≡ ok b
      → (b.archive_store ≡ a.archive_store)
        × (b.seen_object_keys ≡ a.seen_object_keys)
        × (b.inflight_puts + length results ≡ a.inflight_puts)
  unfolding finish_uploads
  finish_uploads-counts a b [] e = ground arith
  finish_uploads-counts a b ((name, ok x) ∷ results) e =
      let (some_left, rest) = fail_if_inv (a.inflight_puts == 0) _ _ e in
      let (store, seen, count) =
        finish_uploads-counts (record a { inflight_puts = a.inflight_puts - 1 }) b results rest in
      (store, seen, ground arith)
  finish_uploads-counts a b ((name, err x) ∷ results) e = cc
  finish_uploads-counts a b ((name, panic) ∷ results) e = cc

  module _ (L : Ledger Store) (sha256 hex : List ℕ → List ℕ) where
    -- The objects whose keys were seen were handed to the store, and the uploads are counted.
    pub record Stored (a : StripeArchiver Source Channel Store) : Type 0 where
      pub handed :
          (key : ObjectName)
          → has_key key a.seen_object_keys ≡ true
          → Handed L sha256 hex a.archive_store key
      pub counted : a.inflight_puts ≡ L.running a.archive_store

    pub same-Stored :
        (a b : StripeArchiver Source Channel Store) → SameUploads a b → Stored a → Stored b
    unfolding SameUploads
    same-Stored a b (store, seen, count) h = record {
      handed = λ key k.
          subst (λ (s : Store.State). Handed L sha256 hex s key) (sym store)
            (h.handed key (sym (ap (has_key key) seen) ∙ k));
      counted = count ∙ h.counted ∙ ap L.running (sym store);
    }

    pub poll_uploads-Stored :
        (a b : StripeArchiver Source Channel Store) → poll_uploads a ≡ ok b → Stored a → Stored b
    unfolding poll_uploads
    poll_uploads-Stored a b e h =
        let (store, seen, count) =
          finish_uploads-counts (record a { archive_store = (Store.poll_puts a.archive_store).0 }) b
            (Store.poll_puts a.archive_store).1 e in
        let polled = L.running_polled a.archive_store in
        let before = h.counted in
        record {
          handed = λ key k.
              let (bytes, there, same) = h.handed key (sym (ap (has_key key) seen) ∙ k) in
              subst (λ (s : Store.State). Handed L sha256 hex s key) (sym store)
                (bytes, L.handed_polled a.archive_store key bytes there, same);
          counted = omega (arith, ap L.running store);
        }

    module _ (X : Xts) (Z : Zstd)
        (holds : Channel.State → Source.State → SharedBuffer → List ℕ) where
      upload_object-Stored :
          (a : StripeArchiver Source Channel Store) (bytes : List ℕ)
          → Stored a
          → Stored (upload_object X Z sha256 hex holds a (sha256 bytes) bytes)
      unfolding upload_object has_key
      upload_object-Stored a bytes h =
          let key = object_key hex (sha256 bytes) in
          elim (Bool-cases (has_key key a.seen_object_keys)) [
            | inl old ↦ rw old h
            | inr new ↦ rw new (record {
              handed = λ other k. elim (Bool-cases (beq_bytes key other)) [
                | inl same ↦
                    subst
                      (λ (n : ObjectName).
                        Handed L sha256 hex (Store.start_put_object a.archive_store key bytes) n)
                      (beq_bytes_eq key other same)
                      (bytes, L.handed_now a.archive_store key bytes, refl)
                | inr differ ↦
                    let (others, there, same) = h.handed other (ground arith) in
                    (others, L.handed_before a.archive_store other key others bytes there, same)
              ];
              counted = omega (arith, h.counted, L.running_put a.archive_store key bytes);
            })
          ]

      upload_data-Stored :
          (a b : StripeArchiver Source Channel Store) (id : ℕ) (buffer : SharedBuffer)
          (bytes : List ℕ)
          → upload_data X Z sha256 hex holds a id buffer bytes ≡ ok b
          → Stored a
          → Stored b
      unfolding upload_data SameUploads
      upload_data-Stored a b id buffer bytes e h =
          let (packed, _, e1) = >>=-eq-ok (compress Z a.compression bytes) _ e in
          let (pool, _, e2) = >>=-eq-ok (BufferPool.return_buffer a.buffer_pool buffer) _ e1 in
          let (object, _, e3) =
            >>=-eq-ok (maybe_encrypt X a.block_cipher a.metadata id packed) _ e2 in
          let booked : StripeArchiver Source Channel Store = record a {
            buffer_pool = pool;
            stripe_hashes = insert id (hashed (sha256 object)) a.stripe_hashes;
          } in
          subst Stored (ok_eq e3)
            (upload_object-Stored booked object (same-Stored a booked (refl, refl, refl) h))

      upload_stripe-Stored :
          (a b : StripeArchiver Source Channel Store) (id : ℕ) (buffer : SharedBuffer)
          (bytes : List ℕ)
          → upload_stripe X Z sha256 hex holds a id buffer bytes ≡ ok b
          → Stored a
          → Stored b
      unfolding upload_stripe note_zeroes SameUploads
      upload_stripe-Stored a b id buffer bytes e h = elim (Bool-cases (is_zero_stripe bytes)) [
        | inl zero_bytes ↦
            let noted : note_zeroes X Z sha256 hex holds a id buffer ≡ ok b = ground arith in
            let (pool, _, e1) = >>=-eq-ok (BufferPool.return_buffer a.buffer_pool buffer) _ noted in
            subst Stored (ok_eq e1) (same-Stored a _ (refl, refl, refl) h)
        | inr some_bytes ↦ upload_data-Stored a b id buffer bytes (ground arith) h
      ]

      finish_fetches-Stored :
          (a b : StripeArchiver Source Channel Store) (completed : List Completion)
          → finish_fetches X Z sha256 hex holds a completed ≡ ok b
          → Stored a
          → Stored b
      unfolding finish_fetches start_upload_stripe SameUploads
      finish_fetches-Stored a b [] e h = subst Stored (ok_eq e) h
      finish_fetches-Stored a b ((id, success) ∷ completed) e h =
          let (_, e1) = fail_if_inv (not success) _ _ e in
          let (c, now, later) = >>=-eq-ok (start_upload_stripe X Z sha256 hex holds a id) _ e1 in
          finish_fetches-Stored c b completed later
            (elim (Option-cases (lookup id a.stripe_fetch_buffers)) [
              | inl missing ↦ absurd (ground arith)
              | inr (buffer, found) ↦
                  upload_stripe-Stored
                    (record a { stripe_fetch_buffers = remove id a.stripe_fetch_buffers }) c id
                    buffer (holds a.io_channel a.stripe_source buffer) (ground arith)
                    (same-Stored a _ (refl, refl, refl) h)
            ])

      pub poll_fetches-Stored :
          (a b : StripeArchiver Source Channel Store)
          → poll_fetches X Z sha256 hex holds a ≡ ok b
          → Stored a
          → Stored b
      unfolding poll_fetches SameUploads
      poll_fetches-Stored a b e h =
          let (read, _, e1) = >>=-eq-ok (Channel.poll a.io_channel) _ e in
          let (fetched, _, e2) = >>=-eq-ok (Source.poll a.stripe_source) _ e1 in
          finish_fetches-Stored (record a { io_channel = read.0; stripe_source = fetched.0 }) b
            (read.1 ++ fetched.1) e2 (same-Stored a _ (refl, refl, refl) h)
