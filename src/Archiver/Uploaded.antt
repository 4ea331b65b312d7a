-- ===== src/Archiver/Uploaded.antt =====
-- src/archive/archiver.rs: a stripe that was fetched moves to the mapping, with its object's key seen.
use ubiblk.Prelude.{
  ℕ, ◌≡◌, inl, inr, refl, sym, ap, ◌∙◌, subst, true, not, List, [], ◌∷◌, ◌++◌, ok, >>=-eq-ok, ok_eq,
  fail_if_inv, arith, lookup, insert, remove, same_or_not, lookup-insert, insert_other, insert_inv,
  remove_other, Bool-cases, Option-cases, beq_bytes_refl,
}
use ubiblk.BufferPool
use ubiblk.BufferPool.{SharedBuffer}
use ubiblk.IoChannel.{IoChannel, Completion}
use ubiblk.StripeSource.{StripeSource}
use ubiblk.Crypt.{Xts}
use ubiblk.Archive.{ArchiveStore, ObjectName}
use ubiblk.Archive.Compression.{Zstd, compress}
use ubiblk.Archive.StripeMapping.{StripeContentSpecifier, zeroes, hashed}
use ubiblk.ArchiveSource.Operations.{object_key}
use ubiblk.Archiver.{StripeArchiver, maybe_encrypt, is_zero_stripe}
use ubiblk.Archiver.Operations.{
  has_key, upload_object, upload_data, note_zeroes, upload_stripe, start_upload_stripe,
  finish_fetches, poll_fetches,
}
use ubiblk.Archiver.Covered.{Keeps, keeps_trans, SameBooks, same_keeps}

has_key-head : (key : ObjectName) (keys : List ObjectName) → has_key key (key ∷ keys) ≡ true
unfolding has_key
has_key-head key keys = rw (beq_bytes_refl key) refl

has_key-tail :
    (key k : ObjectName) (keys : List ObjectName)
    → has_key key keys ≡ true
    → has_key key (k ∷ keys) ≡ true
unfolding has_key
has_key-tail key k keys h = ground arith

hashed_inj : {h k : List ℕ} → hashed h ≡ hashed k → h ≡ k
hashed_inj e = cc

module _ {Source : StripeSource} {Channel : IoChannel} {Store : ArchiveStore} where
  module _ (hex : List ℕ → List ℕ) where
    module _ (X : Xts) (Z : Zstd) (sha256 : List ℕ → List ℕ)
        (holds : Channel.State → Source.State → SharedBuffer → List ℕ) where
      -- The object's key was seen, now or before.
      record Uploaded (a b : StripeArchiver Source Channel Store) (hash : List ℕ) : Type 0 where
        seen_now : has_key (object_key hex hash) b.seen_object_keys ≡ true
        seen_still :
            (key : ObjectName)
            → has_key key a.seen_object_keys ≡ true
            → has_key key b.seen_object_keys ≡ true
        metadata_kept : b.metadata ≡ a.metadata
        count_kept : b.stripe_count ≡ a.stripe_count
        hashes_kept : b.stripe_hashes ≡ a.stripe_hashes
        buffers_kept : b.stripe_fetch_buffers ≡ a.stripe_fetch_buffers

      upload_object-Uploaded :
          (a : StripeArchiver Source Channel Store) (hash bytes : List ℕ)
          → Uploaded a (upload_object X Z sha256 hex holds a hash bytes) hash
      unfolding upload_object
      upload_object-Uploaded a hash bytes =
          elim (Bool-cases (has_key (object_key hex hash) a.seen_object_keys)) [
            | inl old ↦ rw old (record {
              seen_now = old;
              seen_still = λ key h. h;
              metadata_kept = refl;
              count_kept = refl;
              hashes_kept = refl;
              buffers_kept = refl;
            })
            | inr new ↦ rw new (record {
              seen_now = has_key-head (object_key hex hash) a.seen_object_keys;
              seen_still = λ key h. has_key-tail key _ a.seen_object_keys h;
              metadata_kept = refl;
              count_kept = refl;
              hashes_kept = refl;
              buffers_kept = refl;
            })
          ]

      -- An archiver that moved a stripe to the mapping, with its object seen.
      record Moved (a b : StripeArchiver Source Channel Store) (id : ℕ) : Type 0 where
        moved_metadata : b.metadata ≡ a.metadata
        moved_count : b.stripe_count ≡ a.stripe_count
        content : StripeContentSpecifier
        moved_hashes : b.stripe_hashes ≡ insert id content a.stripe_hashes
        moved_buffers : b.stripe_fetch_buffers ≡ remove id a.stripe_fetch_buffers
        object_seen :
            (hash : List ℕ)
            → content ≡ hashed hash
            → has_key (object_key hex hash) b.seen_object_keys ≡ true
        objects_seen :
            (key : ObjectName)
            → has_key key a.seen_object_keys ≡ true
            → has_key key b.seen_object_keys ≡ true

      Moved-Keeps :
          (a b : StripeArchiver Source Channel Store) (id : ℕ) → Moved a b id → Keeps hex a b
      Moved-Keeps a b id m = record {
        same_metadata = m.moved_metadata;
        same_count = m.moved_count;
        covers = λ j c. elim (same_or_not id j) [
          | inl same ↦ inl (
            m.content,
            ap (lookup j) m.moved_hashes
                ∙ ground (arith, lookup-insert id j m.content a.stripe_hashes),
          )
          | inr ne ↦ elim c [
            | inl (v, e) ↦ inl (
              v,
              ap (lookup j) m.moved_hashes ∙ insert_other id j a.stripe_hashes m.content v ne e,
            )
            | inr (v, e) ↦
                inr (
                  v,
                  ap (lookup j) m.moved_buffers ∙ remove_other id j a.stripe_fetch_buffers v ne e,
                )
          ]
        ];
        objects = λ h j hash e.
            elim (insert_inv id j a.stripe_hashes m.content (hashed hash)
              (sym (ap (lookup j) m.moved_hashes) ∙ e)) [
                | inl (same, it) ↦ m.object_seen hash it
                | inr (ne, old) ↦ m.objects_seen (object_key hex hash) (h j hash old)
              ];
      }

      zero_stripe :
          (a b : StripeArchiver Source Channel Store) (id : ℕ) (buffer : SharedBuffer)
          → note_zeroes X Z sha256 hex holds
              (record a { stripe_fetch_buffers = remove id a.stripe_fetch_buffers })
              id
              buffer
            ≡ ok b
          → Moved a b id
      unfolding note_zeroes
      zero_stripe a b id buffer e =
          let (pool, _, e1) = >>=-eq-ok (BufferPool.return_buffer a.buffer_pool buffer) _ e in
          let same = ok_eq e1 in
          subst (λ (x : StripeArchiver Source Channel Store). Moved a x id) same
            (record {
              moved_metadata = refl;
              moved_count = refl;
              content = zeroes;
              moved_hashes = refl;
              moved_buffers = refl;
              object_seen = λ hash k. cc;
              objects_seen = λ key k. k;
            })

      data_stripe :
          (a b : StripeArchiver Source Channel Store) (id : ℕ) (buffer : SharedBuffer)
          (bytes : List ℕ)
          → upload_data X Z sha256 hex holds
              (record a { stripe_fetch_buffers = remove id a.stripe_fetch_buffers })
              id
              buffer
              bytes
            ≡ ok b
          → Moved a b id
      unfolding upload_data
      data_stripe a b id buffer bytes e =
          let (packed, _, e1) = >>=-eq-ok (compress Z a.compression bytes) _ e in
          let (pool, _, e2) = >>=-eq-ok (BufferPool.return_buffer a.buffer_pool buffer) _ e1 in
          let (object, _, e3) =
            >>=-eq-ok (maybe_encrypt X a.block_cipher a.metadata id packed) _ e2 in
          let hash = sha256 object in
          let booked : StripeArchiver Source Channel Store = record a {
            stripe_fetch_buffers = remove id a.stripe_fetch_buffers;
            buffer_pool = pool;
            stripe_hashes = insert id (hashed hash) a.stripe_hashes;
          } in
          let u = upload_object-Uploaded booked hash object in
          subst (λ (x : StripeArchiver Source Channel Store). Moved a x id) (ok_eq e3)
            (record {
              moved_metadata = u.metadata_kept;
              moved_count = u.count_kept;
              content = hashed hash;
              moved_hashes = u.hashes_kept;
              moved_buffers = u.buffers_kept;
              object_seen = λ other k.
                  subst
                    (λ (h : List ℕ).
                      has_key (object_key hex h)
                        (upload_object X Z sha256 hex holds booked hash object).seen_object_keys
                      ≡ true)
                    (hashed_inj k) u.seen_now;
              objects_seen = u.seen_still;
            })

      -- A stripe that was fetched moves from the buffers to the mapping.
      upload_stripe-Keeps :
          (a b : StripeArchiver Source Channel Store) (id : ℕ) (buffer : SharedBuffer)
          (bytes : List ℕ)
          → upload_stripe X Z sha256 hex holds
              (record a { stripe_fetch_buffers = remove id a.stripe_fetch_buffers })
              id
              buffer
              bytes
            ≡ ok b
          → Keeps hex a b
      unfolding upload_stripe
      upload_stripe-Keeps a b id buffer bytes e = elim (Bool-cases (is_zero_stripe bytes)) [
        | inl zero_bytes ↦ Moved-Keeps a b id (zero_stripe a b id buffer (ground arith))
        | inr some_bytes ↦ Moved-Keeps a b id (data_stripe a b id buffer bytes (ground arith))
      ]

      start_upload-Keeps :
          (a b : StripeArchiver Source Channel Store) (id : ℕ)
          → start_upload_stripe X Z sha256 hex holds a id ≡ ok b
          → Keeps hex a b
      unfolding start_upload_stripe
      start_upload-Keeps a b id e = elim (Option-cases (lookup id a.stripe_fetch_buffers)) [
        | inl missing ↦ absurd (ground arith)
        | inr (buffer, found) ↦
            upload_stripe-Keeps a b id buffer (holds a.io_channel a.stripe_source buffer)
              (ground arith)
      ]

      finish_fetches-Keeps :
          (a b : StripeArchiver Source Channel Store) (completed : List Completion)
          → finish_fetches X Z sha256 hex holds a completed ≡ ok b
          → Keeps hex a b
      unfolding finish_fetches SameBooks
      finish_fetches-Keeps a b [] e = same_keeps (ground arith)
      finish_fetches-Keeps a b ((id, success) ∷ completed) e =
          let (_, e1) = fail_if_inv (not success) _ _ e in
          let (c, now, later) = >>=-eq-ok (start_upload_stripe X Z sha256 hex holds a id) _ e1 in
          keeps_trans (start_upload-Keeps a c id now) (finish_fetches-Keeps c b completed later)

      pub poll_fetches-Keeps :
          (a b : StripeArchiver Source Channel Store)
          → poll_fetches X Z sha256 hex holds a ≡ ok b
          → Keeps hex a b
      unfolding poll_fetches SameBooks
      poll_fetches-Keeps a b e =
          let (read, _, e1) = >>=-eq-ok (Channel.poll a.io_channel) _ e in
          let (fetched, _, e2) = >>=-eq-ok (Source.poll a.stripe_source) _ e1 in
          keeps_trans {b = record a { io_channel = read.0; stripe_source = fetched.0 }}
            (same_keeps (refl, refl, refl, refl, refl))
            (finish_fetches-Keeps _ b (read.1 ++ fetched.1) e2)
