-- ===== src/ArchiveSource/Accounting.antt =====
-- src/stripe_source/archive.rs: every request is answered once.
use ubiblk.Error.{UbiblkError}
use ubiblk.Prelude.{
  ℕ, ◌+◌, ◌-◌, ◌*◌, ◌/◌, ◌%◌, ◌^◌, ◌≡◌, ◌≢◌, refl, ◌∙◌, Bool, true, false, Option, none, some, List,
  [], ◌∷◌, ◌++◌, Result, ok, err, panic, ◌>>=◌, >>=_ok, >>=-ne-panic, fail_if, fail_if-ne-panic,
  assert-ne-panic, assert, leb, ltb, ap, sym, arith, ◌==◌, if◌then◌else◌, length, lookup, replicate,
  Bool-cases, Option-cases, inl, inr, All,
}
use ubiblk.Prelude.ByteMaps
use ubiblk.BufferPool.{SharedBuffer}
use ubiblk.Memory.{Memory, fill}
use ubiblk.IoChannel.{Completion}
use ubiblk.Crypt.{Xts, XtsBlockCipher}
use ubiblk.Crypt.Sectors.{decrypt-sectors}
use ubiblk.Crypt.Loops.{IsXts}
use ubiblk.Archive.{ArchiveStore, ObjectName}
use ubiblk.Archive.Compression.{Zstd}
use ubiblk.Archive.Compression.Laws.{decompress_safe}
use ubiblk.Archive.StripeMapping.{zeroes, hashed}
use ubiblk.ArchiveSource.{PendingRequest, ArchiveStripeSource}
use ubiblk.ArchiveSource.Operations.{
  object_key, start_fetch_stripe, verify_stripe_data, maybe_decrypt, finish_stripe_fetch, settle,
  finish_pending_request, fail_pending, finish_object, finish_objects, request, poll,
}
use ubiblk.ArchiveSource.Counting.{
  IsAnswer, count_of, count_of-append, reports_out, still_pending, taken_out, unanswered, waiting,
}

module _ (Store : ArchiveStore) (X : Xts) (Z : Zstd) (sha256 hex_encode : List ℕ → List ℕ) where
  start_fetch_counts :
      (s : ArchiveStripeSource Store) (stripe_id stripe : ℕ) (hash : List ℕ) (buffer : SharedBuffer)
      → unanswered Store
          (start_fetch_stripe Store X Z sha256 hex_encode s stripe_id hash buffer)
          stripe
        ≡ unanswered Store s stripe + (if stripe_id == stripe then 1 else 0)
  unfolding start_fetch_stripe unanswered waiting count_of
  start_fetch_counts s stripe_id stripe hash buffer =
      let key = object_key hex_encode hash in
      elim (Option-cases (ByteMaps.lookup key s.pending_requests)) [
        | inl e ↦ ground (
          arith,
          e,
          ByteMaps.total-insert (waiting Store stripe) key
              (record { pending_stripes = (stripe_id, buffer) ∷ []; expected_sha256 = hash })
              s.pending_requests,
        )
        | inr (p, e) ↦ ground (
          arith,
          e,
          count_of-append stripe p.pending_stripes ((stripe_id, buffer) ∷ []),
          ByteMaps.total-insert (waiting Store stripe) key
              (record p { pending_stripes = p.pending_stripes ++ (stripe_id, buffer) ∷ [] })
              s.pending_requests,
        )
      ]

  reported_counts :
      (s : ArchiveStripeSource Store) (memory : Memory) (stripe_id stripe : ℕ) (verdict : Bool)
      → unanswered Store
          (record s {
            memory = memory;
            finished_requests = s.finished_requests ++ (stripe_id, verdict) ∷ [];
          })
          stripe
        ≡ unanswered Store s stripe + (if stripe_id == stripe then 1 else 0)
  unfolding unanswered count_of
  reported_counts s memory stripe_id stripe verdict =
      ground (arith, count_of-append stripe s.finished_requests ((stripe_id, verdict) ∷ []))

  -- A request adds one for its stripe, and none for any other.
  pub request_counts :
      (s : ArchiveStripeSource Store) (stripe_id stripe : ℕ) (buffer : SharedBuffer)
      → unanswered Store (request Store X Z sha256 hex_encode s stripe_id buffer).0 stripe
        ≡ unanswered Store s stripe + (if stripe_id == stripe then 1 else 0)
  unfolding request
  request_counts s stripe_id stripe buffer =
      let filled = fill s.memory buffer (replicate buffer.len 0) in
      elim (Option-cases (lookup stripe_id s.stripe_hashes)) [
        | inl e ↦ rw (e, request) (reported_counts s filled stripe_id stripe true)
        | inr (zeroes, e) ↦ rw (e, request) (reported_counts s filled stripe_id stripe true)
        | inr (hashed hash, e) ↦ rw (e, request) (start_fetch_counts s stripe_id stripe hash buffer)
      ]

  module _ (law : IsXts X) where
    maybe_decrypt-ne-panic :
        (cipher : Option XtsBlockCipher) (count : ℕ) (bytes : List ℕ) (stripe_id : ℕ)
        → maybe_decrypt Store X Z sha256 hex_encode cipher count bytes stripe_id ≢ panic
    unfolding maybe_decrypt
    maybe_decrypt-ne-panic none count bytes stripe_id e = cc
    maybe_decrypt-ne-panic (some cipher) count bytes stripe_id e =
        elim (Bool-cases (length bytes % 512 == 0)) [
          | inl whole ↦ ground (
            arith,
            decrypt-sectors X law cipher bytes (stripe_id * count % 2 ^ 64) (length bytes / 512),
          )
          | inr broken ↦ ground arith
        ]

    checked :
        (stripe_id : ℕ) (bytes expected : List ℕ)
        → verify_stripe_data Store X Z sha256 hex_encode stripe_id bytes expected ≢ panic
    unfolding verify_stripe_data
    checked stripe_id bytes expected e = ground arith

    -- The size is checked before the data is copied.
    last_check :
        (len size : ℕ) (x : UbiblkError) (m : Memory)
        → (fail_if (ltb len size) x >>= λ _. (assert (leb size len) >>= λ _. ok m)) ≢ panic
    last_check len size x m =
        fail_if-ne-panic (ltb len size) x _
          λ fits. assert-ne-panic (leb size len) (ok m) (ground arith) (λ e. cc)

    finish_stripe_fetch-ne-panic :
        (s : ArchiveStripeSource Store) (stripe_id : ℕ) (buffer : SharedBuffer)
        (bytes expected : List ℕ)
        → finish_stripe_fetch Store X Z sha256 hex_encode s stripe_id buffer bytes expected ≢ panic
    unfolding finish_stripe_fetch
    finish_stripe_fetch-ne-panic s stripe_id buffer bytes expected =
        >>=-ne-panic _ _ (checked stripe_id bytes expected) λ _.
          >>=-ne-panic _ _
            (maybe_decrypt-ne-panic s.xts_cipher s.stripe_sector_count bytes stripe_id)
            λ plain. >>=-ne-panic _ _ (decompress_safe Z s.compression plain) λ out.
              last_check buffer.len (length out) _
                (fill s.memory buffer (out ++ replicate (buffer.len - length out) 0))

    settle_total :
        (s : ArchiveStripeSource Store) (stripe_id : ℕ) (r : Result Memory)
        → r ≢ panic
        → (s' : ArchiveStripeSource Store) × (settle Store X Z sha256 hex_encode s stripe_id r
            ≡ ok s')
          × (s'.pending_requests ≡ s.pending_requests)
          × ((stripe : ℕ)
              → unanswered Store s' stripe
                ≡ unanswered Store s stripe + (if stripe_id == stripe then 1 else 0))
    settle_total s stripe_id (ok memory) h =
        (_, refl, refl, λ stripe. reported_counts s memory stripe_id stripe true)
    settle_total s stripe_id (err e) h =
        (_, refl, refl, λ stripe. reported_counts s s.memory stripe_id stripe false)
    settle_total s stripe_id panic h = absurd (h refl)

    -- The stripes of an object are each reported once.
    finish_pending_total :
        (s : ArchiveStripeSource Store) (stripes : List (ℕ × SharedBuffer))
        (bytes expected : List ℕ)
        → (s' : ArchiveStripeSource Store) × (finish_pending_request Store X Z sha256 hex_encode s
              stripes bytes expected
            ≡ ok s')
          × (s'.pending_requests ≡ s.pending_requests)
          × ((stripe : ℕ)
              → unanswered Store s' stripe ≡ unanswered Store s stripe + count_of stripe stripes)
    unfolding finish_pending_request count_of
    finish_pending_total s [] bytes expected = (s, refl, refl, λ stripe. omega arith)
    finish_pending_total s ((stripe_id, buffer) ∷ stripes) bytes expected =
        let (s1, ran, kept, here) =
          settle_total s stripe_id _
            (finish_stripe_fetch-ne-panic s stripe_id buffer bytes expected) in
        let (s2, rest, kept_later, later) = finish_pending_total s1 stripes bytes expected in
        (
          s2,
          >>=_ok _ _ s1 ran ∙ rest,
          kept_later ∙ kept,
          λ stripe. omega (arith, here stripe, later stripe),
        )

    failed_counts :
        (stripes : List (ℕ × SharedBuffer)) (stripe : ℕ)
        → count_of stripe (fail_pending Store X Z sha256 hex_encode stripes)
          ≡ count_of stripe stripes
    unfolding count_of fail_pending
    failed_counts [] stripe = refl
    failed_counts ((stripe_id, buffer) ∷ stripes) stripe =
        omega (arith, failed_counts stripes stripe)

    finish_object_total :
        (s : ArchiveStripeSource Store) (p : PendingRequest) (r : Result (List ℕ))
        → r ≢ panic
        → (s' : ArchiveStripeSource Store) × (finish_object Store X Z sha256 hex_encode s p r
            ≡ ok s')
          × (s'.pending_requests ≡ s.pending_requests)
          × ((stripe : ℕ)
              → unanswered Store s' stripe
                ≡ unanswered Store s stripe + count_of stripe p.pending_stripes)
    unfolding finish_object unanswered
    finish_object_total s p (ok bytes) h =
        finish_pending_total s p.pending_stripes bytes p.expected_sha256
    finish_object_total s p (err e) h = (
      _,
      refl,
      refl,
      λ stripe. omega (
        arith,
        failed_counts p.pending_stripes stripe,
        count_of-append stripe s.finished_requests
            (fail_pending Store X Z sha256 hex_encode p.pending_stripes),
      ),
    )
    finish_object_total s p panic h = absurd (h refl)

    finish_objects_total :
        (s : ArchiveStripeSource Store) (answers : List (ObjectName × Result (List ℕ)))
        → All IsAnswer answers
        → (s' : ArchiveStripeSource Store) × (finish_objects Store X Z sha256 hex_encode s answers
            ≡ ok s')
          × (s'.pending_requests ≡ still_pending answers s.pending_requests)
          × ((stripe : ℕ) → unanswered Store s' stripe ≡ unanswered Store s stripe)
    unfolding finish_objects IsAnswer still_pending
    finish_objects_total s [] h = (s, refl, refl, λ stripe. refl)
    finish_objects_total s ((name, r) ∷ answers) h =
        elim (Option-cases (ByteMaps.lookup name s.pending_requests)) [
          | inl e ↦
              let (s', ran, left, same) = finish_objects_total s answers h.1 in
              (
                s',
                rw (e, finish_objects) ran,
                left
                    ∙ ap (still_pending answers)
                        (sym (ByteMaps.remove_absent name s.pending_requests e)),
                same,
              )
          | inr (p, e) ↦
              let (s1, ran, kept, here) =
                finish_object_total
                  (record s { pending_requests = ByteMaps.remove name s.pending_requests }) p r
                  h.0 in
              let (s2, rest, left, later) = finish_objects_total s1 answers h.1 in
              (
                s2,
                rw (e, finish_objects) (>>=_ok _ _ s1 ran ∙ rest),
                left ∙ ap (still_pending answers) kept,
                λ stripe. later stripe ∙ here stripe ∙ taken_out Store s name p stripe e,
              )
        ]

    -- A poll, whatever the store answers, as long as it does not panic, and with a cipher that keeps
    -- lengths, does not panic. The objects that were answered are not pending any more, and all others
    -- are; every stripe is reported as often as it is taken off the requests that are not answered; and
    -- no report is left behind.
    pub poll_counts :
        (s : ArchiveStripeSource Store)
        → All IsAnswer (Store.poll_gets s.store).1
        → (s' : ArchiveStripeSource Store) × (reports : List Completion) × (poll Store X Z sha256
              hex_encode s
            ≡ ok (s', reports))
          × (s'.pending_requests ≡ still_pending (Store.poll_gets s.store).1 s.pending_requests)
          × (s'.finished_requests ≡ [])
          × ((stripe : ℕ)
              → count_of stripe reports + unanswered Store s' stripe ≡ unanswered Store s stripe)
    unfolding poll unanswered
    poll_counts s answers =
        let (s1, ran, left, same) =
          finish_objects_total (record s { store = (Store.poll_gets s.store).0 })
            (Store.poll_gets s.store).1 answers in
        (
          record s1 { finished_requests = [] },
          s1.finished_requests,
          >>=_ok _ _ s1 ran,
          left,
          refl,
          λ stripe. reports_out Store s1 stripe ∙ same stripe,
        )
