-- ===== src/StripeFetcher/Progress.antt =====
-- src/block_device/bdev_lazy/stripe_fetcher.rs: `start_fetches` comes to its end.
use ubiblk.Prelude.{
  ℕ, zero, suc, ◌*◌, ◌≤◌, ◌<◌, ◌≡◌, ◌≢◌, refl, ap, ◌∙◌, subst, true, false, some, List, [], ◌∷◌,
  Result, ok, err, panic, >>=_ok, length, arith, ◌⊎◌, inl, inr, All, lookup, insert, remove,
  insert_self, NoDup, Bool-cases,
}
use ubiblk.BufferPool.{SharedBuffer, AlignedBufferPool, get_buffer, return_buffer, has_available}
use ubiblk.BufferPool.Laws.{IsValid}
use ubiblk.BufferPool.Lending.{Lends, get_buffer-Lends, return_buffer-TakesBack}
use ubiblk.IoChannel.{IoChannel}
use ubiblk.StripeSource.{StripeSource}
use ubiblk.Error.{UbiblkError}
use ubiblk.StripeFetcher.{StripeFetcher, fetching, release_buffer, fetch_completed}
use ubiblk.StripeFetcher.Operations.{start_fetch, start_loop, start_fetches}
use ubiblk.StripeFetcher.Loop.{IsReady, work, Advances, failed-Advances, all_tries, all_tries-le}

-- What the code relies on of a source: a request does not panic. Whether it is taken is open.
abbrev pub Quiet : StripeSource → Type 0
Quiet Source = (s : Source.State) (id : ℕ) (b : SharedBuffer) → (Source.request s id b).1 ≢ panic

module _ {Source : StripeSource} {Target : IoChannel} where
  -- The fetcher while a request is made, its buffer taken.
  asking :
      StripeFetcher Source Target
      → ℕ
      → List ℕ
      → SharedBuffer
      → AlignedBufferPool
      → StripeFetcher Source Target
  asking f id rest b q = record f {
    fetch_queue = rest;
    buffer_pool = q;
    allocated_buffers = insert id b f.allocated_buffers;
    stripe_source = (Source.request f.stripe_source id b).0;
  }

  released :
      (f : StripeFetcher Source Target) (id : ℕ) (b : SharedBuffer) (q : AlignedBufferPool)
      → lookup id f.allocated_buffers ≡ some b
      → return_buffer f.buffer_pool b ≡ ok q
      → release_buffer f id
        ≡ ok (record f { buffer_pool = q; allocated_buffers = remove id f.allocated_buffers })
  unfolding release_buffer
  released f id b q at back = ground (arith, at, back)

  -- A request that was not taken: its buffer goes back.
  refused-Advances :
      (f : StripeFetcher Source Target) (id : ℕ) (rest : List ℕ) (b : SharedBuffer)
      (q : AlignedBufferPool)
      → Lends f.buffer_pool q b
      → NoDup (id ∷ rest)
      → All (λ (i : ℕ). i < length f.shared_metadata_state.stripe_fetch_states) (id ∷ rest)
      → Advances f rest id (fetch_completed (asking f id rest b q) id false)
  unfolding fetch_completed release_buffer asking
  refused-Advances f id rest b q l distinct in_range =
      let (q', back, t) = return_buffer-TakesBack q b l.valid l.lent in
      let g : StripeFetcher Source Target = record (asking f id rest b q) {
        buffer_pool = q';
        allocated_buffers = remove id (insert id b f.allocated_buffers);
      } in
      let a =
        failed-Advances g id
          (record { pool_ok = t.valid; distinct = distinct.1; in_range = in_range.1 }) distinct.0
          in_range.0 in
      record {
        next = a.next;
        runs =
            >>=_ok (release_buffer (asking f id rest b q) id) _ g
              (released (asking f id rest b q) id b q' (insert_self id f.allocated_buffers b) back)
            ∙ a.runs;
        ready = a.ready;
        less = a.less;
      }

  taken :
      (f : StripeFetcher Source Target) (id : ℕ) (rest : List ℕ) (b : SharedBuffer)
      (q : AlignedBufferPool) (t : Unit {0})
      → get_buffer f.buffer_pool ≡ ok (some b, q)
      → (Source.request f.stripe_source id b).1 ≡ ok t
      → start_fetch (record f { fetch_queue = rest }) id
        ≡ ok (record (asking f id rest b q) { stripe_states = insert id fetching f.stripe_states })
  unfolding start_fetch asking
  taken f id rest b q t got e = ground (arith, got, e)

  refused :
      (f : StripeFetcher Source Target) (id : ℕ) (rest : List ℕ) (b : SharedBuffer)
      (q : AlignedBufferPool) (x : UbiblkError)
      → get_buffer f.buffer_pool ≡ ok (some b, q)
      → (Source.request f.stripe_source id b).1 ≡ err x
      → start_fetch (record f { fetch_queue = rest }) id
        ≡ fetch_completed (asking f id rest b q) id false
  unfolding start_fetch asking
  refused f id rest b q x got e = ground (arith, got, e)

  start_fetch-Advances :
      (quiet : Quiet Source) (f : StripeFetcher Source Target) (id : ℕ) (rest : List ℕ)
      → has_available f.buffer_pool ≡ true
      → IsValid f.buffer_pool
      → NoDup (id ∷ rest)
      → All (λ (i : ℕ). i < length f.shared_metadata_state.stripe_fetch_states) (id ∷ rest)
      → Advances f rest id (start_fetch (record f { fetch_queue = rest }) id)
  start_fetch-Advances quiet f id rest available valid distinct in_range =
      let (b, q, got, l) = get_buffer-Lends f.buffer_pool valid available in
      (elim (Source.request f.stripe_source id b).1
          as (λ r.
            (Source.request f.stripe_source id b).1 ≡ r
            → Advances f rest id (start_fetch (record f { fetch_queue = rest }) id)) [
              | ok t ↦ λ e.
                  unfold asking in
                  record {
                    next = record (asking f id rest b q) {
                      stripe_states = insert id fetching f.stripe_states;
                    };
                    runs = taken f id rest b q t got e;
                    ready = record {
                      pool_ok = l.valid;
                      distinct = distinct.1;
                      in_range = in_range.1;
                    };
                    less = omega arith;
                  }
              | err x ↦ λ e.
                  let a = refused-Advances f id rest b q l distinct in_range in
                  record {
                    next = a.next;
                    runs = refused f id rest b q x got e ∙ a.runs;
                    ready = a.ready;
                    less = a.less;
                  }
              | panic ↦ λ e. absurd (quiet f.stripe_source id b e)
            ])
        refl

  -- Where the loop ends: nothing is queued any more, or no buffer is left.
  pub record Ends (r : Result (StripeFetcher Source Target)) : Type 0 where
    pub last : StripeFetcher Source Target
    pub runs : r ≡ ok last
    pub ready : IsReady last
    pub exits : (last.fetch_queue ≡ []) ⊎ (has_available last.buffer_pool ≡ false)

  stop_empty :
      (fuel : ℕ) (f : StripeFetcher Source Target) → f.fetch_queue ≡ [] → start_loop fuel f ≡ ok f
  unfolding start_loop
  stop_empty zero f e = refl
  stop_empty (suc fuel) f e = ground (arith, e)

  stop_full :
      (fuel : ℕ) (f : StripeFetcher Source Target)
      → has_available f.buffer_pool ≡ false
      → start_loop fuel f ≡ ok f
  unfolding start_loop
  stop_full zero f e = refl
  stop_full (suc fuel) f e = ground (arith, e)

  goes_on :
      (fuel : ℕ) (f g : StripeFetcher Source Target) (id : ℕ) (rest : List ℕ)
      → f.fetch_queue ≡ id ∷ rest
      → has_available f.buffer_pool ≡ true
      → start_fetch (record f { fetch_queue = rest }) id ≡ ok g
      → start_loop (suc fuel) f ≡ start_loop fuel g
  unfolding start_loop
  goes_on fuel f g id rest e available ran = ground (arith, e, available, ran)

  start_loop-Ends :
      (quiet : Quiet Source) (fuel : ℕ) (f : StripeFetcher Source Target) (queue : List ℕ)
      → f.fetch_queue ≡ queue
      → IsReady f
      → work f ≤ fuel
      → Ends (start_loop fuel f)
  start_loop-Ends quiet fuel f [] e h enough = record {
    last = f;
    runs = stop_empty fuel f e;
    ready = h;
    exits = inl e;
  }
  start_loop-Ends quiet zero f (id ∷ rest) e h enough =
      absurd (omega (arith, enough, ap (all_tries f.stripe_fetch_retries) e))
  start_loop-Ends quiet (suc fuel) f (id ∷ rest) e h enough =
      elim (Bool-cases (has_available f.buffer_pool)) [
        | inr full ↦ record {
          last = f;
          runs = stop_full (suc fuel) f full;
          ready = h;
          exits = inr full;
        }
        | inl available ↦
            let a =
              start_fetch-Advances quiet f id rest available h.pool_ok (subst NoDup e h.distinct) (
                subst (All (λ (i : ℕ). i < length f.shared_metadata_state.stripe_fetch_states)) e
                  h.in_range) in
            let k =
              start_loop-Ends quiet fuel a.next a.next.fetch_queue refl a.ready
                (omega (arith, a.less, enough, ap (all_tries f.stripe_fetch_retries) e)) in
            record {
              last = k.last;
              runs = goes_on fuel f a.next id rest e available a.runs ∙ k.runs;
              ready = k.ready;
              exits = k.exits;
            }
      ]

  -- Over a source whose requests do not panic, from a valid pool and a queue of stripes of the device
  -- without repetition: `start_fetches` does not panic, and its loop ends, by itself, when nothing is
  -- queued or no buffer is left, although each stripe whose request fails is queued again.
  pub start_fetches-Ends :
      (quiet : Quiet Source) (f : StripeFetcher Source Target) → IsReady f → Ends (start_fetches f)
  unfolding start_fetches
  start_fetches-Ends quiet f h =
      start_loop-Ends quiet (4 * length f.fetch_queue) f f.fetch_queue refl h
        (all_tries-le f.stripe_fetch_retries f.fetch_queue)
