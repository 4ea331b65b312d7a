-- ===== src/StripeFetcher/Loop.antt =====
-- src/block_device/bdev_lazy/stripe_fetcher.rs: the loop of `start_fetches` ends, although a request
-- that fails lengthens the queue again.
use ubiblk.Prelude.{
  ℕ, suc, ◌+◌, ◌-◌, ◌*◌, ◌≤◌, ◌<◌, ◌≡◌, refl, sym, ap, ◌∙◌, subst, true, false, Option, List, [],
  ◌∷◌, ◌++◌, Result, ok, ltb, ltb→lt, length, arith, inl, inr, All, All-append, lookup, insert,
  remove, lookup-insert, lookup-remove, insert_self, contains, NoDup, NoDup-push, Bool-cases,
}
use ubiblk.BufferPool.Laws.{IsValid}
use ubiblk.IoChannel.{IoChannel}
use ubiblk.SharedState.{set_stripe_failed}
use ubiblk.SharedState.Sizes.{Sets, set_stripe_failed-Sets}
use ubiblk.StripeSource.{StripeSource}
use ubiblk.StripeFetcher.{StripeFetcher, queued, unwrap_or, fetch_failed}

-- The tries that a stripe has left, from its number of retries.
abbrev pub tries : List (ℕ × ℕ) → ℕ → ℕ
tries retries id = suc (3 - unwrap_or (lookup id retries) 0)

abbrev pub all_tries : List (ℕ × ℕ) → List ℕ → ℕ
all_tries retries [] = 0
all_tries retries (id ∷ ids) = tries retries id + all_tries retries ids

pub all_tries-le : (retries : List (ℕ × ℕ)) (ids : List ℕ) → all_tries retries ids ≤ 4 * length ids
all_tries-le retries [] = omega arith
all_tries-le retries (id ∷ ids) = omega (arith, all_tries-le retries ids)

all_tries-append :
    (retries : List (ℕ × ℕ)) (xs ys : List ℕ)
    → all_tries retries (xs ++ ys) ≡ all_tries retries xs + all_tries retries ys
all_tries-append retries [] ys = omega arith
all_tries-append retries (x ∷ xs) ys = omega (arith, all_tries-append retries xs ys)

-- The tries of the other stripes are not touched.
tries-insert_other :
    (retries : List (ℕ × ℕ)) (id r : ℕ) (ids : List ℕ)
    → contains id ids ≡ false
    → all_tries (insert id r retries) ids ≡ all_tries retries ids
unfolding contains
tries-insert_other retries id r [] fresh = refl
tries-insert_other retries id r (x ∷ ids) fresh =
    let same : lookup x (insert id r retries) ≡ lookup x retries =
      ground (arith, lookup-insert id x r retries) in
    ap (λ (o : Option ℕ). suc (3 - unwrap_or o 0) + all_tries (insert id r retries) ids) same
    ∙ ap (λ (n : ℕ). tries retries x + n) (tries-insert_other retries id r ids (ground arith))

tries-remove_other :
    (retries : List (ℕ × ℕ)) (id : ℕ) (ids : List ℕ)
    → contains id ids ≡ false
    → all_tries (remove id retries) ids ≡ all_tries retries ids
unfolding contains
tries-remove_other retries id [] fresh = refl
tries-remove_other retries id (x ∷ ids) fresh =
    let same : lookup x (remove id retries) ≡ lookup x retries =
      ground (arith, lookup-remove id x retries) in
    ap (λ (o : Option ℕ). suc (3 - unwrap_or o 0) + all_tries (remove id retries) ids) same
    ∙ ap (λ (n : ℕ). tries retries x + n) (tries-remove_other retries id ids (ground arith))

again_less :
    (retries : List (ℕ × ℕ)) (id : ℕ) (ids : List ℕ)
    → contains id ids ≡ false
    → ltb (unwrap_or (lookup id retries) 0) 3 ≡ true
    → all_tries (insert id (unwrap_or (lookup id retries) 0 + 1) retries) (ids ++ id ∷ [])
      < all_tries retries (id ∷ ids)
again_less retries id ids fresh more =
    let r = unwrap_or (lookup id retries) 0 in
    let one_less : tries (insert id (r + 1) retries) id ≡ suc (3 - (r + 1)) =
      ap (λ (o : Option ℕ). suc (3 - unwrap_or o 0)) (insert_self id retries (r + 1)) in
    let small : r < 3 = ltb→lt r 3 more in
    omega (
      arith,
      all_tries-append (insert id (r + 1) retries) ids (id ∷ []),
      tries-insert_other retries id (r + 1) ids fresh,
      one_less,
      small,
    )

last_less :
    (retries : List (ℕ × ℕ)) (id : ℕ) (ids : List ℕ)
    → contains id ids ≡ false
    → all_tries (remove id retries) ids < all_tries retries (id ∷ ids)
last_less retries id ids fresh = omega (arith, tries-remove_other retries id ids fresh)

module _ {Source : StripeSource} {Target : IoChannel} where
  -- What the loop needs: a valid pool, and a queue of the device's stripes, each of them once.
  pub record IsReady (f : StripeFetcher Source Target) : Type 0 where
    pub pool_ok : IsValid f.buffer_pool
    pub distinct : NoDup f.fetch_queue
    pub in_range :
        All (λ (id : ℕ). id < length f.shared_metadata_state.stripe_fetch_states) f.fetch_queue

  abbrev pub work : StripeFetcher Source Target → ℕ
  work f = all_tries f.stripe_fetch_retries f.fetch_queue

  -- One round: it does not panic, and there is less to do.
  pub record Advances (f : StripeFetcher Source Target) (rest : List ℕ) (id : ℕ)
      (r : Result (StripeFetcher Source Target)) : Type 0 where
    pub next : StripeFetcher Source Target
    pub runs : r ≡ ok next
    pub ready : IsReady next
    pub less : work next < all_tries f.stripe_fetch_retries (id ∷ rest)

  -- A request that failed, with its buffer back in the pool.
  pub failed-Advances :
      (f : StripeFetcher Source Target) (id : ℕ)
      → IsReady f
      → contains id f.fetch_queue ≡ false
      → id < length f.shared_metadata_state.stripe_fetch_states
      → Advances f f.fetch_queue id (fetch_failed f id)
  failed-Advances f id h fresh small =
      elim (Bool-cases (ltb (unwrap_or (lookup id f.stripe_fetch_retries) 0) 3)) [
        | inl again ↦ record {
          next = record f {
            stripe_fetch_retries =
                insert id (unwrap_or (lookup id f.stripe_fetch_retries) 0 + 1)
                  f.stripe_fetch_retries;
            fetch_queue = f.fetch_queue ++ id ∷ [];
            stripe_states = insert id queued f.stripe_states;
          };
          runs = runs_again again;
          ready = record {
            pool_ok = h.pool_ok;
            distinct = NoDup-push id f.fetch_queue fresh h.distinct;
            in_range =
                All-append (λ (i : ℕ). i < length f.shared_metadata_state.stripe_fetch_states)
                  f.fetch_queue (id ∷ []) h.in_range (small, tt);
          };
          less = again_less f.stripe_fetch_retries id f.fetch_queue fresh again;
        }
        | inr last ↦
            let s = set_stripe_failed-Sets f.shared_metadata_state id small in
            record {
              next = record f {
                shared_metadata_state = s.next;
                stripe_states = remove id f.stripe_states;
                stripe_fetch_retries = remove id f.stripe_fetch_retries;
                finished_fetches = f.finished_fetches ++ (id, false) ∷ [];
              };
              runs = runs_last last s;
              ready = record {
                pool_ok = h.pool_ok;
                distinct = h.distinct;
                in_range =
                    subst (λ (n : ℕ). All (λ (i : ℕ). i < n) f.fetch_queue) (sym s.fetch_size)
                      h.in_range;
              };
              less = last_less f.stripe_fetch_retries id f.fetch_queue fresh;
            }
      ]
    where
      runs_again :
          ltb (unwrap_or (lookup id f.stripe_fetch_retries) 0) 3 ≡ true
          → fetch_failed f id
            ≡ ok (record f {
              stripe_fetch_retries =
                  insert id
                    (unwrap_or (lookup id f.stripe_fetch_retries) 0 + 1)
                    f.stripe_fetch_retries;
              fetch_queue = f.fetch_queue ++ id ∷ [];
              stripe_states = insert id queued f.stripe_states;
            })
      runs_again again = unfold fetch_failed in ground arith

      runs_last :
          ltb (unwrap_or (lookup id f.stripe_fetch_retries) 0) 3 ≡ false
          → (s : Sets f.shared_metadata_state (set_stripe_failed f.shared_metadata_state id))
          → fetch_failed f id
            ≡ ok (record f {
              shared_metadata_state = s.next;
              stripe_states = remove id f.stripe_states;
              stripe_fetch_retries = remove id f.stripe_fetch_retries;
              finished_fetches = f.finished_fetches ++ (id, false) ∷ [];
            })
      runs_last last s = unfold fetch_failed in ground (arith, s.runs)
