-- ===== src/SharedState/Invariant.antt =====
-- The counters of shared_state.rs agree with the states, whatever the worker reports.
use ubiblk.Prelude.{
  ℕ, ◌+◌, ◌%◌, ◌^◌, ◌<◌, ◌≡◌, ◌≢◌, refl, ap, Bool, true, false, not, ◌&&◌, List, [], ◌∷◌, some, ok,
  unwrap, ◌==◌, if◌then◌else◌, length, get_elem?, set, arith, >>=-eq-ok, unwrap_inv, ok_eq, ◌∙◌,
  subst, ◌>>=◌, length-set,
}
use ubiblk.Metadata.{UbiMetadata, has_flag, fetched_flag, has_source_flag}
use ubiblk.SharedState.{
  SharedMetadataState, new, scan, mark_fetched, mark_written, fetched_stripes, source_stripes,
  stripe_fetch_state,
}
use ubiblk.SharedState.Counting.{count, count-set, count-le-length, is_fetched, has_source, is_done}

pub record IsConsistent (s : SharedMetadataState) : Type 0 where
  pub sized : length s.stripe_write_states ≡ length s.stripe_fetch_states
  pub bounded : length s.stripe_fetch_states < 2 ^ 64
  pub fetched_counted : s.fetched_stripes_count ≡ count is_fetched s.stripe_fetch_states
  pub source_counted : s.source_stripes_count ≡ count has_source s.stripe_fetch_states

-- How many headers have the flag FETCHED but not HAS_SOURCE.
unfoldable pub stray : List ℕ → ℕ
stray [] = 0
stray (h ∷ hs) =
    (if has_flag h has_source_flag then 0 else if has_flag h fetched_flag then 1 else 0) + stray hs

scan_counts :
    (shift : ℕ) (hs : List ℕ)
    → let s = scan shift hs in
      (length s.stripe_fetch_states ≡ length hs)
      × (length s.stripe_write_states ≡ length hs)
      × (s.fetched_stripes_count ≡ count is_fetched s.stripe_fetch_states + stray hs)
      × (s.source_stripes_count ≡ count has_source s.stripe_fetch_states)
unfolding scan count stray
scan_counts shift [] = omega arith
scan_counts shift (h ∷ hs) = ground (arith, scan_counts shift hs)

-- `new` counts the stripes with a source, and those that are fetched; but a header with FETCHED
-- and without HAS_SOURCE is counted as fetched too, although the stripe's state is NoSource.
pub new_counts :
    (m : UbiMetadata)
    → (fetched_stripes (new m)
        ≡ count is_fetched (new m).stripe_fetch_states + stray m.stripe_headers)
      × (source_stripes (new m) ≡ count has_source (new m).stripe_fetch_states)
unfolding new fetched_stripes source_stripes
new_counts m = let (_, _, f, s) = scan_counts m.stripe_sector_count_shift m.stripe_headers in (f, s)

-- Without such headers the new state is consistent.
pub new-IsConsistent :
    (m : UbiMetadata)
    → stray m.stripe_headers ≡ 0
    → length m.stripe_headers < 2 ^ 64
    → IsConsistent (new m)
unfolding new
new-IsConsistent m clean small =
    let (a, b, f, s) = scan_counts m.stripe_sector_count_shift m.stripe_headers in
    record {
      sized = omega (arith, a, b);
      bounded = omega (arith, a);
      fetched_counted = omega (arith, f);
      source_counted = s;
    }

marked_state : SharedMetadataState → ℕ → ℕ → SharedMetadataState
marked_state s stripe_id prev = record s {
  stripe_fetch_states = set s.stripe_fetch_states stripe_id 1;
  fetched_stripes_count =
      if not (prev == 1) && not (prev == 3)
      then (s.fetched_stripes_count + 1) % 2 ^ 64
      else s.fetched_stripes_count;
}

marked-IsConsistent :
    (s : SharedMetadataState) (stripe_id prev : ℕ)
    → get_elem? s.stripe_fetch_states stripe_id ≡ some prev
    → prev ≢ 3
    → IsConsistent s
    → IsConsistent (marked_state s stripe_id prev)
unfolding marked_state
marked-IsConsistent s stripe_id prev e sourced c = record {
  sized = omega (arith, c.sized, len);
  bounded = omega (arith, c.bounded, len);
  fetched_counted = ground (
    arith,
    count-set is_fetched s.stripe_fetch_states stripe_id prev 1 e,
    count-le-length is_fetched (set s.stripe_fetch_states stripe_id 1),
    len,
  );
  source_counted = ground (arith, count-set has_source s.stripe_fetch_states stripe_id prev 1 e);
}
  where
    len : length (set s.stripe_fetch_states stripe_id 1) ≡ length s.stripe_fetch_states
    len = length-set s.stripe_fetch_states stripe_id 1

pub failed-IsConsistent :
    (s : SharedMetadataState) (stripe_id prev : ℕ)
    → get_elem? s.stripe_fetch_states stripe_id ≡ some prev
    → is_done prev ≡ false
    → IsConsistent s
    → IsConsistent (record s { stripe_fetch_states = set s.stripe_fetch_states stripe_id 2 })
failed-IsConsistent s stripe_id prev e waits c = record {
  sized = omega (arith, c.sized, len);
  bounded = omega (arith, c.bounded, len);
  fetched_counted =
      ground
        (arith, count-set is_fetched s.stripe_fetch_states stripe_id prev 2 e, c.fetched_counted);
  source_counted =
      ground
        (arith, count-set has_source s.stripe_fetch_states stripe_id prev 2 e, c.source_counted);
}
  where
    len : length (set s.stripe_fetch_states stripe_id 2) ≡ length s.stripe_fetch_states
    len = length-set s.stripe_fetch_states stripe_id 2

mark_fetched-IsConsistent :
    (s t : SharedMetadataState) (stripe_id : ℕ)
    → stripe_fetch_state s stripe_id ≢ ok 3
    → mark_fetched s stripe_id ≡ ok t
    → IsConsistent s
    → IsConsistent t
unfolding mark_fetched stripe_fetch_state marked_state
mark_fetched-IsConsistent s t stripe_id sourced e c =
    let (prev, at, e') = >>=-eq-ok (unwrap (get_elem? s.stripe_fetch_states stripe_id)) _ e in
    let at' : get_elem? s.stripe_fetch_states stripe_id ≡ some prev = unwrap_inv _ _ at in
    subst IsConsistent (ok_eq e')
      (marked-IsConsistent s stripe_id prev at' (λ three. sourced (at ∙ ap ok three)) c)

mark_written-IsConsistent :
    (s t : SharedMetadataState) (stripe_id : ℕ)
    → mark_written s stripe_id ≡ ok t
    → IsConsistent s
    → IsConsistent t
unfolding mark_written
mark_written-IsConsistent s t stripe_id e c =
    let (prev, at, e') = >>=-eq-ok (unwrap (get_elem? s.stripe_write_states stripe_id)) _ e in
    subst IsConsistent (ok_eq e') (record {
      sized = omega (arith, c.sized, length-set s.stripe_write_states stripe_id 1);
      bounded = c.bounded;
      fetched_counted = c.fetched_counted;
      source_counted = c.source_counted;
    })

-- `set_stripe_header` by its two flags.
pub set_stripe_header-IsConsistent :
    (s t : SharedMetadataState) (stripe_id : ℕ) (f w : Bool)
    → (f ≡ true → stripe_fetch_state s stripe_id ≢ ok 3)
    → ((if f then mark_fetched s stripe_id else ok s) >>= λ marked.
        if w then mark_written marked stripe_id else ok marked)
      ≡ ok t
    → IsConsistent s
    → IsConsistent t
set_stripe_header-IsConsistent s t stripe_id true true h e c =
    let (u, first, second) = >>=-eq-ok (mark_fetched s stripe_id) _ e in
    mark_written-IsConsistent u t stripe_id second
      (mark_fetched-IsConsistent s u stripe_id (h refl) first c)
set_stripe_header-IsConsistent s t stripe_id true false h e c =
    let (u, first, second) = >>=-eq-ok (mark_fetched s stripe_id) ok e in
    mark_fetched-IsConsistent s t stripe_id (h refl) (first ∙ second) c
set_stripe_header-IsConsistent s t stripe_id false true h e c =
    mark_written-IsConsistent s t stripe_id e c
set_stripe_header-IsConsistent s t stripe_id false false h e c = subst IsConsistent (ok_eq e) c
