-- ===== src/LazyDevice/Progress.antt =====
-- src/block_device/bdev_lazy/device.rs: what a report of the worker does for the requests of a channel.
use ubiblk.Prelude.{
  ℕ, zero, suc, ◌/◌, ◌%◌, ◌^◌, ◌≡◌, ◌≢◌, refl, ap, subst, get_elem?-set_ne, ◌∙◌, Bool, true, false,
  List, [], ◌∷◌, some, ok, ◌>>=◌, >>=-eq-ok, ok_eq, unwrap, unwrap_inv, if◌then◌else◌, get_elem?,
  set, arith, ◌⊎◌,
}
use ubiblk.SharedState.{
  SharedMetadataState, stripe_fetch_state, stripe_written, sector_to_stripe_id, set_stripe_header,
  set_stripe_failed, mark_fetched, mark_written,
}
use ubiblk.SharedState.Steps.{Step, report, fail}
use ubiblk.LazyDevice.{fetch_status_of, all_written, complete}

-- What is there stays there, and a stripe keeps its sectors.
pub record Later (s s' : SharedMetadataState) : Type 0 where
  pub still_present :
      (ids : List ℕ) → fetch_status_of s ids ≡ ok complete → fetch_status_of s' ids ≡ ok complete
  pub still_written : (ids : List ℕ) → all_written s ids ≡ ok true → all_written s' ids ≡ ok true
  pub same_stripes : (sector : ℕ) → sector_to_stripe_id s' sector ≡ sector_to_stripe_id s sector

-- One stripe that a request may use stays so.
record Grows (s s' : SharedMetadataState) : Type 0 where
  fetch_grows :
      (i x : ℕ)
      → get_elem? s.stripe_fetch_states i ≡ some x
      → x ≢ 0
      → x ≢ 2
      → (y : ℕ) × (get_elem? s'.stripe_fetch_states i ≡ some y) × (y ≢ 0) × (y ≢ 2)
  write_grows :
      (i : ℕ)
      → get_elem? s.stripe_write_states i ≡ some 1
      → get_elem? s'.stripe_write_states i ≡ some 1
  shift_kept : s'.stripe_sector_count_shift ≡ s.stripe_sector_count_shift

complete_first :
    (s : SharedMetadataState) (i : ℕ) (ids : List ℕ)
    → fetch_status_of s (i ∷ ids) ≡ ok complete
    → (x : ℕ) × (get_elem? s.stripe_fetch_states i ≡ some x)
      × (x ≢ 0)
      × (x ≢ 2)
      × (fetch_status_of s ids ≡ ok complete)
unfolding fetch_status_of stripe_fetch_state
complete_first s i ids e =
    let (x, at, e') = >>=-eq-ok (unwrap (get_elem? s.stripe_fetch_states i)) _ e in
    (x, unwrap_inv _ _ at, ground arith, ground arith, ground arith)

complete_cons :
    (s : SharedMetadataState) (i x : ℕ) (ids : List ℕ)
    → get_elem? s.stripe_fetch_states i ≡ some x
    → x ≢ 0
    → x ≢ 2
    → fetch_status_of s ids ≡ ok complete
    → fetch_status_of s (i ∷ ids) ≡ ok complete
unfolding fetch_status_of stripe_fetch_state
complete_cons s i x ids at h0 h2 rest = ground arith

Grows-present :
    (s s' : SharedMetadataState) (ids : List ℕ)
    → Grows s s'
    → fetch_status_of s ids ≡ ok complete
    → fetch_status_of s' ids ≡ ok complete
unfolding fetch_status_of
Grows-present s s' [] g e = refl
Grows-present s s' (i ∷ ids) g e =
    let (x, at, h0, h2, rest) = complete_first s i ids e in
    let (y, at', k0, k2) = g.fetch_grows i x at h0 h2 in
    complete_cons s' i y ids at' k0 k2 (Grows-present s s' ids g rest)

written_first :
    (s : SharedMetadataState) (i : ℕ) (ids : List ℕ)
    → all_written s (i ∷ ids) ≡ ok true
    → (get_elem? s.stripe_write_states i ≡ some 1) × (all_written s ids ≡ ok true)
unfolding all_written stripe_written
written_first s i ids e =
    let (x, at, e') = >>=-eq-ok (stripe_written s i) _ e in
    let (y, at', e'') = >>=-eq-ok (unwrap (get_elem? s.stripe_write_states i)) _ at in
    (unwrap_inv _ _ (ground arith), ground arith)

written_cons :
    (s : SharedMetadataState) (i : ℕ) (ids : List ℕ)
    → get_elem? s.stripe_write_states i ≡ some 1
    → all_written s ids ≡ ok true
    → all_written s (i ∷ ids) ≡ ok true
unfolding all_written stripe_written
written_cons s i ids at rest = ground arith

Grows-written :
    (s s' : SharedMetadataState) (ids : List ℕ)
    → Grows s s'
    → all_written s ids ≡ ok true
    → all_written s' ids ≡ ok true
unfolding all_written
Grows-written s s' [] g e = refl
Grows-written s s' (i ∷ ids) g e =
    let (at, rest) = written_first s i ids e in
    written_cons s' i ids (g.write_grows i at) (Grows-written s s' ids g rest)

Grows→Later : (s s' : SharedMetadataState) → Grows s s' → Later s s'
unfolding sector_to_stripe_id
Grows→Later s s' g = record {
  still_present = λ ids. Grows-present s s' ids g;
  still_written = λ ids. Grows-written s s' ids g;
  same_stripes = λ sector. ap (λ (k : ℕ). sector / 2 ^ (k % 64)) g.shift_kept;
}

Later-refl : (s : SharedMetadataState) → Later s s
Later-refl s = record {
  still_present = λ ids e. e;
  still_written = λ ids e. e;
  same_stripes = λ sector. refl;
}

Later-trans : (s t u : SharedMetadataState) → Later s t → Later t u → Later s u
Later-trans s t u a b = record {
  still_present = λ ids e. b.still_present ids (a.still_present ids e);
  still_written = λ ids e. b.still_written ids (a.still_written ids e);
  same_stripes = λ sector. b.same_stripes sector ∙ a.same_stripes sector;
}

set_fetched_grows :
    (xs : List ℕ) (id i x : ℕ)
    → get_elem? xs i ≡ some x
    → x ≢ 0
    → x ≢ 2
    → (y : ℕ) × (get_elem? (set xs id 1) i ≡ some y) × (y ≢ 0) × (y ≢ 2)
set_fetched_grows [] id i x at h0 h2 = cc
set_fetched_grows (z ∷ xs) zero zero x at h0 h2 = (1, refl, omega arith, omega arith)
set_fetched_grows (z ∷ xs) zero (suc i) x at h0 h2 = (x, at, h0, h2)
set_fetched_grows (z ∷ xs) (suc id) zero x at h0 h2 = (x, at, h0, h2)
set_fetched_grows (z ∷ xs) (suc id) (suc i) x at h0 h2 = set_fetched_grows xs id i x at h0 h2

set_written_grows :
    (xs : List ℕ) (id i : ℕ) → get_elem? xs i ≡ some 1 → get_elem? (set xs id 1) i ≡ some 1
set_written_grows [] id i at = cc
set_written_grows (z ∷ xs) zero zero at = refl
set_written_grows (z ∷ xs) zero (suc i) at = at
set_written_grows (z ∷ xs) (suc id) zero at = at
set_written_grows (z ∷ xs) (suc id) (suc i) at = set_written_grows xs id i at

mark_fetched-Later : (s t : SharedMetadataState) (id : ℕ) → mark_fetched s id ≡ ok t → Later s t
unfolding mark_fetched
mark_fetched-Later s t id e =
    let (prev, at, e') = >>=-eq-ok (unwrap (get_elem? s.stripe_fetch_states id)) _ e in
    subst (Later s) (ok_eq e') (
      Grows→Later s _ (record {
        fetch_grows = set_fetched_grows s.stripe_fetch_states id;
        write_grows = λ i at. at;
        shift_kept = refl;
      }))

mark_written-Later : (s t : SharedMetadataState) (id : ℕ) → mark_written s id ≡ ok t → Later s t
unfolding mark_written
mark_written-Later s t id e =
    let (prev, at, e') = >>=-eq-ok (unwrap (get_elem? s.stripe_write_states id)) _ e in
    subst (Later s) (ok_eq e') (
      Grows→Later s _ (record {
        fetch_grows = λ i x at h0 h2. (x, at, h0, h2);
        write_grows = set_written_grows s.stripe_write_states id;
        shift_kept = refl;
      }))

set_failed_other :
    (xs : List ℕ) (id i x prev : ℕ)
    → get_elem? xs id ≡ some prev
    → (prev ≡ 0) ⊎ (prev ≡ 2)
    → get_elem? xs i ≡ some x
    → x ≢ 0
    → x ≢ 2
    → get_elem? (set xs id 2) i ≡ some x
set_failed_other xs id i x prev here was at h0 h2 =
    get_elem?-set_ne xs id i 2 (λ same. ground (arith, same)) ∙ at

flags-Later :
    (s t : SharedMetadataState) (id : ℕ) (f w : Bool)
    → ((if f then mark_fetched s id else ok s) >>= λ marked.
        if w then mark_written marked id else ok marked)
      ≡ ok t
    → Later s t
flags-Later s t id f w e =
    let (u, first, second) = >>=-eq-ok (if f then mark_fetched s id else ok s) _ e in
    Later-trans s u t (by_fetched f u first) (by_written w u second)
  where
    by_fetched :
        (f : Bool) (u : SharedMetadataState)
        → (if f then mark_fetched s id else ok s) ≡ ok u
        → Later s u
    by_fetched true u e = mark_fetched-Later s u id e
    by_fetched false u e = subst (Later s) (ok_eq e) (Later-refl s)

    by_written :
        (w : Bool) (u : SharedMetadataState)
        → (if w then mark_written u id else ok u) ≡ ok t
        → Later u t
    by_written true u e = mark_written-Later u t id e
    by_written false u e = subst (Later u) (ok_eq e) (Later-refl u)

-- A report of the worker never takes a stripe away from the requests that may use it, and moves
-- no sector to another stripe.
pub Step-Later : {s t : SharedMetadataState} → Step s t → Later s t
unfolding set_stripe_header set_stripe_failed stripe_fetch_state
Step-Later {s} {t} (report id header sourced e) = flags-Later s t id _ _ e
Step-Later {s} {t} (fail id prev at was e) =
    let (x, at', e') = >>=-eq-ok (unwrap (get_elem? s.stripe_fetch_states id)) _ e in
    subst (Later s) (ok_eq e') (
      Grows→Later s _ (record {
        fetch_grows = λ i y here h0 h2. (
          y,
          set_failed_other s.stripe_fetch_states id i y prev (unwrap_inv _ _ at) was here h0 h2,
          h0,
          h2,
        );
        write_grows = λ i at. at;
        shift_kept = refl;
      }))
