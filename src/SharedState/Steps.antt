-- ===== src/SharedState/Steps.antt =====
-- src/block_device/bdev_lazy/metadata/shared_state.rs: the reports of the worker, one after another.
use ubiblk.Prelude.{
  ℕ, ◌^◌, ◌<◌, ◌≡◌, ◌≢◌, ◌↔◌, ap, true, false, ok, unwrap, length, get_elem?, arith, >>=-eq-ok,
  unwrap_inv, ok_eq, ◌∙◌, sym, subst, ◌⊎◌, get_elem?-total, get_elem?-lt,
}
use ubiblk.Metadata.{UbiMetadata, has_flag, fetched_flag}
use ubiblk.SharedState.{
  SharedMetadataState, new, set_stripe_header, set_stripe_failed, stripe_fetched_if_needed,
  fetched_stripes, source_stripes, stripe_fetch_state,
}
use ubiblk.SharedState.Counting.{is_done, counts_eq→AllDone, AllDone→counts_eq}
use ubiblk.SharedState.Invariant.{
  IsConsistent, stray, new-IsConsistent, failed-IsConsistent, set_stripe_header-IsConsistent,
}

-- A header with FETCHED is set only for a stripe that has a source; a fetch fails only for a stripe
-- that waits for it, or whose last fetch failed.
pub data Step (s t : SharedMetadataState) : Type 0 where
  report :
      (stripe_id header : ℕ)
      → (has_flag header fetched_flag ≡ true → stripe_fetch_state s stripe_id ≢ ok 3)
      → set_stripe_header s stripe_id header ≡ ok t
      → Step s t
  fail :
      (stripe_id prev : ℕ)
      → stripe_fetch_state s stripe_id ≡ ok prev
      → (prev ≡ 0) ⊎ (prev ≡ 2)
      → set_stripe_failed s stripe_id ≡ ok t
      → Step s t

-- Every report of the worker keeps the counters right.
pub Step-IsConsistent : {s t : SharedMetadataState} → Step s t → IsConsistent s → IsConsistent t
unfolding set_stripe_header set_stripe_failed stripe_fetch_state
Step-IsConsistent {s} {t} (report stripe_id header sourced e) c =
    set_stripe_header-IsConsistent s t stripe_id _ _ sourced e c
Step-IsConsistent {s} {t} (fail stripe_id prev at waits e) c =
    let (x, at', e') = >>=-eq-ok (unwrap (get_elem? s.stripe_fetch_states stripe_id)) _ e in
    subst IsConsistent (ok_eq e') (
      failed-IsConsistent s stripe_id x (unwrap_inv _ _ at')
        (waiting x waits (ok_eq (sym at' ∙ at))) c)
  where
    waiting : (x : ℕ) → (prev ≡ 0) ⊎ (prev ≡ 2) → x ≡ prev → is_done x ≡ false
    waiting x w same = ground arith

pub data Reach (s : SharedMetadataState) : SharedMetadataState → Type 0 where
  here : Reach s s
  next : {t u : SharedMetadataState} → Reach s t → Step t u → Reach s u

pub Reach-IsConsistent : {s t : SharedMetadataState} → Reach s t → IsConsistent s → IsConsistent t
Reach-IsConsistent here c = c
Reach-IsConsistent (next r st) c = Step-IsConsistent st (Reach-IsConsistent r c)

-- From metadata without stray headers, after any reports of the worker: the two counters are equal
-- exactly when no stripe waits for its data.
pub counters_eq_iff :
    (m : UbiMetadata) (s : SharedMetadataState)
    → stray m.stripe_headers ≡ 0
    → length m.stripe_headers < 2 ^ 64
    → Reach (new m) s
    → (source_stripes s ≡ fetched_stripes s) ↔ (
        (stripe_id : ℕ)
        → stripe_id < length s.stripe_fetch_states
        → stripe_fetched_if_needed s stripe_id ≡ ok true)
unfolding source_stripes fetched_stripes stripe_fetched_if_needed stripe_fetch_state
counters_eq_iff m s clean small r = (forward, backward)
  where
    c : IsConsistent s
    c = Reach-IsConsistent r (new-IsConsistent m clean small)

    forward :
        source_stripes s ≡ fetched_stripes s
        → (stripe_id : ℕ) → stripe_id < length s.stripe_fetch_states
        → stripe_fetched_if_needed s stripe_id ≡ ok true
    forward e stripe_id h =
        let (x, at) = get_elem?-total s.stripe_fetch_states stripe_id h in
        let done =
          counts_eq→AllDone s.stripe_fetch_states (sym c.fetched_counted ∙ sym e ∙ c.source_counted)
            stripe_id x at in
        rw at (ap ok done)

    backward :
        ((stripe_id : ℕ)
          → stripe_id < length s.stripe_fetch_states
          → stripe_fetched_if_needed s stripe_id ≡ ok true)
        → source_stripes s ≡ fetched_stripes s
    backward all =
        c.source_counted
        ∙ sym (
            AllDone→counts_eq s.stripe_fetch_states
              (λ i x at. ok_eq (rw at at (all i (get_elem?-lt s.stripe_fetch_states i x at)))))
        ∙ sym c.fetched_counted
