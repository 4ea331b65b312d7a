-- ===== src/Archiver/Ledger.antt =====
-- src/archive/mod.rs: what a store was handed, and how many of its uploads are not reported yet, as
-- far as its methods `start_put_object` and `poll_puts` say.
use ubiblk.Prelude.{
  ℕ, zero, suc, ◌+◌, ◌≤◌, ◌≡◌, some, List, [], ◌∷◌, Result, ok, arith, length, Option-cases, inl,
  inr,
}
use ubiblk.Archive.{ArchiveStore, ObjectName, find_result, wait_for_put, put_object}

-- A relation between a store and the objects that it was handed, and a count of its uploads.
pub record Ledger (Store : ArchiveStore) : Type 1 where
  pub handed : Store.State → ObjectName → List ℕ → Type 0
  pub running : Store.State → ℕ
  pub handed_now :
      (s : Store.State) (name : ObjectName) (bytes : List ℕ)
      → handed (Store.start_put_object s name bytes) name bytes
  pub handed_before :
      (s : Store.State) (name other : ObjectName) (bytes others : List ℕ)
      → handed s name bytes
      → handed (Store.start_put_object s other others) name bytes
  pub handed_polled :
      (s : Store.State) (name : ObjectName) (bytes : List ℕ)
      → handed s name bytes
      → handed (Store.poll_puts s).0 name bytes
  pub running_put :
      (s : Store.State) (name : ObjectName) (bytes : List ℕ)
      → running (Store.start_put_object s name bytes) ≡ suc (running s)
  pub running_polled :
      (s : Store.State) → running (Store.poll_puts s).0 + length (Store.poll_puts s).1 ≡ running s

found_one :
    {A : Type 0} (name : ObjectName) (results : List (ObjectName × Result A)) (r : Result A)
    → find_result name results ≡ some r
    → 1 ≤ length results
unfolding find_result
found_one name [] r e = cc
found_one name (x ∷ results) r e = omega arith

module _ {Store : ArchiveStore} (L : Ledger Store) where
  wait_for_put-handed :
      (polls : ℕ) (s : Store.State) (waited name : ObjectName) (bytes : List ℕ)
      → L.handed s name bytes
      → L.handed (wait_for_put Store polls s waited).0 name bytes
  unfolding wait_for_put
  wait_for_put-handed zero s waited name bytes h = h
  wait_for_put-handed (suc polls) s waited name bytes h =
      let polled = L.handed_polled s name bytes h in
      elim (Option-cases (find_result waited (Store.poll_puts s).1)) [
        | inl e ↦
            rw (e, wait_for_put)
              (wait_for_put-handed polls (Store.poll_puts s).0 waited name bytes polled)
        | inr (r, e) ↦ rw (e, wait_for_put) polled
      ]

  -- A put keeps what the store was handed before.
  put_object-handed :
      (polls : ℕ) (s : Store.State) (other name : ObjectName) (others bytes : List ℕ)
      → L.handed s name bytes
      → L.handed (put_object Store polls s other others).0 name bytes
  unfolding put_object
  put_object-handed polls s other name others bytes h =
      wait_for_put-handed polls (Store.start_put_object s other others) other name bytes
        (L.handed_before s name other bytes others h)

  wait_for_put-running :
      (polls : ℕ) (s : Store.State) (waited : ObjectName)
      → L.running s ≤ 1
      → (wait_for_put Store polls s waited).1 ≡ ok tt
      → L.running (wait_for_put Store polls s waited).0 ≡ 0
  unfolding wait_for_put
  wait_for_put-running zero s waited few done = cc
  wait_for_put-running (suc polls) s waited few done =
      let count = L.running_polled s in
      elim (Option-cases (find_result waited (Store.poll_puts s).1)) [
        | inl e ↦
            rw (e, wait_for_put)
              (wait_for_put-running polls (Store.poll_puts s).0 waited (omega arith)
                (rw (e, wait_for_put) at done))
        | inr (r, e) ↦
            rw (e, wait_for_put) (omega (arith, found_one waited (Store.poll_puts s).1 r e))
      ]

  -- A put that succeeds with nothing else in flight leaves nothing in flight.
  put_object-running :
      (polls : ℕ) (s : Store.State) (name : ObjectName) (bytes : List ℕ)
      → L.running s ≡ 0
      → (put_object Store polls s name bytes).1 ≡ ok tt
      → L.running (put_object Store polls s name bytes).0 ≡ 0
  unfolding put_object
  put_object-running polls s name bytes idle done =
      wait_for_put-running polls (Store.start_put_object s name bytes) name
        (omega (arith, L.running_put s name bytes)) done

-- A run of synchronous puts that all succeed.
pub data Puts (Store : ArchiveStore) (polls : ℕ) : Store.State → Store.State → Type 0 where
  none_put : {store : Store.State} → Puts Store polls store store
  one_put :
      {store later : Store.State} (name : ObjectName) (bytes : List ℕ)
      → (put_object Store polls store name bytes).1 ≡ ok tt
      → Puts Store polls (put_object Store polls store name bytes).0 later
      → Puts Store polls store later

module _ {Store : ArchiveStore} (L : Ledger Store) {polls : ℕ} where
  pub Puts-handed :
      {store later : Store.State} {name : ObjectName} {bytes : List ℕ}
      → Puts Store polls store later
      → L.handed store name bytes
      → L.handed later name bytes
  Puts-handed none_put h = h
  Puts-handed {store} {later} {name} {bytes} (one_put other others put rest) h =
      Puts-handed rest (put_object-handed L polls store other name others bytes h)

  pub Puts-running :
      {store later : Store.State}
      → Puts Store polls store later
      → L.running store ≡ 0
      → L.running later ≡ 0
  Puts-running none_put idle = idle
  Puts-running {store} (one_put name bytes put rest) idle =
      Puts-running rest (put_object-running L polls store name bytes idle put)
