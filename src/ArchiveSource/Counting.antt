-- ===== src/ArchiveSource/Counting.antt =====
-- src/stripe_source/archive.rs: the requests that are not answered, counted.
use ubiblk.Prelude.{
  ℕ, ◌+◌, ◌≡◌, ◌≢◌, some, List, [], ◌∷◌, ◌++◌, Result, panic, arith, ◌==◌, if◌then◌else◌,
}
use ubiblk.Prelude.ByteMaps
use ubiblk.Archive.{ArchiveStore, ObjectName}
use ubiblk.ArchiveSource.{PendingRequest, ArchiveStripeSource}

-- How often a stripe stands in a list of stripes, or of reports.
unfoldable pub count_of : {V : Type 0} → ℕ → List (ℕ × V) → ℕ
count_of stripe [] = 0
count_of stripe (entry ∷ entries) = (if entry.0 == stripe then 1 else 0) + count_of stripe entries

pub count_of-append :
    {V : Type 0} (stripe : ℕ) (xs ys : List (ℕ × V))
    → count_of stripe (xs ++ ys) ≡ count_of stripe xs + count_of stripe ys
unfolding count_of
count_of-append stripe [] ys = omega arith
count_of-append stripe (x ∷ xs) ys = omega (arith, count_of-append stripe xs ys)

-- The pending requests, without those of the objects that were answered.
unfoldable pub still_pending :
    List (ObjectName × Result (List ℕ))
    → List (ObjectName × PendingRequest)
    → List (ObjectName × PendingRequest)
still_pending [] pending = pending
still_pending (answer ∷ answers) pending = still_pending answers (ByteMaps.remove answer.0 pending)

-- An answer of the store, which does not panic.
unfoldable pub IsAnswer : ObjectName × Result (List ℕ) → Type 0
IsAnswer answer = answer.1 ≢ panic

module _ (Store : ArchiveStore) where
  unfoldable pub waiting : ℕ → PendingRequest → ℕ
  waiting stripe p = count_of stripe p.pending_stripes

  -- The requests for a stripe that are not answered yet.
  unfoldable pub unanswered : ArchiveStripeSource Store → ℕ → ℕ
  unanswered s stripe =
      ByteMaps.total (waiting stripe) s.pending_requests + count_of stripe s.finished_requests

  -- A request that is taken out of the map of pending ones.
  pub taken_out :
      (s : ArchiveStripeSource Store) (name : ObjectName) (p : PendingRequest) (stripe : ℕ)
      → ByteMaps.lookup name s.pending_requests ≡ some p
      → unanswered (record s { pending_requests = ByteMaps.remove name s.pending_requests }) stripe
          + count_of stripe p.pending_stripes
        ≡ unanswered s stripe
  unfolding unanswered waiting
  taken_out s name p stripe e =
      ground (arith, ByteMaps.total-remove (waiting stripe) name s.pending_requests)

  pub reports_out :
      (s : ArchiveStripeSource Store) (stripe : ℕ)
      → count_of stripe s.finished_requests
          + unanswered (record s { finished_requests = [] }) stripe
        ≡ unanswered s stripe
  unfolding unanswered count_of
  reports_out s stripe = omega arith
