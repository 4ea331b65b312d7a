-- ===== src/Archiver/Complete.antt =====
-- src/archive/archiver.rs: the two loops and `archive_all`, seen from the stripes.
use ubiblk.Prelude.{
  ℕ, zero, suc, ◌+◌, ◌<◌, ◌≡◌, Result-cases, inl, inr, refl, sym, ap, ◌∙◌, subst, same_or_not, Bool,
  true, false, some, List, ok, ◌>>=◌, >>=-eq-ok, ok_eq, arith, ltb, Bool-cases, ◌==◌, ◌&&◌,
}
use ubiblk.BufferPool.{SharedBuffer}
use ubiblk.IoChannel.{IoChannel}
use ubiblk.StripeSource.{StripeSource}
use ubiblk.Crypt.{Xts}
use ubiblk.Archive.{ArchiveStore}
use ubiblk.Archive.Compression.{Zstd}
use ubiblk.ArchiveSource.Operations.{is_empty}
use ubiblk.Archiver.{StripeArchiver, stripe_should_be_archived}
use ubiblk.Archiver.Operations.{
  maybe_start_next_stripe, poll_uploads, poll_fetches, start_round, start_loop, drain_loop,
}
use ubiblk.Archiver.Uploaded.{poll_fetches-Keeps}
use ubiblk.Archiver.Covered.{Covered, Keeps, keeps_trans, maybe_start-Keeps, poll_uploads-Keeps}

module _ {Source : StripeSource} {Channel : IoChannel} {Store : ArchiveStore} where
  -- The stripes below `next` that are to be archived are covered.
  abbrev pub CoveredBelow : ℕ → StripeArchiver Source Channel Store → Type 0
  CoveredBelow next a =
      (id : ℕ) → id < next → stripe_should_be_archived a.metadata id ≡ ok true → Covered id a

  keeps_refl : {hex : List ℕ → List ℕ} (a : StripeArchiver Source Channel Store) → Keeps hex a a
  keeps_refl a = record {
    same_metadata = refl;
    same_count = refl;
    covers = λ id c. c;
    objects = λ h. h;
  }

  keeps_below :
      {hex : List ℕ → List ℕ} {a b : StripeArchiver Source Channel Store} (next : ℕ)
      → Keeps hex a b
      → CoveredBelow next a
      → CoveredBelow next b
  keeps_below next k below id lt should =
      k.covers id
        (below id lt (ap (λ m. stripe_should_be_archived m id) (sym k.same_metadata) ∙ should))

  -- Nothing is waited for.
  pub record Drained (a : StripeArchiver Source Channel Store) : Type 0 where
    pub no_buffers : is_empty a.stripe_fetch_buffers ≡ true
    pub no_puts : (a.inflight_puts == 0) ≡ true

  module _ (X : Xts) (Z : Zstd) (sha256 hex : List ℕ → List ℕ)
      (holds : Channel.State → Source.State → SharedBuffer → List ℕ) where
    start_round-Keeps :
        (a b : StripeArchiver Source Channel Store) (id : ℕ) (started : Bool)
        → start_round X Z sha256 hex holds a id ≡ ok (b, started)
        → Keeps hex a b × (started ≡ true → Covered id b)
    unfolding start_round
    start_round-Keeps a b id started e =
        let ((a1, s), ran1, e1) = >>=-eq-ok (maybe_start_next_stripe a id) _ e in
        let (a2, ran2, e2) = >>=-eq-ok (poll_fetches X Z sha256 hex holds a1) _ e1 in
        let (a3, ran3, e3) = >>=-eq-ok (poll_uploads a2) _ e2 in
        let (k1, c) = maybe_start-Keeps hex a a1 id s ran1 in
        let k2 = poll_fetches-Keeps hex X Z sha256 holds a1 a2 ran2 in
        let k3 = poll_uploads-Keeps hex a2 a3 ran3 in
        let same : (a3, s) ≡ (b, started) = ok_eq e3 in
        subst
          (λ (x : StripeArchiver Source Channel Store × Bool).
            Keeps hex a x.0 × (x.1 ≡ true → Covered id x.0))
          same (keeps_trans k1 (keeps_trans k2 k3), λ yes. k3.covers id (k2.covers id (c yes)))

    one_more :
        (a : StripeArchiver Source Channel Store) (next : ℕ)
        → CoveredBelow next a
        → (stripe_should_be_archived a.metadata next ≡ ok true → Covered next a)
        → CoveredBelow (next + 1) a
    one_more a next below last id lt should = elim (same_or_not id next) [
      | inl same ↦
          subst (λ (j : ℕ). Covered j a) (sym same)
            (last (ap (stripe_should_be_archived a.metadata) (sym same) ∙ should))
      | inr other ↦ below id (ground arith) should
    ]

    start_loop-CoveredBelow :
        (fuel : ℕ) (a b : StripeArchiver Source Channel Store) (next : ℕ)
        → start_loop X Z sha256 hex holds fuel a next ≡ some (ok b)
        → CoveredBelow next a
        → Keeps hex a b × CoveredBelow b.stripe_count b
    unfolding start_loop
    start_loop-CoveredBelow zero a b next e below = cc
    start_loop-CoveredBelow (suc fuel) a b next e below =
        elim (Bool-cases (ltb next a.stripe_count)) [
          | inr past ↦
              let same : a ≡ b = ground arith in
              subst
                (λ (x : StripeArchiver Source Channel Store).
                  Keeps hex a x × CoveredBelow x.stripe_count x)
                same (keeps_refl a, λ id lt should. below id (ground arith) should)
          | inl more ↦ elim (Result-cases (stripe_should_be_archived a.metadata next)) [
            | inl (false, skip) ↦
                start_loop-CoveredBelow fuel a b (next + 1) (ground arith)
                  (one_more a next below (λ should. absurd (ground arith)))
            | inl (true, wanted) ↦ elim (Result-cases (start_round X Z sha256 hex holds a next)) [
              | inl ((a1, true), ran) ↦
                  let (k, c) = start_round-Keeps a a1 next true ran in
                  let (l, all) =
                    start_loop-CoveredBelow fuel a1 b (next + 1) (ground arith)
                      (one_more a1 next (keeps_below next k below) (λ should. c refl)) in
                  (keeps_trans k l, all)
              | inl ((a1, false), ran) ↦
                  let (k, c) = start_round-Keeps a a1 next false ran in
                  let (l, all) =
                    start_loop-CoveredBelow fuel a1 b next (ground arith)
                      (keeps_below next k below) in
                  (keeps_trans k l, all)
              | inr (inl (x, failed)) ↦ absurd (ground arith)
              | inr (inr failed) ↦ absurd (ground arith)
            ]
            | inr (inl (x, failed)) ↦ absurd (ground arith)
            | inr (inr failed) ↦ absurd (ground arith)
          ]
        ]

    drain_loop-Drained :
        (fuel : ℕ) (a b : StripeArchiver Source Channel Store)
        → drain_loop X Z sha256 hex holds fuel a ≡ some (ok b)
        → Keeps hex a b × Drained b
    unfolding drain_loop
    drain_loop-Drained zero a b e = cc
    drain_loop-Drained (suc fuel) a b e =
        elim (Bool-cases (is_empty a.stripe_fetch_buffers && a.inflight_puts == 0)) [
          | inl done ↦
              let same : a ≡ b = ground arith in
              subst (λ (x : StripeArchiver Source Channel Store). Keeps hex a x × Drained x) same
                (keeps_refl a, record { no_buffers = ground arith; no_puts = ground arith })
          | inr waiting ↦
              elim (Result-cases (poll_fetches X Z sha256 hex holds a >>= poll_uploads)) [
                | inl (a2, ran) ↦
                    let (a1, ran1, ran2) = >>=-eq-ok (poll_fetches X Z sha256 hex holds a) _ ran in
                    let (k, drained) = drain_loop-Drained fuel a2 b (ground arith) in
                    (
                      keeps_trans (poll_fetches-Keeps hex X Z sha256 holds a a1 ran1)
                          (keeps_trans (poll_uploads-Keeps hex a1 a2 ran2) k),
                      drained,
                    )
                | inr (inl (x, failed)) ↦ absurd (ground arith)
                | inr (inr failed) ↦ absurd (ground arith)
              ]
        ]

    -- What the two loops come to.
    pub record Finished (a b : StripeArchiver Source Channel Store) : Type 0 where
      pub kept : Keeps hex a b
      pub all_covered : CoveredBelow b.stripe_count b
      pub drained : Drained b

    pub start_loop-Finished :
        (fuel : ℕ) (a a1 b : StripeArchiver Source Channel Store)
        → start_loop X Z sha256 hex holds fuel a 0 ≡ some (ok a1)
        → drain_loop X Z sha256 hex holds fuel a1 ≡ some (ok b)
        → Finished a b
    start_loop-Finished fuel a a1 b started drained =
        let (k, below) =
          start_loop-CoveredBelow fuel a a1 0 started (λ id lt should. absurd (omega arith)) in
        let (l, d) = drain_loop-Drained fuel a1 b drained in
        record {
          kept = keeps_trans k l;
          all_covered =
              subst (λ (n : ℕ). CoveredBelow n b) (sym l.same_count)
                (keeps_below a1.stripe_count l below);
          drained = d;
        }
