-- ===== src/Archiver/Rounds.antt =====
-- src/archive/archiver.rs: the two loops keep what is noted of the store.
use ubiblk.Prelude.{
  ℕ, zero, suc, ◌+◌, ◌≡◌, ap, subst, inl, inr, Bool, true, false, some, List, ok, ◌>>=◌, >>=-eq-ok,
  ok_eq, arith, Bool-cases, Result-cases, ltb, ◌==◌, ◌&&◌,
}
use ubiblk.BufferPool.{SharedBuffer}
use ubiblk.IoChannel.{IoChannel}
use ubiblk.StripeSource.{StripeSource}
use ubiblk.Crypt.{Xts}
use ubiblk.Archive.{ArchiveStore}
use ubiblk.Archive.Compression.{Zstd}
use ubiblk.ArchiveSource.Operations.{is_empty}
use ubiblk.Archiver.{StripeArchiver, stripe_should_be_archived}
use ubiblk.Archiver.Operations.{
  maybe_start_next_stripe, poll_uploads, poll_fetches, start_round, start_loop, drain_loop,
}
use ubiblk.Archiver.Ledger.{Ledger}
use ubiblk.Archiver.Handed.{
  Stored, same-Stored, maybe_start-SameUploads, poll_fetches-Stored, poll_uploads-Stored,
}

module _ {Source : StripeSource} {Channel : IoChannel} {Store : ArchiveStore} (L : Ledger Store)
    (sha256 hex : List ℕ → List ℕ) (X : Xts) (Z : Zstd)
    (holds : Channel.State → Source.State → SharedBuffer → List ℕ) where
  start_round-Stored :
      (a b : StripeArchiver Source Channel Store) (id : ℕ) (started : Bool)
      → start_round X Z sha256 hex holds a id ≡ ok (b, started)
      → Stored L sha256 hex a
      → Stored L sha256 hex b
  unfolding start_round
  start_round-Stored a b id started e h =
      let ((a1, s), ran1, e1) = >>=-eq-ok (maybe_start_next_stripe a id) _ e in
      let (a2, ran2, e2) = >>=-eq-ok (poll_fetches X Z sha256 hex holds a1) _ e1 in
      let (a3, ran3, e3) = >>=-eq-ok (poll_uploads a2) _ e2 in
      let same : (a3, s) ≡ (b, started) = ok_eq e3 in
      subst (Stored L sha256 hex)
        (ap (λ (t : StripeArchiver Source Channel Store × Bool). t.0) same)
        (poll_uploads-Stored L sha256 hex a2 a3 ran3 (
          poll_fetches-Stored L sha256 hex X Z holds a1 a2 ran2
            (same-Stored L sha256 hex a a1 (maybe_start-SameUploads a a1 id s ran1) h)))

  pub start_loop-Stored :
      (fuel : ℕ) (a b : StripeArchiver Source Channel Store) (next : ℕ)
      → start_loop X Z sha256 hex holds fuel a next ≡ some (ok b)
      → Stored L sha256 hex a
      → Stored L sha256 hex b
  unfolding start_loop
  start_loop-Stored zero a b next e h = cc
  start_loop-Stored (suc fuel) a b next e h = elim (Bool-cases (ltb next a.stripe_count)) [
    | inr past ↦ let same : a ≡ b = ground arith in subst (Stored L sha256 hex) same h
    | inl more ↦ elim (Result-cases (stripe_should_be_archived a.metadata next)) [
      | inl (false, skip) ↦ start_loop-Stored fuel a b (next + 1) (ground arith) h
      | inl (true, wanted) ↦ elim (Result-cases (start_round X Z sha256 hex holds a next)) [
        | inl ((a1, true), ran) ↦
            start_loop-Stored fuel a1 b (next + 1) (ground arith)
              (start_round-Stored a a1 next true ran h)
        | inl ((a1, false), ran) ↦
            start_loop-Stored fuel a1 b next (ground arith)
              (start_round-Stored a a1 next false ran h)
        | inr (inl (x, failed)) ↦ absurd (ground arith)
        | inr (inr failed) ↦ absurd (ground arith)
      ]
      | inr (inl (x, failed)) ↦ absurd (ground arith)
      | inr (inr failed) ↦ absurd (ground arith)
    ]
  ]

  pub drain_loop-Stored :
      (fuel : ℕ) (a b : StripeArchiver Source Channel Store)
      → drain_loop X Z sha256 hex holds fuel a ≡ some (ok b)
      → Stored L sha256 hex a
      → Stored L sha256 hex b
  unfolding drain_loop
  drain_loop-Stored zero a b e h = cc
  drain_loop-Stored (suc fuel) a b e h =
      elim (Bool-cases (is_empty a.stripe_fetch_buffers && a.inflight_puts == 0)) [
        | inl done ↦ let same : a ≡ b = ground arith in subst (Stored L sha256 hex) same h
        | inr waiting ↦ elim (Result-cases (poll_fetches X Z sha256 hex holds a >>= poll_uploads)) [
          | inl (a2, ran) ↦
              let (a1, ran1, ran2) = >>=-eq-ok (poll_fetches X Z sha256 hex holds a) _ ran in
              drain_loop-Stored fuel a2 b (ground arith) (
                poll_uploads-Stored L sha256 hex a1 a2 ran2
                  (poll_fetches-Stored L sha256 hex X Z holds a a1 ran1 h))
          | inr (inl (x, failed)) ↦ absurd (ground arith)
          | inr (inr failed) ↦ absurd (ground arith)
        ]
      ]
