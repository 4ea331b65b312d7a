-- ===== src/Waiting/Laws.antt =====
-- src/block_device/wait_for_completion.rs: what the end of a wait says of the request.
use ubiblk.Error.{UbiblkError, io_error, stripe_fetch_failed, stripe_fetch_timeout}
use ubiblk.Prelude.{
  ℕ, zero, suc, ◌≡◌, ◌≢◌, refl, ap, ◌∙◌, Bool, true, false, Option, none, some, List, [], ◌∷◌, ◌++◌,
  Result, ok, err, panic, arith, All,
}
use ubiblk.IoChannel.{IoChannel, Completion}
use ubiblk.StripeSource.{StripeSource}
use ubiblk.Waiting.{find_completion, wait_for_completion, wait_for_stripe}

-- A number of polls, one after the other, with all that they report.
pub data Polls {State : Type 0} (poll : State → Result (State × List Completion))
    : State → ℕ → List Completion → State → Type 0 where
  none_yet : {c : State} → Polls poll c 0 [] c
  polled :
      {c d e : State} {n : ℕ} (now : List Completion) {later : List Completion}
      → poll c ≡ ok (d, now)
      → Polls poll d n later e
      → Polls poll c (suc n) (now ++ later) e

find-append :
    (id : ℕ) (xs ys : List Completion)
    → find_completion id (xs ++ ys) ≡ (elim (find_completion id xs) as (λ _. Option Bool) [
      | none ↦ find_completion id ys
      | some b ↦ some b
    ])
unfolding find_completion
find-append id [] ys = refl
find-append id ((j, b) ∷ xs) ys = ground (arith, find-append id xs ys)

-- What a sequence of reports says of a request: the first report of it, with none of it before, or
-- nothing at all.
pub data Answer (id : ℕ) : List Completion → Option Bool → Type 0 where
  first :
      (before : List Completion) (success : Bool) (after : List Completion)
      → All (λ (c : Completion). c.0 ≢ id) before
      → Answer id (before ++ (id, success) ∷ after) (some success)
  never :
      (reports : List Completion)
      → All (λ (c : Completion). c.0 ≢ id) reports
      → Answer id reports none

find-others :
    (id : ℕ) (xs ys : List Completion)
    → All (λ (c : Completion). c.0 ≢ id) xs
    → find_completion id (xs ++ ys) ≡ find_completion id ys
unfolding find_completion
find-others id [] ys others = refl
find-others id ((j, b) ∷ xs) ys (other, others) = ground (arith, find-others id xs ys others)

find-none :
    (id : ℕ) (xs : List Completion)
    → All (λ (c : Completion). c.0 ≢ id) xs
    → find_completion id xs ≡ none
unfolding find_completion
find-none id [] others = refl
find-none id ((j, b) ∷ xs) (other, others) = ground (arith, find-none id xs others)

find-first : (id : ℕ) (b : Bool) (xs : List Completion) → find_completion id ((id, b) ∷ xs) ≡ some b
unfolding find_completion
find-first id b xs = ground arith

-- The loop over reports finds their answer.
find-Answer :
    (id : ℕ) (reports : List Completion) (answer : Option Bool)
    → Answer id reports answer
    → find_completion id reports ≡ answer
unfolding find_completion
find-Answer id _ _ (first before success after others) =
    find-others id before ((id, success) ∷ after) others ∙ find-first id success after
find-Answer id _ _ (never reports others) = find-none id reports others

-- The verdict on a request, by the first report of it, or none.
pub verdict : UbiblkError → UbiblkError → Option Bool → Result (Unit {0})
verdict late bad none = err late
verdict late bad (some true) = ok tt
verdict late bad (some false) = err bad

pub outcome : {State : Type 0} → Result State → Result (Unit {0})
outcome (ok c) = ok tt
outcome (err e) = err e
outcome panic = panic

wait_for_completion-find :
    (Channel : IoChannel) (polls : ℕ) (c e : Channel.State) (id : ℕ) (completions : List Completion)
    → Polls Channel.poll c polls completions e
    → outcome (wait_for_completion Channel polls c id)
      ≡ verdict io_error io_error (find_completion id completions)
unfolding wait_for_completion verdict outcome find_completion
wait_for_completion-find Channel zero c e id completions none_yet = refl
wait_for_completion-find Channel (suc polls) c e id completions
      (polled {d = d} now {later} ran rest) =
    let go = wait_for_completion-find Channel polls d e id later rest in
    ground (arith, ran, find-append id now later, go)

wait_for_stripe-find :
    (Source : StripeSource) (polls : ℕ) (c e : Source.State) (id : ℕ)
    (completions : List Completion)
    → Polls Source.poll c (suc polls) completions e
    → outcome (wait_for_stripe Source polls c id)
      ≡ verdict (stripe_fetch_timeout id) (stripe_fetch_failed id) (find_completion id completions)
unfolding wait_for_stripe verdict outcome find_completion
wait_for_stripe-find Source zero c e id completions (polled {d = d} now {later} ran none_yet) =
    ground (arith, ran, find-append id now [])
wait_for_stripe-find Source (suc polls) c e id completions (polled {d = d} now {later} ran rest) =
    let go = wait_for_stripe-find Source polls d e id later rest in
    ground (arith, ran, find-append id now later, go)

-- If all polls before the timeout run and report `completions` in all: waiting succeeds exactly if
-- the first report of the request is a success; a failure, or no report of it at all, is an error.
pub wait_for_completion_lem :
    (Channel : IoChannel) (polls : ℕ) (c e : Channel.State) (id : ℕ) (completions : List Completion)
    (answer : Option Bool)
    → Polls Channel.poll c polls completions e
    → Answer id completions answer
    → outcome (wait_for_completion Channel polls c id) ≡ verdict io_error io_error answer
wait_for_completion_lem Channel polls c e id completions answer ran says =
    wait_for_completion-find Channel polls c e id completions ran
    ∙ ap (verdict io_error io_error) (find-Answer id completions answer says)

-- The same of a stripe that is waited for, with its own errors: one for a fetch that failed, and one
-- for a fetch that was not reported in time. There is one poll at least.
pub wait_for_stripe_lem :
    (Source : StripeSource) (polls : ℕ) (c e : Source.State) (id : ℕ)
    (completions : List Completion) (answer : Option Bool)
    → Polls Source.poll c (suc polls) completions e
    → Answer id completions answer
    → outcome (wait_for_stripe Source polls c id)
      ≡ verdict (stripe_fetch_timeout id) (stripe_fetch_failed id) answer
wait_for_stripe_lem Source polls c e id completions answer ran says =
    wait_for_stripe-find Source polls c e id completions ran
    ∙ ap (verdict (stripe_fetch_timeout id) (stripe_fetch_failed id))
        (find-Answer id completions answer says)
