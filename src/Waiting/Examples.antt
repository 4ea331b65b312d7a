-- ===== src/Waiting/Examples.antt =====
-- src/block_device/wait_for_completion.rs: a request that is reported at the second poll.
use ubiblk.Error.{io_error, stripe_fetch_failed, stripe_fetch_timeout}
use ubiblk.Prelude.{
  ℕ, suc, ◌==◌, if◌then◌else◌, ◌≡◌, refl, true, false, List, [], ◌∷◌, Result, ok, none, some, arith,
}
use ubiblk.IoChannel.{IoChannel, Completion}
use ubiblk.StripeSource.{StripeSource}
use ubiblk.Waiting.{find_completion, wait_for_completion, wait_for_stripe}
use ubiblk.Waiting.Laws.{
  Polls, none_yet, polled, first, never, verdict, outcome, wait_for_completion_lem,
  wait_for_stripe_lem,
}

-- The number of the poll.
abbrev step : ℕ → Result (ℕ × List Completion)
step n = ok (suc n, if n == 1 then (4, true) ∷ [] else (9, false) ∷ [])

abbrev slow : IoChannel
slow = record {
  State = ℕ;
  add_read = λ n _ _ _ _. ok n;
  add_write = λ n _ _ _ _. ok n;
  add_flush = λ n _. ok n;
  submit = λ n. (n, ok tt);
  poll = step;
  busy = λ _. true;
}

abbrev slow_source : StripeSource
slow_source = record {
  State = ℕ;
  request = λ n _ _. (n, ok tt);
  poll = step;
  busy = λ _. true;
  sector_count = λ _. 16;
  has_stripe = λ _ _. true;
}

reports : Polls step 0 2 ((9, false) ∷ (4, true) ∷ []) 2
reports = polled ((9, false) ∷ []) refl (polled ((4, true) ∷ []) refl none_yet)

second_poll_runs : wait_for_completion slow 2 0 4 ≡ ok 2
unfolding wait_for_completion find_completion
second_poll_runs = refl

wait_for_completion_example :
    outcome (wait_for_completion slow 2 0 4) ≡ verdict io_error io_error (some true)
wait_for_completion_example =
    wait_for_completion_lem slow 2 0 2 4 ((9, false) ∷ (4, true) ∷ []) (some true) reports
      (first ((9, false) ∷ []) true [] ((λ e. omega arith), tt))

-- No poll in time reports the stripe 5.
wait_for_stripe_example :
    outcome (wait_for_stripe slow_source 1 0 5)
    ≡ verdict (stripe_fetch_timeout 5) (stripe_fetch_failed 5) none
wait_for_stripe_example =
    wait_for_stripe_lem slow_source 1 0 2 5 ((9, false) ∷ (4, true) ∷ []) none reports
      (never ((9, false) ∷ (4, true) ∷ []) ((λ e. omega arith), ((λ e. omega arith), tt)))
