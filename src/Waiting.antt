-- ===== src/Waiting.antt =====
-- src/block_device/wait_for_completion.rs and src/stripe_source/wait.rs: polling until a request is
-- done. The clock is a number of polls: `polls` is how many fit before the timeout.
pub mod Laws
mod Examples
use ubiblk.Error.{UbiblkError, io_error, stripe_fetch_failed, stripe_fetch_timeout}
use ubiblk.Prelude.{
  ℕ, zero, suc, Bool, true, false, Option, none, some, List, [], ◌∷◌, Result, ok, err, panic, ◌>>=◌,
  ◌==◌, if◌then◌else◌,
}
use ubiblk.IoChannel.{IoChannel, Completion}
use ubiblk.StripeSource.{StripeSource}

-- The loop over the completions of one poll.
unfoldable pub find_completion : ℕ → List Completion → Option Bool
find_completion request_id [] = none
find_completion request_id ((id, success) ∷ completions) =
    if id == request_id then some success else find_completion request_id completions

unfoldable pub wait_for_completion :
    (Channel : IoChannel) → ℕ → Channel.State → ℕ → Result Channel.State
unfolding find_completion
wait_for_completion Channel zero channel request_id = err io_error
wait_for_completion Channel (suc polls) channel request_id = do
  (channel', completions) ← Channel.poll channel
  let rest = wait_for_completion Channel polls channel' request_id
  elim (find_completion request_id completions) [
    | none ↦ rest
    | some success ↦ if success then ok channel' else err io_error
  ]

-- The time is looked at after the poll, so there is one poll at least.
unfoldable pub wait_for_stripe :
    (Source : StripeSource) → ℕ → Source.State → ℕ → Result Source.State
unfolding find_completion
wait_for_stripe Source zero source stripe_id = do
  (source', completed) ← Source.poll source
  elim (find_completion stripe_id completed) [
    | none ↦ err (stripe_fetch_timeout stripe_id)
    | some success ↦ if success then ok source' else err (stripe_fetch_failed stripe_id)
  ]
wait_for_stripe Source (suc polls) source stripe_id = do
  (source', completed) ← Source.poll source
  let rest = wait_for_stripe Source polls source' stripe_id
  elim (find_completion stripe_id completed) [
    | none ↦ rest
    | some success ↦ if success then ok source' else err (stripe_fetch_failed stripe_id)
  ]
