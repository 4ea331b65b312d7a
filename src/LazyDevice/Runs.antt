-- ===== src/LazyDevice/Runs.antt =====
-- src/block_device/bdev_lazy/device.rs: the calls of a lazy channel as steps, with the worker's
-- changes of the shared state between them.
use ubiblk.Prelude.{ℕ, ◌≡◌, Bool, List, ok}
use ubiblk.BufferPool.{SharedBuffer}
use ubiblk.IoChannel.{IoChannel, Completion}
use ubiblk.SharedState.{SharedMetadataState}
use ubiblk.LazyDevice.{LazyIoChannel, RwRequest, observe}
use ubiblk.LazyDevice.Queue.{add_to_base}
use ubiblk.LazyDevice.Operations.{add_read, add_write, add_flush, submit, poll}
use ubiblk.LazyDevice.Safety.{IsAllowed}
use ubiblk.SharedState.Steps.{Step as Report}
use ubiblk.LazyDevice.Progress.{Later}

-- A property of the metadata state and the base channel that allowed requests keep, and all that
-- is no request.
pub record Keeps (Base : IoChannel) (track_written : Bool)
    (P : SharedMetadataState → Base.State → Type 0) : Type 0 where
  pub passes :
      (s : SharedMetadataState) (r : RwRequest) (b b' : Base.State)
      → IsAllowed s track_written r
      → add_to_base Base b r ≡ ok b'
      → P s b
      → P s b'
  pub flushes :
      (s : SharedMetadataState) (b b' : Base.State) (id : ℕ)
      → Base.add_flush b id ≡ ok b'
      → P s b
      → P s b'
  pub submits : (s : SharedMetadataState) (b : Base.State) → P s b → P s (Base.submit b).0
  pub polls :
      (s : SharedMetadataState) (b b' : Base.State) (completions : List Completion)
      → Base.poll b ≡ ok (b', completions)
      → P s b
      → P s b'
  pub observes : (s s' : SharedMetadataState) (b : Base.State) → Later s s' → P s b → P s' b

-- One call of a method, or a change by the worker.
pub data Step {Base Image : IoChannel} (c c' : LazyIoChannel Base Image) : Type 0 where
  reads :
      (off count : ℕ) (buf : SharedBuffer) (id : ℕ)
      → add_read c off count buf id ≡ ok c'
      → Step c c'
  writes :
      (off count : ℕ) (buf : SharedBuffer) (id : ℕ)
      → add_write c off count buf id ≡ ok c'
      → Step c c'
  flushes : (id : ℕ) → add_flush c id ≡ ok c' → Step c c'
  submits : (submit c).0 ≡ c' → Step c c'
  polls : (completions : List Completion) → poll c ≡ ok (c', completions) → Step c c'
  observes : (s : SharedMetadataState) → Report c.metadata_state s → observe c s ≡ c' → Step c c'

pub data Reach {Base Image : IoChannel} (c : LazyIoChannel Base Image)
    : LazyIoChannel Base Image → Type 0 where
  here : Reach c c
  next : {d e : LazyIoChannel Base Image} → Reach c d → Step d e → Reach c e
