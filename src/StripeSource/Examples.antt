-- ===== src/StripeSource/Examples.antt =====
-- src/stripe_source/bdev.rs: a source of twelve sectors in stripes of eight.
use ubiblk.Prelude.{
  ℕ, min, ◌+◌, ◌≤◌, ◌<◌, ◌≡◌, ◌↔◌, ◌⊎◌, refl, true, false, List, [], ◌∷◌, ok, err, arith,
}
use ubiblk.Error.{invalid_parameter, stripe_beyond_source}
use ubiblk.BufferPool.{SharedBuffer}
use ubiblk.IoChannel.{IoChannel}
use ubiblk.Metadata.{div_ceil}
use ubiblk.StripeSource.{BlockDeviceStripeSource, request, has_stripe, offset_of}
use ubiblk.StripeSource.Laws.{has_stripe_iff, request_lem, passed_on}

-- A channel that notes the offsets and counts of the reads.
abbrev notes : IoChannel
notes = record {
  State = List (ℕ × ℕ);
  add_read = λ log off count _ _. ok ((off, count) ∷ log);
  add_write = λ log _ _ _ _. ok log;
  add_flush = λ log _. ok log;
  submit = λ log. (log, ok tt);
  poll = λ log. ok (log, []);
  busy = λ _. false;
}

abbrev twelve : BlockDeviceStripeSource notes
twelve = record { channel = []; stripe_sector_count = 8; source_sector_count = 12 }

abbrev buffer : SharedBuffer
buffer = record { ptr = 100; id = 0; len = 4096 }

last_stripe_runs : request twelve 1 buffer ≡ (record twelve { channel = (8, 4) ∷ [] }, ok tt)
unfolding request offset_of
last_stripe_runs = refl

has_stripe_example : (has_stripe twelve 1 ≡ true) ↔ (1 < div_ceil 12 8)
has_stripe_example = has_stripe_iff twelve 1 (omega arith) (omega arith)

request_example :
    ((12 ≤ 8)
      × (request twelve 1 buffer ≡ (twelve, err (invalid_parameter (stripe_beyond_source 1)))))
    ⊎ ((0 < min 8 4)
        × (8 + min 8 4 ≤ 12)
        × (request twelve 1 buffer ≡ passed_on twelve (notes.add_read [] 8 (min 8 4) buffer 1)))
request_example = request_lem twelve 1 buffer (omega arith) (omega arith) (omega arith)
