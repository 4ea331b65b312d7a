-- ===== src/StripeSource/Laws.antt =====
-- src/stripe_source/bdev.rs: which stripes a block device has, and what is read of them.
use native.Mathlib.Nat.{le-div_iff_mul-le}
use ubiblk.Error.{invalid_parameter, stripe_beyond_source}
use ubiblk.Prelude.{
  ℕ, suc, ◌+◌, ◌-◌, ◌*◌, ◌%◌, ◌^◌, ◌≤◌, ◌<◌, min, ◌≡◌, ◌↔◌, sym, ap, ◌∙◌, refl, leb, leb→le, Result,
  panic, true, false, ok, err, ltb, arith, ◌⊎◌, inl, inr, lt→ltb, ltb→lt, Bool-cases, subst,
}
use ubiblk.BufferPool.{SharedBuffer}
use ubiblk.IoChannel.{IoChannel}
use ubiblk.Metadata.{div_ceil}
use ubiblk.StripeSource.{BlockDeviceStripeSource, request, request_read, offset_of, has_stripe}

-- A product, in the ways the proofs need it.
next_multiple : (k c : ℕ) → suc k * c ≡ k * c + c
next_multiple k c = grind arith

no_wrap : (x : ℕ) → x < 2 ^ 64 → x % 2 ^ 64 ≡ x
no_wrap x h = omega arith

round_up : (n c p : ℕ) → 0 < c → (p + c ≤ n + c - 1) ↔ (p < n)
round_up n c p h = (λ a. omega arith, λ b. omega arith)

begins_iff :
    (k c n : ℕ) → 0 < c → k * c < 2 ^ 64 → (ltb (k * c % 2 ^ 64) n ≡ true) ↔ (k < div_ceil n c)
begins_iff k c n positive fits =
    let (to, from) = le-div_iff_mul-le {k = c} {x = suc k} {y = n + c - 1} positive in
    let (shrink, grow) = round_up n c (k * c) positive in
    let next = next_multiple k c in
    let same = no_wrap (k * c) fits in
    (
      λ e. from (
          subst (λ (x : ℕ). x ≤ n + c - 1) (sym next)
            (grow (ltb→lt (k * c) n (ap (λ (x : ℕ). ltb x n) (sym same) ∙ e)))),
      λ h.
          ap (λ (x : ℕ). ltb x n) same
          ∙ lt→ltb (k * c) n (shrink (subst (λ (x : ℕ). x ≤ n + c - 1) next (to h))),
    )

-- The stripes of a source are those that begin before its end, as many as `stripe_count` says, for
-- offsets that fit into 64 bits.
pub has_stripe_iff :
    {Channel : IoChannel} (s : BlockDeviceStripeSource Channel) (stripe_id : ℕ)
    → 0 < s.stripe_sector_count
    → stripe_id * s.stripe_sector_count < 2 ^ 64
    → (has_stripe s stripe_id ≡ true)
      ↔ (stripe_id < div_ceil s.source_sector_count s.stripe_sector_count)
unfolding has_stripe offset_of
has_stripe_iff s stripe_id positive fits =
    begins_iff stripe_id s.stripe_sector_count s.source_sector_count positive fits

-- What becomes of a read that the channel was asked for: one that it takes is submitted, and an error
-- of it is passed on, with the source as it was.
pub passed_on :
    {Channel : IoChannel}
    → BlockDeviceStripeSource Channel
    → Result Channel.State
    → BlockDeviceStripeSource Channel × Result (Unit {0})
passed_on {Channel} s (ok c) = (record s { channel = (Channel.submit c).0 }, (Channel.submit c).1)
passed_on s (err e) = (s, err e)
passed_on s panic = (s, panic)

small_count : (x y : ℕ) → x < 2 ^ 32 → min x y % 2 ^ 32 ≡ min x y
small_count x y h = ground arith

request-beyond :
    {Channel : IoChannel} (s : BlockDeviceStripeSource Channel) (stripe_id : ℕ)
    (buffer : SharedBuffer)
    → stripe_id * s.stripe_sector_count < 2 ^ 64
    → leb s.source_sector_count (stripe_id * s.stripe_sector_count) ≡ true
    → request s stripe_id buffer ≡ (s, err (invalid_parameter (stripe_beyond_source stripe_id)))
unfolding request offset_of
request-beyond s stripe_id buffer fits beyond =
    let same = no_wrap (stripe_id * s.stripe_sector_count) fits in rw (same, beyond)

submit-passed_on :
    {Channel : IoChannel} (s : BlockDeviceStripeSource Channel) (added : Result Channel.State)
    → elim added as (λ _. BlockDeviceStripeSource Channel × Result (Unit {0})) [
      | ok channel' ↦
          let (channel'', result) = Channel.submit channel' in
          (record s { channel = channel'' }, result)
      | err e ↦ (s, err e)
      | panic ↦ (s, panic)
    ]
      ≡ passed_on s added
unfolding passed_on
submit-passed_on s (ok c) = refl
submit-passed_on s (err e) = refl
submit-passed_on s panic = refl

request-within :
    {Channel : IoChannel} (s : BlockDeviceStripeSource Channel) (stripe_id : ℕ)
    (buffer : SharedBuffer)
    → s.stripe_sector_count < 2 ^ 32
    → stripe_id * s.stripe_sector_count < 2 ^ 64
    → leb s.source_sector_count (stripe_id * s.stripe_sector_count) ≡ false
    → request s stripe_id buffer
      ≡ passed_on s (
          Channel.add_read s.channel
            (stripe_id * s.stripe_sector_count)
            (min s.stripe_sector_count (s.source_sector_count - stripe_id * s.stripe_sector_count))
            buffer
            stripe_id)
unfolding request request_read offset_of passed_on
request-within {Channel} s stripe_id buffer small fits within =
    let offset = stripe_id * s.stripe_sector_count in
    let count = min s.stripe_sector_count (s.source_sector_count - offset) in
    let same = no_wrap offset fits in
    let whole = small_count s.stripe_sector_count (s.source_sector_count - offset) small in
    rw (same, within, request_read, whole)
      (submit-passed_on s (Channel.add_read s.channel offset count buffer stripe_id))

-- For a stripe size that is positive and fits into 32 bits, and a stripe whose offset fits into 64:
-- a request for a stripe that begins at the source's end or behind it is an error, and nothing reaches
-- the channel. Else the channel is asked for the sectors of the stripe from its first one on, a whole
-- stripe or up to the source's end, at least one, under the stripe's number; what it takes is
-- submitted, and its error is passed on.
pub request_lem :
    {Channel : IoChannel} (s : BlockDeviceStripeSource Channel) (stripe_id : ℕ)
    (buffer : SharedBuffer)
    → 0 < s.stripe_sector_count
    → s.stripe_sector_count < 2 ^ 32
    → stripe_id * s.stripe_sector_count < 2 ^ 64
    → ((s.source_sector_count ≤ stripe_id * s.stripe_sector_count)
        × (request s stripe_id buffer
            ≡ (s, err (invalid_parameter (stripe_beyond_source stripe_id)))))
      ⊎ ((0 < min s.stripe_sector_count (s.source_sector_count - stripe_id * s.stripe_sector_count))
          × (stripe_id * s.stripe_sector_count
                + min s.stripe_sector_count
                    (s.source_sector_count - stripe_id * s.stripe_sector_count)
              ≤ s.source_sector_count)
          × (request s stripe_id buffer
              ≡ passed_on s (
                  Channel.add_read s.channel
                    (stripe_id * s.stripe_sector_count)
                    (min s.stripe_sector_count
                      (s.source_sector_count - stripe_id * s.stripe_sector_count))
                    buffer
                    stripe_id)))
request_lem s stripe_id buffer positive small fits =
    let offset = stripe_id * s.stripe_sector_count in
    elim (Bool-cases (leb s.source_sector_count offset)) [
      | inl beyond ↦ inl (
        leb→le s.source_sector_count offset beyond,
        request-beyond s stripe_id buffer fits beyond,
      )
      | inr within ↦
          inr (ground arith, ground arith, request-within s stripe_id buffer small fits within)
    ]
