-- ===== src/StripeServer/Stripes.antt =====
-- src/stripe_server: what a server has to say about a stripe, whatever the protocol.
use ubiblk.Error.{
  io_error, remote_status, invalid_parameter, invalid_stripe_index, stripe_unavailable_data,
}
use ubiblk.Prelude.{
  ℕ, true, false, none, some, List, [], Result, ok, err, panic, leb, if◌then◌else◌,
}
use ubiblk.BufferPool.{SharedBuffer}
use ubiblk.IoChannel.{IoChannel}
use ubiblk.StripeSource.{StripeSource}
use ubiblk.Metadata.{stripe_count}
use ubiblk.StripeServer.{StripeServerSession}
use ubiblk.StripeServer.Session.{
  stripe_not_fetched, stripe_has_data, read_stripe, read_stripe_from_source,
}
use ubiblk.StripeServer.Wire.{Wire, server_end}

-- What the client makes of the server's reading: it learns no reason, and nothing after a panic.
abbrev pub answered : {A : Type 0} → Result (A × List ℕ) → Result (List ℕ)
answered (ok (state, bytes)) = ok bytes
answered (err e) = err (remote_status 0xFF)
answered panic = err io_error

-- Nothing is on its way.
abbrev pub idle : Wire
idle = record { requests = []; replies = [] }

module _ (Channel : IoChannel) (Source : StripeSource) (polls address : ℕ)
    (fills : Channel.State → SharedBuffer → List ℕ)
    (source_fills : Source.State → SharedBuffer → List ℕ) where
  -- A stripe that was not fetched, and one that was or has no source.
  unfoldable pub from_source : StripeServerSession server_end Channel Source → ℕ → Result (List ℕ)
  from_source s id = elim s.source [
    | none ↦ err (stripe_unavailable_data id)
    | some source ↦
        answered (read_stripe_from_source Source polls address source_fills s.metadata source id)
  ]

  unfoldable pub from_device : StripeServerSession server_end Channel Source → ℕ → Result (List ℕ)
  from_device s id = elim (stripe_has_data s.metadata id) [
    | ok true ↦ answered (read_stripe Channel polls address fills s.metadata s.stripe_channel id)
    | ok false ↦ err (stripe_unavailable_data id)
    | err e ↦ err io_error
    | panic ↦ err io_error
  ]

  -- The stripe, or why it cannot be had, as a function of the server's state alone.
  unfoldable pub stripe_of : StripeServerSession server_end Channel Source → ℕ → Result (List ℕ)
  unfolding from_source from_device
  stripe_of s id =
      if leb (stripe_count s.metadata) id
      then err (invalid_parameter (invalid_stripe_index id))
      else (elim (stripe_not_fetched s.metadata id) [
        | ok true ↦ from_source s id
        | ok false ↦ from_device s id
        | err e ↦ err io_error
        | panic ↦ err io_error
      ])
