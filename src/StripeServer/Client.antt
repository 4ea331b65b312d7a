-- ===== src/StripeServer/Client.antt =====
-- src/stripe_server/client.rs: `StripeServerClient`, the client's side of one connection.
use ubiblk.Error.{
  UbiblkError, remote_status, protocol_error, metadata_too_small, metadata_too_large,
  server_too_old, incompatible_version, missing_stripe_metadata, stripe_size_mismatch,
  invalid_parameter, invalid_stripe_index, stripe_unavailable_data,
}
use ubiblk.Prelude.{
  ℕ, ◌*◌, ◌||◌, none, some, List, [], ◌∷◌, Result, ok, err, panic, ltb, ◌==◌, if◌then◌else◌,
  to_le_bytes, from_le_bytes,
}
use ubiblk.Metadata.{UbiMetadata, sector_size, stripe_size}
use ubiblk.Metadata.Codec.{from_bytes}
use ubiblk.StripeServer.{
  ReadWrite, StripeServerClient, send, receive, first_byte, metadata_cmd, read_stripe_cmd,
  hello_cmd, protocol_version, status_ok, status_invalid_stripe, status_no_data, status_not_fetched,
  status_invalid_command,
}

abbrev pub max_remote_metadata_size : ℕ
max_remote_metadata_size = 64 * 1024 * 1024

pub new : (Stream : ReadWrite) → Stream.State → StripeServerClient Stream
new Stream stream = record { stream = stream; metadata = none }

-- The error that a status other than `status_ok` stands for.
unfoldable pub status_error : ℕ → ℕ → UbiblkError
status_error stripe_idx status =
    if status == status_invalid_stripe
    then invalid_parameter (invalid_stripe_index stripe_idx)
    else if status == status_no_data || status == status_not_fetched
    then stripe_unavailable_data stripe_idx
    else remote_status status

module _ (Stream : ReadWrite) where
  -- A request that is sent, and the status that comes back.
  abbrev pub ask {ℓ} :
      {A : Type ℓ}
      → Stream.State
      → List ℕ
      → (Stream.State → ℕ → Stream.State × Result A)
      → Stream.State × Result A
  ask stream request next =
      let (stream1, sent) = send Stream stream (request ∷ []) in
      elim sent [
        | ok done ↦ receive Stream stream1 1 (λ stream2 bytes. next stream2 (first_byte bytes))
        | err e ↦ (stream1, err e)
        | panic ↦ (stream1, panic)
      ]

  unfoldable pub check_version : Stream.State → List ℕ → Stream.State × Result (Unit {0})
  check_version stream version_bytes =
      let version = from_le_bytes version_bytes in
      (
        stream,
        if version == protocol_version
            then ok tt
            else err (protocol_error (incompatible_version version)),
      )

  unfoldable pub hello : Stream.State → Stream.State × Result (Unit {0})
  unfolding check_version
  hello stream = ask stream (hello_cmd ∷ []) (λ stream1 status.
      if status == status_invalid_command
      then (stream1, err (protocol_error server_too_old))
      else if status == status_ok
      then receive Stream stream1 4 check_version
      else (stream1, err (remote_status status)))

  -- The stripe's bytes, after the status `status_ok`.
  unfoldable pub receive_stripe :
      UbiMetadata → ℕ → Stream.State → List ℕ → Stream.State × Result (List ℕ)
  receive_stripe metadata stripe_idx stream size_bytes =
      let size = from_le_bytes size_bytes in
      if size == stripe_size metadata
      then Stream.read_exact stream size
      else (stream, err (stripe_size_mismatch stripe_idx (stripe_size metadata) size))

  unfoldable pub fetch_stripe : StripeServerClient Stream → ℕ → Stream.State × Result (List ℕ)
  unfolding receive_stripe status_error
  fetch_stripe c stripe_idx = elim c.metadata [
    | none ↦ (c.stream, err missing_stripe_metadata)
    | some metadata ↦ ask c.stream (read_stripe_cmd ∷ to_le_bytes 8 stripe_idx) (λ stream1 status.
        if status == status_ok
        then receive Stream stream1 8 (receive_stripe metadata stripe_idx)
        else (stream1, err (status_error stripe_idx status)))
  ]

  module _ (crc32 : List ℕ → ℕ) where
    unfoldable pub receive_metadata : Stream.State → List ℕ → Stream.State × Result UbiMetadata
    receive_metadata stream size_bytes =
        let size = from_le_bytes size_bytes in
        if ltb size sector_size
        then (stream, err (protocol_error metadata_too_small))
        else if ltb max_remote_metadata_size size
        then (stream, err (protocol_error metadata_too_large))
        else receive Stream stream size (λ stream1 bytes. (stream1, from_bytes crc32 bytes))

    -- The metadata that is kept, and the stream.
    unfoldable pub fetch_metadata : Stream.State → Stream.State × Result UbiMetadata
    unfolding receive_metadata
    fetch_metadata stream = ask stream (metadata_cmd ∷ []) (λ stream1 status.
        if status == status_ok
        then receive Stream stream1 8 receive_metadata
        else (stream1, err (remote_status status)))

    -- What follows the connection in `connect_to_stripe_server`.
    unfoldable pub connect : Stream.State → Result (StripeServerClient Stream)
    unfolding hello fetch_metadata
    connect stream =
        let (stream1, greeted) = hello stream in
        let (stream2, fetched) = fetch_metadata stream1 in
        elim greeted [
          | ok done ↦ elim fetched [
            | ok metadata ↦ ok (record { stream = stream2; metadata = some metadata })
            | err e ↦ err e
            | panic ↦ panic
          ]
          | err e ↦ err e
          | panic ↦ panic
        ]
