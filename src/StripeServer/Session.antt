-- ===== src/StripeServer/Session.antt =====
-- src/stripe_server/session.rs: `StripeServerSession`, the server's side of one connection.
-- `fills` and `source_fills` say what the channel and the source leave in the buffer of a request that
-- they have completed; `address` is where the session's buffer is allocated, and `polls` how many polls
-- fit before the timeout.
use ubiblk.Prelude.{
  ℕ, zero, suc, ◌*◌, ◌%◌, ◌^◌, Bool, true, false, not, ◌&&◌, ◌||◌, Option, none, some, List, [],
  ◌∷◌, Result, ok, err, panic, ◌>>=◌, ◌>>◌, unwrap, get_elem?, leb, ◌==◌, if◌then◌else◌, replicate,
  to_le_bytes, from_le_bytes,
}
use ubiblk.BufferPool.{SharedBuffer}
use ubiblk.IoChannel.{IoChannel}
use ubiblk.StripeSource.{StripeSource}
use ubiblk.Metadata.{
  UbiMetadata, has_flag, written_flag, fetched_flag, has_source_flag, stripe_sector_count,
  stripe_size, stripe_count, metadata_size,
}
use ubiblk.Metadata.Codec.{write_to_buf}
use ubiblk.Waiting.{wait_for_completion, wait_for_stripe}
use ubiblk.StripeServer.{
  ReadWrite, StripeServerSession, send, metadata_cmd, read_stripe_cmd, hello_cmd, protocol_version,
  status_ok, status_invalid_stripe, status_no_data, status_not_fetched, status_invalid_command,
  status_server_error, first_byte,
}

-- `stripe_id as usize` is in range: the caller has compared it with the stripe count.
unfoldable pub stripe_not_fetched : UbiMetadata → ℕ → Result Bool
stripe_not_fetched metadata stripe_id = do
  stripe_header ← unwrap (get_elem? metadata.stripe_headers stripe_id)
  ok (has_flag stripe_header has_source_flag && not (has_flag stripe_header fetched_flag))

unfoldable pub stripe_has_data : UbiMetadata → ℕ → Result Bool
stripe_has_data metadata stripe_id = do
  stripe_header ← unwrap (get_elem? metadata.stripe_headers stripe_id)
  ok (
      has_flag stripe_header written_flag
      || (has_flag stripe_header has_source_flag && has_flag stripe_header fetched_flag))

abbrev pub stripe_buffer : ℕ → UbiMetadata → SharedBuffer
stripe_buffer address metadata = record { ptr = address; id = 0; len = stripe_size metadata }

module _ (Channel : IoChannel) (polls address : ℕ)
    (fills : Channel.State → SharedBuffer → List ℕ) where
  -- The channel's new state and the stripe's bytes.
  unfoldable pub read_stripe : UbiMetadata → Channel.State → ℕ → Result (Channel.State × List ℕ)
  read_stripe metadata channel stripe_id = do
    let count = stripe_sector_count metadata % 2 ^ 32
    channel1 ←
        Channel.add_read channel (stripe_id * count % 2 ^ 64) count (stripe_buffer address metadata)
          0
    let (channel2, submitted) = Channel.submit channel1
    submitted
    channel3 ← wait_for_completion Channel polls channel2 0
    ok (channel3, fills channel3 (stripe_buffer address metadata))

module _ (Source : StripeSource) (polls address : ℕ)
    (fills : Source.State → SharedBuffer → List ℕ) where
  unfoldable pub read_stripe_from_source :
      UbiMetadata → Source.State → ℕ → Result (Source.State × List ℕ)
  read_stripe_from_source metadata source stripe_id = do
    let (source1, requested) = Source.request source stripe_id (stripe_buffer address metadata)
    requested
    source2 ← wait_for_stripe Source polls source1 stripe_id
    ok (source2, fills source2 (stripe_buffer address metadata))

module _ {Stream : ReadWrite} {Channel : IoChannel} {Source : StripeSource} where
  -- A reply of some parts, after which the session is the same but for its stream.
  abbrev pub reply :
      StripeServerSession Stream Channel Source
      → List (List ℕ)
      → StripeServerSession Stream Channel Source × Result (Unit {0})
  reply s parts =
      let (stream', result) = send Stream s.stream parts in (record s { stream = stream' }, result)

  -- `?` on what was read, and what is done with the bytes.
  abbrev pub on_bytes :
      StripeServerSession Stream Channel Source
      → Stream.State × Result (List ℕ)
      → (StripeServerSession Stream Channel Source
          → List ℕ
          → StripeServerSession Stream Channel Source × Result (Unit {0}))
      → StripeServerSession Stream Channel Source × Result (Unit {0})
  on_bytes s (stream, ok bytes) next = next (record s { stream = stream }) bytes
  on_bytes s (stream, err e) next = (record s { stream = stream }, err e)
  on_bytes s (stream, panic) next = (record s { stream = stream }, panic)

  unfoldable pub reply_status :
      StripeServerSession Stream Channel Source
      → ℕ
      → StripeServerSession Stream Channel Source × Result (Unit {0})
  reply_status s status = reply s ((status ∷ []) ∷ [])

  unfoldable pub handle_hello_request :
      StripeServerSession Stream Channel Source
      → StripeServerSession Stream Channel Source × Result (Unit {0})
  handle_hello_request s = reply s ((status_ok ∷ []) ∷ to_le_bytes 4 protocol_version ∷ [])

  -- The error in `result` is logged and dropped.
  unfoldable pub notify_server_error :
      StripeServerSession Stream Channel Source → StripeServerSession Stream Channel Source
  notify_server_error s =
      let (stream', result) = Stream.write_all s.stream (status_server_error ∷ []) in
      record s { stream = stream' }

  module _ (crc32 : List ℕ → ℕ) where
    unfoldable pub handle_metadata_request :
        StripeServerSession Stream Channel Source
        → StripeServerSession Stream Channel Source × Result (Unit {0})
    handle_metadata_request s =
        let size = metadata_size s.metadata in
        elim (write_to_buf crc32 s.metadata (replicate size 0)) [
          | ok metadata_buf ↦ reply s ((status_ok ∷ []) ∷ to_le_bytes 8 size ∷ metadata_buf ∷ [])
          | err e ↦ (s, err e)
          | panic ↦ (s, panic)
        ]

  module _ (polls address : ℕ) (fills : Channel.State → SharedBuffer → List ℕ)
      (source_fills : Source.State → SharedBuffer → List ℕ) where
    unfoldable pub reply_stripe :
        StripeServerSession Stream Channel Source
        → List ℕ
        → StripeServerSession Stream Channel Source × Result (Unit {0})
    reply_stripe s stripe_data =
        reply s ((status_ok ∷ []) ∷ to_le_bytes 8 (stripe_size s.metadata) ∷ stripe_data ∷ [])

    -- A stripe that is here, and one that is still in the source.
    unfoldable pub serve_local :
        StripeServerSession Stream Channel Source
        → ℕ
        → StripeServerSession Stream Channel Source × Result (Unit {0})
    unfolding reply_stripe
    serve_local s stripe_id =
        elim (read_stripe Channel polls address fills s.metadata s.stripe_channel stripe_id) [
          | ok (channel', stripe_data) ↦
              reply_stripe (record s { stripe_channel = channel' }) stripe_data
          | err e ↦ (notify_server_error s, err e)
          | panic ↦ (s, panic)
        ]

    unfoldable pub serve_from_source :
        StripeServerSession Stream Channel Source
        → ℕ
        → StripeServerSession Stream Channel Source × Result (Unit {0})
    unfolding reply_stripe
    serve_from_source s stripe_id = elim s.source [
      | none ↦ reply_status s status_not_fetched
      | some source ↦
          elim (read_stripe_from_source Source polls address source_fills s.metadata source
            stripe_id) [
              | ok (source', stripe_data) ↦
                  reply_stripe (record s { source = some source' }) stripe_data
              | err e ↦ (notify_server_error s, err e)
              | panic ↦ (s, panic)
            ]
    ]

    unfoldable pub serve_fetched :
        StripeServerSession Stream Channel Source
        → ℕ
        → StripeServerSession Stream Channel Source × Result (Unit {0})
    unfolding serve_local
    serve_fetched s stripe_id = elim (stripe_has_data s.metadata stripe_id) [
      | ok true ↦ serve_local s stripe_id
      | ok false ↦ reply_status s status_no_data
      | err e ↦ (s, err e)
      | panic ↦ (s, panic)
    ]

    unfoldable pub handle_read_stripe_request :
        StripeServerSession Stream Channel Source
        → ℕ
        → StripeServerSession Stream Channel Source × Result (Unit {0})
    unfolding serve_from_source serve_fetched
    handle_read_stripe_request s stripe_id =
        if leb (stripe_count s.metadata) stripe_id
        then reply_status s status_invalid_stripe
        else (elim (stripe_not_fetched s.metadata stripe_id) [
          | ok true ↦ serve_from_source s stripe_id
          | ok false ↦ serve_fetched s stripe_id
          | err e ↦ (s, err e)
          | panic ↦ (s, panic)
        ])

    -- The stripe's id is read off the stream.
    unfoldable pub receive_read_stripe :
        StripeServerSession Stream Channel Source
        → StripeServerSession Stream Channel Source × Result (Unit {0})
    unfolding handle_read_stripe_request
    receive_read_stripe s =
        on_bytes s (Stream.read_exact s.stream 8)
          (λ s' stripe_id_bytes. handle_read_stripe_request s' (from_le_bytes stripe_id_bytes))

    module _ (crc32 : List ℕ → ℕ) where
      unfoldable pub handle_opcode :
          StripeServerSession Stream Channel Source
          → ℕ
          → StripeServerSession Stream Channel Source × Result (Unit {0})
      unfolding receive_read_stripe handle_metadata_request handle_hello_request
      handle_opcode s opcode =
          if opcode == hello_cmd
          then handle_hello_request s
          else if opcode == metadata_cmd
          then handle_metadata_request crc32 s
          else if opcode == read_stripe_cmd
          then receive_read_stripe s
          else reply_status s status_invalid_command

      unfoldable pub handle_single_request :
          StripeServerSession Stream Channel Source
          → StripeServerSession Stream Channel Source × Result (Unit {0})
      unfolding handle_opcode
      handle_single_request s =
          on_bytes s (Stream.read_exact s.stream 1)
            (λ s' opcode. handle_opcode s' (first_byte opcode))

      -- The session ends with the first error, whatever it is; `none` means that the fuel ran out.
      unfoldable pub handle_requests :
          ℕ
          → StripeServerSession Stream Channel Source
          → Option (StripeServerSession Stream Channel Source × Result (Unit {0}))
      handle_requests zero s = none
      handle_requests (suc fuel) s =
          let (s', result) = handle_single_request s in
          elim result [
            | ok done ↦ handle_requests fuel s'
            | err e ↦ some (s', ok tt)
            | panic ↦ some (s', panic)
          ]
