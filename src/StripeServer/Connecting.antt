-- ===== src/StripeServer/Connecting.antt =====
-- src/stripe_server: a client that connects to a session has the server's metadata.
use ubiblk.Error.{remote_status}
use ubiblk.Prelude.{
  ℕ, ◌%◌, ◌≤◌, ◌≡◌, refl, sym, ap, ◌∙◌, subst, false, some, List, [], ◌∷◌, ◌++◌, append-nil, Result,
  ok, err, arith, ltb, ◌==◌, if◌then◌else◌, length, length-replicate, replicate, to_le_bytes,
  from_le_bytes-to_le_bytes,
}
use ubiblk.BufferPool.{SharedBuffer}
use ubiblk.IoChannel.{IoChannel}
use ubiblk.StripeSource.{StripeSource}
use ubiblk.Metadata.{UbiMetadata, metadata_size, sector_size}
use ubiblk.Metadata.Codec.{write_to_buf, from_bytes}
use ubiblk.Metadata.Codec.RoundTrip.{from_bytes-write_to_buf, metadata_size_sectors}
use ubiblk.Metadata.Codec.WellFormed.{IsWellFormed}
use ubiblk.StripeServer.{ReadWrite, StripeServerSession, send, receive, first_byte}
use ubiblk.StripeServer.Session.{
  handle_opcode, handle_single_request, handle_metadata_request, handle_hello_request,
}
use ubiblk.StripeServer.Client.{
  max_remote_metadata_size, hello, check_version, fetch_metadata, receive_metadata, connect,
}
use ubiblk.StripeServer.Wire.{Wire, server_end, client_end}
use ubiblk.StripeServer.Stripes.{idle}
use ubiblk.StripeServer.Refinement.{receive_front}

connect_ok :
    (Stream : ReadWrite) (crc32 : List ℕ → ℕ) (stream greeted fetched : Stream.State)
    (metadata : UbiMetadata)
    → hello Stream stream ≡ (greeted, ok tt)
    → fetch_metadata Stream crc32 greeted ≡ (fetched, ok metadata)
    → connect Stream crc32 stream ≡ ok (record { stream = fetched; metadata = some metadata })
unfolding connect
connect_ok Stream crc32 stream greeted fetched metadata e f =
    let same : (hello Stream stream).0 ≡ greeted = ap (λ p. p.0) e in
    let done : (hello Stream stream).1 ≡ ok tt = ap (λ p. p.1) e in
    let g = ap (fetch_metadata Stream crc32) same ∙ f in
    rw (done, ap (λ p. p.1) g, connect)
      (ap (λ (t : Stream.State). ok (record { stream = t; metadata = some metadata }))
        (ap (λ p. p.0) g))

module _ (Channel : IoChannel) (Source : StripeSource) (polls address : ℕ)
    (fills : Channel.State → SharedBuffer → List ℕ)
    (source_fills : Source.State → SharedBuffer → List ℕ) (crc32 : List ℕ → ℕ) where
  -- The client's end of the connection.
  abbrev client : ReadWrite
  client = client_end Channel Source polls address fills source_fills crc32

  abbrev at_rest :
      StripeServerSession server_end Channel Source → StripeServerSession server_end Channel Source
  at_rest s = record s { stream = idle }

  -- The handshake succeeds, and leaves the session as it was.
  hello_ok :
      (s : StripeServerSession server_end Channel Source)
      → hello client (at_rest s) ≡ (at_rest s, ok tt)
  unfolding hello check_version send handle_single_request handle_opcode handle_hello_request
  hello_ok s = refl

  metadata_replied :
      (s : StripeServerSession server_end Channel Source) (out : List ℕ)
      → write_to_buf crc32 s.metadata (replicate (metadata_size s.metadata) 0) ≡ ok out
      → handle_metadata_request crc32 (at_rest s) ≡ (
        record s {
          stream = record {
            requests = [];
            replies = (0 ∷ to_le_bytes 8 (metadata_size s.metadata)) ++ out;
          };
        },
        ok tt,
      )
  unfolding handle_metadata_request send
  metadata_replied s out ran = rw (ran, handle_metadata_request) refl

  -- The reply to a request for the metadata.
  metadata_written :
      (s : StripeServerSession server_end Channel Source) (out : List ℕ)
      → write_to_buf crc32 s.metadata (replicate (metadata_size s.metadata) 0) ≡ ok out
      → handle_single_request polls address fills source_fills crc32
          (record s { stream = record { requests = 0 ∷ []; replies = [] } })
        ≡ (
          record s {
            stream = record {
              requests = [];
              replies = (0 ∷ to_le_bytes 8 (metadata_size s.metadata)) ++ out;
            };
          },
          ok tt,
        )
  unfolding handle_single_request handle_opcode
  metadata_written s out ran = metadata_replied s out ran

  metadata_read :
      (t : StripeServerSession server_end Channel Source) (out : List ℕ)
      → t.stream ≡ record { requests = []; replies = out }
      → 512 ≤ length out
      → length out ≤ max_remote_metadata_size
      → receive_metadata client crc32 t (to_le_bytes 8 (length out))
        ≡ (at_rest t, from_bytes crc32 out)
  unfolding receive_metadata
  metadata_read t out e large small =
      let back = from_le_bytes-to_le_bytes 8 (length out) (omega arith) in
      let read =
        receive_front Channel Source polls address fills source_fills crc32 t (length out) out []
          (λ stream1 bytes. (stream1, from_bytes crc32 bytes)) refl
          (e ∙ ap (λ (r : List ℕ). record { requests = []; replies = r }) (sym (append-nil out))) in
      let not_small : ltb (length out) sector_size ≡ false = ground arith in
      let not_large : ltb max_remote_metadata_size (length out) ≡ false = ground arith in
      rw (back, not_small, not_large) read

  -- What the client makes of the status in the reply to a request for the metadata.
  abbrev judge :
      StripeServerSession server_end Channel Source
      → List ℕ
      → StripeServerSession server_end Channel Source × Result UbiMetadata
  judge stream bytes =
      if first_byte bytes == 0
      then receive client stream 8 (receive_metadata client crc32)
      else (stream, err (remote_status (first_byte bytes)))

  metadata_fetched :
      (s : StripeServerSession server_end Channel Source)
      → IsWellFormed s.metadata
      → metadata_size s.metadata ≤ max_remote_metadata_size
      → fetch_metadata client crc32 (at_rest s) ≡ (at_rest s, ok s.metadata)
  unfolding fetch_metadata send
  metadata_fetched s w small =
      let size = metadata_size s.metadata in
      let (large, whole) = metadata_size_sectors s.metadata in
      let zeros = length-replicate {A = ℕ} size 0 in
      let (out, ran, back, len, _) =
        from_bytes-write_to_buf crc32 s.metadata (replicate size 0) w (omega (arith, zeros))
          (ap (λ (n : ℕ). n % 512) zeros ∙ whole) in
      let sized = len ∙ zeros in
      ap
        (λ (p : StripeServerSession server_end Channel Source × Result (Unit {0})).
          receive client p.0 1 judge)
        (metadata_written s out ran)
      ∙ receive_front Channel Source polls address fills source_fills crc32
          (record s {
            stream = record { requests = []; replies = (0 ∷ to_le_bytes 8 size) ++ out };
          })
          1 (0 ∷ []) (to_le_bytes 8 size ++ out) judge refl refl
      ∙ receive_front Channel Source polls address fills source_fills crc32
          (record s { stream = record { requests = []; replies = to_le_bytes 8 size ++ out } }) 8
          (to_le_bytes 8 size) out (receive_metadata client crc32) refl refl
      ∙ ap
          (λ (n : ℕ).
            receive_metadata client crc32
              (record s { stream = record { requests = []; replies = out } }) (to_le_bytes 8 n))
          (sym sized)
      ∙ metadata_read (record s { stream = record { requests = []; replies = out } }) out refl
          (omega arith) (omega arith)
      ∙ ap (λ (r : Result UbiMetadata). (at_rest s, r)) back

  -- A client that connects to an idle session of well-formed metadata, of at most 64 MiB, is greeted, and
  -- has the server's metadata. The connection is idle after that.
  pub connect_lem :
      (s : StripeServerSession server_end Channel Source)
      → s.stream ≡ idle
      → IsWellFormed s.metadata
      → metadata_size s.metadata ≤ max_remote_metadata_size
      → connect client crc32 s ≡ ok (record { stream = s; metadata = some s.metadata })
  connect_lem s e w small =
      let rest : at_rest s ≡ s = ap (λ (wire : Wire). record s { stream = wire }) (sym e) in
      subst
        (λ (t : StripeServerSession server_end Channel Source).
          connect client crc32 t ≡ ok (record { stream = t; metadata = some s.metadata }))
        rest
        (connect_ok client crc32 (at_rest s) (at_rest s) (at_rest s) s.metadata (hello_ok s)
          (metadata_fetched s w small))
