-- ===== src/StripeServer/Refinement.antt =====
-- src/stripe_server: what a client gets for a stripe, over the wire, is what a look at the server's
-- metadata, its device and its source gives.
use ubiblk.Prelude.{
  ℕ, ◌^◌, ◌<◌, ◌≡◌, refl, sym, ap, ◌∙◌, subst, some, List, [], ◌∷◌, ◌++◌, append-nil, ==_refl,
  Result, ok, err, arith, ◌==◌, if◌then◌else◌, length, to_le_bytes, from_le_bytes-to_le_bytes,
  take-append, drop-append, length-append,
}
use ubiblk.BufferPool.{SharedBuffer}
use ubiblk.IoChannel.{IoChannel}
use ubiblk.StripeSource.{StripeSource}
use ubiblk.Metadata.{UbiMetadata, stripe_size}
use ubiblk.StripeServer.{ReadWrite, StripeServerSession, send, receive, proceed, first_byte}
use ubiblk.StripeServer.Session.{
  handle_read_stripe_request, receive_read_stripe, handle_opcode, handle_single_request,
}
use ubiblk.StripeServer.Client.{fetch_stripe, receive_stripe, status_error}
use ubiblk.StripeServer.Wire.{Wire, server_end, client_end}
use ubiblk.StripeServer.Stripes.{idle, stripe_of}
use ubiblk.StripeServer.Answers.{Replies, as_status, as_data, as_nothing, request-Served}

receive_ok :
    {A : Type 0} (Stream : ReadWrite) (stream : Stream.State) (n : ℕ)
    (next : Stream.State → List ℕ → Stream.State × Result A) (stream' : Stream.State)
    (bytes : List ℕ)
    → Stream.read_exact stream n ≡ (stream', ok bytes)
    → receive Stream stream n next ≡ next stream' bytes
receive_ok Stream stream n next stream' bytes e = ap (λ p. proceed p next) e

size_fits : (metadata : UbiMetadata) → stripe_size metadata < 2 ^ 64
unfolding stripe_size
size_fits metadata = omega arith

module _ (Channel : IoChannel) (Source : StripeSource) (polls address : ℕ)
    (fills : Channel.State → SharedBuffer → List ℕ)
    (source_fills : Source.State → SharedBuffer → List ℕ) (crc32 : List ℕ → ℕ) where
  -- The client's end of the connection.
  abbrev client : ReadWrite
  client = client_end Channel Source polls address fills source_fills crc32

  -- The session reads the request off the wire.
  request_read :
      (s : StripeServerSession server_end Channel Source) (id : ℕ)
      → id < 2 ^ 64
      → handle_single_request polls address fills source_fills crc32
          (record s { stream = record { requests = 1 ∷ to_le_bytes 8 id; replies = [] } })
        ≡ handle_read_stripe_request polls address fills source_fills
            (record s { stream = idle })
            id
  unfolding handle_single_request handle_opcode receive_read_stripe
  request_read s id small =
      ap (handle_read_stripe_request polls address fills source_fills (record s { stream = idle }))
        (from_le_bytes-to_le_bytes 8 id (omega arith))

  -- The bytes at the front of the replies are read.
  read_front :
      (s : StripeServerSession server_end Channel Source) (xs ys : List ℕ)
      → s.stream ≡ record { requests = []; replies = xs ++ ys }
      → client.read_exact s (length xs)
        ≡ (record s { stream = record { requests = []; replies = ys } }, ok xs)
  read_front s xs ys e = ground (
    arith,
    e,
    length-append xs ys,
    take-append (length xs) xs ys refl,
    drop-append (length xs) xs ys refl,
  )

  pub receive_front :
      {A : Type 0} (s : StripeServerSession server_end Channel Source) (n : ℕ) (xs ys : List ℕ)
      (next : StripeServerSession server_end Channel Source
        → List ℕ
        → StripeServerSession server_end Channel Source × Result A)
      → n ≡ length xs
      → s.stream ≡ record { requests = []; replies = xs ++ ys }
      → receive client s n next
        ≡ next (record s { stream = record { requests = []; replies = ys } }) xs
  receive_front s n xs ys next len e =
      receive_ok client s n next _ xs (ap (client.read_exact s) len ∙ read_front s xs ys e)

  -- What the client makes of the status in the reply to a request for a stripe.
  abbrev judge :
      UbiMetadata
      → ℕ
      → StripeServerSession server_end Channel Source
      → List ℕ
      → StripeServerSession server_end Channel Source × Result (List ℕ)
  judge metadata id t bytes =
      if first_byte bytes == 0
      then receive client t 8 (receive_stripe client metadata id)
      else (t, err (status_error id (first_byte bytes)))

  stripe_read :
      (t : StripeServerSession server_end Channel Source) (metadata : UbiMetadata) (id : ℕ)
      (bytes : List ℕ)
      → t.stream ≡ record { requests = []; replies = bytes }
      → length bytes ≡ stripe_size metadata
      → stripe_size metadata < 2 ^ 64
      → receive_stripe client metadata id t (to_le_bytes 8 (stripe_size metadata))
        ≡ (record t { stream = idle }, ok bytes)
  unfolding receive_stripe
  stripe_read t metadata id bytes e len small =
      let back = from_le_bytes-to_le_bytes 8 (stripe_size metadata) (omega arith) in
      let same = ==_refl (stripe_size metadata) in
      let read =
        read_front t bytes [] (
          e
          ∙ ap (λ (r : List ℕ). record { requests = []; replies = r }) (sym (append-nil bytes))) in
      rw (back, same, sym len) read

  heard-Replies :
      (s : StripeServerSession server_end Channel Source) (metadata : UbiMetadata) (id : ℕ)
      (replies : List ℕ) (answer : Result (List ℕ))
      → s.stream ≡ record { requests = []; replies = replies }
      → Replies Channel Source polls address fills source_fills
          (stripe_size metadata)
          id
          replies
          answer
      → stripe_size metadata < 2 ^ 64
      → receive client s 1 (judge metadata id) ≡ (record s { stream = idle }, answer)
  heard-Replies s metadata id replies answer e (as_status status ne) small =
      receive_front s 1 (status ∷ []) [] (judge metadata id) refl e ∙ ground arith
  heard-Replies s metadata id replies answer e (as_data bytes len) small =
      receive_front s 1 (0 ∷ []) (to_le_bytes 8 (stripe_size metadata) ++ bytes) (judge metadata id)
        refl e
      ∙ receive_front
          (record s {
            stream = record {
              requests = [];
              replies = to_le_bytes 8 (stripe_size metadata) ++ bytes;
            };
          })
          8 (to_le_bytes 8 (stripe_size metadata)) bytes (receive_stripe client metadata id) refl
          refl
      ∙ stripe_read (record s { stream = record { requests = []; replies = bytes } }) metadata id
          bytes refl len small
  heard-Replies s metadata id replies answer e as_nothing small = rw e refl

  -- The client writes the request, and hears the reply.
  request_sent :
      (s : StripeServerSession server_end Channel Source) (metadata : UbiMetadata) (id : ℕ)
      → s.stream ≡ idle
      → id < 2 ^ 64
      → fetch_stripe client (record { stream = s; metadata = some metadata }) id
        ≡ receive client
            (handle_read_stripe_request polls address fills source_fills s id).0
            1
            (judge metadata id)
  unfolding fetch_stripe send
  request_sent s metadata id e small =
      let answer = λ (t : StripeServerSession server_end Channel Source).
        receive client t 1 (judge metadata id) in
      let back : record s { stream = idle } ≡ s =
        ap (λ (w : Wire). record s { stream = w }) (sym e) in
      ap
        (λ (w : Wire).
          answer
            (handle_single_request polls address fills source_fills crc32 (record s {
              stream = record w { requests = w.requests ++ (1 ∷ to_le_bytes 8 id) };
            })).0)
        e
      ∙ ap (λ (p : StripeServerSession server_end Channel Source × Result (Unit {0})). answer p.0)
          (request_read s id small)
      ∙ ap
          (λ (t : StripeServerSession server_end Channel Source).
            answer (handle_read_stripe_request polls address fills source_fills t id).0)
          back

  -- A client that has the server's stripe size asks an idle session for a stripe, whose id fits into 64
  -- bits, and device and source fill the buffers that they are given. Then it gets what the server's
  -- own state says, bytes or error, and the connection is idle again.
  pub fetch_stripe-stripe_of :
      (s : StripeServerSession server_end Channel Source) (metadata : UbiMetadata) (id : ℕ)
      → s.stream ≡ idle
      → stripe_size metadata ≡ stripe_size s.metadata
      → id < 2 ^ 64
      → ((channel : Channel.State) (b : SharedBuffer) → length (fills channel b) ≡ b.len)
      → ((source : Source.State) (b : SharedBuffer) → length (source_fills source b) ≡ b.len)
      → ((fetch_stripe client (record { stream = s; metadata = some metadata }) id).1
          ≡ stripe_of Channel Source polls address fills source_fills s id)
        × ((fetch_stripe client (record { stream = s; metadata = some metadata }) id).0.stream
            ≡ idle)
  fetch_stripe-stripe_of s metadata id e size small full source_full =
      let served =
        request-Served Channel Source polls address fills source_fills full source_full s id e in
      let after = (handle_read_stripe_request polls address fills source_fills s id).0 in
      let meaning =
        subst
          (λ (n : ℕ).
            Replies Channel Source polls address fills source_fills n id served.replies
              (stripe_of Channel Source polls address fills source_fills s id))
          (sym size) served.meaning in
      let fetched =
        request_sent s metadata id e small
        ∙ heard-Replies after metadata id served.replies _ served.written meaning
            (size_fits metadata) in
      (ap (λ p. p.1) fetched, ap (λ p. p.0.stream) fetched)
