-- ===== src/StripeServer/Ending.antt =====
-- src/stripe_server/session.rs: a session ends when its client has nothing more to say.
use ubiblk.Error.{io_error}
use ubiblk.Prelude.{
  ℕ, zero, suc, ◌≤◌, ◌<◌, ◌≡◌, ◌⊎◌, inl, inr, refl, sym, ap, ◌∙◌, true, false, some, List, [], ◌∷◌,
  ◌++◌, Result, ok, err, panic, arith, from_le_bytes, leb, ◌==◌, length, take, drop, length-drop,
  Bool-cases, Option-cases, Result-cases, replicate,
}
use ubiblk.BufferPool.{SharedBuffer}
use ubiblk.IoChannel.{IoChannel}
use ubiblk.StripeSource.{StripeSource}
use ubiblk.Metadata.{metadata_size, stripe_count}
use ubiblk.Metadata.Codec.{write_to_buf}
use ubiblk.StripeServer.{StripeServerSession, send, first_byte}
use ubiblk.StripeServer.Session.{
  stripe_not_fetched, stripe_has_data, read_stripe, read_stripe_from_source, reply_stripe,
  reply_status, notify_server_error, on_bytes, serve_local, serve_from_source, serve_fetched,
  handle_hello_request, handle_metadata_request, handle_read_stripe_request, receive_read_stripe,
  handle_opcode, handle_single_request, handle_requests,
}
use ubiblk.StripeServer.Wire.{Wire, server_end}

send_keeps :
    (wire : Wire) (parts : List (List ℕ)) → (send server_end wire parts).0.requests ≡ wire.requests
unfolding send
send_keeps wire [] = refl
send_keeps wire (bytes ∷ parts) = send_keeps (record wire { replies = wire.replies ++ bytes }) parts

read_cases :
    (wire : Wire) (n : ℕ)
    → ((n ≤ length wire.requests)
        × (server_end.read_exact wire n
            ≡ (record wire { requests = drop n wire.requests }, ok (take n wire.requests))))
      ⊎ (server_end.read_exact wire n ≡ (record wire { requests = [] }, err io_error))
read_cases wire n = elim (Bool-cases (leb n (length wire.requests))) [
  | inl enough ↦ inl (ground arith, rw enough refl)
  | inr short ↦ inr (rw short refl)
]

module _ {Channel : IoChannel} {Source : StripeSource} where
  -- What is still to be read.
  abbrev left : StripeServerSession server_end Channel Source → ℕ
  left s = length s.stream.requests

  status_keeps :
      (s : StripeServerSession server_end Channel Source) (status : ℕ)
      → left (reply_status s status).0 ≡ left s
  unfolding reply_status
  status_keeps s status = ap length (send_keeps s.stream ((status ∷ []) ∷ []))

  hello_keeps :
      (s : StripeServerSession server_end Channel Source) → left (handle_hello_request s).0 ≡ left s
  unfolding handle_hello_request
  hello_keeps s = ap length (send_keeps s.stream _)

  metadata_keeps :
      (crc32 : List ℕ → ℕ) (s : StripeServerSession server_end Channel Source)
      → left (handle_metadata_request crc32 s).0 ≡ left s
  unfolding handle_metadata_request
  metadata_keeps crc32 s =
      elim (Result-cases (write_to_buf crc32 s.metadata (replicate (metadata_size s.metadata) 0))) [
        | inl (out, ran) ↦ rw (ran, handle_metadata_request) (ap length (send_keeps s.stream _))
        | inr (inl (x, failed)) ↦ rw (failed, handle_metadata_request) refl
        | inr (inr failed) ↦ rw (failed, handle_metadata_request) refl
      ]

  module _ (polls address : ℕ) (fills : Channel.State → SharedBuffer → List ℕ)
      (source_fills : Source.State → SharedBuffer → List ℕ) where
    stripe_keeps :
        (s : StripeServerSession server_end Channel Source) (bytes : List ℕ)
        → left (reply_stripe polls address fills source_fills s bytes).0 ≡ left s
    unfolding reply_stripe
    stripe_keeps s bytes = ap length (send_keeps s.stream _)

    local_keeps :
        (s : StripeServerSession server_end Channel Source) (id : ℕ)
        → left (serve_local polls address fills source_fills s id).0 ≡ left s
    unfolding serve_local notify_server_error
    local_keeps s id =
        elim (Result-cases
          (read_stripe Channel polls address fills s.metadata s.stripe_channel id)) [
            | inl ((channel', bytes), ran) ↦
                rw (ran, serve_local) (stripe_keeps (record s { stripe_channel = channel' }) bytes)
            | inr (inl (x, failed)) ↦ rw (failed, serve_local) refl
            | inr (inr failed) ↦ rw (failed, serve_local) refl
          ]

    fetched_keeps :
        (s : StripeServerSession server_end Channel Source) (id : ℕ)
        → left (serve_fetched polls address fills source_fills s id).0 ≡ left s
    unfolding serve_fetched
    fetched_keeps s id = elim (Result-cases (stripe_has_data s.metadata id)) [
      | inl (true, here) ↦ rw (here, serve_fetched) (local_keeps s id)
      | inl (false, not_here) ↦ rw (not_here, serve_fetched) (status_keeps s 2)
      | inr (inl (x, failed)) ↦ rw (failed, serve_fetched) refl
      | inr (inr failed) ↦ rw (failed, serve_fetched) refl
    ]

    source_keeps :
        (s : StripeServerSession server_end Channel Source) (id : ℕ)
        → left (serve_from_source polls address fills source_fills s id).0 ≡ left s
    unfolding serve_from_source notify_server_error
    source_keeps s id = elim (Option-cases s.source) [
      | inl missing ↦ rw (missing, serve_from_source) (status_keeps s 3)
      | inr (source, there) ↦
          elim (Result-cases
            (read_stripe_from_source Source polls address source_fills s.metadata source id)) [
              | inl ((source', bytes), ran) ↦
                  rw (there, ran, serve_from_source)
                    (stripe_keeps (record s { source = some source' }) bytes)
              | inr (inl (x, failed)) ↦ rw (there, failed, serve_from_source) refl
              | inr (inr failed) ↦ rw (there, failed, serve_from_source) refl
            ]
    ]

    read_keeps :
        (s : StripeServerSession server_end Channel Source) (id : ℕ)
        → left (handle_read_stripe_request polls address fills source_fills s id).0 ≡ left s
    unfolding handle_read_stripe_request
    read_keeps s id = elim (Bool-cases (leb (stripe_count s.metadata) id)) [
      | inl beyond ↦ rw (beyond, handle_read_stripe_request) (status_keeps s 1)
      | inr within ↦ elim (Result-cases (stripe_not_fetched s.metadata id)) [
        | inl (true, missing) ↦ rw (within, missing, handle_read_stripe_request) (source_keeps s id)
        | inl (false, fetched) ↦
            rw (within, fetched, handle_read_stripe_request) (fetched_keeps s id)
        | inr (inl (x, failed)) ↦ rw (within, failed, handle_read_stripe_request) refl
        | inr (inr failed) ↦ rw (within, failed, handle_read_stripe_request) refl
      ]
    ]

    receive_shrinks :
        (s : StripeServerSession server_end Channel Source)
        → left (receive_read_stripe polls address fills source_fills s).0 ≤ left s
    unfolding receive_read_stripe
    receive_shrinks s =
        let next = λ (s' : StripeServerSession server_end Channel Source) (bytes : List ℕ).
          handle_read_stripe_request polls address fills source_fills s' (from_le_bytes bytes) in
        let after = λ (p : Wire × Result (List ℕ)). left (on_bytes s p next).0 in
        elim (read_cases s.stream 8) [
          | inl (enough, read) ↦
              let same =
                ap after read
                ∙ read_keeps
                    (record s { stream = record s.stream { requests = drop 8 s.stream.requests } })
                    (from_le_bytes (take 8 s.stream.requests)) in
              omega (arith, same, length-drop 8 s.stream.requests)
          | inr short ↦ omega (arith, ap after short)
        ]

    module _ (crc32 : List ℕ → ℕ) where
      opcode_shrinks :
          (s : StripeServerSession server_end Channel Source) (opcode : ℕ)
          → left (handle_opcode polls address fills source_fills crc32 s opcode).0 ≤ left s
      unfolding handle_opcode
      opcode_shrinks s opcode = elim (Bool-cases (opcode == 2)) [
        | inl hello ↦ rw (hello, handle_opcode) (omega (arith, hello_keeps s))
        | inr other ↦ elim (Bool-cases (opcode == 0)) [
          | inl metadata ↦
              rw (other, metadata, handle_opcode) (omega (arith, metadata_keeps crc32 s))
          | inr another ↦ elim (Bool-cases (opcode == 1)) [
            | inl stripe ↦ rw (other, another, stripe, handle_opcode) (receive_shrinks s)
            | inr unknown ↦
                rw (other, another, unknown, handle_opcode) (omega (arith, status_keeps s 0xFE))
          ]
        ]
      ]

      -- A request that is handled was taken off the stream.
      request_shrinks :
          (s s' : StripeServerSession server_end Channel Source)
          → handle_single_request polls address fills source_fills crc32 s ≡ (s', ok tt)
          → left s' < left s
      unfolding handle_single_request
      request_shrinks s s' e =
          let next = λ (t : StripeServerSession server_end Channel Source) (bytes : List ℕ).
            handle_opcode polls address fills source_fills crc32 t (first_byte bytes) in
          let after = λ (p : Wire × Result (List ℕ)). on_bytes s p next in
          elim (read_cases s.stream 1) [
            | inl (enough, read) ↦
                let smaller =
                  opcode_shrinks
                    (record s { stream = record s.stream { requests = drop 1 s.stream.requests } })
                    (first_byte (take 1 s.stream.requests)) in
                let same =
                  ap
                    (λ (p : StripeServerSession server_end Channel Source × Result (Unit {0})).
                      left p.0)
                    (sym (ap after read) ∙ e) in
                omega (arith, same, smaller, length-drop 1 s.stream.requests)
            | inr short ↦ absurd (ground (arith, sym (ap after short) ∙ e))
          ]

      -- Whatever its client has sent, the session ends, with an error or a panic, if the fuel is
      -- more than the number of bytes that were sent.
      pub handle_requests-Ends :
          (fuel : ℕ) (s : StripeServerSession server_end Channel Source)
          → left s < fuel
          → (end : StripeServerSession server_end Channel Source × Result (Unit {0}))
            × (handle_requests polls address fills source_fills crc32 fuel s ≡ some end)
      unfolding handle_requests
      handle_requests-Ends zero s small = absurd (omega arith)
      handle_requests-Ends (suc fuel) s small =
          let r = handle_single_request polls address fills source_fills crc32 s in
          elim (Result-cases r.1) [
            | inl (done, handled) ↦
                let shorter =
                  request_shrinks s r.0 (ap (λ (x : Result (Unit {0})). (r.0, x)) handled) in
                let (end, rest) = handle_requests-Ends fuel r.0 (omega arith) in
                (end, rw (handled, handle_requests) rest)
            | inr (inl (x, failed)) ↦ ((r.0, ok tt), rw (failed, handle_requests) refl)
            | inr (inr failed) ↦ ((r.0, panic), rw (failed, handle_requests) refl)
          ]
