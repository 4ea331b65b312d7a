-- ===== src/StripeServer/Answers.antt =====
-- src/stripe_server/session.rs: what the session answers to a request for a stripe.
use ubiblk.Error.{io_error, remote_status}
use ubiblk.Prelude.{
  ℕ, ◌*◌, ◌%◌, ◌^◌, ◌≡◌, ◌≢◌, inl, inr, sym, ap, ◌∙◌, true, false, some, List, [], ◌∷◌, ◌++◌,
  Result, ok, err, >>=-eq-ok, ok_eq, arith, leb, length, to_le_bytes, Bool-cases, Option-cases,
  Result-cases,
}
use ubiblk.BufferPool.{SharedBuffer}
use ubiblk.IoChannel.{IoChannel}
use ubiblk.StripeSource.{StripeSource}
use ubiblk.Metadata.{UbiMetadata, stripe_size, stripe_count, stripe_sector_count}
use ubiblk.Waiting.{wait_for_completion, wait_for_stripe}
use ubiblk.StripeServer.{StripeServerSession, send}
use ubiblk.StripeServer.Session.{
  stripe_not_fetched, stripe_has_data, stripe_buffer, read_stripe, read_stripe_from_source,
  reply_stripe, reply_status, notify_server_error, serve_local, serve_from_source, serve_fetched,
  handle_read_stripe_request,
}
use ubiblk.StripeServer.Client.{status_error}
use ubiblk.StripeServer.Wire.{Wire, server_end}
use ubiblk.StripeServer.Stripes.{idle, answered, from_source, from_device, stripe_of}

module _ (Channel : IoChannel) (Source : StripeSource) (polls address : ℕ)
    (fills : Channel.State → SharedBuffer → List ℕ)
    (source_fills : Source.State → SharedBuffer → List ℕ) where
  -- The bytes of a reply that stand for an answer.
  pub data Replies (size id : ℕ) : List ℕ → Result (List ℕ) → Type 0 where
    as_status :
        (status : ℕ) → status ≢ 0 → Replies size id (status ∷ []) (err (status_error id status))
    as_data :
        (bytes : List ℕ)
        → length bytes ≡ size
        → Replies size id ((0 ∷ to_le_bytes 8 size) ++ bytes) (ok bytes)
    as_nothing : Replies size id [] (err io_error)

  -- A session that has replied, and waits for the next request.
  pub record Served (size id : ℕ) (s : StripeServerSession server_end Channel Source)
      (answer : Result (List ℕ)) : Type 0 where
    pub replies : List ℕ
    pub written : s.stream ≡ record { requests = []; replies = replies }
    pub meaning : Replies size id replies answer

  idle_status :
      (s : StripeServerSession server_end Channel Source) (size id status : ℕ)
      → s.stream ≡ idle
      → status ≢ 0
      → Served size id (reply_status s status).0 (err (status_error id status))
  unfolding reply_status send
  idle_status s size id status e ne = record {
    replies = status ∷ [];
    written = ap (λ (w : Wire). record w { replies = w.replies ++ (status ∷ []) }) e;
    meaning = as_status status ne;
  }

  idle_notified :
      (s : StripeServerSession server_end Channel Source) (size id : ℕ)
      → s.stream ≡ idle
      → Served size id (notify_server_error s) (err (remote_status 0xFF))
  unfolding notify_server_error status_error
  idle_notified s size id e = record {
    replies = 0xFF ∷ [];
    written = ap (λ (w : Wire). record w { replies = w.replies ++ (0xFF ∷ []) }) e;
    meaning = as_status 0xFF (omega arith);
  }

  idle_data :
      (s : StripeServerSession server_end Channel Source) (id : ℕ) (bytes : List ℕ)
      → s.stream ≡ idle
      → length bytes ≡ stripe_size s.metadata
      → Served
          (stripe_size s.metadata)
          id
          (reply_stripe polls address fills source_fills s bytes).0
          (ok bytes)
  unfolding reply_stripe send
  idle_data s id bytes e len = record {
    replies = (0 ∷ to_le_bytes 8 (stripe_size s.metadata)) ++ bytes;
    written =
        ap
          (λ (w : Wire). record w {
            replies = ((w.replies ++ (0 ∷ [])) ++ to_le_bytes 8 (stripe_size s.metadata)) ++ bytes;
          })
          e;
    meaning = as_data bytes len;
  }

  idle_nothing :
      (s : StripeServerSession server_end Channel Source) (size id : ℕ)
      → s.stream ≡ idle
      → Served size id s (err io_error)
  idle_nothing s size id e = record { replies = []; written = e; meaning = as_nothing }

  module _ (full : (channel : Channel.State) (b : SharedBuffer) → length (fills channel b) ≡ b.len)
      (source_full : (source : Source.State) (b : SharedBuffer)
        → length (source_fills source b) ≡ b.len) where
    read_length :
        (metadata : UbiMetadata) (channel channel' : Channel.State) (id : ℕ) (bytes : List ℕ)
        → read_stripe Channel polls address fills metadata channel id ≡ ok (channel', bytes)
        → length bytes ≡ stripe_size metadata
    unfolding read_stripe
    read_length metadata channel channel' id bytes e =
        let count = stripe_sector_count metadata % 2 ^ 32 in
        let buffer = stripe_buffer address metadata in
        let (channel1, _, e1) =
          >>=-eq-ok (Channel.add_read channel (id * count % 2 ^ 64) count buffer 0) _ e in
        let (done, _, e2) = >>=-eq-ok (Channel.submit channel1).1 _ e1 in
        let (channel3, _, e3) =
          >>=-eq-ok (wait_for_completion Channel polls (Channel.submit channel1).0 0) _ e2 in
        ap (λ (p : Channel.State × List ℕ). length p.1) (sym (ok_eq e3)) ∙ full channel3 buffer

    source_length :
        (metadata : UbiMetadata) (source source' : Source.State) (id : ℕ) (bytes : List ℕ)
        → read_stripe_from_source Source polls address source_fills metadata source id
          ≡ ok (source', bytes)
        → length bytes ≡ stripe_size metadata
    unfolding read_stripe_from_source
    source_length metadata source source' id bytes e =
        let buffer = stripe_buffer address metadata in
        let (done, _, e1) = >>=-eq-ok (Source.request source id buffer).1 _ e in
        let (source2, _, e2) =
          >>=-eq-ok (wait_for_stripe Source polls (Source.request source id buffer).0 id) _ e1 in
        ap (λ (p : Source.State × List ℕ). length p.1) (sym (ok_eq e2)) ∙ source_full source2 buffer

    local-Served :
        (s : StripeServerSession server_end Channel Source) (id : ℕ)
        → s.stream ≡ idle
        → Served
            (stripe_size s.metadata)
            id
            (serve_local polls address fills source_fills s id).0
            (answered (read_stripe Channel polls address fills s.metadata s.stripe_channel id))
    unfolding serve_local
    local-Served s id e =
        elim (Result-cases
          (read_stripe Channel polls address fills s.metadata s.stripe_channel id)) [
            | inl ((channel', bytes), ran) ↦
                rw (ran, serve_local)
                  (idle_data (record s { stripe_channel = channel' }) id bytes e
                    (read_length _ _ _ id bytes ran))
            | inr (inl (x, failed)) ↦ rw (failed, serve_local) (idle_notified s _ id e)
            | inr (inr failed) ↦ rw (failed, serve_local) (idle_nothing s _ id e)
          ]

    from_source-Served :
        (s : StripeServerSession server_end Channel Source) (id : ℕ)
        → s.stream ≡ idle
        → Served
            (stripe_size s.metadata)
            id
            (serve_from_source polls address fills source_fills s id).0
            (from_source Channel Source polls address fills source_fills s id)
    unfolding from_source status_error serve_from_source
    from_source-Served s id e = elim (Option-cases s.source) [
      | inl missing ↦
          rw (missing, serve_from_source, from_source) (idle_status s _ id 3 e (omega arith))
      | inr (source, there) ↦
          elim (Result-cases
            (read_stripe_from_source Source polls address source_fills s.metadata source id)) [
              | inl ((source', bytes), ran) ↦
                  rw (there, ran, serve_from_source, from_source)
                    (idle_data (record s { source = some source' }) id bytes e
                      (source_length _ _ _ id bytes ran))
              | inr (inl (x, failed)) ↦
                  rw (there, failed, serve_from_source, from_source) (idle_notified s _ id e)
              | inr (inr failed) ↦
                  rw (there, failed, serve_from_source, from_source) (idle_nothing s _ id e)
            ]
    ]

    fetched-Served :
        (s : StripeServerSession server_end Channel Source) (id : ℕ)
        → s.stream ≡ idle
        → Served
            (stripe_size s.metadata)
            id
            (serve_fetched polls address fills source_fills s id).0
            (from_device Channel Source polls address fills source_fills s id)
    unfolding from_device status_error serve_fetched
    fetched-Served s id e = elim (Result-cases (stripe_has_data s.metadata id)) [
      | inl (true, here) ↦ rw (here, serve_fetched, from_device) (local-Served s id e)
      | inl (false, none_here) ↦
          rw (none_here, serve_fetched, from_device) (idle_status s _ id 2 e (omega arith))
      | inr (inl (x, failed)) ↦ rw (failed, serve_fetched, from_device) (idle_nothing s _ id e)
      | inr (inr failed) ↦ rw (failed, serve_fetched, from_device) (idle_nothing s _ id e)
    ]

    -- What the session has written when it has handled a request for the stripe.
    pub request-Served :
        (s : StripeServerSession server_end Channel Source) (id : ℕ)
        → s.stream ≡ idle
        → Served
            (stripe_size s.metadata)
            id
            (handle_read_stripe_request polls address fills source_fills s id).0
            (stripe_of Channel Source polls address fills source_fills s id)
    unfolding stripe_of status_error handle_read_stripe_request
    request-Served s id e = elim (Bool-cases (leb (stripe_count s.metadata) id)) [
      | inl beyond ↦
          rw (beyond, handle_read_stripe_request, stripe_of) (idle_status s _ id 1 e (omega arith))
      | inr within ↦ elim (Result-cases (stripe_not_fetched s.metadata id)) [
        | inl (true, missing) ↦
            rw (within, missing, handle_read_stripe_request, stripe_of) (from_source-Served s id e)
        | inl (false, fetched) ↦
            rw (within, fetched, handle_read_stripe_request, stripe_of) (fetched-Served s id e)
        | inr (inl (x, failed)) ↦
            rw (within, failed, handle_read_stripe_request, stripe_of) (idle_nothing s _ id e)
        | inr (inr failed) ↦
            rw (within, failed, handle_read_stripe_request, stripe_of) (idle_nothing s _ id e)
      ]
    ]
