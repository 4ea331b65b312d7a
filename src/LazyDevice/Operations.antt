-- ===== src/LazyDevice/Operations.antt =====
-- device.rs: the methods of `IoChannel` for the lazy channel.
use ubiblk.Prelude.{
  ℕ, ◌+◌, ◌-◌, ◌%◌, ◌^◌, Bool, true, false, ◌||◌, none, some, List, [], ◌∷◌, ◌++◌, Result, ok, err,
  panic, ◌>>=◌, ◌==◌, if◌then◌else◌,
}
use ubiblk.BufferPool.{SharedBuffer}
use ubiblk.IoChannel.{IoChannel, Completion}
use ubiblk.SharedState.{sector_to_stripe_id}
use ubiblk.LazyDevice.{
  LazyIoChannel, RwRequest, RequestType, inward, outward, pending, complete, failed,
}
use ubiblk.LazyDevice.Requests.{
  request_stripes_fetch_status, request_stripes_written, start_stripe_fetches,
  start_stripe_set_written,
}
use ubiblk.LazyDevice.Queue.{process_queued_rw_requests}

module _ {Base Image : IoChannel} where
  unfoldable pub make_request :
      LazyIoChannel Base Image → RequestType → ℕ → ℕ → SharedBuffer → ℕ → RwRequest
  make_request c kind sector_offset sector_count buf id = record {
    id = id;
    kind = kind;
    sector_offset = sector_offset;
    sector_count = sector_count;
    buf = buf;
    stripe_id_first = sector_to_stripe_id c.metadata_state sector_offset;
    stripe_id_last =
        sector_to_stripe_id c.metadata_state ((sector_offset + sector_count + 2 ^ 64 - 1) % 2 ^ 64);
  }

  unfoldable pub finish_failed : LazyIoChannel Base Image → ℕ → LazyIoChannel Base Image
  finish_failed c id = record c { finished_requests = c.finished_requests ++ (id, false) ∷ [] }

  unfoldable pub enqueue : LazyIoChannel Base Image → RwRequest → LazyIoChannel Base Image
  enqueue c request = record c { queued_rw_requests = c.queued_rw_requests ++ request ∷ [] }

  -- The tail of `add_read`: ask for the missing stripes, and wait.
  unfoldable pub fetch_and_enqueue :
      LazyIoChannel Base Image → RwRequest → Result (LazyIoChannel Base Image)
  unfolding start_stripe_fetches finish_failed enqueue
  fetch_and_enqueue c request = do
    (c', sent) ← start_stripe_fetches c request
    ok (if sent then enqueue c' request else finish_failed c' request.id)

  unfoldable pub add_read :
      LazyIoChannel Base Image → ℕ → ℕ → SharedBuffer → ℕ → Result (LazyIoChannel Base Image)
  unfolding make_request request_stripes_fetch_status finish_failed fetch_and_enqueue
  add_read c sector_offset sector_count buf id = do
    let request = make_request c inward sector_offset sector_count buf id
    status ← request_stripes_fetch_status c request
    elim status [
      | complete ↦ do
        base' ← Base.add_read c.base sector_offset sector_count buf id
        ok (record c { base = base' })
      | failed stripe_id ↦ ok (finish_failed c id)
      | pending ↦ elim (request.stripe_id_first == request.stripe_id_last) [
        | true ↦ elim c.image [
          | some image ↦ do
            image' ← Image.add_read image sector_offset sector_count buf id
            ok (record c { image = some image' })
          | none ↦ fetch_and_enqueue c request
        ]
        | false ↦ fetch_and_enqueue c request
      ]
    ]

  -- The tail of `add_write`: ask for the missing stripes and for the marks, and wait.
  unfoldable pub announce_and_enqueue :
      LazyIoChannel Base Image → RwRequest → Result (LazyIoChannel Base Image)
  unfolding start_stripe_fetches start_stripe_set_written finish_failed enqueue
  announce_and_enqueue c request = do
    (c', sent) ← start_stripe_fetches c request
    elim sent [
      | false ↦ ok (finish_failed c' request.id)
      | true ↦ elim c'.track_written [
        | false ↦ ok (enqueue c' request)
        | true ↦ do
          (c'', marked) ← start_stripe_set_written c' request
          ok (if marked then enqueue c'' request else finish_failed c'' request.id)
      ]
    ]

  unfoldable pub add_write :
      LazyIoChannel Base Image → ℕ → ℕ → SharedBuffer → ℕ → Result (LazyIoChannel Base Image)
  unfolding make_request request_stripes_fetch_status request_stripes_written finish_failed
      announce_and_enqueue
  add_write c sector_offset sector_count buf id = do
    let request = make_request c outward sector_offset sector_count buf id
    status ← request_stripes_fetch_status c request
    elim status [
      | complete ↦ do
        can_start ← if c.track_written then request_stripes_written c request else ok true
        elim can_start [
          | true ↦ do
            base' ← Base.add_write c.base sector_offset sector_count buf id
            ok (record c { base = base' })
          | false ↦ announce_and_enqueue c request
        ]
      | failed stripe_id ↦ ok (finish_failed c id)
      | pending ↦ announce_and_enqueue c request
    ]

  unfoldable pub add_flush : LazyIoChannel Base Image → ℕ → Result (LazyIoChannel Base Image)
  add_flush c id = do base' ← Base.add_flush c.base id; ok (record c { base = base' })

  unfoldable pub submit_base :
      LazyIoChannel Base Image → LazyIoChannel Base Image × Result (Unit {0})
  submit_base c = let (base', result) = Base.submit c.base in (record c { base = base' }, result)

  -- The image first; if that fails the base is not asked.
  unfoldable pub submit : LazyIoChannel Base Image → LazyIoChannel Base Image × Result (Unit {0})
  unfolding submit_base
  submit c = elim c.image [
    | none ↦ submit_base c
    | some image ↦
        let (image', result) = Image.submit image in
        let c' = record c { image = some image' } in
        elim result [ ok _ ↦ submit_base c' | err e ↦ (c', err e) | panic ↦ (c', panic) ]
  ]

  unfoldable pub poll_image :
      LazyIoChannel Base Image → Result (LazyIoChannel Base Image × List Completion)
  poll_image c = elim c.image [
    | none ↦ ok (c, [])
    | some image ↦ do
      (image', completions) ← Image.poll image
      ok (record c { image = some image' }, completions)
  ]

  unfoldable pub poll :
      LazyIoChannel Base Image → Result (LazyIoChannel Base Image × List Completion)
  unfolding process_queued_rw_requests poll_image
  poll c = do
    c' ← process_queued_rw_requests c
    let results = c'.finished_requests
    (base', from_base) ← Base.poll c'.base
    (c'', from_image) ← poll_image (record c' { base = base'; finished_requests = [] })
    ok (c'', results ++ (from_base ++ from_image))

  unfoldable pub busy : LazyIoChannel Base Image → Bool
  busy c =
      Base.busy c.base
      || elim c.image [ none ↦ false | some image ↦ Image.busy image ]
      || elim c.queued_rw_requests [ [] ↦ false | request ∷ rest ↦ true ]

module _ (Base Image : IoChannel) where
  -- The lazy channel is a channel itself.
  abbrev pub channel : IoChannel
  channel = record {
    State = LazyIoChannel Base Image;
    add_read = add_read;
    add_write = add_write;
    add_flush = add_flush;
    submit = submit;
    poll = poll;
    busy = busy;
  }
