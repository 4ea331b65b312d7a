-- ===== src/StripeServer/Wire.antt =====
-- src/stripe_server: a client and a session at the two ends of one connection, which loses no byte and
-- reorders none. The client's `flush` lets the session handle one request.
use ubiblk.Error.{io_error}
use ubiblk.Prelude.{ℕ, List, [], ◌++◌, ok, err, leb, length, take, drop, if◌then◌else◌}
use ubiblk.BufferPool.{SharedBuffer}
use ubiblk.IoChannel.{IoChannel}
use ubiblk.StripeSource.{StripeSource}
use ubiblk.StripeServer.{ReadWrite, StripeServerSession}
use ubiblk.StripeServer.Session.{handle_single_request}

-- The bytes on their way to the server, and those on their way back.
pub record Wire : Type 0 where
  pub requests : List ℕ
  pub replies : List ℕ

-- The server's end.
abbrev pub server_end : ReadWrite
server_end = record {
  State = Wire;
  read_exact = λ wire n.
      if leb n (length wire.requests)
      then (record wire { requests = drop n wire.requests }, ok (take n wire.requests))
      else (record wire { requests = [] }, err io_error);
  write_all = λ wire bytes. (record wire { replies = wire.replies ++ bytes }, ok tt);
  flush = λ wire. (wire, ok tt);
}

module _ (Channel : IoChannel) (Source : StripeSource) (polls address : ℕ)
    (fills : Channel.State → SharedBuffer → List ℕ)
    (source_fills : Source.State → SharedBuffer → List ℕ) (crc32 : List ℕ → ℕ) where
  -- The client's end, with the session at the other end.
  abbrev pub client_end : ReadWrite
  client_end = record {
    State = StripeServerSession server_end Channel Source;
    read_exact = λ s n.
        if leb n (length s.stream.replies)
        then (
          record s { stream = record s.stream { replies = drop n s.stream.replies } },
          ok (take n s.stream.replies),
        )
        else (record s { stream = record s.stream { replies = [] } }, err io_error);
    write_all = λ s bytes.
        (record s { stream = record s.stream { requests = s.stream.requests ++ bytes } }, ok tt);
    flush = λ s. ((handle_single_request polls address fills source_fills crc32 s).0, ok tt);
  }
