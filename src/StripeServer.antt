-- ===== src/StripeServer.antt =====
-- src/stripe_server/mod.rs: the protocol between a stripe server and its clients. A stream gives back
-- its new state also with an error, since what was written before has gone out.
pub mod Session
pub mod Client
pub mod Wire
pub mod Stripes
pub mod Answers
pub mod Refinement
pub mod Connecting
pub mod Ending
mod Examples
use ubiblk.Prelude.{ℕ, List, [], ◌∷◌, Option, none, some, Result, ok, err, panic, ◌>>=◌}
use ubiblk.IoChannel.{IoChannel, BlockDevice}
use ubiblk.StripeSource.{StripeSource}
use ubiblk.Metadata.{UbiMetadata}

-- `Read` and `Write`: `read_exact` takes the number of bytes to read.
pub record ReadWrite : Type 1 where
  pub State : Type 0
  pub read_exact : State → ℕ → State × Result (List ℕ)
  pub write_all : State → List ℕ → State × Result (Unit {0})
  pub flush : State → State × Result (Unit {0})

abbrev pub metadata_cmd : ℕ
metadata_cmd = 0x00

abbrev pub read_stripe_cmd : ℕ
read_stripe_cmd = 0x01

abbrev pub hello_cmd : ℕ
hello_cmd = 0x02

abbrev pub protocol_version : ℕ
protocol_version = 1

abbrev pub status_ok : ℕ
status_ok = 0x00

abbrev pub status_invalid_stripe : ℕ
status_invalid_stripe = 0x01

abbrev pub status_no_data : ℕ
status_no_data = 0x02

abbrev pub status_not_fetched : ℕ
status_not_fetched = 0x03

abbrev pub status_invalid_command : ℕ
status_invalid_command = 0xFE

abbrev pub status_server_error : ℕ
status_server_error = 0xFF

pub record StripeServerSession (Stream : ReadWrite) (Channel : IoChannel) (Source : StripeSource)
    : Type 0 where
  pub stream : Stream.State
  pub metadata : UbiMetadata
  pub stripe_channel : Channel.State
  pub source : Option Source.State

pub record StripeServerClient (Stream : ReadWrite) : Type 0 where
  pub stream : Stream.State
  pub metadata : Option UbiMetadata

-- `bytes[0]` of an array that was filled.
abbrev pub first_byte : List ℕ → ℕ
first_byte [] = 0
first_byte (byte ∷ bytes) = byte

-- Some calls of `write_all` in a row, then `flush`.
unfoldable pub send :
    (Stream : ReadWrite) → Stream.State → List (List ℕ) → Stream.State × Result (Unit {0})
send Stream stream [] = Stream.flush stream
send Stream stream (bytes ∷ rest) =
    let (stream', written) = Stream.write_all stream bytes in
    elim written [
      | ok done ↦ send Stream stream' rest
      | err e ↦ (stream', err e)
      | panic ↦ (stream', panic)
    ]

-- `?` on what was read, and what is done with the bytes.
abbrev pub proceed {ℓ} :
    {State : Type 0} {A : Type ℓ}
    → State × Result (List ℕ)
    → (State → List ℕ → State × Result A)
    → State × Result A
proceed (stream, ok bytes) next = next stream bytes
proceed (stream, err e) next = (stream, err e)
proceed (stream, panic) next = (stream, panic)

abbrev pub receive {ℓ} :
    {A : Type ℓ} (Stream : ReadWrite)
    → Stream.State
    → ℕ
    → (Stream.State → List ℕ → Stream.State × Result A)
    → Stream.State × Result A
receive Stream stream n next = proceed (Stream.read_exact stream n) next

-- The source is built anew for each session: `source_builder` is what building it comes to.
pub record StripeServer (Device : BlockDevice) (Source : StripeSource) : Type 0 where
  pub metadata : UbiMetadata
  pub source_builder : Option (Result Source.State)

abbrev pub transpose {ℓ} : {A : Type ℓ} → Option (Result A) → Result (Option A)
transpose none = ok none
transpose (some result) = do value ← result; ok (some value)

pub start_session :
    (Stream : ReadWrite) (Device : BlockDevice) (Source : StripeSource)
    → StripeServer Device Source
    → Stream.State
    → Result (StripeServerSession Stream Device.channel Source)
start_session Stream Device Source server stream = do
  stripe_channel ← Device.create_channel
  source ← transpose server.source_builder
  ok (record {
    stream = stream;
    metadata = server.metadata;
    stripe_channel = stripe_channel;
    source = source;
  })
