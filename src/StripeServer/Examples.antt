-- ===== src/StripeServer/Examples.antt =====
-- src/stripe_server: a server of four stripes, one of them local and one still in the source.
use ubiblk.Error.{stripe_unavailable_data}
use ubiblk.Prelude.{
  ℕ, ◌≡◌, refl, true, some, List, [], ◌∷◌, Result, ok, err, arith, replicate, length-replicate,
}
use ubiblk.BufferPool.{SharedBuffer}
use ubiblk.IoChannel.{IoChannel}
use ubiblk.StripeSource.{StripeSource}
use ubiblk.Metadata.{
  UbiMetadata, ubi_magic, metadata_version_major, metadata_version_minor, stripe_count, stripe_size,
  metadata_size,
}
use ubiblk.Waiting.{wait_for_completion}
use ubiblk.StripeServer.{StripeServerSession, send}
use ubiblk.StripeServer.Session.{
  read_stripe, stripe_not_fetched, stripe_has_data, handle_requests, handle_single_request,
  handle_opcode, handle_hello_request, reply_status, receive_read_stripe,
}
use ubiblk.StripeServer.Client.{fetch_stripe, connect}
use ubiblk.StripeServer.Connecting.{connect_lem}
use ubiblk.StripeServer.Ending.{handle_requests-Ends}
use ubiblk.StripeServer.Wire.{server_end, client_end}
use ubiblk.StripeServer.Stripes.{idle, stripe_of}
use ubiblk.StripeServer.Refinement.{fetch_stripe-stripe_of}

abbrev device : IoChannel
device = record {
  State = List ℕ;
  add_read = λ ids _ _ _ id. ok (id ∷ ids);
  add_write = λ ids _ _ _ _. ok ids;
  add_flush = λ ids _. ok ids;
  submit = λ ids. (ids, ok tt);
  poll = λ ids. ok ([], (0, true) ∷ []);
  busy = λ ids. true;
}

abbrev image : StripeSource
image = record {
  State = ℕ;
  request = λ n id _. (id, ok tt);
  poll = λ n. ok (n, (n, true) ∷ []);
  busy = λ n. true;
  sector_count = λ n. 4;
  has_stripe = λ n id. true;
}

abbrev nines : List ℕ → SharedBuffer → List ℕ
nines channel buffer = replicate buffer.len 9

abbrev zeros : ℕ → SharedBuffer → List ℕ
zeros source buffer = replicate buffer.len 0

-- The first stripe was written, the second is fetched, the third in the source, the fourth nowhere.
abbrev four_stripes : UbiMetadata
four_stripes = record {
  magic = ubi_magic;
  version_major = metadata_version_major;
  version_minor = metadata_version_minor;
  stripe_sector_count_shift = 0;
  stripe_headers = 2 ∷ 5 ∷ 4 ∷ 0 ∷ [];
}

abbrev session : StripeServerSession server_end device image
session = record { stream = idle; metadata = four_stripes; stripe_channel = []; source = some 0 }

abbrev no_hash : List ℕ → ℕ
no_hash bytes = 0

fetch_stripe-stripe_of_example :
    ((fetch_stripe
        (client_end device image 1 4096 nines zeros no_hash)
        (record { stream = session; metadata = some four_stripes })
        1).1
      ≡ stripe_of device image 1 4096 nines zeros session 1)
    × ((fetch_stripe
          (client_end device image 1 4096 nines zeros no_hash)
          (record { stream = session; metadata = some four_stripes })
          1).0.stream
        ≡ idle)
fetch_stripe-stripe_of_example =
    fetch_stripe-stripe_of device image 1 4096 nines zeros no_hash session four_stripes 1 refl refl
      (omega arith) (λ channel b. length-replicate b.len 9) (λ source b. length-replicate b.len 0)

fetched : stripe_of device image 1 4096 nines zeros session 1 ≡ ok (replicate 512 9)
unfolding stripe_of stripe_count stripe_not_fetched stripe_has_data read_stripe wait_for_completion
    stripe_size
fetched = refl

not_here : stripe_of device image 1 4096 nines zeros session 3 ≡ err (stripe_unavailable_data 3)
unfolding stripe_of stripe_count stripe_not_fetched stripe_has_data
not_here = refl

connect_lem_example :
    connect (client_end device image 1 4096 nines zeros no_hash) no_hash session
    ≡ ok (record { stream = session; metadata = some four_stripes })
unfolding metadata_size
connect_lem_example =
    connect_lem device image 1 4096 nines zeros no_hash session refl
      (record {
        magic_ok = refl;
        major_ok = refl;
        minor_ok = refl;
        shift_ok = omega arith;
        count_ok = omega arith;
      })
      (omega arith)

-- A greeting, an unknown opcode, and a request that breaks off.
abbrev talking : StripeServerSession server_end device image
talking = record session { stream = record { requests = 2 ∷ 9 ∷ 1 ∷ 0 ∷ []; replies = [] } }

handle_requests-Ends_example :
    (end : StripeServerSession server_end device image × Result (Unit {0})) × (handle_requests 1
        4096 nines zeros no_hash 5 talking
      ≡ some end)
handle_requests-Ends_example =
    handle_requests-Ends 1 4096 nines zeros no_hash 5 talking (omega arith)

answers_talk :
    handle_requests 1 4096 nines zeros no_hash 5 talking
    ≡ some (
      record session { stream = record { requests = []; replies = 0 ∷ 1 ∷ 0 ∷ 0 ∷ 0 ∷ 0xFE ∷ [] } },
      ok tt,
    )
unfolding handle_requests handle_single_request handle_opcode handle_hello_request reply_status
    receive_read_stripe send
answers_talk = refl
