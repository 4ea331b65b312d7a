-- ===== src/ArchiveSource/Examples.antt =====
-- src/stripe_source/archive.rs: a store that has one object, which two stripes share.
use ubiblk.Prelude.{
  ℕ, ◌+◌, ◌≡◌, refl, none, List, [], ◌∷◌, ◌++◌, Result, ok, take, lookup, beq_bytes, replicate, All,
}
use ubiblk.Prelude.ByteMaps
use ubiblk.BufferPool.{SharedBuffer}
use ubiblk.Memory.{fill}
use ubiblk.IoChannel.{Completion}
use ubiblk.Crypt.{Xts}
use ubiblk.Crypt.Loops.{IsXts}
use ubiblk.Archive.{ArchiveStore, ObjectName, uncompressed}
use ubiblk.Archive.Compression.{Zstd, decompress}
use ubiblk.Archive.StripeMapping.{zeroes, hashed}
use ubiblk.ArchiveSource.{ArchiveStripeSource}
use ubiblk.ArchiveSource.Operations.{
  request, poll, maybe_decrypt, verify_stripe_data, start_fetch_stripe, object_key,
  finish_stripe_fetch,
}
use ubiblk.ArchiveSource.Accounting.{request_counts, poll_counts}
use ubiblk.ArchiveSource.Counting.{count_of, unanswered, still_pending, IsAnswer}

abbrev all_got : List ObjectName → List (ObjectName × Result (List ℕ))
all_got [] = []
all_got (name ∷ names) = (name, ok (7 ∷ 8 ∷ [])) ∷ all_got names

abbrev one_object : ArchiveStore
one_object = record {
  State = List ObjectName;
  start_put_object = λ names name bytes. names;
  start_get_object = λ names name. names ++ name ∷ [];
  poll_puts = λ names. (names, []);
  poll_gets = λ names. ([], all_got names);
}

abbrev open_cipher : Xts
open_cipher = record { enc = λ key2 key1 tweak xs. xs; dec = λ key2 key1 tweak xs. xs }

open_cipher-IsXts : IsXts open_cipher
open_cipher-IsXts = record {
  length-enc = λ key2 key1 tweak xs h. h;
  length-dec = λ key2 key1 tweak xs h. h;
  dec-enc = λ key2 key1 tweak xs h. refl;
}

abbrev no_zstd : Zstd
no_zstd = record { encode_all = λ bytes level. none; decode_all = λ bytes. none }

abbrev first_byte : List ℕ → List ℕ
first_byte = take 1

abbrev unchanged : List ℕ → List ℕ
unchanged xs = xs

-- Stripes 0 and 2 have the object, and stripe 1 is zeros.
abbrev fresh : ArchiveStripeSource one_object
fresh = record {
  store = [];
  xts_cipher = none;
  stripe_hashes = (0, hashed (7 ∷ [])) ∷ (1, zeroes) ∷ (2, hashed (7 ∷ [])) ∷ [];
  max_stripe_id = 2;
  stripe_sector_count = 1;
  compression = uncompressed;
  finished_requests = [];
  pending_requests = [];
  memory = [];
}

abbrev buffer_at : ℕ → SharedBuffer
buffer_at n = record { ptr = 4096 + n; id = n; len = 4 }

request_counts_example :
    unanswered one_object
      (request one_object open_cipher no_zstd first_byte unchanged fresh 2 (buffer_at 2)).0
      0
    ≡ unanswered one_object fresh 0 + 0
request_counts_example =
    request_counts one_object open_cipher no_zstd first_byte unchanged fresh 2 0 (buffer_at 2)

-- Stripes 0 and 2 are asked for, with one request to the store.
abbrev asked : ArchiveStripeSource one_object
asked = record fresh {
  store = (b'd' ∷ b'a' ∷ b't' ∷ b'a' ∷ b'/' ∷ 7 ∷ []) ∷ [];
  pending_requests =
      (
        b'd' ∷ b'a' ∷ b't' ∷ b'a' ∷ b'/' ∷ 7 ∷ [],
        record {
          pending_stripes = (0, buffer_at 0) ∷ (2, buffer_at 2) ∷ [];
          expected_sha256 = 7 ∷ [];
        },
      )
      ∷ [];
}

asks_once :
    (request one_object open_cipher no_zstd first_byte unchanged
      (request one_object open_cipher no_zstd first_byte unchanged fresh 0 (buffer_at 0)).0
      2
      (buffer_at 2)).0
    ≡ asked
unfolding request lookup start_fetch_stripe object_key ByteMaps.lookup ByteMaps.insert beq_bytes
asks_once = refl

answers : All IsAnswer (all_got asked.store)
unfolding IsAnswer
answers = (λ e. cc, tt)

poll_counts_example :
    (s' : ArchiveStripeSource one_object) × (reports : List Completion) × (poll one_object
        open_cipher no_zstd first_byte unchanged asked
      ≡ ok (s', reports))
    × (s'.pending_requests ≡ still_pending (all_got asked.store) asked.pending_requests)
    × (s'.finished_requests ≡ [])
    × ((stripe : ℕ)
        → count_of stripe reports + unanswered one_object s' stripe
          ≡ unanswered one_object asked stripe)
poll_counts_example =
    poll_counts one_object open_cipher no_zstd first_byte unchanged open_cipher-IsXts asked answers

restored :
    finish_stripe_fetch one_object open_cipher no_zstd first_byte unchanged fresh 0
      (buffer_at 0)
      (7 ∷ 8 ∷ [])
      (7 ∷ [])
    ≡ ok (fill [] (buffer_at 0) (7 ∷ 8 ∷ 0 ∷ 0 ∷ []))
unfolding finish_stripe_fetch verify_stripe_data maybe_decrypt decompress replicate beq_bytes
restored = refl
