-- ===== src/Archive/StripeMapping/Examples.antt =====
-- src/archive/stripe_hashes.rs: packages that write few maps and all files, and tests.
use ubiblk.Prelude.{
  ℕ, ◌≡◌, ◌⊎◌, ◌+◌, ◌%◌, refl, true, Option, none, some, List, [], ◌∷◌, ◌++◌, ok, err, arith,
  lookup, length, take, drop, take-append, drop-append, replicate, beq_bytes,
}
use ubiblk.Error.{archive_error, mapping_length_too_large, mapping_domain_invalid}
use ubiblk.Crypt.{Xts, XtsBlockCipher}
use ubiblk.Crypt.Loops.{IsXts}
use ubiblk.Archive.Hmac.{Mac, verify_hmac_tag}
use ubiblk.Archive.Hmac.Laws.{Collision}
use ubiblk.Archive.StripeMapping.{
  StripeContentMap, zeroes, StripeMappingFile, Cbor, to_btree, hashed,
  archive_stripe_mapping_domain, manifest_hmac_input, decrypt_mapping, serialize_stripe_mapping,
  check_mapping_file, decode_mapping_file, deserialize_stripe_mapping,
}
use ubiblk.Archive.StripeMapping.Laws.{
  IsCbor, Serializes, deserialize-serialize, deserialize_authentic,
}

-- Maps with at most one stripe, of zeros.
abbrev write_map : StripeContentMap → Option (List ℕ)
write_map [] = some []
write_map ((k, zeroes) ∷ []) = some (k ∷ [])
write_map ((k, hashed h) ∷ []) = none
write_map (x ∷ y ∷ m) = none

abbrev read_map : List ℕ → Option StripeContentMap
read_map [] = some []
read_map (k ∷ []) = some ((k, zeroes) ∷ [])
read_map (k ∷ j ∷ bytes) = none

abbrev write_file : StripeMappingFile → List ℕ
write_file f =
    f.version
    ∷ f.plaintext_len
    ∷ length f.domain
    ∷ length f.ciphertext
    ∷ (f.domain ++ (f.ciphertext ++ f.hmac_tag))

abbrev read_file : List ℕ → Option StripeMappingFile
read_file (v ∷ n ∷ d ∷ c ∷ rest) = some (record {
  domain = take d rest;
  version = v;
  ciphertext = take c (drop d rest);
  plaintext_len = n;
  hmac_tag = drop c (drop d rest);
})
read_file bytes = none

abbrev few : Cbor
few = record {
  map_to_vec = write_map;
  map_from_slice = read_map;
  file_to_vec = λ f. some (write_file f);
  file_from_slice = read_file;
}

map_back :
    (m : StripeContentMap) (bytes : List ℕ) → write_map m ≡ some bytes → read_map bytes ≡ some m
map_back [] bytes e = ground arith
map_back ((k, zeroes) ∷ []) bytes e = ground arith
map_back ((k, hashed h) ∷ []) bytes e = cc
map_back (x ∷ y ∷ m) bytes e = cc

file_back : (f : StripeMappingFile) → read_file (write_file f) ≡ some f
file_back f = ground (
  arith,
  take-append (length f.domain) f.domain (f.ciphertext ++ f.hmac_tag) refl,
  drop-append (length f.domain) f.domain (f.ciphertext ++ f.hmac_tag) refl,
  take-append (length f.ciphertext) f.ciphertext f.hmac_tag refl,
  drop-append (length f.ciphertext) f.ciphertext f.hmac_tag refl,
)

few-IsCbor : IsCbor few
few-IsCbor = record { map_back = map_back; file_back = λ f bytes e. ground (arith, file_back f) }

abbrev sum_of : List ℕ → ℕ
sum_of [] = 0
sum_of (x ∷ xs) = (x + sum_of xs) % 256

-- A weak code of 32 bytes, and a cipher that changes nothing.
abbrev sums : Mac
sums = record { takes_key = λ key. true; tag = λ key xs. replicate 32 (sum_of xs) }

abbrev open_cipher : Xts
open_cipher = record { enc = λ key2 key1 tweak xs. xs; dec = λ key2 key1 tweak xs. xs }

open_cipher-IsXts : IsXts open_cipher
open_cipher-IsXts = record {
  length-enc = λ key2 key1 tweak xs h. h;
  length-dec = λ key2 key1 tweak xs h. h;
  dec-enc = λ key2 key1 tweak xs h. refl;
}

abbrev cipher : Option XtsBlockCipher
cipher = some (record { key1 = []; key2 = [] })

abbrev one_stripe : StripeContentMap
one_stripe = (4, zeroes) ∷ []

serializes : Serializes few sums [] one_stripe
unfolding to_btree
serializes = record {
  accepts = refl;
  map_bytes = 4 ∷ [];
  writes_map = refl;
  writes_file = λ file. (write_file file, refl);
}

deserialize-serialize_example :
    (bytes : List ℕ) × (read : StripeContentMap) × (serialize_stripe_mapping few sums open_cipher
        one_stripe [] cipher
      ≡ ok bytes)
    × (deserialize_stripe_mapping few sums open_cipher bytes [] cipher ≡ ok read)
    × ((stripe_id : ℕ) → lookup stripe_id read ≡ lookup stripe_id one_stripe)
deserialize-serialize_example =
    deserialize-serialize few sums open_cipher one_stripe [] cipher few-IsCbor open_cipher-IsXts
      serializes

abbrev payload : List ℕ
payload = 4 ∷ 1 ∷ replicate 510 0

-- Another payload with the same sum.
abbrev forged_payload : List ℕ
forged_payload = 3 ∷ 2 ∷ replicate 510 0

abbrev file_of : List ℕ → StripeMappingFile
file_of payload = record {
  domain = archive_stripe_mapping_domain;
  version = 1;
  ciphertext = payload;
  plaintext_len = 1;
  hmac_tag = sums.tag [] (manifest_hmac_input archive_stripe_mapping_domain 1 1 payload);
}

abbrev signed_file : StripeMappingFile
signed_file = file_of payload

abbrev forged_file : StripeMappingFile
forged_file = file_of forged_payload

accepted :
    deserialize_stripe_mapping few sums open_cipher (write_file signed_file) [] none ≡ ok one_stripe
unfolding replicate beq_bytes manifest_hmac_input deserialize_stripe_mapping check_mapping_file
    decode_mapping_file decrypt_mapping verify_hmac_tag
accepted = refl

accepted_forged :
    deserialize_stripe_mapping few sums open_cipher (write_file forged_file) [] none
    ≡ ok ((3, zeroes) ∷ [])
unfolding replicate beq_bytes manifest_hmac_input deserialize_stripe_mapping check_mapping_file
    decode_mapping_file decrypt_mapping verify_hmac_tag
accepted_forged = refl

same_tags : signed_file.hmac_tag ≡ forged_file.hmac_tag
unfolding replicate manifest_hmac_input
same_tags = refl

-- Two files that share a tag of the weak code and hold different maps: their inputs collide.
deserialize_authentic_example :
    (one_stripe ≡ (3, zeroes) ∷ [])
    ⊎ Collision sums []
        (manifest_hmac_input archive_stripe_mapping_domain 1 1 payload)
        (manifest_hmac_input archive_stripe_mapping_domain 1 1 forged_payload)
deserialize_authentic_example =
    deserialize_authentic few sums open_cipher (write_file signed_file) (write_file forged_file) []
      none signed_file forged_file one_stripe ((3, zeroes) ∷ []) (file_back signed_file)
      (file_back forged_file) (omega arith) (omega arith) same_tags accepted accepted_forged

wrong_domain :
    check_mapping_file few sums open_cipher (record signed_file { domain = [] }) []
    ≡ err (archive_error mapping_domain_invalid)
unfolding check_mapping_file beq_bytes
wrong_domain = refl

too_long :
    decode_mapping_file few sums open_cipher (record signed_file { plaintext_len = 513 }) none
    ≡ err (archive_error mapping_length_too_large)
unfolding decode_mapping_file decrypt_mapping replicate
too_long = refl
