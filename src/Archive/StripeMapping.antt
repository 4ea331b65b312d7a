-- ===== src/Archive/StripeMapping.antt =====
-- src/archive/stripe_hashes.rs: the map from stripes to their objects, signed and perhaps encrypted.
-- `Cbor` is the package ciborium on the two types that are serialised; `none` is its error.
pub mod Laws
mod Examples
use ubiblk.Error.{
  archive_error, not_serializable, not_parsable, mapping_version_unsupported,
  mapping_domain_invalid, mapping_not_sector_aligned, mapping_length_too_large, ArchiveReason,
}
use ubiblk.Prelude.{
  ℕ, ◌+◌, ◌-◌, ◌/◌, ◌%◌, ◌^◌, not, Option, none, some, List, [], ◌∷◌, ◌++◌, Result, ok, err, ◌>>=◌,
  ◌>>◌, fail_if, ltb, ◌==◌, if◌then◌else◌, length, take, replicate, to_le_bytes, beq_bytes,
}
use ubiblk.Metadata.{sector_size}
use ubiblk.Crypt.{Xts, XtsBlockCipher, encrypt, decrypt}
use ubiblk.Archive.Hmac.{Mac, compute_hmac_tag, verify_hmac_tag}

pub data StripeContentSpecifier : Type 0 where
  zeroes : StripeContentSpecifier
  hashed : List ℕ → StripeContentSpecifier

-- `HashMap<usize, StripeContentSpecifier>`
abbrev pub StripeContentMap : Type 0
StripeContentMap = List (ℕ × StripeContentSpecifier)

abbrev pub archive_stripe_mapping_version : ℕ
archive_stripe_mapping_version = 1

-- b"ubiblk-archive-stripe-mapping"
abbrev pub archive_stripe_mapping_domain : List ℕ
archive_stripe_mapping_domain =
    b'u' ∷ b'b' ∷ b'i' ∷ b'b' ∷ b'l' ∷ b'k' ∷ b'-' ∷ b'a' ∷ b'r' ∷ b'c' ∷ b'h' ∷ b'i' ∷ b'v' ∷ b'e'
    ∷ b'-' ∷ b's' ∷ b't' ∷ b'r' ∷ b'i' ∷ b'p' ∷ b'e' ∷ b'-' ∷ b'm' ∷ b'a' ∷ b'p' ∷ b'p' ∷ b'i'
    ∷ b'n' ∷ b'g' ∷ []

abbrev pub xts_sector_start : ℕ
xts_sector_start = 2 ^ 60

pub record StripeMappingFile : Type 0 where
  pub domain : List ℕ
  pub version : ℕ
  pub ciphertext : List ℕ
  pub plaintext_len : ℕ
  pub hmac_tag : List ℕ

pub record Cbor : Type 0 where
  pub map_to_vec : StripeContentMap → Option (List ℕ)
  pub map_from_slice : List ℕ → Option StripeContentMap
  pub file_to_vec : StripeMappingFile → Option (List ℕ)
  pub file_from_slice : List ℕ → Option StripeMappingFile

-- An answer of the package.
abbrev pub or_error : {A : Type 0} → Option A → ArchiveReason → Result A
or_error (some value) reason = ok value
or_error none reason = err (archive_error reason)

-- `BTreeMap::insert`: the keys stay in order.
unfoldable pub btree_insert : ℕ → StripeContentSpecifier → StripeContentMap → StripeContentMap
btree_insert k v [] = (k, v) ∷ []
btree_insert k v ((j, w) ∷ m) =
    let later = btree_insert k v m in
    if ltb k j then (k, v) ∷ (j, w) ∷ m else if k == j then (k, v) ∷ m else (j, w) ∷ later

unfoldable pub to_btree : StripeContentMap → StripeContentMap
unfolding btree_insert
to_btree [] = []
to_btree ((k, v) ∷ m) = btree_insert k v (to_btree m)

unfoldable pub pad_to_sector : List ℕ → List ℕ × ℕ
pad_to_sector bytes =
    let pad_len = (sector_size - length bytes % sector_size) % sector_size in
    (bytes ++ replicate pad_len 0, length bytes)

unfoldable pub manifest_hmac_input : List ℕ → ℕ → ℕ → List ℕ → List ℕ
manifest_hmac_input domain version plaintext_len payload =
    domain ++ (to_le_bytes 4 version ++ (to_le_bytes 8 plaintext_len ++ payload))

module _ (X : Xts) where
  -- `if let Some(mut cipher) = cipher`
  unfoldable pub encrypt_mapping : Option XtsBlockCipher → List ℕ → Result (List ℕ)
  encrypt_mapping none padded = ok padded
  encrypt_mapping (some cipher) padded =
      encrypt X cipher padded xts_sector_start (length padded / sector_size)

  unfoldable pub decrypt_mapping : Option XtsBlockCipher → List ℕ → Result (List ℕ)
  decrypt_mapping none ciphertext = ok ciphertext
  decrypt_mapping (some cipher) ciphertext =
      decrypt X cipher ciphertext xts_sector_start (length ciphertext / sector_size)

module _ (C : Cbor) (M : Mac) (X : Xts) where
  unfoldable pub serialize_stripe_mapping :
      StripeContentMap → List ℕ → Option XtsBlockCipher → Result (List ℕ)
  serialize_stripe_mapping map hmac_key cipher = do
    let btree_map = to_btree map
    map_bytes ← or_error (C.map_to_vec btree_map) not_serializable
    let plaintext_len = (pad_to_sector map_bytes).1
    padded ← encrypt_mapping X cipher (pad_to_sector map_bytes).0
    hmac_tag ← compute_hmac_tag M hmac_key (
        manifest_hmac_input archive_stripe_mapping_domain archive_stripe_mapping_version
          plaintext_len padded)
    let file : StripeMappingFile = record {
      domain = archive_stripe_mapping_domain;
      version = archive_stripe_mapping_version;
      ciphertext = padded;
      plaintext_len = plaintext_len;
      hmac_tag = hmac_tag;
    }
    or_error (C.file_to_vec file) not_serializable

  -- What is checked of a file that was parsed, up to its tag.
  unfoldable pub check_mapping_file : StripeMappingFile → List ℕ → Result (Unit {0})
  check_mapping_file file hmac_key = do
    fail_if (not (file.version == archive_stripe_mapping_version))
        (archive_error (mapping_version_unsupported file.version))
    fail_if (not (beq_bytes file.domain archive_stripe_mapping_domain))
        (archive_error mapping_domain_invalid)
    fail_if (not (length file.ciphertext % sector_size == 0))
        (archive_error mapping_not_sector_aligned)
    verify_hmac_tag M hmac_key
        (manifest_hmac_input file.domain file.version file.plaintext_len file.ciphertext)
        file.hmac_tag

  -- The map in a file that passed the checks. `usize` has 64 bits, so its length is never too long.
  unfoldable pub decode_mapping_file :
      StripeMappingFile → Option XtsBlockCipher → Result StripeContentMap
  decode_mapping_file file cipher = do
    decrypted ← decrypt_mapping X cipher file.ciphertext
    fail_if (ltb (length decrypted) file.plaintext_len) (archive_error mapping_length_too_large)
    or_error (C.map_from_slice (take file.plaintext_len decrypted)) not_parsable

  unfoldable pub deserialize_stripe_mapping :
      List ℕ → List ℕ → Option XtsBlockCipher → Result StripeContentMap
  deserialize_stripe_mapping bytes hmac_key cipher = do
    file ← or_error (C.file_from_slice bytes) not_parsable
    check_mapping_file file hmac_key
    decode_mapping_file file cipher
