-- ===== src/ArchiveSource.antt =====
-- src/stripe_source/archive.rs: `ArchiveStripeSource`, which gets stripes from the objects of an
-- archive. Stripes with one object share one request to the store.
pub mod Operations
pub mod Counting
pub mod Accounting
pub mod Restore
mod Examples
use ubiblk.Error.{
  UbiblkError, metadata_error, archive_metadata_unparsable, stripe_mapping_rejected,
  hmac_key_not_32_bytes,
}
use ubiblk.Prelude.{
  ℕ, ◌+◌, ◌*◌, ◌%◌, ◌^◌, Bool, not, Option, none, some, List, [], ◌∷◌, Result, ok, err, panic,
  ◌>>=◌, ◌>>◌, fail_if, ltb, ◌==◌, if◌then◌else◌, length,
}
use ubiblk.BufferPool.{SharedBuffer}
use ubiblk.Memory.{Memory}
use ubiblk.IoChannel.{Completion}
use ubiblk.Crypt.{Xts, XtsBlockCipher}
use ubiblk.Crypt.Keys.{Gcm, KeyEncryptionCipher, decrypt_key_data, from_encrypted_key}
use ubiblk.Archive.{
  ArchiveStore, ArchiveMetadata, ArchiveCompressionAlgorithm, ObjectName, get_object,
  validate_format_version,
}
use ubiblk.Archive.Hmac.{Mac, verify_metadata_hmac_tag}
use ubiblk.Archive.StripeMapping.{StripeContentMap, Cbor, deserialize_stripe_mapping}

pub record PendingRequest : Type 0 where
  pub pending_stripes : List (ℕ × SharedBuffer)
  pub expected_sha256 : List ℕ

-- `memory` is what the buffers hold that were handed over.
pub record ArchiveStripeSource (Store : ArchiveStore) : Type 0 where
  pub store : Store.State
  pub xts_cipher : Option XtsBlockCipher
  pub stripe_hashes : StripeContentMap
  pub max_stripe_id : ℕ
  pub stripe_sector_count : ℕ
  pub compression : ArchiveCompressionAlgorithm
  pub finished_requests : List Completion
  pub pending_requests : List (ObjectName × PendingRequest)
  pub memory : Memory

-- b"metadata.json"
abbrev pub metadata_name : ObjectName
metadata_name =
    b'm' ∷ b'e' ∷ b't' ∷ b'a' ∷ b'd' ∷ b'a' ∷ b't' ∷ b'a' ∷ b'.' ∷ b'j' ∷ b's' ∷ b'o' ∷ b'n' ∷ []

-- b"stripe-mapping"
abbrev pub manifest_name : ObjectName
manifest_name =
    b's' ∷ b't' ∷ b'r' ∷ b'i' ∷ b'p' ∷ b'e' ∷ b'-' ∷ b'm' ∷ b'a' ∷ b'p' ∷ b'p' ∷ b'i' ∷ b'n' ∷ b'g'
    ∷ []

-- b"data/"
abbrev pub data_prefix : List ℕ
data_prefix = b'd' ∷ b'a' ∷ b't' ∷ b'a' ∷ b'/' ∷ []

-- `keys().max()`, or 0.
unfoldable pub max_key : StripeContentMap → ℕ
max_key [] = 0
max_key (entry ∷ m) = let rest = max_key m in if ltb rest entry.0 then entry.0 else rest

-- `e.map_err(|e| MetadataError { description: e.to_string() })`
abbrev pub mapping_error : Result StripeContentMap → Result StripeContentMap
mapping_error (ok map) = ok map
mapping_error (err e) = err (metadata_error stripe_mapping_rejected)
mapping_error panic = panic

-- The packages: `parse_metadata` is serde_json on `ArchiveMetadata`.
module _ (Store : ArchiveStore) (parse_metadata : List ℕ → Option ArchiveMetadata) (C : Cbor)
    (M : Mac) (X : Xts) (G : Gcm) (polls : ℕ) where
  unfoldable pub parse_archive_metadata : List ℕ → Result ArchiveMetadata
  parse_archive_metadata bytes = elim (parse_metadata bytes) [
    | none ↦ err (metadata_error archive_metadata_unparsable)
    | some metadata ↦ do validate_format_version metadata.format_version; ok metadata
  ]

  unfoldable pub fetch_metadata : Store.State → Store.State × Result ArchiveMetadata
  unfolding parse_archive_metadata
  fetch_metadata store =
      let (store', bytes) = get_object Store polls store metadata_name in
      (store', bytes >>= parse_archive_metadata)

  unfoldable pub fetch_stripe_hashes :
      Store.State → List ℕ → Option XtsBlockCipher → Store.State × Result StripeContentMap
  fetch_stripe_hashes store hmac_key xts_cipher =
      let (store', bytes) = get_object Store polls store manifest_name in
      (
        store',
        bytes >>= λ stripe_hashes_bytes.
            mapping_error
              (deserialize_stripe_mapping C M X stripe_hashes_bytes hmac_key xts_cipher),
      )

  unfoldable pub decrypt_hmac_key : ArchiveMetadata → KeyEncryptionCipher → Result (List ℕ)
  decrypt_hmac_key metadata kek = do
    key ← decrypt_key_data G kek metadata.hmac_key
    fail_if (not (length key == 32)) (metadata_error hmac_key_not_32_bytes)
    ok key

  -- The cipher that the metadata has a key for, or none.
  unfoldable pub cipher_of : ArchiveMetadata → KeyEncryptionCipher → Result (Option XtsBlockCipher)
  cipher_of metadata kek = elim metadata.encryption_key [
    | none ↦ ok none
    | some key ↦ do cipher ← from_encrypted_key G kek key; ok (some cipher)
  ]

  unfoldable pub new : Store.State → KeyEncryptionCipher → Result (ArchiveStripeSource Store)
  new store kek =
      let (store', fetched) = fetch_metadata store in
      do
        metadata ← fetched
        hmac_key ← decrypt_hmac_key metadata kek
        verify_metadata_hmac_tag M hmac_key metadata
        xts_cipher ← cipher_of metadata kek
        let (store'', hashes) = fetch_stripe_hashes store' hmac_key xts_cipher
        stripe_hashes ← hashes
        ok (record {
          store = store'';
          xts_cipher = xts_cipher;
          stripe_hashes = stripe_hashes;
          max_stripe_id = max_key stripe_hashes;
          stripe_sector_count = metadata.stripe_sector_count;
          compression = metadata.compression;
          finished_requests = [];
          pending_requests = [];
          memory = [];
        })
