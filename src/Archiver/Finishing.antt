-- ===== src/Archiver/Finishing.antt =====
-- src/archive/archiver.rs: the metadata and the mapping, which are put last, and the whole run.
-- `to_json` is serde_json on the metadata; `nonce1` and `nonce2` wrap the two keys.
use ubiblk.Error.{archive_error, not_serializable}
use ubiblk.Prelude.{ℕ, Option, none, some, List, [], Result, ok, err, panic, ◌>>=◌, ◌>>◌, length}
use ubiblk.BufferPool.{SharedBuffer}
use ubiblk.IoChannel.{IoChannel}
use ubiblk.StripeSource.{StripeSource}
use ubiblk.Metadata.{stripe_sector_count}
use ubiblk.Crypt.{Xts, XtsBlockCipher}
use ubiblk.Crypt.Keys.{Gcm, KeyEncryptionCipher, encrypted_key, encrypt_key_data}
use ubiblk.Archive.{ArchiveStore, ArchiveMetadata, archive_format_version, put_object}
use ubiblk.Archive.Compression.{Zstd}
use ubiblk.Archive.Hmac.{Mac, compute_metadata_hmac_tag}
use ubiblk.Archive.StripeMapping.{Cbor, serialize_stripe_mapping}
use ubiblk.ArchiveSource.{metadata_name, manifest_name}
use ubiblk.Archiver.{StripeArchiver}
use ubiblk.Archiver.Operations.{saturating_add, start_loop, drain_loop}

module _ (G : Gcm) (nonce1 : List ℕ) where
  -- The wrapped key of the cipher, if there is one.
  unfoldable pub wrapped_cipher :
      Option XtsBlockCipher → KeyEncryptionCipher → Result (Option (List ℕ))
  wrapped_cipher none kek = ok none
  wrapped_cipher (some cipher) kek = do key ← encrypted_key G kek nonce1 cipher; ok (some key)

module _ {Source : StripeSource} {Channel : IoChannel} {Store : ArchiveStore} (G : Gcm) (M : Mac)
    (nonce1 nonce2 : List ℕ) where
  unfoldable pub archive_metadata : StripeArchiver Source Channel Store → Result ArchiveMetadata
  archive_metadata a = do
    encryption_key ← wrapped_cipher G nonce1 a.block_cipher a.kek
    hmac_key ← encrypt_key_data G a.kek nonce2 a.hmac_key
    let unsigned : ArchiveMetadata = record {
      format_version = archive_format_version;
      stripe_sector_count = stripe_sector_count a.metadata;
      encryption_key = encryption_key;
      compression = a.compression;
      hmac_key = hmac_key;
      metadata_hmac = [];
    }
    tag ← compute_metadata_hmac_tag M a.hmac_key unsigned
    ok (record unsigned { metadata_hmac = tag })

  module _ (to_json : ArchiveMetadata → Option (List ℕ)) (polls : ℕ) where
    unfoldable pub put_metadata :
        StripeArchiver Source Channel Store → Result (StripeArchiver Source Channel Store)
    put_metadata a = do
      metadata ← archive_metadata a
      elim (to_json metadata) [
        | none ↦ err (archive_error not_serializable)
        | some metadata_json ↦ do
          let (store', result) = put_object Store polls a.archive_store metadata_name metadata_json
          result
          ok (record a {
            archive_store = store';
            physical_size_bytes = saturating_add a.physical_size_bytes (length metadata_json);
          })
      ]

    unfoldable pub put_stripe_mapping :
        StripeArchiver Source Channel Store → List ℕ → Result (StripeArchiver Source Channel Store)
    put_stripe_mapping a stripe_hashes_bytes = do
      let (store', result) =
          put_object Store polls a.archive_store manifest_name stripe_hashes_bytes
      result
      ok (record a {
        archive_store = store';
        physical_size_bytes = saturating_add a.physical_size_bytes (length stripe_hashes_bytes);
      })

    module _ (C : Cbor) (X : Xts) (Z : Zstd) (sha256 hex_encode : List ℕ → List ℕ)
        (holds : Channel.State → Source.State → SharedBuffer → List ℕ) where
      -- What follows the two loops.
      unfoldable pub put_manifest :
          StripeArchiver Source Channel Store → Result (StripeArchiver Source Channel Store)
      put_manifest a = do
        stripe_hashes_bytes ←
            serialize_stripe_mapping C M X a.stripe_hashes a.hmac_key a.block_cipher
        a' ← put_metadata a
        put_stripe_mapping a' stripe_hashes_bytes

      -- `archive_all` logs the error and passes it on. `none` means that the fuel ran out.
      unfoldable pub archive_all :
          ℕ
          → StripeArchiver Source Channel Store
          → Option (Result (StripeArchiver Source Channel Store))
      archive_all fuel a = elim (start_loop X Z sha256 hex_encode holds fuel a 0) [
        | none ↦ none
        | some (err e) ↦ some (err e)
        | some panic ↦ some panic
        | some (ok a1) ↦ elim (drain_loop X Z sha256 hex_encode holds fuel a1) [
          | none ↦ none
          | some (err e) ↦ some (err e)
          | some panic ↦ some panic
          | some (ok a2) ↦ some (put_manifest a2)
        ]
      ]
