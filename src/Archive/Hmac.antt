-- ===== src/Archive/Hmac.antt =====
-- src/archive/hmac.rs: authentication tags.
-- `Mac` is the package hmac with SHA-256: whether it takes a key, and the tag. `verify_slice` compares
-- with the whole tag.
pub mod Laws
mod Examples
use ubiblk.Error.{
  archive_error, hmac_init_failed, hmac_mismatch, metadata_error, hmac_tag_not_32_bytes,
}
use ubiblk.Prelude.{
  ℕ, Bool, not, Option, none, some, List, [], ◌∷◌, ◌++◌, Result, ok, ◌>>=◌, ◌>>◌, fail_if, ◌==◌,
  length, to_le_bytes, beq_bytes,
}
use ubiblk.Archive.{ArchiveCompressionAlgorithm, uncompressed, zstd, ArchiveMetadata}

pub record Mac : Type 0 where
  pub takes_key : List ℕ → Bool
  pub tag : List ℕ → List ℕ → List ℕ

-- b"ARCHIVE_METADATA_HMAC_V1"
abbrev pub metadata_hmac_domain : List ℕ
metadata_hmac_domain =
    b'A' ∷ b'R' ∷ b'C' ∷ b'H' ∷ b'I' ∷ b'V' ∷ b'E' ∷ b'_' ∷ b'M' ∷ b'E' ∷ b'T' ∷ b'A' ∷ b'D' ∷ b'A'
    ∷ b'T' ∷ b'A' ∷ b'_' ∷ b'H' ∷ b'M' ∷ b'A' ∷ b'C' ∷ b'_' ∷ b'V' ∷ b'1' ∷ []

-- What is appended to a buffer: the length in eight bytes, and the bytes.
unfoldable pub push_len_prefixed : List ℕ → List ℕ
push_len_prefixed bytes = to_le_bytes 8 (length bytes) ++ bytes

abbrev pub key_field : Option (List ℕ) → List ℕ
unfolding push_len_prefixed
key_field (some key) = 1 ∷ push_len_prefixed key
key_field none = 0 ∷ []

abbrev pub compression_field : ArchiveCompressionAlgorithm → List ℕ
compression_field uncompressed = 0 ∷ []
compression_field (zstd level) = 2 ∷ to_le_bytes 4 level

unfoldable pub metadata_hmac_input : ArchiveMetadata → List ℕ
metadata_hmac_input m =
    metadata_hmac_domain
    ++ (to_le_bytes 4 m.format_version
        ++ (to_le_bytes 8 m.stripe_sector_count
            ++ (key_field m.encryption_key ++ compression_field m.compression)))

module _ (M : Mac) where
  unfoldable pub compute_hmac_tag : List ℕ → List ℕ → Result (List ℕ)
  compute_hmac_tag key bytes = do
    fail_if (not (M.takes_key key)) (archive_error hmac_init_failed)
    ok (M.tag key bytes)

  unfoldable pub verify_hmac_tag : List ℕ → List ℕ → List ℕ → Result (Unit {0})
  verify_hmac_tag key bytes tag = do
    fail_if (not (M.takes_key key)) (archive_error hmac_init_failed)
    fail_if (not (beq_bytes tag (M.tag key bytes))) (archive_error hmac_mismatch)

  unfoldable pub compute_metadata_hmac_tag : List ℕ → ArchiveMetadata → Result (List ℕ)
  unfolding compute_hmac_tag metadata_hmac_input
  compute_metadata_hmac_tag key m = compute_hmac_tag key (metadata_hmac_input m)

  unfoldable pub verify_metadata_hmac_tag : List ℕ → ArchiveMetadata → Result (Unit {0})
  unfolding verify_hmac_tag metadata_hmac_input
  verify_metadata_hmac_tag key m = do
    fail_if (not (length m.metadata_hmac == 32)) (metadata_error hmac_tag_not_32_bytes)
    verify_hmac_tag key (metadata_hmac_input m) m.metadata_hmac
