-- ===== src/Archive/Compression.antt =====
-- src/archive/compression.rs: compressing a stripe and back.
-- `Zstd` is the package zstd: `stream::encode_all` at a level, and `stream::decode_all`.
pub mod Laws
mod Examples
use ubiblk.Error.{
  UbiblkError, archive_error, io_error, compressed_too_large, not_decompressible,
  decompressed_not_sector_aligned, size_header_missing, compressed_size_too_large,
}
use ubiblk.Prelude.{
  ℕ, ◌+◌, ◌-◌, ◌%◌, ◌^◌, not, Option, none, some, List, ◌++◌, Result, ok, err, ◌>>=◌, ◌>>◌, fail_if,
  assert, ltb, leb, ◌==◌, length, take, drop, replicate, slice, to_le_bytes, from_le_bytes,
}
use ubiblk.Metadata.{sector_size}
use ubiblk.Archive.{ArchiveCompressionAlgorithm, uncompressed, zstd}

-- `none` is an error of the package.
pub record Zstd : Type 0 where
  pub encode_all : List ℕ → ℕ → Option (List ℕ)
  pub decode_all : List ℕ → Option (List ℕ)

-- What an answer of the package becomes.
abbrev pub or_error : Option (List ℕ) → UbiblkError → Result (List ℕ)
or_error (some bytes) e = ok bytes
or_error none e = err e

unfoldable pub ensure_sector_aligned : List ℕ → Result (List ℕ)
ensure_sector_aligned decompressed = do
  fail_if (not (length decompressed % sector_size == 0))
      (archive_error decompressed_not_sector_aligned)
  ok decompressed

unfoldable pub with_size_header_and_padding : List ℕ → Result (List ℕ)
with_size_header_and_padding compressed = do
  fail_if (leb (2 ^ 32) (length compressed)) (archive_error compressed_too_large)
  let sized = to_le_bytes 4 (length compressed) ++ compressed
  let padding = (sector_size - length sized % sector_size) % sector_size
  ok (sized ++ replicate padding 0)

unfoldable pub compressed_payload : List ℕ → Result (List ℕ)
compressed_payload bytes = do
  fail_if (ltb (length bytes) 4) (archive_error size_header_missing)
  let compressed_size = from_le_bytes (slice bytes 0 4)
  fail_if (ltb (length bytes) (compressed_size + 4)) (archive_error compressed_size_too_large)
  ok (slice bytes 4 compressed_size)

module _ (Z : Zstd) where
  unfoldable pub compress : ArchiveCompressionAlgorithm → List ℕ → Result (List ℕ)
  unfolding with_size_header_and_padding
  compress algorithm bytes = do
    assert (length bytes % sector_size == 0)
    elim algorithm [
      | uncompressed ↦ ok bytes
      | zstd level ↦ do
        compressed ← or_error (Z.encode_all bytes level) io_error
        with_size_header_and_padding compressed
    ]

  unfoldable pub decompress : ArchiveCompressionAlgorithm → List ℕ → Result (List ℕ)
  unfolding compressed_payload ensure_sector_aligned
  decompress uncompressed bytes = ok bytes
  decompress (zstd level) bytes = do
    compressed_data ← compressed_payload bytes
    decompressed ← or_error (Z.decode_all compressed_data) (archive_error not_decompressible)
    ensure_sector_aligned decompressed
