-- ===== src/Archive/Compression/Laws.antt =====
-- src/archive/compression.rs: what was compressed is decompressed again, and nothing panics.
use ubiblk.Error.{archive_error, compressed_too_large}
use ubiblk.Prelude.{
  ℕ, ◌+◌, ◌-◌, ◌%◌, ◌^◌, ◌≤◌, ◌<◌, ◌≡◌, ◌≢◌, refl, ap, ◌∙◌, some, List, ◌++◌, ok, panic, fail_if_ok,
  arith, leb, length, take-append, replicate, slice, length-append, length-replicate, to_le_bytes,
  from_le_bytes, length-to_le_bytes, from_le_bytes-to_le_bytes, lt→not-leb,
}
use ubiblk.Archive.{ArchiveCompressionAlgorithm, uncompressed, zstd}
use ubiblk.Archive.Compression.{
  Zstd, ensure_sector_aligned, with_size_header_and_padding, compressed_payload, compress,
  decompress,
}

-- zstd is lossless.
pub record IsLossless (Z : Zstd) : Type 0 where
  pub decode-encode :
      (bytes : List ℕ) (level : ℕ) (compressed : List ℕ)
      → Z.encode_all bytes level ≡ some compressed
      → Z.decode_all compressed ≡ some bytes

-- The package compresses the bytes, and to less than 2 ^ 32 bytes.
pub data Fits (Z : Zstd) (bytes : List ℕ) : ArchiveCompressionAlgorithm → Type 0 where
  as_it_is : Fits Z bytes uncompressed
  in_u32 :
      {level : ℕ} (compressed : List ℕ)
      → Z.encode_all bytes level ≡ some compressed
      → length compressed < 2 ^ 32
      → Fits Z bytes (zstd level)

-- The header and the padding around `c`, together.
packed : List ℕ → List ℕ
packed c = to_le_bytes 4 (length c) ++ (c ++ replicate ((512 - (4 + length c) % 512) % 512) 0)

length-packed : (c : List ℕ) → (length (packed c) % 512 ≡ 0) × (4 + length c ≤ length (packed c))
unfolding packed
length-packed c =
    let pad = (512 - (4 + length c) % 512) % 512 in
    let zeros = length-replicate {A = ℕ} pad 0 in
    let inner = length-append c (replicate pad 0) in
    let whole = length-append (to_le_bytes 4 (length c)) (c ++ replicate pad 0) in
    let head = length-to_le_bytes 4 (length c) in omega arith

with_size_header_lem :
    (c : List ℕ) → length c < 2 ^ 32 → with_size_header_and_padding c ≡ ok (packed c)
unfolding with_size_header_and_padding packed
with_size_header_lem c small =
    let pad = λ (n : ℕ). to_le_bytes 4 (length c) ++ (c ++ replicate ((512 - n % 512) % 512) 0) in
    fail_if_ok (leb (2 ^ 32) (length c)) (archive_error compressed_too_large) _
      (lt→not-leb (2 ^ 32) (length c) small)
    ∙ ap (λ (n : ℕ). ok (pad n)) (omega arith)

packed_size : (c : List ℕ) → length c < 2 ^ 32 → from_le_bytes (slice (packed c) 0 4) ≡ length c
unfolding packed
packed_size c small = from_le_bytes-to_le_bytes 4 (length c) (omega arith)

packed_body : (c : List ℕ) → slice (packed c) 4 (length c) ≡ c
unfolding packed
packed_body c = take-append (length c) c _ refl

payload_lem : (c : List ℕ) → length c < 2 ^ 32 → compressed_payload (packed c) ≡ ok c
unfolding compressed_payload
payload_lem c small = ground (arith, packed_size c small, packed_body c, length-packed c)

module _ (Z : Zstd) where
  -- Whatever algorithm is set: a stripe of whole sectors, which the package compresses to less than
  -- 2 ^ 32 bytes, is compressed to whole sectors that decompress to the stripe.
  pub decompress-compress :
      (algorithm : ArchiveCompressionAlgorithm) (bytes : List ℕ)
      → IsLossless Z
      → length bytes % 512 ≡ 0
      → Fits Z bytes algorithm
      → (stored : List ℕ) × (compress Z algorithm bytes ≡ ok stored)
        × (length stored % 512 ≡ 0)
        × (decompress Z algorithm stored ≡ ok bytes)
  unfolding compress decompress ensure_sector_aligned
  decompress-compress uncompressed bytes law whole as_it_is = (bytes, ground arith, whole, refl)
  decompress-compress (zstd level) bytes law whole (in_u32 c e small) =
      let decoded = law.decode-encode bytes level c e in
      (
        packed c,
        ground (arith, with_size_header_lem c small),
        (length-packed c).0,
        ground (arith, payload_lem c small),
      )

  -- No stored data makes decompression panic.
  pub decompress_safe :
      (algorithm : ArchiveCompressionAlgorithm) (stored : List ℕ)
      → decompress Z algorithm stored ≢ panic
  unfolding decompress compressed_payload ensure_sector_aligned
  decompress_safe uncompressed stored = λ e. cc
  decompress_safe (zstd level) stored = λ e. ground arith
