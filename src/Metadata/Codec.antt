-- ===== src/Metadata/Codec.antt =====
-- src/block_device/bdev_lazy/metadata/types.rs: metadata to sectors and back.
-- `crc32` is `crc32fast::hash`, which the source takes from a package.
pub mod Sectors
pub mod Loops
pub mod WellFormed
pub mod RoundTrip
pub mod Validate
mod Examples
use ubiblk.Error.{
  UbiblkError, metadata_error, buffer_too_small, not_sector_multiple, header_crc_mismatch,
  magic_mismatch, version_mismatch, shift_too_large, stripe_count_too_large, group_crc_mismatch,
  stripe_count_exceeds_u32,
}
use ubiblk.Prelude.{
  ℕ, zero, suc, ◌+◌, ◌-◌, ◌*◌, ◌/◌, ◌%◌, ◌^◌, min, Bool, true, false, not, ◌&&◌, ◌||◌, List, [],
  ◌∷◌, ◌++◌, Result, ok, err, panic, ◌>>=◌, ◌>>◌, fail_if, assert, unwrap, ltb, leb, ◌==◌,
  if◌then◌else◌, length, get_elem?, take, drop, replicate, splice, slice, to_le_bytes,
  from_le_bytes, beq_bytes,
}
use ubiblk.Metadata.{
  UbiMetadata, sector_size, ubi_magic_size, ubi_magic, metadata_version_major,
  metadata_version_minor, crc32_size, stripe_headers_per_sector, stripe_count_offset,
  max_stripe_sector_count_shift, header_size, div_ceil, metadata_size, stripe_header_sector_count,
}

check_version : List ℕ → List ℕ → Bool
check_version major minor =
    not (beq_bytes major metadata_version_major) || not (beq_bytes minor metadata_version_minor)

-- The header's bytes, copied one field after the other into a zeroed array.
unfoldable pub header_bytes : UbiMetadata → List ℕ
header_bytes m =
    let h0 = replicate header_size 0 in
    let h1 = splice h0 0 m.magic in
    let h2 = splice h1 ubi_magic_size m.version_major in
    let h3 = splice h2 (ubi_magic_size + 2) m.version_minor in
    let h4 = splice h3 (ubi_magic_size + 4) (m.stripe_sector_count_shift ∷ []) in
    splice h4 stripe_count_offset (to_le_bytes 4 (length m.stripe_headers))

module _ (crc32 : List ℕ → ℕ) where
  unfoldable pub compute_sector_crc32 : List ℕ → List ℕ
  compute_sector_crc32 bytes = to_le_bytes crc32_size (crc32 bytes)

  -- The checksum over the first 508 bytes, written behind them.
  seal_sector : List ℕ → Result (List ℕ)
  seal_sector filled = do
    assert (leb sector_size (length filled))
    let crc = compute_sector_crc32 (take (sector_size - crc32_size) filled)
    ok (splice filled (sector_size - crc32_size) crc)

  -- The new contents of `sector_buf`. The `debug_assert!`s are those of a debug build only.
  unfoldable pub write_sector_with_crc32 : List ℕ → List ℕ → Result (List ℕ)
  unfolding seal_sector
  write_sector_with_crc32 sector_buf contents = do
    let zeroed = replicate (length sector_buf) 0
    assert (leb (length contents) (length zeroed))
    let filled = splice zeroed 0 contents
    seal_sector filled

  unfoldable pub sector_crc32_matches : List ℕ → Bool
  unfolding compute_sector_crc32
  sector_crc32_matches sector_buf =
      beq_bytes (slice sector_buf (sector_size - crc32_size) crc32_size)
        (compute_sector_crc32 (take (sector_size - crc32_size) sector_buf))

  -- The slices `..508` and `508..512` panic on a shorter buffer.
  unfoldable pub sector_crc32_is_valid : List ℕ → Result Bool
  sector_crc32_is_valid sector_buf = do
    assert (leb sector_size (length sector_buf))
    ok (sector_crc32_matches sector_buf)

  -- `for group in group..group + n`, over `buf`; `all_headers` is what has been read.
  pub read_groups : List ℕ → ℕ → ℕ → List ℕ → Result (List ℕ)
  read_groups buf zero group all_headers = ok all_headers
  read_groups buf (suc n) group all_headers = do
    let sector_start = sector_size + group * sector_size
    assert (leb (sector_start + sector_size) (length buf))
    let sector_data = slice buf sector_start sector_size
    let header_data = take stripe_headers_per_sector sector_data
    valid ← sector_crc32_is_valid sector_data
    fail_if (not valid) (metadata_error (group_crc_mismatch group))
    read_groups buf n (group + 1) (all_headers ++ header_data)

  -- A slice of the buffer asserts that its end is in range.
  pub from_bytes : List ℕ → Result UbiMetadata
  from_bytes buf = do
    fail_if (ltb (length buf) sector_size) (metadata_error buffer_too_small)
    fail_if (not (length buf % sector_size == 0)) (metadata_error not_sector_multiple)
    assert (leb sector_size (length buf))
    valid ← sector_crc32_is_valid (take sector_size buf)
    fail_if (not valid) (metadata_error header_crc_mismatch)
    assert (leb ubi_magic_size (length buf))
    let magic = slice buf 0 ubi_magic_size
    fail_if (not (beq_bytes magic ubi_magic)) (metadata_error magic_mismatch)
    assert (leb (ubi_magic_size + 2) (length buf))
    let major = slice buf ubi_magic_size 2
    assert (leb (ubi_magic_size + 4) (length buf))
    let minor = slice buf (ubi_magic_size + 2) 2
    fail_if (check_version major minor) (metadata_error version_mismatch)
    shift ← unwrap (get_elem? buf (ubi_magic_size + 4))
    fail_if (ltb max_stripe_sector_count_shift shift) (metadata_error shift_too_large)
    assert (leb (stripe_count_offset + 4) (length buf))
    let count = from_le_bytes (slice buf stripe_count_offset 4)
    let data_sectors_max = (length buf - sector_size) / sector_size
    let max_stripe_count = data_sectors_max * stripe_headers_per_sector
    fail_if (ltb max_stripe_count count) (metadata_error stripe_count_too_large)
    let data_sectors = div_ceil count stripe_headers_per_sector
    all_headers ← read_groups buf data_sectors 0 []
    assert (leb count (length all_headers))
    ok (record {
      magic = magic;
      version_major = major;
      version_minor = minor;
      stripe_sector_count_shift = shift;
      stripe_headers = take count all_headers;
    })

  pub write_groups : UbiMetadata → ℕ → ℕ → List ℕ → Result (List ℕ)
  write_groups m zero group buf = ok buf
  write_groups m (suc n) group buf = do
    let start = group * stripe_headers_per_sector
    let end = min (start + stripe_headers_per_sector) (length m.stripe_headers)
    assert (leb start end)
    let headers = slice m.stripe_headers start (end - start)
    let sector_start = sector_size + group * sector_size
    assert (leb (sector_start + sector_size) (length buf))
    sector ← write_sector_with_crc32 (slice buf sector_start sector_size) headers
    write_groups m n (group + 1) (splice buf sector_start sector)

  -- The new contents of `buf`.
  pub write_to_buf : UbiMetadata → List ℕ → Result (List ℕ)
  write_to_buf m buf = do
    fail_if (ltb (length buf) (metadata_size m)) (metadata_error buffer_too_small)
    fail_if (leb (2 ^ 32) (length m.stripe_headers)) (metadata_error stripe_count_exceeds_u32)
    let header = header_bytes m
    assert (leb sector_size (length buf))
    sector ← write_sector_with_crc32 (take sector_size buf) header
    write_groups m (stripe_header_sector_count m) 0 (splice buf 0 sector)
