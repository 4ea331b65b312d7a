-- ===== src/Metadata/Codec/Examples.antt =====
-- src/block_device/bdev_lazy/metadata/types.rs: runs on a buffer of two sectors.
use ubiblk.Prelude.{
  ℕ, zero, suc, ◌+◌, ◌%◌, ◌^◌, ◌≤◌, ◌≡◌, ◌≢◌, refl, List, [], ◌∷◌, ◌++◌, ok, panic, length, drop,
  replicate, slice, beq_bytes, to_le_bytes, from_le_bytes, All, All-append, IsByte, arith,
}
use ubiblk.Metadata.{
  UbiMetadata, ubi_magic, metadata_version_major, metadata_version_minor, metadata_size,
  stripe_header_sector_count,
}
use ubiblk.Metadata.Codec.{
  from_bytes, write_to_buf, read_groups, check_version, sector_crc32_is_valid, sector_crc32_matches,
  compute_sector_crc32,
}
use ubiblk.Metadata.Codec.RoundTrip.{from_bytes-write_to_buf}
use ubiblk.Metadata.Codec.WellFormed.{IsWellFormed}
use ubiblk.Metadata.Codec.Validate.{from_bytes-ne-panic, from_bytes-IsWellFormed}

-- A checksum that depends on every byte.
abbrev sum : List ℕ → ℕ
sum [] = 0
sum (b ∷ bs) = (b + sum bs) % 2 ^ 32

abbrev two_stripes : UbiMetadata
two_stripes = record {
  magic = ubi_magic;
  version_major = metadata_version_major;
  version_minor = metadata_version_minor;
  stripe_sector_count_shift = 11;
  stripe_headers = 4 ∷ 5 ∷ [];
}

abbrev head : List ℕ
head =
    b'B' ∷ b'D' ∷ b'E' ∷ b'V' ∷ b'_' ∷ b'U' ∷ b'B' ∷ b'I' ∷ 0 ∷ 2 ∷ 0 ∷ 0 ∷ 0 ∷ 11 ∷ 2 ∷ 0 ∷ 0 ∷ 0
    ∷ []

abbrev on_disk : List ℕ
on_disk =
    head
    ++ (replicate 490 0
        ++ (to_le_bytes 4 (sum head) ++ (4 ∷ 5 ∷ replicate 506 0 ++ 9 ∷ 0 ∷ 0 ∷ 0 ∷ [])))

well_formed : IsWellFormed two_stripes
well_formed = record {
  magic_ok = refl;
  major_ok = refl;
  minor_ok = refl;
  shift_ok = omega arith;
  count_ok = omega arith;
}

two_sectors : List ℕ
unfolding replicate
two_sectors = replicate 1024 7

fits : metadata_size two_stripes ≤ length two_sectors
unfolding metadata_size stripe_header_sector_count two_sectors
fits = omega arith

from_bytes-write_to_buf_example :
    (out : List ℕ) × (write_to_buf sum two_stripes two_sectors ≡ ok out)
    × (from_bytes sum out ≡ ok two_stripes)
    × (length out ≡ length two_sectors)
    × (drop (metadata_size two_stripes) out ≡ drop (metadata_size two_stripes) two_sectors)
unfolding two_sectors
from_bytes-write_to_buf_example =
    from_bytes-write_to_buf sum two_stripes two_sectors well_formed fits refl

from_bytes-ne-panic_example : from_bytes sum (head ++ replicate 600 0) ≢ panic
from_bytes-ne-panic_example = from_bytes-ne-panic sum (head ++ replicate 600 0)

from_bytes_runs : from_bytes sum on_disk ≡ ok two_stripes
unfolding from_bytes read_groups check_version sector_crc32_is_valid sector_crc32_matches
    compute_sector_crc32 replicate beq_bytes
from_bytes_runs = refl

All-replicate : (n : ℕ) → All IsByte (replicate n 0)
unfolding replicate
All-replicate zero = tt
All-replicate (suc n) = (omega arith, All-replicate n)

on_disk_bytes : All IsByte on_disk
on_disk_bytes = All-append IsByte head _ (ground arith) (
    All-append IsByte (replicate 490 0) _ (All-replicate 490) (
      All-append IsByte (to_le_bytes 4 (sum head)) (4 ∷ 5 ∷ replicate 506 0 ++ 9 ∷ 0 ∷ 0 ∷ 0 ∷ [])
        (ground arith)
        (All-append IsByte (4 ∷ 5 ∷ replicate 506 0) (9 ∷ 0 ∷ 0 ∷ 0 ∷ [])
          (omega arith, (omega arith, All-replicate 506)) (ground arith))))

from_bytes-IsWellFormed_example :
    IsWellFormed two_stripes × (2 ≡ from_le_bytes (slice on_disk 14 4))
from_bytes-IsWellFormed_example =
    from_bytes-IsWellFormed sum on_disk two_stripes on_disk_bytes from_bytes_runs
