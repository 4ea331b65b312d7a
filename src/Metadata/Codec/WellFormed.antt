-- ===== src/Metadata/Codec/WellFormed.antt =====
-- src/block_device/bdev_lazy/metadata/types.rs: what `from_bytes` demands of a buffer.
use ubiblk.Prelude.{
  ℕ, ◌-◌, ◌*◌, ◌/◌, ◌%◌, ◌^◌, ◌≤◌, ◌<◌, ◌≡◌, ap, ◌∙◌, true, List, [], ◌∷◌, ok, Result, assert,
  ◌>>=◌, leb, le→leb, ltb, assert_ok, fail_if_ok, le→not-ltb, length, take, replicate, slice, arith,
  not, ◌==◌, beq_bytes, to_le_bytes, from_le_bytes, beq_bytes_refl, get_elem?, some, >>=_ok,
  unwrap_ok,
}
use ubiblk.Metadata.{
  UbiMetadata, ubi_magic, metadata_version_major, metadata_version_minor, div_ceil,
}
use ubiblk.Metadata.Codec.{
  check_version, sector_crc32_is_valid, header_bytes, read_groups, from_bytes,
}

-- What `from_bytes` demands of metadata, and what `u32` demands of its size.
pub record IsWellFormed (m : UbiMetadata) : Type 0 where
  pub magic_ok : m.magic ≡ ubi_magic
  pub major_ok : m.version_major ≡ metadata_version_major
  pub minor_ok : m.version_minor ≡ metadata_version_minor
  pub shift_ok : m.stripe_sector_count_shift ≤ 17
  pub count_ok : length m.stripe_headers < 2 ^ 32

-- The header's eighteen bytes.
unfoldable pub header_fields : ℕ → ℕ → List ℕ
header_fields shift count =
    b'B'
    ∷ b'D'
    ∷ b'E'
    ∷ b'V'
    ∷ b'_'
    ∷ b'U'
    ∷ b'B'
    ∷ b'I'
    ∷ 0
    ∷ 2
    ∷ 0
    ∷ 0
    ∷ 0
    ∷ shift
    ∷ to_le_bytes 4 count

pub header_bytes_lem :
    (m : UbiMetadata)
    → IsWellFormed m
    → header_bytes m ≡ header_fields m.stripe_sector_count_shift (length m.stripe_headers)
unfolding header_bytes header_fields replicate
header_bytes_lem m w = rw (w.magic_ok, w.major_ok, w.minor_ok)

beq_bytes_same : (xs ys : List ℕ) → xs ≡ ys → beq_bytes xs ys ≡ true
beq_bytes_same xs ys e = ap (λ (t : List ℕ). beq_bytes t ys) e ∙ beq_bytes_refl ys

-- What a buffer has to hold for `from_bytes` to accept it, and what it then returns.
pub record Holds (crc32 : List ℕ → ℕ) (buf : List ℕ) (shift count : ℕ) (all : List ℕ) : Type 0 where
  pub big : 512 ≤ length buf
  pub whole : length buf % 512 ≡ 0
  pub head_valid : sector_crc32_is_valid crc32 (take 512 buf) ≡ ok true
  pub magic_here : slice buf 0 9 ≡ ubi_magic
  pub major_here : slice buf 9 2 ≡ metadata_version_major
  pub minor_here : slice buf 11 2 ≡ metadata_version_minor
  pub shift_here : get_elem? buf 13 ≡ some shift
  pub shift_small : shift ≤ 17
  pub count_here : from_le_bytes (slice buf 14 4) ≡ count
  pub count_small : count ≤ (length buf - 512) / 512 * 508
  pub groups_here : read_groups crc32 buf (div_ceil count 508) 0 [] ≡ ok all
  pub enough : count ≤ length all

pub from_bytes_on :
    (crc32 : List ℕ → ℕ) (buf : List ℕ) (shift count : ℕ) (all : List ℕ)
    → Holds crc32 buf shift count all
    → from_bytes crc32 buf
      ≡ ok (record {
        magic = ubi_magic;
        version_major = metadata_version_major;
        version_minor = metadata_version_minor;
        stripe_sector_count_shift = shift;
        stripe_headers = take count all;
      })
unfolding from_bytes check_version
from_bytes_on crc32 buf shift count all h =
    let big = h.big in
    let in_range : (end : ℕ) (k : Result UbiMetadata)
        → end ≤ length buf
        → (assert (leb end (length buf)) >>= λ _. k) ≡ k =
      λ end k e. assert_ok (leb end (length buf)) k (le→leb end (length buf) e) in
    fail_if_ok (ltb (length buf) 512) _ _ (le→not-ltb _ _ h.big)
    ∙ fail_if_ok (not (length buf % 512 == 0)) _ _ (ground (arith, h.whole))
    ∙ assert_ok (leb 512 (length buf)) _ (le→leb _ _ h.big)
    ∙ >>=_ok (sector_crc32_is_valid crc32 (take 512 buf)) _ true h.head_valid
    ∙ in_range 9 _ (omega arith)
    ∙ fail_if_ok (not (beq_bytes (slice buf 0 9) ubi_magic)) _ _
        (ap not (beq_bytes_same (slice buf 0 9) ubi_magic h.magic_here))
    ∙ in_range 11 _ (omega arith)
    ∙ in_range 13 _ (omega arith)
    ∙ fail_if_ok (check_version (slice buf 9 2) (slice buf 11 2)) _ _ (
        ground (
          arith,
          beq_bytes_same (slice buf 9 2) metadata_version_major h.major_here,
          beq_bytes_same (slice buf 11 2) metadata_version_minor h.minor_here,
        ))
    ∙ unwrap_ok (get_elem? buf 13) _ shift h.shift_here
    ∙ fail_if_ok (ltb 17 shift) _ _ (le→not-ltb _ _ h.shift_small)
    ∙ in_range 18 _ (omega arith)
    ∙ rw h.count_here (
        fail_if_ok (ltb ((length buf - 512) / 512 * 508) count) _ _ (le→not-ltb _ _ h.count_small)
        ∙ >>=_ok (read_groups crc32 buf (div_ceil count 508) 0 []) _ all h.groups_here
        ∙ assert_ok (leb count (length all)) _ (le→leb _ _ h.enough)
        ∙ rw (h.magic_here, h.major_here, h.minor_here))
