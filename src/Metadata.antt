-- ===== src/Metadata.antt =====
-- src/block_device/bdev_lazy/metadata/types.rs: `UbiMetadata`, one header byte for each stripe.
-- `usize` is 64 bits wide; a shift by 64 or more is masked, as a release build does.
pub mod Codec
use ubiblk.Prelude.{
  ℕ, ◌+◌, ◌-◌, ◌*◌, ◌/◌, ◌%◌, ◌^◌, bit_and, Bool, true, false, not, ◌&&◌, ◌||◌, List, [], ◌∷◌, ltb,
  ◌==◌, if◌then◌else◌, length, range_from,
}

abbrev pub sector_size : ℕ
sector_size = 512

abbrev pub ubi_magic_size : ℕ
ubi_magic_size = 9

-- b"BDEV_UBI\0"
abbrev pub ubi_magic : List ℕ
ubi_magic = b'B' ∷ b'D' ∷ b'E' ∷ b'V' ∷ b'_' ∷ b'U' ∷ b'B' ∷ b'I' ∷ 0 ∷ []

-- METADATA_VERSION_MAJOR and METADATA_VERSION_MINOR, as their little-endian bytes.
abbrev pub metadata_version_major : List ℕ
metadata_version_major = 2 ∷ 0 ∷ []

abbrev pub metadata_version_minor : List ℕ
metadata_version_minor = 0 ∷ 0 ∷ []

abbrev pub crc32_size : ℕ
crc32_size = 4

abbrev pub stripe_headers_per_sector : ℕ
stripe_headers_per_sector = 508

abbrev pub stripe_count_offset : ℕ
stripe_count_offset = 14

abbrev pub max_stripe_sector_count_shift : ℕ
max_stripe_sector_count_shift = 17

abbrev pub header_size : ℕ
header_size = 18

-- metadata_flags
abbrev pub fetched_flag : ℕ
fetched_flag = 1

abbrev pub written_flag : ℕ
written_flag = 2

abbrev pub has_source_flag : ℕ
has_source_flag = 4

-- `header & flag != 0`
abbrev pub has_flag : ℕ → ℕ → Bool
has_flag header flag = not (bit_and header flag == 0)

pub record UbiMetadata : Type 0 where
  pub magic : List ℕ
  pub version_major : List ℕ
  pub version_minor : List ℕ
  pub stripe_sector_count_shift : ℕ
  pub stripe_headers : List ℕ

-- `a.div_ceil(b)`, for b > 0.
abbrev pub div_ceil : ℕ → ℕ → ℕ
div_ceil a b = (a + b - 1) / b

unfoldable pub stripe_header_sector_count : UbiMetadata → ℕ
stripe_header_sector_count m = div_ceil (length m.stripe_headers) stripe_headers_per_sector

unfoldable pub metadata_size : UbiMetadata → ℕ
unfolding stripe_header_sector_count
metadata_size m = sector_size + stripe_header_sector_count m * sector_size

-- The sector of a stripe's header, counted from 1.
unfoldable pub stripe_id_to_sector : ℕ → ℕ
stripe_id_to_sector stripe_id = stripe_id / stripe_headers_per_sector + 1

unfoldable pub stripe_id_to_group : ℕ → ℕ
stripe_id_to_group stripe_id = stripe_id / stripe_headers_per_sector

unfoldable pub stripe_sector_count : UbiMetadata → ℕ
stripe_sector_count m = 2 ^ (m.stripe_sector_count_shift % 64)

unfoldable pub stripe_size : UbiMetadata → ℕ
unfolding stripe_sector_count
stripe_size m = stripe_sector_count m * sector_size % 2 ^ 64

unfoldable pub stripe_count : UbiMetadata → ℕ
stripe_count m = length m.stripe_headers

headers_where : (ℕ → Bool) → List ℕ → List ℕ
headers_where p [] = []
headers_where p (i ∷ is) = (if p i then has_source_flag else 0) ∷ headers_where p is

-- The first `image_stripe_count` stripes have a source.
pub new : ℕ → ℕ → ℕ → UbiMetadata
unfolding headers_where
new shift base_stripe_count image_stripe_count = record {
  magic = ubi_magic;
  version_major = metadata_version_major;
  version_minor = metadata_version_minor;
  stripe_sector_count_shift = shift;
  stripe_headers = headers_where (λ i. ltb i image_stripe_count) (range_from 0 base_stripe_count);
}

-- `has_stripe` is that of the stripe source.
pub new_from_stripe_source : ℕ → ℕ → (ℕ → Bool) → UbiMetadata
unfolding headers_where
new_from_stripe_source shift base_stripe_count has_stripe = record {
  magic = ubi_magic;
  version_major = metadata_version_major;
  version_minor = metadata_version_minor;
  stripe_sector_count_shift = shift;
  stripe_headers = headers_where has_stripe (range_from 0 base_stripe_count);
}

all_fetched : List ℕ → Bool
all_fetched [] = true
all_fetched (h ∷ hs) =
    ((bit_and h has_source_flag == 0) || has_flag h fetched_flag) && all_fetched hs

pub has_fetched_all_stripes : UbiMetadata → Bool
unfolding all_fetched
has_fetched_all_stripes m = all_fetched m.stripe_headers
