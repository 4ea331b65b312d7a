-- ===== src/Metadata/Codec/RoundTrip.antt =====
-- types.rs: what `write_to_buf` writes, `from_bytes` reads back.
use ubiblk.Prelude.{
  ℕ, ◌+◌, ◌*◌, ◌%◌, ◌^◌, ◌≤◌, ◌≡◌, refl, ap, ◌∙◌, true, List, [], ◌++◌, Result, ok, ◌>>=◌, leb,
  le→leb, ltb, assert_ok, fail_if_ok, le→not-ltb, lt→not-leb, length, take, drop, splice, slice,
  arith, length-append, length-drop, length-take, drop_eq, drop-drop, drop-append, drop-append_ge,
  take-append, to_le_bytes, from_le_bytes, from_le_bytes-to_le_bytes, get_elem?, some,
}
use ubiblk.Metadata.{
  UbiMetadata, ubi_magic, metadata_version_major, metadata_version_minor, metadata_size,
  stripe_header_sector_count,
}
use mathlib.Core.Path.{ap₂}
use ubiblk.Metadata.Codec.{
  write_sector_with_crc32, sector_crc32_is_valid, write_groups, read_groups, write_to_buf,
  from_bytes,
}
use ubiblk.Metadata.Codec.Sectors.{padded, sector, length-sector, write_sector_lem, sector-is_valid}
use ubiblk.Metadata.Codec.Loops.{
  sectors, contents, length-sectors, length-contents, take-contents, write_groups_lem,
  read_groups_lem,
}
use ubiblk.Metadata.Codec.WellFormed.{
  Holds, IsWellFormed, from_bytes_on, header_bytes_lem, header_fields,
}

module _ (crc32 : List ℕ → ℕ) (m : UbiMetadata) (w : IsWellFormed m) where
  open m use {stripe_headers, stripe_sector_count_shift as shift}

  fields : List ℕ
  fields = header_fields shift (length stripe_headers)

  -- The metadata on a device, with whatever follows it.
  image : List ℕ → List ℕ
  image rest =
      sector crc32 fields ++ (sectors crc32 (stripe_header_sector_count m) stripe_headers ++ rest)

  length-fields : length fields ≤ 508
  unfolding fields header_fields
  length-fields = omega arith

  length-head : length (sector crc32 fields) ≡ 512
  length-head = length-sector crc32 fields length-fields

  write_to_buf_lem :
      (buf : List ℕ)
      → metadata_size m ≤ length buf
      → write_to_buf crc32 m buf ≡ ok (image (drop (metadata_size m) buf))
  unfolding write_to_buf image metadata_size stripe_header_sector_count fields
  write_to_buf_lem buf h =
      fail_if_ok (ltb (length buf) (metadata_size m)) _ _ (le→not-ltb _ _ h)
      ∙ fail_if_ok (leb (2 ^ 32) (length stripe_headers)) _ _ (lt→not-leb _ _ w.count_ok)
      ∙ assert_ok (leb 512 (length buf)) _ (le→leb _ _ (omega arith))
      ∙ ap (λ (bytes : List ℕ). write_sector_with_crc32 crc32 (take 512 buf) bytes >>= next)
          (header_bytes_lem m w)
      ∙ ap (λ (r : Result (List ℕ)). r >>= next)
          (write_sector_lem crc32 (take 512 buf) fields (omega (arith, length-take 512 buf))
            length-fields)
      ∙ ap (λ (t : List ℕ). write_groups crc32 m k 0 (head ++ t))
          (drop_eq (0 + length head) 512 buf (omega (arith, length-head)))
      ∙ write_groups_lem crc32 m k 0 head (drop 512 buf) (omega (arith, length-head))
          (omega (arith, length-drop 512 buf)) (omega arith)
      ∙ ap₂ (λ (hs back : List ℕ). ok (head ++ (sectors crc32 k hs ++ back))) refl
          (drop-drop (k * 512) 512 buf)
    where
      k : ℕ
      k = stripe_header_sector_count m

      head : List ℕ
      head = sector crc32 fields

      next : List ℕ → Result (List ℕ)
      next sec = write_groups crc32 m k 0 (splice buf 0 sec)

  drop-image : (rest : List ℕ) → drop (metadata_size m) (image rest) ≡ rest
  unfolding image metadata_size
  drop-image rest =
      let k = stripe_header_sector_count m in
      drop-append_ge 512 (k * 512) (sector crc32 fields) (sectors crc32 k stripe_headers ++ rest)
        length-head
      ∙ drop-append (k * 512) (sectors crc32 k stripe_headers) rest
          (length-sectors crc32 k stripe_headers)

  -- What each field of the header reads back as.
  head_count : from_le_bytes (to_le_bytes 4 (length stripe_headers)) ≡ length stripe_headers
  head_count = from_le_bytes-to_le_bytes 4 (length stripe_headers) w.count_ok

  length-image :
      (rest : List ℕ) → length (image rest) ≡ 512 + stripe_header_sector_count m * 512 + length rest
  unfolding image
  length-image rest =
      let k = stripe_header_sector_count m in
      omega (
        arith,
        length-append (sector crc32 fields) (sectors crc32 k stripe_headers ++ rest),
        length-append (sectors crc32 k stripe_headers) rest,
        length-sectors crc32 k stripe_headers,
        length-head,
      )

  head_valid_lem : (rest : List ℕ) → sector_crc32_is_valid crc32 (take 512 (image rest)) ≡ ok true
  unfolding image
  head_valid_lem rest =
      ap (sector_crc32_is_valid crc32) (
        take-append 512 (sector crc32 fields)
          (sectors crc32 (stripe_header_sector_count m) stripe_headers ++ rest) length-head)
      ∙ sector-is_valid crc32 fields length-fields

  groups_lem :
      (rest : List ℕ)
      → read_groups crc32 (image rest) (stripe_header_sector_count m) 0 []
        ≡ ok (contents (stripe_header_sector_count m) stripe_headers)
  unfolding image
  groups_lem rest =
      read_groups_lem crc32 (stripe_header_sector_count m) 0 (sector crc32 fields) stripe_headers
        rest [] (image rest) (omega (arith, length-head)) refl

  fields_here :
      (rest : List ℕ)
      → (slice (image rest) 0 9 ≡ ubi_magic)
        × (slice (image rest) 9 2 ≡ metadata_version_major)
        × (slice (image rest) 11 2 ≡ metadata_version_minor)
        × (get_elem? (image rest) 13 ≡ some shift)
        × (slice (image rest) 14 4 ≡ to_le_bytes 4 (length stripe_headers))
  unfolding image sector padded fields header_fields
  fields_here rest = (refl, refl, refl, refl, refl)

  covered : length stripe_headers ≤ stripe_header_sector_count m * 508
  unfolding stripe_header_sector_count
  covered = omega arith

  image-Holds :
      (rest : List ℕ)
      → length rest % 512 ≡ 0
      → Holds crc32
          (image rest)
          shift
          (length stripe_headers)
          (contents (stripe_header_sector_count m) stripe_headers)
  unfolding stripe_header_sector_count
  image-Holds rest h =
      let (magic, major, minor, at_shift, at_count) = fields_here rest in
      record {
        big = omega (arith, length-image rest);
        whole = omega (arith, length-image rest);
        head_valid = head_valid_lem rest;
        magic_here = magic;
        major_here = major;
        minor_here = minor;
        shift_here = at_shift;
        shift_small = w.shift_ok;
        count_here = ap from_le_bytes at_count ∙ head_count;
        count_small = omega (arith, length-image rest, covered);
        groups_here = groups_lem rest;
        enough =
            omega (arith, length-contents (stripe_header_sector_count m) stripe_headers, covered);
      }

  from_bytes_lem : (rest : List ℕ) → length rest % 512 ≡ 0 → from_bytes crc32 (image rest) ≡ ok m
  from_bytes_lem rest h =
      from_bytes_on crc32 (image rest) shift (length stripe_headers) _ (image-Holds rest h)
      ∙ ap ok same
    where
      same :
          record {
            magic = ubi_magic;
            version_major = metadata_version_major;
            version_minor = metadata_version_minor;
            stripe_sector_count_shift = shift;
            stripe_headers =
                take
                  (length stripe_headers)
                  (contents (stripe_header_sector_count m) stripe_headers);
          }
          ≡ m
      same = ground (
        arith,
        take-contents (stripe_header_sector_count m) stripe_headers covered,
        w.magic_ok,
        w.major_ok,
        w.minor_ok,
      )

-- Well-formed metadata, written into any buffer of whole sectors that is long enough, is read back
-- as it was. The buffer keeps its length, and what lies beyond the metadata.
pub from_bytes-write_to_buf :
    (crc32 : List ℕ → ℕ) (m : UbiMetadata) (buf : List ℕ)
    → IsWellFormed m
    → metadata_size m ≤ length buf
    → length buf % 512 ≡ 0
    → (out : List ℕ) × (write_to_buf crc32 m buf ≡ ok out)
      × (from_bytes crc32 out ≡ ok m)
      × (length out ≡ length buf)
      × (drop (metadata_size m) out ≡ drop (metadata_size m) buf)
unfolding metadata_size
from_bytes-write_to_buf crc32 m buf w fits whole = (
  image crc32 m w rest,
  write_to_buf_lem crc32 m w buf fits,
  from_bytes_lem crc32 m w rest (omega (arith, length-drop (metadata_size m) buf)),
  omega (arith, length-image crc32 m w rest, length-drop (metadata_size m) buf),
  drop-image crc32 m w rest,
)
  where
    rest : List ℕ
    rest = drop (metadata_size m) buf

-- The metadata takes whole sectors, and one at least.
pub metadata_size_sectors :
    (m : UbiMetadata) → (512 ≤ metadata_size m) × (metadata_size m % 512 ≡ 0)
unfolding metadata_size
metadata_size_sectors m = (omega arith, omega arith)
