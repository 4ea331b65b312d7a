-- ===== src/Metadata/Codec/Validate.antt =====
-- types.rs: `from_bytes` on any buffer, well formed or not.
use ubiblk.Prelude.{
  ℕ, zero, suc, ◌+◌, ◌-◌, ◌*◌, ◌/◌, ◌%◌, ◌^◌, ◌≤◌, ◌<◌, ◌≡◌, ◌≢◌, refl, ap, Bool, true, false, not,
  List, [], ◌++◌, Result, ok, err, panic, ◌>>=◌, >>=-eq-ok, >>=_ok, >>=-ne-panic, assert-ne-panic,
  length, take, drop, slice, arith, length-append, length-take, length-drop, beq_bytes,
  beq_bytes_eq, ltb, leb, ◌==◌, le→leb, assert, fail_if, assert_ok, fail_if_ok, fail_if_err,
  fail_if-ne-panic, fail_if_inv, assert_inv, unwrap_ok, unwrap, ok_eq, All, IsByte, All-take,
  All-drop, from_le_bytes-lt, leb→le, subst, get_elem?, get_elem?-total, from_le_bytes, ◌∙◌,
  Bool-cases, ◌⊎◌, inl, inr,
}
use ubiblk.Error.{metadata_error, group_crc_mismatch}
use ubiblk.Metadata.{
  UbiMetadata, ubi_magic, metadata_version_major, metadata_version_minor, div_ceil,
}
use ubiblk.Metadata.Codec.{
  check_version, read_groups, from_bytes, sector_crc32_is_valid, sector_crc32_matches,
}
use ubiblk.Metadata.Codec.Sectors.{is_valid_whole}
use ubiblk.Metadata.Codec.WellFormed.{IsWellFormed}

-- The loop reads 508 headers for each sector, and ends with a checksum error or without.
read_groups_cases :
    (crc32 : List ℕ → ℕ) (buf : List ℕ) (n group : ℕ) (acc : List ℕ)
    → 512 + (group + n) * 512 ≤ length buf
    → ((all : List ℕ) × (read_groups crc32 buf n group acc ≡ ok all)
        × (length all ≡ length acc + n * 508))
      ⊎ ((g : ℕ) × (read_groups crc32 buf n group acc ≡ err (metadata_error (group_crc_mismatch g)))
          × (sector_crc32_matches crc32 (slice buf (512 + g * 512) 512) ≡ false))
unfolding read_groups
read_groups_cases crc32 buf zero group acc h = inl (acc, refl, omega arith)
read_groups_cases crc32 buf (suc n) group acc h =
    elim (Bool-cases (sector_crc32_matches crc32 sector_data)) [
      | inl good ↦ elim (read_groups_cases crc32 buf n (group + 1) grown (omega arith)) [
        | inl (all, e, len) ↦ inl (all, step_ok (ap not good) ∙ e, omega (arith, len, length-grown))
        | inr (g, e, bad) ↦ inr (g, step_ok (ap not good) ∙ e, bad)
      ]
      | inr bad ↦ inr (
        group,
        in_bounds ∙ fail_if_err (not (sector_crc32_matches crc32 sector_data)) _ _ (ap not bad),
        bad,
      )
    ]
  where
    sector_data : List ℕ
    sector_data = slice buf (512 + group * 512) 512

    grown : List ℕ
    grown = acc ++ take 508 sector_data

    length-sector_data : 512 ≤ length sector_data
    length-sector_data =
        omega (
          arith,
          length-take 512 (drop (512 + group * 512) buf),
          length-drop (512 + group * 512) buf,
        )

    length-grown : length grown ≡ length acc + 508
    length-grown = omega (
      arith,
      length-append acc (take 508 sector_data),
      length-take 508 sector_data,
      length-take 512 (drop (512 + group * 512) buf),
      length-drop (512 + group * 512) buf,
    )

    checked : Result (List ℕ)
    checked =
        fail_if (not (sector_crc32_matches crc32 sector_data))
          (metadata_error (group_crc_mismatch group))
        >>= λ _. read_groups crc32 buf n (group + 1) grown

    in_bounds : read_groups crc32 buf (suc n) group acc ≡ checked
    in_bounds =
        assert_ok (leb (512 + group * 512 + 512) (length buf)) _ (le→leb _ _ (omega arith))
        ∙ >>=_ok (sector_crc32_is_valid crc32 sector_data) _ _
            (is_valid_whole crc32 sector_data length-sector_data)

    step_ok :
        not (sector_crc32_matches crc32 sector_data) ≡ false
        → read_groups crc32 buf (suc n) group acc ≡ read_groups crc32 buf n (group + 1) grown
    step_ok good = in_bounds ∙ fail_if_ok (not (sector_crc32_matches crc32 sector_data)) _ _ good

of_negation : (b : Bool) → not b ≡ false → b ≡ true
of_negation true e = refl
of_negation false e = cc

not-ltb→le : (a b : ℕ) → ltb a b ≡ false → b ≤ a
not-ltb→le a b e = ground arith

versions :
    (major minor : List ℕ)
    → check_version major minor ≡ false
    → (major ≡ metadata_version_major) × (minor ≡ metadata_version_minor)
unfolding check_version
versions major minor e =
    let both : (beq_bytes major metadata_version_major ≡ true)
        × (beq_bytes minor metadata_version_minor ≡ true) =
      ground arith in
    (
      beq_bytes_eq major metadata_version_major both.0,
      beq_bytes_eq minor metadata_version_minor both.1,
    )

-- The record that is returned, once every check has passed.
accepted :
    (crc32 : List ℕ → ℕ) (buf : List ℕ) (m : UbiMetadata) (shift : ℕ) (all : List ℕ)
    → length (take (from_le_bytes (slice buf 14 4)) all) ≡ from_le_bytes (slice buf 14 4)
    → beq_bytes (slice buf 0 9) ubi_magic ≡ true
    → (slice buf 9 2 ≡ metadata_version_major) × (slice buf 11 2 ≡ metadata_version_minor)
    → shift ≤ 17
    → from_le_bytes (slice buf 14 4) < 2 ^ 32
    → ok (record {
      magic = slice buf 0 9;
      version_major = slice buf 9 2;
      version_minor = slice buf 11 2;
      stripe_sector_count_shift = shift;
      stripe_headers = take (from_le_bytes (slice buf 14 4)) all;
    })
      ≡ ok m
    → IsWellFormed m × (length m.stripe_headers ≡ from_le_bytes (slice buf 14 4))
accepted crc32 buf m shift all len magic version small fits e =
    subst
      (λ (r : UbiMetadata).
        IsWellFormed r × (length r.stripe_headers ≡ from_le_bytes (slice buf 14 4)))
      (ok_eq e)
      (
        record {
          magic_ok = beq_bytes_eq (slice buf 0 9) ubi_magic magic;
          major_ok = version.0;
          minor_ok = version.1;
          shift_ok = small;
          count_ok = omega (arith, len);
        },
        len,
      )

-- The loop with the assertion behind it.
bounded_groups :
    (crc32 : List ℕ → ℕ) (buf : List ℕ) (count : ℕ)
    → 512 ≤ length buf
    → count ≤ (length buf - 512) / 512 * 508
    → (k : List ℕ → Result UbiMetadata) → ((all : List ℕ) → k all ≢ panic)
    → (read_groups crc32 buf (div_ceil count 508) 0 [] >>= λ all.
        (assert (leb count (length all)) >>= λ _. k all))
      ≢ panic
bounded_groups crc32 buf count big small k total =
    elim (read_groups_cases crc32 buf (div_ceil count 508) 0 [] (omega arith)) [
      | inl (all, e, len) ↦ rw e (
          rw (assert_ok (leb count (length all)) (k all) (le→leb _ _ (omega (arith, len))))
            (total all))
      | inr (g, e, bad) ↦ rw e (λ p. cc)
    ]

in_range :
    (buf : List ℕ) (end : ℕ) (k : Result UbiMetadata)
    → end ≤ length buf
    → k ≢ panic
    → (assert (leb end (length buf)) >>= λ _. k) ≢ panic
in_range buf end k h = assert-ne-panic (leb end (length buf)) k (le→leb end (length buf) h)

head_checked :
    (crc32 : List ℕ → ℕ) (buf : List ℕ)
    → 512 ≤ length buf
    → sector_crc32_is_valid crc32 (take 512 buf) ≢ panic
head_checked crc32 buf h e =
    let whole = is_valid_whole crc32 (take 512 buf) (omega (arith, length-take 512 buf)) in cc

-- Whatever the buffer holds, `from_bytes` returns metadata or an error: no slice and no index is out
-- of range, and no assertion fails.
pub from_bytes-ne-panic : (crc32 : List ℕ → ℕ) (buf : List ℕ) → from_bytes crc32 buf ≢ panic
unfolding from_bytes
from_bytes-ne-panic crc32 buf = fail_if-ne-panic (ltb (length buf) 512) _ _ λ big.
    fail_if-ne-panic (not (length buf % 512 == 0)) _ _ λ _.
      let len : 512 ≤ length buf = ground arith in
      in_range buf 512 _ len (
        >>=-ne-panic (sector_crc32_is_valid crc32 (take 512 buf)) _ (head_checked crc32 buf len)
          λ valid. fail_if-ne-panic (not valid) _ _ λ _. in_range buf 9 _ (omega arith) (
            fail_if-ne-panic (not (beq_bytes (slice buf 0 9) ubi_magic)) _ _ λ _.
              in_range buf 11 _ (omega arith) (
                in_range buf 13 _ (omega arith) (
                  fail_if-ne-panic (check_version (slice buf 9 2) (slice buf 11 2)) _ _ λ _.
                    let (shift, e) = get_elem?-total buf 13 (omega arith) in
                    rw (unwrap_ok (get_elem? buf 13) _ shift e) (
                      fail_if-ne-panic (ltb 17 shift) _ _ λ _. in_range buf 18 _ (omega arith) (
                        fail_if-ne-panic
                          (ltb ((length buf - 512) / 512 * 508) (from_le_bytes (slice buf 14 4))) _
                          _
                          λ small.
                            bounded_groups crc32 buf (from_le_bytes (slice buf 14 4)) len
                              (ground arith) _ (λ all p. cc)))))))

count_fits :
    (buf : List ℕ) → All IsByte buf → 512 ≤ length buf → from_le_bytes (slice buf 14 4) < 2 ^ 32
count_fits buf bytes big =
    let four : length (slice buf 14 4) ≡ 4 =
      omega (arith, length-take 4 (drop 14 buf), length-drop 14 buf) in
    let bound =
      from_le_bytes-lt (slice buf 14 4)
        (All-take IsByte 4 (drop 14 buf) (All-drop IsByte 14 buf bytes)) in
    rw four at bound

-- Metadata that `from_bytes` accepts is well formed, whatever bytes the buffer holds, and it has
-- as many headers as the header sector announces.
pub from_bytes-IsWellFormed :
    (crc32 : List ℕ → ℕ) (buf : List ℕ) (m : UbiMetadata)
    → All IsByte buf
    → from_bytes crc32 buf ≡ ok m
    → IsWellFormed m × (length m.stripe_headers ≡ from_le_bytes (slice buf 14 4))
unfolding from_bytes check_version
from_bytes-IsWellFormed crc32 buf m bytes e0 =
    let (big, e1) = fail_if_inv (ltb (length buf) 512) _ _ e0 in
    let (whole, e2) = fail_if_inv (not (length buf % 512 == 0)) _ _ e1 in
    let (_, e21) = assert_inv (leb 512 (length buf)) _ e2 in
    let (valid, _, e22) = >>=-eq-ok (sector_crc32_is_valid crc32 (take 512 buf)) _ e21 in
    let (_, e23) = fail_if_inv (not valid) _ _ e22 in
    let (_, e3) = assert_inv (leb 9 (length buf)) _ e23 in
    let (magic, e31) = fail_if_inv (not (beq_bytes (slice buf 0 9) ubi_magic)) _ _ e3 in
    let (_, e32) = assert_inv (leb 11 (length buf)) _ e31 in
    let (_, e4) = assert_inv (leb 13 (length buf)) _ e32 in
    let (version, e5) = fail_if_inv (check_version (slice buf 9 2) (slice buf 11 2)) _ _ e4 in
    let (shift, at_shift, e6) = >>=-eq-ok (unwrap (get_elem? buf 13)) _ e5 in
    let (small, e61) = fail_if_inv (ltb 17 shift) _ _ e6 in
    let (_, e7) = assert_inv (leb 18 (length buf)) _ e61 in
    let (room, e8) = fail_if_inv (ltb ((length buf - 512) / 512 * 508) count) _ _ e7 in
    let (all, groups, e9) = >>=-eq-ok (read_groups crc32 buf (div_ceil count 508) 0 []) _ e8 in
    let (enough, e10) = assert_inv (leb count (length all)) _ e9 in
    let len : length (take count all) ≡ count =
      omega (arith, length-take count all, leb→le count (length all) enough) in
    accepted crc32 buf m shift all len (of_negation _ magic) (versions _ _ version)
      (not-ltb→le 17 shift small) (count_fits buf bytes (not-ltb→le (length buf) 512 big)) e10
  where
    count : ℕ
    count = from_le_bytes (slice buf 14 4)
