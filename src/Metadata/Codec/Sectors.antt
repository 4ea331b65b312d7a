-- ===== src/Metadata/Codec/Sectors.antt =====
-- What the writer of types.rs puts into the sectors, in closed form, and what the reader finds there.
use ubiblk.Prelude.{
  ℕ, ◌+◌, ◌-◌, ◌≤◌, ◌≡◌, refl, ap, sym, ◌∙◌, true, List, [], ◌++◌, append-nil, append_assoc, ok,
  leb, le→leb, assert_ok, length, take, replicate, splice, slice, arith, length-append,
  length-replicate, take_all, take-append, drop-append, drop-replicate, replicate-add,
  splice-append, beq_bytes, beq_bytes_refl,
}
use ubiblk.Metadata.{stripe_headers_per_sector}
use ubiblk.Metadata.Codec.{
  compute_sector_crc32, seal_sector, write_sector_with_crc32, sector_crc32_is_valid,
  sector_crc32_matches,
}

-- The first 508 bytes of a sector: its contents, then zeros.
unfoldable pub padded : List ℕ → List ℕ
padded contents = contents ++ replicate (stripe_headers_per_sector - length contents) 0

module _ (crc32 : List ℕ → ℕ) where
  -- A whole sector of 512 bytes.
  unfoldable pub sector : List ℕ → List ℕ
  sector contents = padded contents ++ compute_sector_crc32 crc32 (padded contents)

pub length-padded : (contents : List ℕ) → length contents ≤ 508 → length (padded contents) ≡ 508
unfolding padded
length-padded contents h = omega (
  arith,
  length-append contents (replicate (508 - length contents) 0),
  length-replicate {A = ℕ} (508 - length contents) 0,
)

zeroed_splice :
    (n : ℕ) (contents : List ℕ)
    → length contents ≤ 508
    → n ≡ 512
    → splice (replicate n 0) 0 contents ≡ padded contents ++ replicate 4 0
unfolding padded
zeroed_splice n contents h e =
    ap (λ (t : List ℕ). contents ++ t)
      (drop-replicate (0 + length contents) n 0
        ∙ ap (λ (k : ℕ). replicate k 0) (omega arith)
        ∙ replicate-add (508 - length contents) 4 0)
    ∙ sym (append_assoc contents (replicate (508 - length contents) 0) (replicate 4 0))

replicate_none : replicate {A = ℕ} 0 0 ≡ []
unfolding replicate
replicate_none = refl

module _ (crc32 : List ℕ → ℕ) where
  length-crc32 : (bytes : List ℕ) → length (compute_sector_crc32 crc32 bytes) ≡ 4
  unfolding compute_sector_crc32
  length-crc32 bytes = refl

  pub length-sector :
      (contents : List ℕ) → length contents ≤ 508 → length (sector crc32 contents) ≡ 512
  unfolding sector
  length-sector contents h = omega (
    arith,
    length-append (padded contents) (compute_sector_crc32 crc32 (padded contents)),
    length-padded contents h,
    length-crc32 (padded contents),
  )

  splice_crc :
      (body crc : List ℕ)
      → length body ≡ 508
      → length crc ≡ 4
      → splice (body ++ replicate 4 0) 508 crc ≡ body ++ crc
  splice_crc body crc hb hc =
      splice-append body (replicate 4 0) crc 508 hb
      ∙ ap (λ (t : List ℕ). body ++ (crc ++ t))
          (drop-replicate (length crc) 4 0
            ∙ ap (λ (k : ℕ). replicate k 0) (omega arith)
            ∙ replicate_none)
      ∙ ap (λ (t : List ℕ). body ++ t) (append-nil crc)

  seal_sector_lem :
      (body : List ℕ)
      → length body ≡ 508
      → seal_sector crc32 (body ++ replicate 4 0) ≡ ok (body ++ compute_sector_crc32 crc32 body)
  unfolding seal_sector
  seal_sector_lem body h =
      assert_ok (leb 512 (length (body ++ replicate 4 0))) _ (le→leb _ _ long)
      ∙ ap (λ (t : List ℕ). ok (splice (body ++ replicate 4 0) 508 (compute_sector_crc32 crc32 t)))
          (take-append 508 body (replicate 4 0) h)
      ∙ ap ok (splice_crc body (compute_sector_crc32 crc32 body) h (length-crc32 body))
    where
      long : 512 ≤ length (body ++ replicate 4 0)
      long = omega (arith, h, length-append body (replicate 4 0), length-replicate {A = ℕ} 4 0)

  -- Writing a sector fills it, whatever was there before.
  pub write_sector_lem :
      (buf contents : List ℕ)
      → length buf ≡ 512
      → length contents ≤ 508
      → write_sector_with_crc32 crc32 buf contents ≡ ok (sector crc32 contents)
  unfolding write_sector_with_crc32 sector
  write_sector_lem buf contents hb hc =
      assert_ok (leb (length contents) (length (replicate {A = ℕ} (length buf) 0))) _
        (le→leb _ _ (omega (arith, length-replicate {A = ℕ} (length buf) 0)))
      ∙ ap (seal_sector crc32) (zeroed_splice (length buf) contents hc hb)
      ∙ seal_sector_lem (padded contents) (length-padded contents hc)

  sector-matches :
      (contents : List ℕ)
      → length contents ≤ 508
      → sector_crc32_matches crc32 (sector crc32 contents) ≡ true
  unfolding sector_crc32_matches sector
  sector-matches contents h =
      let body = padded contents in
      let len = length-padded contents h in
      ap
        (λ (t : List ℕ).
          beq_bytes (slice (body ++ compute_sector_crc32 crc32 body) 508 4)
            (compute_sector_crc32 crc32 t))
        (take-append 508 body (compute_sector_crc32 crc32 body) len)
      ∙ ap (λ (t : List ℕ). beq_bytes (take 4 t) (compute_sector_crc32 crc32 body))
          (drop-append 508 body (compute_sector_crc32 crc32 body) len)
      ∙ ap (λ (t : List ℕ). beq_bytes t (compute_sector_crc32 crc32 body))
          (take_all 4 (compute_sector_crc32 crc32 body) (omega (arith, length-crc32 body)))
      ∙ beq_bytes_refl (compute_sector_crc32 crc32 body)

  -- A whole sector is checked without a panic.
  pub is_valid_whole :
      (sector_buf : List ℕ)
      → 512 ≤ length sector_buf
      → sector_crc32_is_valid crc32 sector_buf ≡ ok (sector_crc32_matches crc32 sector_buf)
  unfolding sector_crc32_is_valid
  is_valid_whole sector_buf h = assert_ok (leb 512 (length sector_buf)) _ (le→leb _ _ h)

  -- The reader accepts a written sector.
  pub sector-is_valid :
      (contents : List ℕ)
      → length contents ≤ 508
      → sector_crc32_is_valid crc32 (sector crc32 contents) ≡ ok true
  sector-is_valid contents h =
      is_valid_whole (sector crc32 contents) (omega (arith, length-sector contents h))
      ∙ ap ok (sector-matches contents h)
