-- ===== src/Metadata/Codec/Loops.antt =====
-- The two loops of types.rs over the sectors of stripe headers, in closed form.
use ubiblk.Prelude.{
  ℕ, zero, suc, ◌+◌, ◌-◌, ◌*◌, ◌≤◌, ◌<◌, min, ◌≡◌, refl, ap, sym, ◌∙◌, List, [], ◌∷◌, ◌++◌,
  append-nil, append_assoc, Result, ok, ◌>>=◌, leb, le→leb, not, fail_if, assert_ok, >>=_ok, true,
  length, take, drop, replicate, splice, slice, arith, length-append, length-take, length-drop,
  take_all, take-min, take_eq, drop_eq, take-append, take-append_ge, drop-drop, take-append-drop,
  splice-append, slice-append,
}
use mathlib.Core.Path.{ap₂}
use ubiblk.Error.{metadata_error, group_crc_mismatch}
use native.Mathlib.Decide.{dec_le}
use ubiblk.Metadata.{UbiMetadata}
use ubiblk.Metadata.Codec.{
  compute_sector_crc32, sector_crc32_is_valid, write_sector_with_crc32, write_groups, read_groups,
}
use ubiblk.Metadata.Codec.Sectors.{
  padded, sector, length-padded, length-sector, write_sector_lem, sector-is_valid,
}

-- The `n` sectors that hold these headers.
unfoldable pub sectors : (List ℕ → ℕ) → ℕ → List ℕ → List ℕ
sectors crc32 zero hs = []
sectors crc32 (suc n) hs = sector crc32 (take 508 hs) ++ sectors crc32 n (drop 508 hs)

-- The headers in `n` sectors, with the padding.
unfoldable pub contents : ℕ → List ℕ → List ℕ
contents zero hs = []
contents (suc n) hs = padded (take 508 hs) ++ contents n (drop 508 hs)

fits : (hs : List ℕ) → length (take 508 hs) ≤ 508
fits hs = omega (arith, length-take 508 hs)

pub length-sectors :
    (crc32 : List ℕ → ℕ) (n : ℕ) (hs : List ℕ) → length (sectors crc32 n hs) ≡ n * 512
unfolding sectors
length-sectors crc32 zero hs = refl
length-sectors crc32 (suc n) hs = omega (
  arith,
  length-append (sector crc32 (take 508 hs)) (sectors crc32 n (drop 508 hs)),
  length-sector crc32 (take 508 hs) (fits hs),
  length-sectors crc32 n (drop 508 hs),
)

pub length-contents : (n : ℕ) (hs : List ℕ) → length (contents n hs) ≡ n * 508
unfolding contents
length-contents zero hs = refl
length-contents (suc n) hs = omega (
  arith,
  length-append (padded (take 508 hs)) (contents n (drop 508 hs)),
  length-padded (take 508 hs) (fits hs),
  length-contents n (drop 508 hs),
)

padded_full : (xs : List ℕ) → length xs ≡ 508 → padded xs ≡ xs
unfolding padded replicate
padded_full xs h = ap (λ (k : ℕ). xs ++ replicate k 0) no_room ∙ append-nil xs
  where
    no_room : 508 - length xs ≡ 0
    no_room = omega arith

take-padded : (hs ys : List ℕ) → take (length hs) (padded hs ++ ys) ≡ hs
unfolding padded
take-padded hs ys =
    ap (take (length hs)) (append_assoc hs (replicate (508 - length hs) 0) ys)
    ∙ take-append (length hs) hs (replicate (508 - length hs) 0 ++ ys) refl

pub take-contents :
    (n : ℕ) (hs : List ℕ) → length hs ≤ n * 508 → take (length hs) (contents n hs) ≡ hs
unfolding contents
take-contents zero [] h = refl
take-contents zero (x ∷ hs) h = absurd (omega arith)
take-contents (suc n) hs h = elim (dec_le (length hs) 508) [
  | yes small ↦
      ap (λ (t : List ℕ). take (length hs) (padded t ++ contents n (drop 508 hs)))
        (take_all 508 hs small)
      ∙ take-padded hs (contents n (drop 508 hs))
  | no large ↦
      let full : length (take 508 hs) ≡ 508 = omega (arith, length-take 508 hs) in
      let rest = drop 508 hs in
      ap (λ (t : List ℕ). take (length hs) (t ++ contents n rest)) (padded_full _ full)
      ∙ take_eq (length hs) (508 + length rest) _ (omega (arith, length-drop 508 hs))
      ∙ take-append_ge 508 (length rest) (take 508 hs) (contents n rest) full
      ∙ ap (λ (t : List ℕ). take 508 hs ++ t)
          (take-contents n rest (omega (arith, length-drop 508 hs)))
      ∙ take-append-drop 508 hs
]

regroup : (a b c d : List ℕ) → (a ++ b) ++ (c ++ d) ≡ a ++ ((b ++ c) ++ d)
regroup a b c d = simp append_assoc

module _ (crc32 : List ℕ → ℕ) (m : UbiMetadata) where
  open m use {stripe_headers}

  group_headers :
      (g : ℕ)
      → slice stripe_headers (g * 508) (min (g * 508 + 508) (length stripe_headers) - g * 508)
        ≡ take 508 (drop (g * 508) stripe_headers)
  group_headers g =
      let own = drop (g * 508) stripe_headers in
      take_eq (min (g * 508 + 508) (length stripe_headers) - g * 508) (min 508 (length own)) own
        (omega (arith, length-drop (g * 508) stripe_headers))
      ∙ take-min 508 own

  -- One round of the writer's loop.
  write_groups_step :
      (n g : ℕ) (pre tail : List ℕ)
      → length pre ≡ 512 + g * 512
      → 512 ≤ length tail
      → g * 508 < length stripe_headers
      → write_groups crc32 m (suc n) g (pre ++ tail)
        ≡ write_groups crc32 m n
            (g + 1)
            ((pre ++ sector crc32 (take 508 (drop (g * 508) stripe_headers))) ++ drop 512 tail)
  unfolding write_groups
  write_groups_step n g pre tail hp ht hg =
      assert_ok (leb (g * 508) (min (g * 508 + 508) (length stripe_headers))) _
        (le→leb _ _ (omega arith))
      ∙ assert_ok (leb (512 + g * 512 + 512) (length (pre ++ tail))) _
          (le→leb _ _ (omega (arith, length-append pre tail)))
      ∙ ap (λ (hs : List ℕ). write_sector_with_crc32 crc32 target hs >>= next) (group_headers g)
      ∙ ap (λ (r : Result (List ℕ)). r >>= next)
          (write_sector_lem crc32 target headers target_size (fits (drop (g * 508) stripe_headers)))
      ∙ ap (write_groups crc32 m n (g + 1)) (
          splice-append pre tail own (512 + g * 512) hp
          ∙ ap (λ (t : List ℕ). pre ++ (own ++ t)) (drop_eq (length own) 512 tail own_size)
          ∙ sym (append_assoc pre own (drop 512 tail)))
    where
      headers : List ℕ
      headers = take 508 (drop (g * 508) stripe_headers)

      own : List ℕ
      own = sector crc32 headers

      own_size : length own ≡ 512
      own_size = length-sector crc32 headers (fits (drop (g * 508) stripe_headers))

      target : List ℕ
      target = slice (pre ++ tail) (512 + g * 512) 512

      target_size : length target ≡ 512
      target_size = omega (
        arith,
        length-take 512 (drop (512 + g * 512) (pre ++ tail)),
        length-drop (512 + g * 512) (pre ++ tail),
        length-append pre tail,
      )

      next : List ℕ → Result (List ℕ)
      next sec = write_groups crc32 m n (g + 1) (splice (pre ++ tail) (512 + g * 512) sec)

  -- The writer's loop puts the sectors of the remaining headers behind `pre`.
  pub write_groups_lem :
      (n g : ℕ) (pre tail : List ℕ)
      → length pre ≡ 512 + g * 512
      → n * 512 ≤ length tail
      → (g + n) * 508 < length stripe_headers + 508
      → write_groups crc32 m n g (pre ++ tail)
        ≡ ok (pre ++ (sectors crc32 n (drop (g * 508) stripe_headers) ++ drop (n * 512) tail))
  unfolding write_groups sectors
  write_groups_lem zero g pre tail hp ht hg = refl
  write_groups_lem (suc n) g pre tail hp ht hg =
      write_groups_step n g pre tail hp (omega arith) (omega arith)
      ∙ write_groups_lem n (g + 1) (pre ++ own) (drop 512 tail)
          (omega (
            arith,
            length-append pre own,
            length-sector crc32 headers (fits (drop (g * 508) stripe_headers)),
          ))
          (omega (arith, length-drop 512 tail)) (omega arith)
      ∙ ap ok (
          regroup pre own (sectors crc32 n (drop ((g + 1) * 508) stripe_headers)) _
          ∙ ap₂ (λ (hs back : List ℕ). pre ++ ((own ++ sectors crc32 n hs) ++ back))
              (drop_eq ((g + 1) * 508) (g * 508 + 508) stripe_headers (omega arith)
                ∙ sym (drop-drop 508 (g * 508) stripe_headers))
              (drop-drop (n * 512) 512 tail
                ∙ drop_eq (512 + n * 512) (suc n * 512) tail (omega arith)))
    where
      headers : List ℕ
      headers = take 508 (drop (g * 508) stripe_headers)

      own : List ℕ
      own = sector crc32 headers

module _ (crc32 : List ℕ → ℕ) where
  read_groups_step :
      (n g : ℕ) (pre back headers acc buf : List ℕ)
      → length pre ≡ 512 + g * 512
      → length headers ≤ 508
      → buf ≡ pre ++ (sector crc32 headers ++ back)
      → read_groups crc32 buf (suc n) g acc
        ≡ read_groups crc32 buf n (g + 1) (acc ++ padded headers)
  unfolding read_groups
  read_groups_step n g pre back headers acc buf hp hh e =
      assert_ok (leb (512 + g * 512 + 512) (length buf)) _ (le→leb _ _ in_buf)
      ∙ ap next found
      ∙ >>=_ok (sector_crc32_is_valid crc32 own) _ true (sector-is_valid crc32 headers hh)
      ∙ ap (λ (t : List ℕ). read_groups crc32 buf n (g + 1) (acc ++ t)) payload
    where
      own : List ℕ
      own = sector crc32 headers

      found : slice buf (512 + g * 512) 512 ≡ own
      found =
          ap (λ (t : List ℕ). slice t (512 + g * 512) 512) e
          ∙ slice-append pre own back (512 + g * 512) 512 hp (length-sector crc32 headers hh)

      in_buf : 512 + g * 512 + 512 ≤ length buf
      in_buf = omega (
        arith,
        ap length e,
        length-append pre (own ++ back),
        length-append own back,
        length-sector crc32 headers hh,
      )

      next : List ℕ → Result (List ℕ)
      next sec = sector_crc32_is_valid crc32 sec >>= λ valid.
          fail_if (not valid) (metadata_error (group_crc_mismatch g)) >>= λ _.
          read_groups crc32 buf n (g + 1) (acc ++ take 508 sec)

      payload : take 508 own ≡ padded headers
      payload =
          unfold sector in
          take-append 508 (padded headers) (compute_sector_crc32 crc32 (padded headers))
            (length-padded headers hh)

  -- The reader's loop finds the headers, with their padding.
  pub read_groups_lem :
      (n g : ℕ) (pre hs back acc buf : List ℕ)
      → length pre ≡ 512 + g * 512
      → buf ≡ pre ++ (sectors crc32 n hs ++ back)
      → read_groups crc32 buf n g acc ≡ ok (acc ++ contents n hs)
  unfolding read_groups contents sectors
  read_groups_lem zero g pre hs back acc buf hp e = ap ok (sym (append-nil acc))
  read_groups_lem (suc n) g pre hs back acc buf hp e =
      read_groups_step n g pre (sectors crc32 n (drop 508 hs) ++ back) (take 508 hs) acc buf hp
        (fits hs)
        (e ∙ ap (λ (t : List ℕ). pre ++ t) (append_assoc own (sectors crc32 n (drop 508 hs)) back))
      ∙ read_groups_lem n (g + 1) (pre ++ own) (drop 508 hs) back (acc ++ padded (take 508 hs)) buf
          (omega (arith, length-append pre own, length-sector crc32 (take 508 hs) (fits hs)))
          (e ∙ sym (regroup pre own (sectors crc32 n (drop 508 hs)) back))
      ∙ ap ok (append_assoc acc (padded (take 508 hs)) (contents n (drop 508 hs)))
    where
      own : List ℕ
      own = sector crc32 (take 508 hs)
