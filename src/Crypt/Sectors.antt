-- ===== src/Crypt/Sectors.antt =====
-- src/crypt/block.rs: what the loops of `encrypt` and `decrypt` leave in the buffer.
use ubiblk.Prelude.{
  ℕ, ◌+◌, ◌-◌, ◌*◌, ◌≤◌, ◌≡◌, refl, sym, ap, ◌∙◌, List, [], ok, arith, length, length-drop, take,
  drop, slice, take_all, length-slice,
}
use ubiblk.Crypt.{Xts, XtsBlockCipher, encrypt_sector, decrypt_sector, encrypt, decrypt}
use ubiblk.Crypt.Loops.{
  IsXts, KeepsLength, add_zero, drop-sectors, each_sector-sectors, length-sectors, sectors,
  sectors-sectors, take-sectors,
}

module _ (X : Xts) (law : IsXts X) (c : XtsBlockCipher) where
  encrypt_keeps : KeepsLength (encrypt_sector X c)
  unfolding encrypt_sector
  encrypt_keeps s xs h = law.length-enc c.key2 c.key1 _ xs h

  decrypt_keeps : KeepsLength (decrypt_sector X c)
  unfolding decrypt_sector
  decrypt_keeps s xs h = law.length-dec c.key2 c.key1 _ xs h

  undo_sector :
      (s : ℕ) (xs : List ℕ) → length xs ≡ 512 → decrypt_sector X c s (encrypt_sector X c s xs) ≡ xs
  unfolding encrypt_sector decrypt_sector
  undo_sector s xs h = law.dec-enc c.key2 c.key1 _ xs h

  encrypt-sectors :
      (buf : List ℕ) (s n : ℕ)
      → n * 512 ≤ length buf
      → encrypt X c buf s n ≡ ok (sectors (encrypt_sector X c) s n buf)
  unfolding encrypt
  encrypt-sectors buf s n h =
      each_sector-sectors (encrypt_sector X c) encrypt_keeps [] buf s 0 n refl h
      ∙ ap (λ (k : ℕ). ok (sectors (encrypt_sector X c) k n buf)) (add_zero s)

  pub decrypt-sectors :
      (buf : List ℕ) (s n : ℕ)
      → n * 512 ≤ length buf
      → decrypt X c buf s n ≡ ok (sectors (decrypt_sector X c) s n buf)
  unfolding decrypt
  decrypt-sectors buf s n h =
      each_sector-sectors (decrypt_sector X c) decrypt_keeps [] buf s 0 n refl h
      ∙ ap (λ (k : ℕ). ok (sectors (decrypt_sector X c) k n buf)) (add_zero s)

  -- Any run of whole sectors of a ciphertext, decrypted under the numbers of those sectors.
  pub decrypt-slice :
      (buf : List ℕ) (s i m k : ℕ)
      → (i + (m + k)) * 512 ≤ length buf
      → decrypt X c
          (slice (sectors (encrypt_sector X c) s (i + (m + k)) buf) (i * 512) (m * 512))
          (s + i)
          m
        ≡ ok (slice buf (i * 512) (m * 512))
  decrypt-slice buf s i m k h =
      let e = encrypt_sector X c in
      let part = slice buf (i * 512) (m * 512) in
      let len = slice_length buf i m k h in
      let rest = length-drop (i * 512) buf in
      ap (λ (t : List ℕ). decrypt X c t (s + i) m)
        (ap (take (m * 512)) (drop-sectors e encrypt_keeps s i (m + k) buf h)
          ∙ take-sectors e encrypt_keeps (s + i) m k (drop (i * 512) buf) (omega (arith, rest)))
      ∙ decrypt-sectors (sectors e (s + i) m part) (s + i) m
          (omega (arith, length-sectors e encrypt_keeps (s + i) m part (omega (arith, len)), len))
      ∙ ap (λ (t : List ℕ). ok t)
          (sectors-sectors e (decrypt_sector X c) encrypt_keeps undo_sector (s + i) m part
            (omega (arith, len)))
    where
      slice_length :
          (buf : List ℕ) (i m k : ℕ)
          → (i + (m + k)) * 512 ≤ length buf
          → length (slice buf (i * 512) (m * 512)) ≡ m * 512
      slice_length buf i m k h = length-slice buf (i * 512) (m * 512) (omega arith)

  -- Under a lawful cipher, n sectors of a buffer that has them are encrypted in place: the length
  -- stays, what lies behind them too, and any run of them is read back by decrypting it alone, under
  -- its own sector numbers.
  pub encrypt_lem :
      (buf : List ℕ) (s n i m : ℕ)
      → n * 512 ≤ length buf
      → i + m ≤ n
      → (out : List ℕ) × (encrypt X c buf s n ≡ ok out)
        × (length out ≡ length buf)
        × (drop (n * 512) out ≡ drop (n * 512) buf)
        × (decrypt X c (slice out (i * 512) (m * 512)) (s + i) m
            ≡ ok (slice buf (i * 512) (m * 512)))
  unfolding sectors
  encrypt_lem buf s n i m h fits =
      let e = encrypt_sector X c in
      (
        sectors e s n buf,
        encrypt-sectors buf s n h,
        length-sectors e encrypt_keeps s n buf h,
        ap (λ (k : ℕ). drop (n * 512) (sectors e s k buf)) (sym (add_zero n)) ∙ behind buf s n h,
        ap (λ (k : ℕ). decrypt X c (slice (sectors e s k buf) (i * 512) (m * 512)) (s + i) m)
              (split_sum i m n fits)
            ∙ decrypt-slice buf s i m (n - (i + m)) (omega arith),
      )
    where
      split_sum : (i m n : ℕ) → i + m ≤ n → n ≡ i + (m + (n - (i + m)))
      split_sum i m n h = omega arith

      behind :
          (buf : List ℕ) (s n : ℕ)
          → n * 512 ≤ length buf
          → drop (n * 512) (sectors (encrypt_sector X c) s (n + 0) buf) ≡ drop (n * 512) buf
      behind buf s n h = drop-sectors (encrypt_sector X c) encrypt_keeps s n 0 buf (omega arith)

  -- A buffer of whole sectors, as a whole.
  pub decrypt-encrypt :
      (buf : List ℕ) (s n : ℕ)
      → n * 512 ≡ length buf
      → (out : List ℕ) × (encrypt X c buf s n ≡ ok out)
        × (length out ≡ length buf)
        × (decrypt X c out s n ≡ ok buf)
  decrypt-encrypt buf s n h =
      let (out, ran, len, _, back) = encrypt_lem buf s n 0 n (omega arith) (omega arith) in
      (
        out,
        ran,
        len,
        ap (λ (t : List ℕ). decrypt X c t s n) (sym (take_all (n * 512) out (omega arith)))
            ∙ ap (λ (k : ℕ). decrypt X c (take (n * 512) out) k n) (sym (add_zero s))
            ∙ back
            ∙ ap (λ (t : List ℕ). ok t) (take_all (n * 512) buf (omega arith)),
      )
