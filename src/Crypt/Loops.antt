-- ===== src/Crypt/Loops.antt =====
-- src/crypt/block.rs: the loop over the sectors of a buffer.
use ubiblk.Prelude.{
  ℕ, zero, suc, ◌+◌, ◌*◌, ◌%◌, ◌^◌, ◌≤◌, ◌≡◌, refl, sym, ap, ◌∙◌, List, ◌++◌, ok, assert_ok, leb,
  le→leb, arith, length, length-append, length-drop, length-take, take, drop, splice, splice-append,
  take-append-drop, take-take, drop-take, take-append_ge, take-append, drop-append_ge, drop-append,
  drop-drop, append_assoc,
}
use ubiblk.Crypt.{Xts, each_sector}

-- A sector's ciphertext is as long as the sector, and decrypts to it under the same keys and tweak.
pub record IsXts (X : Xts) : Type 0 where
  pub length-enc :
      (key2 key1 tweak xs : List ℕ) → length xs ≡ 512 → length (X.enc key2 key1 tweak xs) ≡ 512
  pub length-dec :
      (key2 key1 tweak xs : List ℕ) → length xs ≡ 512 → length (X.dec key2 key1 tweak xs) ≡ 512
  pub dec-enc :
      (key2 key1 tweak xs : List ℕ)
      → length xs ≡ 512
      → X.dec key2 key1 tweak (X.enc key2 key1 tweak xs) ≡ xs

-- The first `n` sectors of `xs`, numbered from `s` on, each replaced by its image.
unfoldable pub sectors : (ℕ → List ℕ → List ℕ) → ℕ → ℕ → List ℕ → List ℕ
sectors f s zero xs = xs
sectors f s (suc n) xs = f (s % 2 ^ 64) (take 512 xs) ++ sectors f (s + 1) n (drop 512 xs)

abbrev pub KeepsLength : (ℕ → List ℕ → List ℕ) → Type 0
KeepsLength f = (s : ℕ) (xs : List ℕ) → length xs ≡ 512 → length (f s xs) ≡ 512

zero_add : (n : ℕ) → 0 + n ≡ n
zero_add n = omega arith

pub add_zero : (n : ℕ) → n + 0 ≡ n
add_zero n = omega arith

suc_add : (a b : ℕ) → suc a + b ≡ suc (a + b)
suc_add a b = omega arith

add_suc : (a b : ℕ) → a + 1 + b ≡ a + suc b
add_suc a b = omega arith

suc_mul : (a : ℕ) → suc a * 512 ≡ 512 + a * 512
suc_mul a = omega arith

module _ (f : ℕ → List ℕ → List ℕ) (keeps : KeepsLength f) where
  first_length : (s : ℕ) (xs : List ℕ) → 512 ≤ length xs → length (f s (take 512 xs)) ≡ 512
  first_length s xs h = keeps s (take 512 xs) (omega (arith, length-take 512 xs))

  -- The loop, behind the sectors that it has passed.
  pub each_sector-sectors :
      (pre xs : List ℕ) (start i n : ℕ)
      → length pre ≡ i * 512
      → n * 512 ≤ length xs
      → each_sector f (pre ++ xs) start i n ≡ ok (pre ++ sectors f (start + i) n xs)
  unfolding each_sector sectors
  each_sector-sectors pre xs start i zero hp hx = refl
  each_sector-sectors pre xs start i (suc n) hp hx =
      let s = (start + i) % 2 ^ 64 in
      let now = f s (take 512 xs) in
      let len = first_length s xs (omega arith) in
      assert_ok (leb (i * 512 + 512) (length (pre ++ xs))) _
        (le→leb (i * 512 + 512) (length (pre ++ xs)) (omega (arith, length-append pre xs)))
      ∙ ap (λ (t : List ℕ). each_sector f (splice (pre ++ xs) (i * 512) (f s t)) start (i + 1) n)
          (ap (take 512) (drop-append (i * 512) pre xs hp))
      ∙ ap (λ (t : List ℕ). each_sector f t start (i + 1) n)
          (splice-append pre xs now (i * 512) hp
            ∙ ap (λ (k : ℕ). pre ++ (now ++ drop k xs)) len
            ∙ sym (append_assoc pre now (drop 512 xs)))
      ∙ each_sector-sectors (pre ++ now) (drop 512 xs) start (i + 1) n
          (omega (arith, length-append pre now)) (omega (arith, length-drop 512 xs))
      ∙ ap (λ (t : List ℕ). ok t)
          (append_assoc pre now (sectors f (start + (i + 1)) n (drop 512 xs))
            ∙ ap (λ (k : ℕ). pre ++ (now ++ sectors f k n (drop 512 xs))) (next_sector start i))
    where
      next_sector : (a b : ℕ) → a + (b + 1) ≡ a + b + 1
      next_sector a b = omega arith

  pub length-sectors :
      (s n : ℕ) (xs : List ℕ) → n * 512 ≤ length xs → length (sectors f s n xs) ≡ length xs
  unfolding sectors
  length-sectors s zero xs h = refl
  length-sectors s (suc n) xs h = omega (
    arith,
    length-append (f (s % 2 ^ 64) (take 512 xs)) (sectors f (s + 1) n (drop 512 xs)),
    first_length (s % 2 ^ 64) xs (omega arith),
    length-sectors (s + 1) n (drop 512 xs) (omega (arith, length-drop 512 xs)),
    length-drop 512 xs,
  )

  -- What lies behind the first `i` sectors.
  pub drop-sectors :
      (s i n : ℕ) (xs : List ℕ)
      → (i + n) * 512 ≤ length xs
      → drop (i * 512) (sectors f s (i + n) xs) ≡ sectors f (s + i) n (drop (i * 512) xs)
  unfolding sectors
  drop-sectors s zero n xs h =
      ap (λ (k : ℕ). sectors f s k xs) (zero_add n)
      ∙ ap (λ (k : ℕ). sectors f k n xs) (sym (add_zero s))
  drop-sectors s (suc i) n xs h =
      let now = f (s % 2 ^ 64) (take 512 xs) in
      ap (λ (k : ℕ). drop (suc i * 512) (sectors f s k xs)) (suc_add i n)
      ∙ ap (λ (k : ℕ). drop k (now ++ sectors f (s + 1) (i + n) (drop 512 xs))) (suc_mul i)
      ∙ drop-append_ge 512 (i * 512) now _ (first_length (s % 2 ^ 64) xs (omega arith))
      ∙ drop-sectors (s + 1) i n (drop 512 xs) (omega (arith, length-drop 512 xs))
      ∙ ap (λ (k : ℕ). sectors f k n (drop (i * 512) (drop 512 xs))) (add_suc s i)
      ∙ ap (sectors f (s + suc i) n)
          (drop-drop (i * 512) 512 xs ∙ ap (λ (k : ℕ). drop k xs) (sym (suc_mul i)))

  -- The first `m` sectors.
  pub take-sectors :
      (s m n : ℕ) (xs : List ℕ)
      → (m + n) * 512 ≤ length xs
      → take (m * 512) (sectors f s (m + n) xs) ≡ sectors f s m (take (m * 512) xs)
  unfolding sectors
  take-sectors s zero n xs h = refl
  take-sectors s (suc m) n xs h =
      let now = f (s % 2 ^ 64) (take 512 xs) in
      ap (λ (k : ℕ). take (suc m * 512) (sectors f s k xs)) (suc_add m n)
      ∙ ap (λ (k : ℕ). take k (now ++ sectors f (s + 1) (m + n) (drop 512 xs))) (suc_mul m)
      ∙ take-append_ge 512 (m * 512) now _ (first_length (s % 2 ^ 64) xs (omega arith))
      ∙ ap (λ (t : List ℕ). now ++ t)
          (take-sectors (s + 1) m n (drop 512 xs) (omega (arith, length-drop 512 xs)))
      ∙ ap (λ (t : List ℕ). f (s % 2 ^ 64) t ++ sectors f (s + 1) m (take (m * 512) (drop 512 xs)))
          (sym (take-take 512 (m * 512) xs))
      ∙ ap
          (λ (t : List ℕ).
            f (s % 2 ^ 64) (take 512 (take (512 + m * 512) xs)) ++ sectors f (s + 1) m t)
          (sym (drop-take 512 (m * 512) xs))
      ∙ ap (λ (k : ℕ). sectors f s (suc m) (take k xs)) (sym (suc_mul m))

-- One loop undoes the other.
pub sectors-sectors :
    (e d : ℕ → List ℕ → List ℕ)
    → KeepsLength e
    → ((s : ℕ) (xs : List ℕ) → length xs ≡ 512 → d s (e s xs) ≡ xs)
    → (s n : ℕ) (xs : List ℕ) → n * 512 ≤ length xs
    → sectors d s n (sectors e s n xs) ≡ xs
unfolding sectors
sectors-sectors e d keeps undo s zero xs h = refl
sectors-sectors e d keeps undo s (suc n) xs h =
    let now = e (s % 2 ^ 64) (take 512 xs) in
    let len = first_length e keeps (s % 2 ^ 64) xs (omega arith) in
    let rest = sectors e (s + 1) n (drop 512 xs) in
    ap (λ (t : List ℕ). d (s % 2 ^ 64) t ++ sectors d (s + 1) n (drop 512 (now ++ rest)))
      (take-append 512 now rest len)
    ∙ ap (λ (t : List ℕ). t ++ sectors d (s + 1) n (drop 512 (now ++ rest)))
        (undo (s % 2 ^ 64) (take 512 xs) (omega (arith, length-take 512 xs)))
    ∙ ap (λ (t : List ℕ). take 512 xs ++ sectors d (s + 1) n t) (drop-append 512 now rest len)
    ∙ ap (λ (t : List ℕ). take 512 xs ++ t)
        (sectors-sectors e d keeps undo (s + 1) n (drop 512 xs) (omega (arith, length-drop 512 xs)))
    ∙ take-append-drop 512 xs
