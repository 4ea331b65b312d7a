-- ===== src/Prelude/Lists.antt =====
-- Lists measured and indexed by native numbers.
use Prim.Native.Nat.{ℕ, zero, suc, ◌+◌, ◌-◌, ◌≤◌, ◌<◌, min}
use mathlib.Core.Path.{◌≡◌, refl, ap, sym, subst, ◌∙◌}
use mathlib.Core.Logic.{◌≢◌}
use mathlib.Core.List.{List, [], ◌∷◌, ◌++◌}
use mathlib.Core.Option.{Option, none, some}
use native.Mathlib.Omega.{arith}

module _ {ℓ} {A : Type ℓ} where
  abbrev pub length : List A → ℕ
  length [] = 0
  length (x ∷ xs) = suc (length xs)

  abbrev pub get_elem? : List A → ℕ → Option A
  get_elem? [] i = none
  get_elem? (x ∷ xs) zero = some x
  get_elem? (x ∷ xs) (suc i) = get_elem? xs i

  -- A write out of bounds changes nothing.
  abbrev pub set : List A → ℕ → A → List A
  set [] i v = []
  set (x ∷ xs) zero v = v ∷ xs
  set (x ∷ xs) (suc i) v = x ∷ set xs i v

  abbrev pub take : ℕ → List A → List A
  take zero xs = []
  take (suc n) [] = []
  take (suc n) (x ∷ xs) = x ∷ take n xs

  abbrev pub drop : ℕ → List A → List A
  drop zero xs = xs
  drop (suc n) [] = []
  drop (suc n) (x ∷ xs) = drop n xs

  unfoldable pub replicate : ℕ → A → List A
  replicate zero a = []
  replicate (suc n) a = a ∷ replicate n a

  abbrev pub All {κ} : (A → Type κ) → List A → Type κ
  All P [] = Unit {κ}
  All P (x ∷ xs) = P x × All P xs

module _ {ℓ} {A : Type ℓ} where
  pub length-append : (xs ys : List A) → length (xs ++ ys) ≡ length xs + length ys
  length-append [] ys = omega arith
  length-append (x ∷ xs) ys = omega (arith, length-append xs ys)

  pub length-set : (xs : List A) (i : ℕ) (v : A) → length (set xs i v) ≡ length xs
  length-set [] i v = refl
  length-set (x ∷ xs) zero v = refl
  length-set (x ∷ xs) (suc i) v = ap suc (length-set xs i v)

  pub get_elem?-set_self :
      (xs : List A) (i : ℕ) (v : A) → i < length xs → get_elem? (set xs i v) i ≡ some v
  get_elem?-set_self [] i v h = elim h [ ]
  get_elem?-set_self (x ∷ xs) zero v h = refl
  get_elem?-set_self (x ∷ xs) (suc i) v h = get_elem?-set_self xs i v (omega arith)

  pub get_elem?-set_ne :
      (xs : List A) (i j : ℕ) (v : A) → i ≢ j → get_elem? (set xs i v) j ≡ get_elem? xs j
  get_elem?-set_ne [] i j v h = refl
  get_elem?-set_ne (x ∷ xs) zero zero v h = absurd (h refl)
  get_elem?-set_ne (x ∷ xs) zero (suc j) v h = refl
  get_elem?-set_ne (x ∷ xs) (suc i) zero v h = refl
  get_elem?-set_ne (x ∷ xs) (suc i) (suc j) v h = get_elem?-set_ne xs i j v (λ e. h (ap suc e))

  pub get_elem?-lt : (xs : List A) (i : ℕ) (v : A) → get_elem? xs i ≡ some v → i < length xs
  get_elem?-lt [] i v e = ground arith
  get_elem?-lt (x ∷ xs) zero v e = omega arith
  get_elem?-lt (x ∷ xs) (suc i) v e = omega (arith, get_elem?-lt xs i v e)

  pub length-take : (n : ℕ) (xs : List A) → length (take n xs) ≡ min n (length xs)
  length-take zero xs = omega arith
  length-take (suc n) [] = omega arith
  length-take (suc n) (x ∷ xs) = omega (arith, length-take n xs)

  pub length-drop : (n : ℕ) (xs : List A) → length (drop n xs) ≡ length xs - n
  length-drop zero xs = omega arith
  length-drop (suc n) [] = omega arith
  length-drop (suc n) (x ∷ xs) = omega (arith, length-drop n xs)

  pub length-replicate : (n : ℕ) (a : A) → length (replicate n a) ≡ n
  unfolding replicate
  length-replicate zero a = refl
  length-replicate (suc n) a = ap suc (length-replicate n a)

  pub take-append_le : (n : ℕ) (xs ys : List A) → n ≤ length xs → take n (xs ++ ys) ≡ take n xs
  take-append_le zero xs ys h = refl
  take-append_le (suc n) [] ys h = absurd (omega arith)
  take-append_le (suc n) (x ∷ xs) ys h = ap (◌∷◌ x) (take-append_le n xs ys (omega arith))

  pub take_all : (n : ℕ) (xs : List A) → length xs ≤ n → take n xs ≡ xs
  take_all zero [] h = refl
  take_all zero (x ∷ xs) h = absurd (omega arith)
  take_all (suc n) [] h = refl
  take_all (suc n) (x ∷ xs) h = ap (◌∷◌ x) (take_all n xs (omega arith))

  pub take-append : (n : ℕ) (xs ys : List A) → length xs ≡ n → take n (xs ++ ys) ≡ xs
  take-append n xs ys h = take-append_le n xs ys (omega arith) ∙ take_all n xs (omega arith)

  pub take-append_ge :
      (n m : ℕ) (xs ys : List A) → length xs ≡ n → take (n + m) (xs ++ ys) ≡ xs ++ take m ys
  take-append_ge zero m [] ys h = ap (λ (k : ℕ). take k ys) (omega arith)
  take-append_ge zero m (x ∷ xs) ys h = absurd (omega arith)
  take-append_ge (suc n) m [] ys h = absurd (omega arith)
  take-append_ge (suc n) m (x ∷ xs) ys h =
      ap (λ (k : ℕ). take k (x ∷ (xs ++ ys))) (suc_add n m)
      ∙ ap (◌∷◌ x) (take-append_ge n m xs ys (omega arith))
    where
      suc_add : (a b : ℕ) → suc a + b ≡ suc (a + b)
      suc_add a b = omega arith

  pub take_eq : (n m : ℕ) (xs : List A) → n ≡ m → take n xs ≡ take m xs
  take_eq n m xs e = ap (λ (k : ℕ). take k xs) e

  pub drop_eq : (n m : ℕ) (xs : List A) → n ≡ m → drop n xs ≡ drop m xs
  drop_eq n m xs e = ap (λ (k : ℕ). drop k xs) e

  pub take-min : (n : ℕ) (xs : List A) → take (min n (length xs)) xs ≡ take n xs
  take-min zero xs = take_eq (min 0 (length xs)) 0 xs (omega arith)
  take-min (suc n) [] = take_eq (min (suc n) 0) 0 [] (omega arith)
  take-min (suc n) (x ∷ xs) =
      ap (λ (k : ℕ). take k (x ∷ xs)) (suc_min n (length xs)) ∙ ap (◌∷◌ x) (take-min n xs)
    where
      suc_min : (a b : ℕ) → min (suc a) (suc b) ≡ suc (min a b)
      suc_min a b = omega arith

  pub drop-append : (n : ℕ) (xs ys : List A) → length xs ≡ n → drop n (xs ++ ys) ≡ ys
  drop-append zero [] ys h = refl
  drop-append zero (x ∷ xs) ys h = absurd (omega arith)
  drop-append (suc n) [] ys h = absurd (omega arith)
  drop-append (suc n) (x ∷ xs) ys h = drop-append n xs ys (omega arith)

  pub drop-append_ge :
      (n m : ℕ) (xs ys : List A) → length xs ≡ n → drop (n + m) (xs ++ ys) ≡ drop m ys
  drop-append_ge zero m [] ys h = ap (λ (k : ℕ). drop k ys) (omega arith)
  drop-append_ge zero m (x ∷ xs) ys h = absurd (omega arith)
  drop-append_ge (suc n) m [] ys h = absurd (omega arith)
  drop-append_ge (suc n) m (x ∷ xs) ys h =
      ap (λ (k : ℕ). drop k (x ∷ (xs ++ ys))) (suc_add n m) ∙ drop-append_ge n m xs ys (omega arith)
    where
      suc_add : (a b : ℕ) → suc a + b ≡ suc (a + b)
      suc_add a b = omega arith

  pub drop-nil : (n : ℕ) → drop {A = A} n [] ≡ []
  drop-nil zero = refl
  drop-nil (suc n) = refl

  pub drop-drop : (n m : ℕ) (xs : List A) → drop n (drop m xs) ≡ drop (m + n) xs
  drop-drop n zero xs = ap (λ (k : ℕ). drop k xs) (omega arith)
  drop-drop n (suc m) [] = drop-nil n ∙ sym (drop-nil (suc m + n))
  drop-drop n (suc m) (x ∷ xs) = drop-drop n m xs ∙ ap (λ (k : ℕ). drop k (x ∷ xs)) (suc_add m n)
    where
      suc_add : (a b : ℕ) → suc (a + b) ≡ suc a + b
      suc_add a b = omega arith

  pub drop-replicate : (k n : ℕ) (a : A) → drop k (replicate n a) ≡ replicate (n - k) a
  unfolding replicate
  drop-replicate zero n a = ap (λ (m : ℕ). replicate m a) (omega arith)
  drop-replicate (suc k) zero a = ap (λ (m : ℕ). replicate m a) (zero_sub k)
    where
      zero_sub : (j : ℕ) → 0 ≡ 0 - suc j
      zero_sub j = omega arith
  drop-replicate (suc k) (suc n) a =
      drop-replicate k n a ∙ ap (λ (m : ℕ). replicate m a) (suc_sub n k)
    where
      suc_sub : (i j : ℕ) → i - j ≡ suc i - suc j
      suc_sub i j = omega arith

  pub replicate-add : (n m : ℕ) (a : A) → replicate (n + m) a ≡ replicate n a ++ replicate m a
  unfolding replicate
  replicate-add zero m a = ap (λ (k : ℕ). replicate k a) (omega arith)
  replicate-add (suc n) m a =
      ap (λ (k : ℕ). replicate k a) (suc_add n m) ∙ ap (◌∷◌ a) (replicate-add n m a)
    where
      suc_add : (i j : ℕ) → suc i + j ≡ suc (i + j)
      suc_add i j = omega arith

  pub take-append-drop : (n : ℕ) (xs : List A) → take n xs ++ drop n xs ≡ xs
  take-append-drop zero xs = refl
  take-append-drop (suc n) [] = refl
  take-append-drop (suc n) (x ∷ xs) = ap (◌∷◌ x) (take-append-drop n xs)

  -- `buf[start .. start + xs.len()].copy_from_slice(xs)`.
  abbrev pub splice : List A → ℕ → List A → List A
  splice buf start xs = take start buf ++ (xs ++ drop (start + length xs) buf)

  -- `buf[start .. start + n]`.
  abbrev pub slice : List A → ℕ → ℕ → List A
  slice buf start n = take n (drop start buf)

  pub splice-append :
      (pre tail xs : List A) (start : ℕ)
      → length pre ≡ start
      → splice (pre ++ tail) start xs ≡ pre ++ (xs ++ drop (length xs) tail)
  splice-append pre tail xs start h =
      ap (λ (t : List A). t ++ (xs ++ drop (start + length xs) (pre ++ tail)))
        (take-append start pre tail h)
      ∙ ap (λ (t : List A). pre ++ (xs ++ t)) (drop-append_ge start (length xs) pre tail h)

  pub slice-append :
      (pre mid post : List A) (start n : ℕ)
      → length pre ≡ start
      → length mid ≡ n
      → slice (pre ++ (mid ++ post)) start n ≡ mid
  slice-append pre mid post start n h k =
      ap (take n) (drop-append start pre (mid ++ post) h) ∙ take-append n mid post k

  pub length-splice :
      (buf xs : List A) (start : ℕ)
      → start + length xs ≤ length buf
      → length (splice buf start xs) ≡ length buf
  length-splice buf xs start h = omega (
    arith,
    length-append (take start buf) (xs ++ drop (start + length xs) buf),
    length-append xs (drop (start + length xs) buf),
    length-take start buf,
    length-drop (start + length xs) buf,
  )

  pub All-append {κ} : (P : A → Type κ) (xs ys : List A) → All P xs → All P ys → All P (xs ++ ys)
  All-append P [] ys hx hy = hy
  All-append P (x ∷ xs) ys hx hy = (hx.0, All-append P xs ys hx.1 hy)

pub some_eq {ℓ} : {A : Type ℓ} {x y : A} → some x ≡ some y → x ≡ y
some_eq e = cc

module _ {ℓ κ} {A : Type ℓ} (P : A → Type κ) where
  pub All-set : (xs : List A) (i : ℕ) (v : A) → All P xs → P v → All P (set xs i v)
  All-set [] i v h p = tt
  All-set (x ∷ xs) zero v h p = (p, h.1)
  All-set (x ∷ xs) (suc i) v h p = (h.0, All-set xs i v h.1 p)

  pub All-get_elem? : (xs : List A) (i : ℕ) (v : A) → All P xs → get_elem? xs i ≡ some v → P v
  All-get_elem? [] i v h e = cc
  All-get_elem? (x ∷ xs) zero v h e = subst P (some_eq e) h.0
  All-get_elem? (x ∷ xs) (suc i) v h e = All-get_elem? xs i v h.1 e

-- `start, start + 1, …`, `n` numbers: a Rust range of `n` items.
abbrev pub range_from : ℕ → ℕ → List ℕ
range_from start zero = []
range_from start (suc n) = start ∷ range_from (start + 1) n

pub get_elem?-total {ℓ} :
    {A : Type ℓ} (xs : List A) (i : ℕ) → i < length xs → (x : A) × (get_elem? xs i ≡ some x)
get_elem?-total [] i h = absurd (omega arith)
get_elem?-total (x ∷ xs) zero h = (x, refl)
get_elem?-total (x ∷ xs) (suc i) h = get_elem?-total xs i (omega arith)

module _ {ℓ κ} {A : Type ℓ} (P : A → Type κ) where
  pub All-take : (n : ℕ) (xs : List A) → All P xs → All P (take n xs)
  All-take zero xs h = tt
  All-take (suc n) [] h = tt
  All-take (suc n) (x ∷ xs) h = (h.0, All-take n xs h.1)

  pub All-drop : (n : ℕ) (xs : List A) → All P xs → All P (drop n xs)
  All-drop zero xs h = h
  All-drop (suc n) [] h = tt
  All-drop (suc n) (x ∷ xs) h = All-drop n xs h.1
