-- ===== src/Prelude/Slices.antt =====
-- Parts of a part of a list.
use Prim.Native.Nat.{ℕ, zero, suc, ◌+◌, ◌≤◌}
use mathlib.Core.Path.{◌≡◌, refl, ap, ◌∙◌}
use mathlib.Core.List.{List, [], ◌∷◌}
use native.Mathlib.Omega.{arith}
use ubiblk.Prelude.Lists.{length, take, drop, length-take, length-drop}

suc_add : (a b : ℕ) → suc a + b ≡ suc (a + b)
suc_add a b = omega arith

module _ {ℓ} {A : Type ℓ} where
  pub take-take : (n k : ℕ) (xs : List A) → take n (take (n + k) xs) ≡ take n xs
  take-take zero k xs = refl
  take-take (suc n) k [] = ap (λ (m : ℕ). take (suc n) (take {A = A} m [])) (suc_add n k)
  take-take (suc n) k (x ∷ xs) =
      ap (λ (m : ℕ). take (suc n) (take m (x ∷ xs))) (suc_add n k) ∙ ap (◌∷◌ x) (take-take n k xs)

  pub drop-take : (n k : ℕ) (xs : List A) → drop n (take (n + k) xs) ≡ take k (drop n xs)
  drop-take zero k xs = ap (λ (m : ℕ). take m xs) (omega arith)
  drop-take (suc n) k [] = ap (λ (m : ℕ). drop (suc n) (take {A = A} m [])) (suc_add n k) ∙ nil k
    where
      nil : (j : ℕ) → ◌≡◌ {A = List A} [] (take j [])
      nil zero = refl
      nil (suc j) = refl
  drop-take (suc n) k (x ∷ xs) =
      ap (λ (m : ℕ). drop (suc n) (take m (x ∷ xs))) (suc_add n k) ∙ drop-take n k xs

  pub length-slice :
      (xs : List A) (start n : ℕ) → start + n ≤ length xs → length (take n (drop start xs)) ≡ n
  length-slice xs start n h = omega (arith, length-take n (drop start xs), length-drop start xs)
