-- ===== src/SharedState/Counting.antt =====
-- How many stripes are in a state, and what a change of one stripe does to that.
use ubiblk.Prelude.{
  ℕ, zero, suc, ◌+◌, ◌≤◌, ◌≡◌, refl, Bool, true, false, not, ◌||◌, List, [], ◌∷◌, some, ◌==◌,
  length, get_elem?, set, arith,
}

abbrev pub one_if : Bool → ℕ
one_if true = 1
one_if false = 0

module _ (p : ℕ → Bool) where
  unfoldable pub count : List ℕ → ℕ
  count [] = 0
  count (x ∷ xs) = one_if (p x) + count xs

  pub count-set :
      (xs : List ℕ) (i old v : ℕ)
      → get_elem? xs i ≡ some old
      → count (set xs i v) + one_if (p old) ≡ count xs + one_if (p v)
  unfolding count
  count-set [] i old v e = cc
  count-set (x ∷ xs) zero old v e = ground arith
  count-set (x ∷ xs) (suc i) old v e = ground (arith, count-set xs i old v)

  pub count-le-length : (xs : List ℕ) → count xs ≤ length xs
  unfolding count
  count-le-length [] = omega arith
  count-le-length (x ∷ xs) = ground (arith, count-le-length xs)

abbrev pub is_fetched : ℕ → Bool
is_fetched x = x == 1

abbrev pub has_source : ℕ → Bool
has_source x = not (x == 3)

-- The stripe's data is in the base device, or there was none to fetch.
abbrev pub is_done : ℕ → Bool
is_done x = (x == 1) || (x == 3)

abbrev pub AllDone : List ℕ → Type 0
AllDone xs = (i x : ℕ) → get_elem? xs i ≡ some x → is_done x ≡ true

pub fetched-le-source : (xs : List ℕ) → count is_fetched xs ≤ count has_source xs
unfolding count
fetched-le-source [] = omega arith
fetched-le-source (x ∷ xs) = ground (arith, fetched-le-source xs)

pub counts_eq→AllDone : (xs : List ℕ) → count is_fetched xs ≡ count has_source xs → AllDone xs
unfolding count
counts_eq→AllDone [] e i x at = cc
counts_eq→AllDone (y ∷ xs) e zero x at = ground (arith, fetched-le-source xs)
counts_eq→AllDone (y ∷ xs) e (suc i) x at =
    counts_eq→AllDone xs (ground (arith, fetched-le-source xs)) i x at

pub AllDone→counts_eq : (xs : List ℕ) → AllDone xs → count is_fetched xs ≡ count has_source xs
unfolding count
AllDone→counts_eq [] h = refl
AllDone→counts_eq (y ∷ xs) h =
    ground (arith, h 0 y refl, AllDone→counts_eq xs (λ i x at. h (suc i) x at))
