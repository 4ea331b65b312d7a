-- ===== src/Prelude/Maps.antt =====
-- `HashMap<usize, V>` as an association list, and `HashSet` as a list without repetition.
use Prim.Native.Nat.{ℕ, zero, suc, ◌+◌}
use mathlib.Core.Path.{◌≡◌, refl}
use mathlib.Core.Logic.{◌≢◌, ◌⊎◌, inl, inr}
use mathlib.Core.Bool.{Bool, true, false, ◌||◌, ◌&&◌}
use mathlib.Core.Option.{Option, none, some}
use mathlib.Core.List.{List, [], ◌∷◌, ◌++◌}
use native.Mathlib.Omega.{arith}
use ubiblk.Prelude.Tests.{◌==◌, ltb, leb, if◌then◌else◌}
use ubiblk.Prelude.Lists.{range_from}

module _ {ℓ} {V : Type ℓ} where
  unfoldable pub remove : ℕ → List (ℕ × V) → List (ℕ × V)
  remove k [] = []
  remove k (entry ∷ m) = let others = remove k m in if entry.0 == k then others else entry ∷ others

  unfoldable pub lookup : ℕ → List (ℕ × V) → Option V
  lookup k [] = none
  lookup k (entry ∷ m) = if entry.0 == k then some entry.1 else lookup k m

  unfoldable pub insert : ℕ → V → List (ℕ × V) → List (ℕ × V)
  insert k new [] = (k, new) ∷ []
  insert k new (entry ∷ m) =
      let others = insert k new m in if entry.0 == k then (k, new) ∷ m else entry ∷ others

  pub lookup-insert :
      (k at : ℕ) (new : V) (m : List (ℕ × V))
      → lookup at (insert k new m) ≡ (if k == at then some new else lookup at m)
  unfolding lookup insert
  lookup-insert k at new [] = refl
  lookup-insert k at new (entry ∷ m) = ground (arith, lookup-insert k at new m)

  pub lookup-remove :
      (k j : ℕ) (m : List (ℕ × V)) → lookup j (remove k m) ≡ (if k == j then none else lookup j m)
  unfolding lookup remove
  lookup-remove k j [] = ground arith
  lookup-remove k j ((i, w) ∷ m) = ground (arith, lookup-remove k j m)

-- Looking into a map that has lost or gained an entry.
pub remove_inv {ℓ} :
    {V : Type ℓ} (k j : ℕ) (m : List (ℕ × V)) (v : V)
    → lookup j (remove k m) ≡ some v
    → (k ≢ j) × (lookup j m ≡ some v)
remove_inv k j m v e = ground (arith, lookup-remove k j m)

pub remove_other {ℓ} :
    {V : Type ℓ} (k j : ℕ) (m : List (ℕ × V)) (v : V)
    → k ≢ j
    → lookup j m ≡ some v
    → lookup j (remove k m) ≡ some v
remove_other k j m v ne e = ground (arith, lookup-remove k j m)

pub same_or_not : (k j : ℕ) → (k ≡ j) ⊎ (k ≢ j)
same_or_not k j = ground arith

pub insert_inv {ℓ} :
    {V : Type ℓ} (k j : ℕ) (m : List (ℕ × V)) (w v : V)
    → lookup j (insert k w m) ≡ some v
    → ((k ≡ j) × (w ≡ v)) ⊎ ((k ≢ j) × (lookup j m ≡ some v))
insert_inv k j m w v e = elim (same_or_not k j) [
  | inl same ↦ inl (same, ground (arith, lookup-insert k j w m))
  | inr ne ↦ inr (ne, ground (arith, lookup-insert k j w m))
]

pub insert_self {ℓ} :
    {V : Type ℓ} (k : ℕ) (m : List (ℕ × V)) (w : V) → lookup k (insert k w m) ≡ some w
insert_self k m w = ground (arith, lookup-insert k k w m)

pub insert_other {ℓ} :
    {V : Type ℓ} (k j : ℕ) (m : List (ℕ × V)) (w v : V)
    → k ≢ j
    → lookup j m ≡ some v
    → lookup j (insert k w m) ≡ some v
insert_other k j m w v ne e = ground (arith, lookup-insert k j w m)

-- Sets.
unfoldable pub contains : ℕ → List ℕ → Bool
contains k [] = false
contains k (x ∷ xs) = (x == k) || contains k xs

unfoldable pub add_to_set : ℕ → List ℕ → List ℕ
unfolding contains
add_to_set k xs = if contains k xs then xs else k ∷ xs

unfoldable pub discard : ℕ → List ℕ → List ℕ
discard k [] = []
discard k (x ∷ xs) = let r = discard k xs in if x == k then r else x ∷ r

pub contains-add_to_set :
    (k j : ℕ) (xs : List ℕ) → contains j (add_to_set k xs) ≡ ((k == j) || contains j xs)
unfolding contains add_to_set
contains-add_to_set k j xs = ground arith

pub contains-discard :
    (k j : ℕ) (xs : List ℕ) → contains j (discard k xs) ≡ (if k == j then false else contains j xs)
unfolding contains discard
contains-discard k j [] = ground arith
contains-discard k j (x ∷ xs) = ground (arith, contains-discard k j xs)

pub discard_inv :
    (k j : ℕ) (xs : List ℕ) → contains j (discard k xs) ≡ true → (k ≢ j) × (contains j xs ≡ true)
discard_inv k j xs e = ground (arith, contains-discard k j xs)

pub discard_other :
    (k j : ℕ) (xs : List ℕ) → k ≢ j → contains j xs ≡ true → contains j (discard k xs) ≡ true
discard_other k j xs ne e = ground (arith, contains-discard k j xs)

-- No number twice.
abbrev pub NoDup : List ℕ → Type 0
NoDup [] = Unit {0}
NoDup (x ∷ xs) = (contains x xs ≡ false) × NoDup xs

pub contains-append :
    (k : ℕ) (xs ys : List ℕ) → contains k (xs ++ ys) ≡ (contains k xs || contains k ys)
unfolding contains
contains-append k [] ys = refl
contains-append k (x ∷ xs) ys = ground (arith, contains-append k xs ys)

-- Appending a new number keeps a list free of repetition.
pub NoDup-push : (k : ℕ) (xs : List ℕ) → contains k xs ≡ false → NoDup xs → NoDup (xs ++ k ∷ [])
unfolding contains
NoDup-push k [] h d = (refl, tt)
NoDup-push k (x ∷ xs) h d = ground (arith, contains-append x xs (k ∷ []), NoDup-push k xs)

pub contains-range_from :
    (k start n : ℕ) → contains k (range_from start n) ≡ (leb start k && ltb k (start + n))
unfolding contains
contains-range_from k start zero = ground arith
contains-range_from k start (suc n) = ground (arith, contains-range_from k (start + 1) n)

pub NoDup-range_from : (start n : ℕ) → NoDup (range_from start n)
unfolding contains
NoDup-range_from start zero = tt
NoDup-range_from start (suc n) =
    (ground (arith, contains-range_from start (start + 1) n), NoDup-range_from (start + 1) n)

pub contains-head : (k : ℕ) (xs : List ℕ) → contains k (k ∷ xs) ≡ true
unfolding contains
contains-head k xs = ground arith
