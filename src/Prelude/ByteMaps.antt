-- ===== src/Prelude/ByteMaps.antt =====
-- `HashMap<String, V>` as an association list, keyed by the bytes of the string. A key stands in it
-- once, so `remove` and `insert` look for the first entry.
use Prim.Native.Nat.{ℕ, ◌+◌}
use mathlib.Core.Path.{◌≡◌, refl, ap}
use mathlib.Core.Logic.{inl, inr}
use mathlib.Core.Option.{Option, none, some}
use mathlib.Core.List.{List, [], ◌∷◌}
use native.Mathlib.Omega.{arith}
use ubiblk.Prelude.Tests.{if◌then◌else◌, Bool-cases}
use ubiblk.Prelude.Bytes.{beq_bytes, beq_bytes_refl}

module _ {ℓ} {V : Type ℓ} where
  unfoldable pub lookup : List ℕ → List (List ℕ × V) → Option V
  lookup k [] = none
  lookup k (entry ∷ m) = if beq_bytes entry.0 k then some entry.1 else lookup k m

  unfoldable pub remove : List ℕ → List (List ℕ × V) → List (List ℕ × V)
  remove k [] = []
  remove k (entry ∷ m) =
      let others = remove k m in if beq_bytes entry.0 k then m else entry ∷ others

  unfoldable pub insert : List ℕ → V → List (List ℕ × V) → List (List ℕ × V)
  insert k new [] = (k, new) ∷ []
  insert k new (entry ∷ m) =
      let others = insert k new m in if beq_bytes entry.0 k then (k, new) ∷ m else entry ∷ others

  pub lookup-insert_self :
      (k : List ℕ) (new : V) (m : List (List ℕ × V)) → lookup k (insert k new m) ≡ some new
  unfolding lookup insert
  lookup-insert_self k new [] = rw (beq_bytes_refl k) refl
  lookup-insert_self k new (entry ∷ m) = elim (Bool-cases (beq_bytes entry.0 k)) [
    | inl same ↦ rw same (rw (beq_bytes_refl k) refl)
    | inr apart ↦ rw apart (rw apart (lookup-insert_self k new m))
  ]

  pub remove_absent : (k : List ℕ) (m : List (List ℕ × V)) → lookup k m ≡ none → remove k m ≡ m
  unfolding lookup remove
  remove_absent k [] e = refl
  remove_absent k (entry ∷ m) e = elim (Bool-cases (beq_bytes entry.0 k)) [
    | inl same ↦ absurd (ground arith)
    | inr apart ↦
        rw apart (ap (λ (t : List (List ℕ × V)). entry ∷ t) (remove_absent k m (ground arith)))
  ]

  -- The sum of a measure over the entries.
  pub total : (V → ℕ) → List (List ℕ × V) → ℕ
  total size [] = 0
  total size (entry ∷ m) = size entry.1 + total size m

  abbrev size_at : (V → ℕ) → Option V → ℕ
  size_at size none = 0
  size_at size (some v) = size v

  pub total-remove :
      (size : V → ℕ) (k : List ℕ) (m : List (List ℕ × V))
      → total size (remove k m) + size_at size (lookup k m) ≡ total size m
  unfolding total remove lookup
  total-remove size k [] = omega arith
  total-remove size k (entry ∷ m) = elim (Bool-cases (beq_bytes entry.0 k)) [
    | inl same ↦ rw same (omega arith)
    | inr apart ↦ rw apart (omega (arith, total-remove size k m))
  ]

  pub total-insert :
      (size : V → ℕ) (k : List ℕ) (new : V) (m : List (List ℕ × V))
      → total size (insert k new m) + size_at size (lookup k m) ≡ total size m + size new
  unfolding total insert lookup
  total-insert size k new [] = omega arith
  total-insert size k new (entry ∷ m) = elim (Bool-cases (beq_bytes entry.0 k)) [
    | inl same ↦ rw same (omega arith)
    | inr apart ↦ rw apart (omega (arith, total-insert size k new m))
  ]
