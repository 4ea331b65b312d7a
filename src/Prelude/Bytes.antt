-- ===== src/Prelude/Bytes.antt =====
-- Byte buffers as lists of numbers, and numbers written in bytes, lowest first.
use Prim.Native.Nat.{ℕ, zero, suc, ◌+◌, ◌*◌, ◌/◌, ◌%◌, ◌^◌, ◌<◌}
use mathlib.Core.Path.{◌≡◌, refl, ap}
use mathlib.Core.Bool.{Bool, true, false, ◌&&◌}
use mathlib.Core.List.{List, [], ◌∷◌}
use native.Mathlib.Nat.{pow-suc}
use native.Mathlib.Omega.{arith}
use ubiblk.Prelude.Tests.{◌==◌}
use ubiblk.Prelude.Lists.{length, All}

-- The first `n` bytes of a number, lowest first: `to_le_bytes`.
abbrev pub to_le_bytes : ℕ → ℕ → List ℕ
to_le_bytes zero v = []
to_le_bytes (suc n) v = (v % 256) ∷ to_le_bytes n (v / 256)

abbrev pub from_le_bytes : List ℕ → ℕ
from_le_bytes [] = 0
from_le_bytes (b ∷ bs) = b + 256 * from_le_bytes bs

pub length-to_le_bytes : (n v : ℕ) → length (to_le_bytes n v) ≡ n
length-to_le_bytes zero v = refl
length-to_le_bytes (suc n) v = ap suc (length-to_le_bytes n (v / 256))

pub from_le_bytes-to_le_bytes : (n v : ℕ) → v < 256 ^ n → from_le_bytes (to_le_bytes n v) ≡ v
from_le_bytes-to_le_bytes zero v h = ground arith
from_le_bytes-to_le_bytes (suc n) v h =
    omega (arith, from_le_bytes-to_le_bytes n (v / 256) (omega (arith, pow-suc 256 n)))

-- Equality of byte strings, as `==` on slices.
unfoldable pub beq_bytes : List ℕ → List ℕ → Bool
beq_bytes [] [] = true
beq_bytes [] (y ∷ ys) = false
beq_bytes (x ∷ xs) [] = false
beq_bytes (x ∷ xs) (y ∷ ys) = (x == y) && beq_bytes xs ys

pub beq_bytes_refl : (xs : List ℕ) → beq_bytes xs xs ≡ true
unfolding beq_bytes
beq_bytes_refl [] = refl
beq_bytes_refl (x ∷ xs) = ground (arith, beq_bytes_refl xs)

pub beq_bytes_eq : (xs ys : List ℕ) → beq_bytes xs ys ≡ true → xs ≡ ys
unfolding beq_bytes
beq_bytes_eq [] [] h = refl
beq_bytes_eq [] (y ∷ ys) h = cc
beq_bytes_eq (x ∷ xs) [] h = cc
beq_bytes_eq (x ∷ xs) (y ∷ ys) h = ground (arith, beq_bytes_eq xs ys)

abbrev pub IsByte : ℕ → Type 0
IsByte b = b < 256

pub from_le_bytes-lt : (xs : List ℕ) → All IsByte xs → from_le_bytes xs < 256 ^ length xs
from_le_bytes-lt [] h = omega arith
from_le_bytes-lt (x ∷ xs) h = omega (arith, h, from_le_bytes-lt xs h.1, pow-suc 256 (length xs))
