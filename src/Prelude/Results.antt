-- ===== src/Prelude/Results.antt =====
-- Fallible code: `Err(e)` is a value, and so is a panic (an index out of range, a failed `assert!`).
use mathlib.Core.Path.{◌≡◌, refl, ap}
use mathlib.Core.Logic.{◌≢◌, ◌⊎◌, inl, inr}
use mathlib.Core.Bool.{Bool, true, false}
use mathlib.Core.Option.{Option, none, some}
use ubiblk.Error.{UbiblkError}

pub data Result {ℓ} (A : Type ℓ) : Type ℓ where
  ok : A → Result A
  err : UbiblkError → Result A
  panic : Result A

infixl 5 ◌>>=◌ ◌>>◌
abbrev pub ◌>>=◌ {ℓ κ} : {A : Type ℓ} {B : Type κ} (m : Result A) (next : A → Result B) → Result B
panic >>= next = panic
err e >>= next = err e
ok value >>= next = next value

abbrev pub ◌>>◌ {ℓ} : {B : Type ℓ} (check : Result (Unit {0})) (rest : Result B) → Result B
check >> rest = check >>= λ _. rest

-- `if bad { return Err(e) }`.
abbrev pub fail_if : Bool → UbiblkError → Result (Unit {0})
fail_if true e = err e
fail_if false e = ok tt

-- `assert!(good)`.
abbrev pub assert : Bool → Result (Unit {0})
assert true = ok tt
assert false = panic

-- `xs[i]`, `opt.unwrap()`.
abbrev pub unwrap {ℓ} : {A : Type ℓ} → Option A → Result A
unwrap (some a) = ok a
unwrap none = panic

-- What a run that ends well went through.
pub >>=-eq-ok {ℓ κ} :
    {A : Type ℓ} {B : Type κ} (m : Result A) (next : A → Result B) {end : B}
    → (m >>= next) ≡ ok end
    → (value : A) × (m ≡ ok value) × (next value ≡ ok end)
>>=-eq-ok panic next e = cc
>>=-eq-ok (err x) next e = cc
>>=-eq-ok (ok value) next e = (value, refl, e)

-- A check that passes drops out.
pub assert_ok {ℓ} : {A : Type ℓ} (b : Bool) (k : Result A) → b ≡ true → (assert b >>= λ _. k) ≡ k
assert_ok true k e = refl
assert_ok false k e = cc

pub fail_if_ok {ℓ} :
    {A : Type ℓ} (b : Bool) (x : UbiblkError) (k : Result A)
    → b ≡ false
    → (fail_if b x >>= λ _. k) ≡ k
fail_if_ok false x k e = refl
fail_if_ok true x k e = cc

pub fail_if_err {ℓ} :
    {A : Type ℓ} (b : Bool) (x : UbiblkError) (k : Result A)
    → b ≡ true
    → (fail_if b x >>= λ _. k) ≡ err x
fail_if_err true x k e = refl
fail_if_err false x k e = cc

pub >>=_ok {ℓ κ} :
    {A : Type ℓ} {B : Type κ} (r : Result A) (k : A → Result B) (a : A) → r ≡ ok a → (r >>= k) ≡ k a
>>=_ok r k a e = ap (λ t. t >>= k) e

pub unwrap_ok {ℓ κ} :
    {A : Type ℓ} {B : Type κ} (o : Option A) (k : A → Result B) (a : A)
    → o ≡ some a
    → (unwrap o >>= k) ≡ k a
unwrap_ok o k a e = ap (λ t. unwrap t >>= k) e

-- What a check that a successful run went through has found.
pub fail_if_inv {ℓ} :
    {A : Type ℓ} (b : Bool) (x : UbiblkError) (k : Result A) {a : A}
    → (fail_if b x >>= λ _. k) ≡ ok a
    → (b ≡ false) × (k ≡ ok a)
fail_if_inv false x k e = (refl, e)
fail_if_inv true x k e = cc

pub assert_inv {ℓ} :
    {A : Type ℓ} (b : Bool) (k : Result A) {a : A}
    → (assert b >>= λ _. k) ≡ ok a
    → (b ≡ true) × (k ≡ ok a)
assert_inv true k e = (refl, e)
assert_inv false k e = cc

-- A check adds no panic.
pub fail_if-ne-panic {ℓ} :
    {A : Type ℓ} (b : Bool) (x : UbiblkError) (k : Result A)
    → (b ≡ false → k ≢ panic)
    → (fail_if b x >>= λ _. k) ≢ panic
fail_if-ne-panic false x k h = h refl
fail_if-ne-panic true x k h = λ e. cc

-- Nor does an assertion that holds.
pub assert-ne-panic {ℓ} :
    {A : Type ℓ} (b : Bool) (k : Result A) → b ≡ true → k ≢ panic → (assert b >>= λ _. k) ≢ panic
assert-ne-panic true k e h = h
assert-ne-panic false k e h = cc

pub ok_eq {ℓ} : {A : Type ℓ} {x y : A} → ok x ≡ ok y → x ≡ y
ok_eq e = cc

pub unwrap_inv {ℓ} : {A : Type ℓ} (o : Option A) (a : A) → unwrap o ≡ ok a → o ≡ some a
unwrap_inv (some x) a e = cc
unwrap_inv none a e = cc

pub >>=-ne-panic {ℓ κ} :
    {A : Type ℓ} {B : Type κ} (m : Result A) (next : A → Result B)
    → m ≢ panic
    → ((value : A) → next value ≢ panic)
    → (m >>= next) ≢ panic
>>=-ne-panic (ok value) next h k = k value
>>=-ne-panic (err x) next h k = λ e. cc
>>=-ne-panic panic next h k = absurd (h refl)

pub Result-cases {ℓ} :
    {A : Type ℓ} (r : Result A)
    → ((a : A) × (r ≡ ok a)) ⊎ ((x : UbiblkError) × (r ≡ err x)) ⊎ (r ≡ panic)
Result-cases (ok a) = inl (a, refl)
Result-cases (err x) = inr (inl (x, refl))
Result-cases panic = inr (inr refl)
