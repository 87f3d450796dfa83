-- ===== src/Base/Outcome.antt =====
-- Results of C code. `fault` stands for every undefined step: a null or indeterminate pointer
-- that is followed, an array index out of range, an indeterminate value that is used, a signed
-- overflow, a division by zero.
use mathlib.Core.Path.{◌≡◌, refl}
use mathlib.Core.Option.{Option, none, some}
use native.Mathlib.Omega.{arith}

pub data Run {ℓ} (A : Type ℓ) : Type ℓ where
  ok : A → Run A
  fault : Run A

infixl 5 ◌>>=◌
abbrev pub ◌>>=◌ {ℓ κ} : {A : Type ℓ} {B : Type κ} → Run A → (A → Run B) → Run B
ok a >>= f = f a
fault >>= f = fault

-- `none` is an object that does not exist, or a value that was never written.
abbrev pub defined {ℓ} : {A : Type ℓ} → Option A → Run A
defined none = fault
defined (some a) = ok a

-- A run of two steps that ends has a first step that ends.
module _ {ℓ κ} {A : Type ℓ} {B : Type κ} where
  pub >>=-eq-ok :
      (m : Run A) (next : A → Run B) {last : B}
      → (m >>= next) ≡ ok last
      → (value : A) × (m ≡ ok value) × (next value ≡ ok last)
  >>=-eq-ok fault next run = ground arith
  >>=-eq-ok (ok value) next run = (value, refl, run)

pub ok-injective {ℓ} : {A : Type ℓ} {x y : A} → ok x ≡ ok y → x ≡ y
ok-injective h = ground (arith, h)

-- Three steps, grouped either way
pub >>=-assoc {ℓ κ μ} :
    {A : Type ℓ} {B : Type κ} {C : Type μ} (m : Run A) (f : A → Run B) (g : B → Run C)
    → ((m >>= f) >>= g) ≡ (m >>= (λ a. f a >>= g))
>>=-assoc fault f g = refl
>>=-assoc (ok a) f g = refl
