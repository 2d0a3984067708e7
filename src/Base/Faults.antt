-- ===== src/Base/Faults.antt =====
-- What a call comes to: a value, or the way in which the C++ code fails.

use mathlib.Core.Logic.{◌⊎◌, inl, inr}
use mathlib.Core.Path.{◌≡◌, refl}
use mathlib.Core.Bool.{Bool, true, false}

-- `assertion`: an `assert` does not hold. `length_error`: `std::vector::resize` throws.
-- `out_of_bounds`: bytes outside the storage are read or written. `dangling`: an object is used
-- after its `delete`. `exited`: `exit(-1)` after a fatal log message.
pub data Fault : Type 0 where
  assertion length_error out_of_bounds dangling exited : Fault

-- The outcome of a call that would give an `A`.
pub data Result {ℓ} (A : Type ℓ) : Type ℓ where
  fault : Fault → Result A
  ok : A → Result A

infixl 5 ◌>>=◌ ◌>>◌
-- A fault ends the computation.
abbrev pub ◌>>=◌ {ℓ κ} : {A : Type ℓ} → {B : Type κ} → Result A → (A → Result B) → Result B
fault e >>= next = fault e
ok a >>= next = next a

abbrev pub ◌>>◌ {ℓ} : {A : Type ℓ} → Result (Unit {0}) → Result A → Result A
first >> second = first >>= (λ _. second)

-- `assert(b)`, and other checks that end in a fault.
abbrev pub check : Bool → Fault → Result (Unit {0})
check true e = ok tt
check false e = fault e

abbrev pub assert : Bool → Result (Unit {0})
assert b = check b assertion

-- The call returns, and its value meets `P`.
abbrev pub Returns {ℓ κ} : {A : Type ℓ} → Result A → (A → Type κ) → Type (ℓ ⊔ κ)
Returns {A} r P = (a : A) × (r ≡ ok a) × P a

pub Result-cases :
    {A : Type 0} (r : Result A) → ((a : A) × (r ≡ ok a)) ⊎ ((f : Fault) × (r ≡ fault f))
Result-cases (ok a) = inl (a, refl)
Result-cases (fault f) = inr (f, refl)
