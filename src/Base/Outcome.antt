-- ===== src/Base/Outcome.antt =====
-- What holds of the value of a call where it returns.
use mathlib.Core.Path.{subst}
use cppweb.Base.{
  Returns, sym, ◌≡◌, refl, Bool, true, false, Result, ok, fault, ◌>>=◌, ◌>>◌, assert, if◌then◌else◌,
}

-- Where the call returns, its value meets `P`.
abbrev pub After : {A : Type 0} → Result A → (A → Type 0) → Type 0
After (ok a) P = P a
After (fault e) P = Unit

pub After-bind :
    {A B : Type 0} (P : B → Type 0) (m : Result A) (f : A → Result B)
    → ((a : A) → m ≡ ok a → After (f a) P)
    → After (m >>= f) P
After-bind P (ok a) f h = h a refl
After-bind P (fault e) f h = tt

pub After-assert :
    {A : Type 0} (P : A → Type 0) (b : Bool) (k : Result A)
    → (b ≡ true → After k P)
    → After (assert b >> k) P
After-assert P true k h = h refl
After-assert P false k h = tt

pub After-if :
    {A : Type 0} (b : Bool) (P : A → Type 0) (m n : Result A)
    → After m P
    → After n P
    → After (if b then m else n) P
After-if true P m n h k = h
After-if false P m n h k = k

pub After-map :
    {A : Type 0} (P Q : A → Type 0) (m : Result A) → ((a : A) → P a → Q a) → After m P → After m Q
After-map P Q (ok a) f h = f a h
After-map P Q (fault e) f h = tt

pub After-use : {A : Type 0} (P : A → Type 0) (m : Result A) (a : A) → m ≡ ok a → After m P → P a
After-use P m a e h = subst (λ r. After r P) e h

pub After_of_Returns : {A : Type 0} {m : Result A} {P : A → Type 0} → Returns m P → After m P
After_of_Returns {P = P} (a, e, h) = subst (λ r. After r P) (sym e) h
