-- ===== src/Base/Bits.antt =====
-- Laws of `bit_and` and `bit_or` at variables, from the recursion on digits that they stand for,
-- and the complement of a 32-bit word.
use Prim.Native.Nat.{
  ℕ, zero, suc, ◌+◌, ◌-◌, ◌*◌, ◌/◌, ◌%◌, ◌^◌, ◌≤◌, min, max, bit_and, bit_or, digits,
  bit_and-bitwise, bit_or-bitwise,
}
use mathlib.Core.Path.{◌≡◌, refl}
use native.Mathlib.Omega.{arith}

-- What holds of 0, and of a positive number where it holds of its half, holds of every number.
module _ (P : ℕ → Type 0) (base : P 0) (double : (n : ℕ) → P (suc n / 2) → P (suc n)) where
  halving_below : (bound n : ℕ) → n ≤ bound → P n
  halving_below bound zero h = base
  halving_below zero (suc n) h = absurd (omega arith)
  halving_below (suc bound) (suc n) h = double n (halving_below bound (suc n / 2) (omega arith))

  halving : (n : ℕ) → P n
  halving n = halving_below n n (omega arith)

-- An operation `op` on binary digits, given by `f` on each pair of them.
module _ (z : ℕ → ℕ) (f op : ℕ → ℕ → ℕ) (law : (x y : ℕ) → op x y ≡ digits z f x x y)
    (ends : (y : ℕ) → z y ≡ z (y / 2) * 2 + f 0 (y % 2)) where
  -- Counts of digits that are large enough give the same.
  count_free : (k l x y : ℕ) → x ≤ k → x ≤ l → digits z f k x y ≡ digits z f l x y
  count_free zero zero zero y _ _ = refl
  count_free zero (suc l) zero y _ _ = refl
  count_free (suc k) zero zero y _ _ = refl
  count_free (suc k) (suc l) zero y _ _ = refl
  count_free zero l (suc x) y fits _ = absurd (omega arith)
  count_free k zero (suc x) y _ fits = absurd (omega arith)
  count_free (suc k) (suc l) (suc x) y fits fits' =
      omega (arith, count_free k l (suc x / 2) (y / 2) (omega arith) (omega arith))

  digit_step : (x y : ℕ) → op x y ≡ op (x / 2) (y / 2) * 2 + f (x % 2) (y % 2)
  digit_step zero y = omega (arith, law 0 y, law 0 (y / 2), ends y)
  digit_step (suc x) y =
      let half = suc x / 2 in
      let same = count_free x half half (y / 2) (omega arith) (omega arith) in
      omega (arith, law (suc x) y, law half (y / 2), same)

pub bit_and_step : (a b : ℕ) → bit_and a b ≡ bit_and (a / 2) (b / 2) * 2 + min (a % 2) (b % 2)
bit_and_step = digit_step (λ _. zero) min bit_and bit_and-bitwise (λ y. omega arith)

pub bit_or_step : (a b : ℕ) → bit_or a b ≡ bit_or (a / 2) (b / 2) * 2 + max (a % 2) (b % 2)
bit_or_step = digit_step (λ y. y) max bit_or bit_or-bitwise (λ y. omega arith)

pub zero-bit_or : (b : ℕ) → bit_or 0 b ≡ b
zero-bit_or b = bit_or-bitwise 0 b

pub bit_and-zero : (a : ℕ) → bit_and a 0 ≡ 0
bit_and-zero =
    halving (λ a. bit_and a 0 ≡ 0) refl (λ n half. omega (arith, bit_and_step (suc n) 0, half))

pub bit_or-zero : (a : ℕ) → bit_or a 0 ≡ a
bit_or-zero =
    halving (λ a. bit_or a 0 ≡ a) refl (λ n half. omega (arith, bit_or_step (suc n) 0, half))

-- `~m` on an `unsigned` of 32 bits.
abbrev pub complement32 : ℕ → ℕ
complement32 m = 2 ^ 32 - 1 - m % 2 ^ 32

pub bit_and-one : (a : ℕ) → bit_and a 1 ≡ a % 2
bit_and-one a = omega (arith, bit_and_step a 1, bit_and-zero (a / 2))

pub bit_and_two : (a : ℕ) → bit_and a 2 ≡ 2 * (a / 2 % 2)
bit_and_two a = omega (arith, bit_and_step a 2, bit_and-one (a / 2))

pub bit_and_four : (a : ℕ) → bit_and a 4 ≡ 4 * (a / 4 % 2)
bit_and_four a = omega (arith, bit_and_step a 4, bit_and_two (a / 2))
