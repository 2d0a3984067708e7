-- ===== src/Channel/Flags.antt =====
-- The tests on the flags that a channel waits for, and what setting a mask does to them.
use Prim.Native.Nat.{bit_or, max}
use cppweb.Base.{ℕ, ◌/◌, ◌%◌, ◌≡◌, ◌==◌, arith}
use cppweb.Base.Bits.{bit_or_step, bit_and-one, bit_and_four}
use cppweb.Channel.{has_any, epollin, epollout}

-- Only the three lowest digits matter for the flags that the program sets.
pub reading-eq : (flags : ℕ) → has_any flags epollin ≡ (flags % 2 == 1)
unfolding has_any
reading-eq flags = ground (arith, bit_and-one flags)

pub writing-eq : (flags : ℕ) → has_any flags epollout ≡ (flags / 4 % 2 == 1)
unfolding has_any
writing-eq flags = ground (arith, bit_and_four flags)

-- The three lowest digits of `flags | mask`.
pub low-bit_or : (flags mask : ℕ) → bit_or flags mask % 2 ≡ max (flags % 2) (mask % 2)
low-bit_or flags mask = omega (arith, bit_or_step flags mask)

pub third-bit_or : (flags mask : ℕ) → bit_or flags mask / 4 % 2 ≡ max (flags / 4 % 2) (mask / 4 % 2)
third-bit_or flags mask = omega (
  arith,
  bit_or_step flags mask,
  bit_or_step (flags / 2) (mask / 2),
  bit_or_step (flags / 2 / 2) (mask / 2 / 2),
)
