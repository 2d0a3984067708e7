-- ===== src/Interest/Exclusive.antt =====
-- The flag EPOLLEXCLUSIVE of epoll_ctl(2), which `m_events |= ~EPOLLIN` and `m_events |= ~EPOLLOUT` set.
use Prim.Native.Nat.{bit_or, max}
use cppweb.Base.{ℕ, zero, suc, ◌≤◌, ◌/◌, ◌%◌, ◌≡◌, ◌∙◌, ap, arith, refl, false, ◌==◌, ==_of_ne, sym}
use cppweb.Base.Bits.{bit_or_step, complement32}
use cppweb.Channel.{epollin, epollout}
use cppweb.Channel.Flags.{low-bit_or}

-- The binary digit `n` of a number.
unfoldable pub digit : ℕ → ℕ → ℕ
digit zero x = x % 2
digit (suc n) x = digit n (x / 2)

digit-bit_or : (n a b : ℕ) → digit n (bit_or a b) ≡ max (digit n a) (digit n b)
unfolding digit
digit-bit_or zero a b = low-bit_or a b
digit-bit_or (suc n) a b =
    let halved : bit_or a b / 2 ≡ bit_or (a / 2) (b / 2) = omega (arith, bit_or_step a b) in
    ap (digit n) halved ∙ digit-bit_or n (a / 2) (b / 2)

-- EPOLLEXCLUSIVE is `1u << 28`, and EPOLLPRI `1u << 1`.
abbrev pub IsPlain : ℕ → Type 0
IsPlain events = digit 28 events ≡ 0

-- The flag stands with one that epoll_ctl(2) does not name among those that may stand with it.
abbrev pub IsExclusive : ℕ → Type 0
IsExclusive events = (digit 28 events ≡ 1) × (digit 1 events ≡ 1)

pub or-IsPlain : (a b : ℕ) → IsPlain a → IsPlain b → IsPlain (bit_or a b)
or-IsPlain a b h k = omega (arith, digit-bit_or 28 a b, h, k)

digit-at_most : (n x : ℕ) → digit n x ≤ 1
unfolding digit
digit-at_most zero x = omega arith
digit-at_most (suc n) x = digit-at_most n (x / 2)

pub or-IsExclusive : (a b : ℕ) → IsExclusive b → IsExclusive (bit_or a b)
or-IsExclusive a b (high, low) = (
  omega (arith, digit-bit_or 28 a b, high, digit-at_most 28 a),
  omega (arith, digit-bit_or 1 a b, low, digit-at_most 1 a),
)

-- The masks that the calls of Channel set.
pub enabling-IsPlain : IsPlain 3 × IsPlain 4 × IsPlain 0
unfolding digit
enabling-IsPlain = (refl, refl, refl)

pub stopping-IsExclusive : IsExclusive (complement32 epollin) × IsExclusive (complement32 epollout)
unfolding digit
stopping-IsExclusive = ((refl, refl), (refl, refl))

pub exclusive-some : (events : ℕ) → IsExclusive events → (events == 0) ≡ false
unfolding digit
exclusive-some events (high, low) =
    ==_of_ne events 0 (λ none_left. absurd (apart (sym (ap (digit 1) none_left) ∙ low)))
  where
    apart : ◌≡◌ {A = ℕ} 0 1 → ⊥
    apart e = cc
