-- ===== src/Interest.antt =====
-- The calls of cppweb/Channel.hpp that change the events a channel waits for. Each changes
-- `m_events` and calls `update`, which goes through `EventLoop::updateChannel`.
pub mod Masks
pub mod Returns
pub mod Exclusive
pub mod Kernel
use Prim.Native.Nat.{bit_or}
use cppweb.Base.{ℕ, Result}
use cppweb.Base.Bits.{complement32}
use cppweb.Channel.{Channel, epollin, epollpri, epollout}
use cppweb.Epoller.{Ctl, update_channel}

unfoldable pub enable_read : ℕ → Channel → Result (Channel × Ctl)
enable_read tid c =
    update_channel tid (record c { events = bit_or c.events (bit_or epollin epollpri) })

unfoldable pub enable_write : ℕ → Channel → Result (Channel × Ctl)
enable_write tid c = update_channel tid (record c { events = bit_or c.events epollout })

-- The source writes `m_events |= ~EPOLLIN`.
unfoldable pub disable_read : ℕ → Channel → Result (Channel × Ctl)
disable_read tid c =
    update_channel tid (record c { events = bit_or c.events (complement32 epollin) })

-- The source writes `m_events |= ~EPOLLOUT`.
unfoldable pub disable_write : ℕ → Channel → Result (Channel × Ctl)
disable_write tid c =
    update_channel tid (record c { events = bit_or c.events (complement32 epollout) })

unfoldable pub disable_all : ℕ → Channel → Result (Channel × Ctl)
disable_all tid c = update_channel tid (record c { events = 0 })

-- The five calls.
pub data Change : Type 0 where
  enabling_read enabling_write disabling_read disabling_write disabling_all : Change

unfoldable pub change : Change → ℕ → Channel → Result (Channel × Ctl)
change enabling_read = enable_read
change enabling_write = enable_write
change disabling_read = disable_read
change disabling_write = disable_write
change disabling_all = disable_all
