-- ===== src/Channel.antt =====
-- cppweb/Channel.hpp and cppweb/Channel.cpp: a descriptor with the events that it waits for and
-- those that came. The calls that change `m_events` stand in Interest.antt, since they go through
-- `Epoller::updateChannel`.
pub mod Flags
pub mod Dispatch
use Prim.Native.Nat.{bit_and, bit_or}
use cppweb.Base.{
  ℕ, Bool, true, false, not, ◌&&◌, List, [], ◌∷◌, ◌++◌, ◌==◌, if◌then◌else◌, Result, ok, ◌>>◌,
  assert,
}

-- The flags of <sys/epoll.h>.
abbrev pub epollin : ℕ
epollin = 0x001

abbrev pub epollpri : ℕ
epollpri = 0x002

abbrev pub epollout : ℕ
epollout = 0x004

abbrev pub epollerr : ℕ
epollerr = 0x008

abbrev pub epollhup : ℕ
epollhup = 0x010

abbrev pub epollrdhup : ℕ
epollrdhup = 0x2000

pub data Callback : Type 0 where
  on_read on_write on_close on_error : Callback

-- `loop_tid` is the thread of `m_loop`, and `has` tells which of the four callbacks are set.
pub record Channel : Type 0 where
  pub loop_tid : ℕ
  pub fd : ℕ
  pub events : ℕ
  pub revents : ℕ
  pub tied : Bool
  pub polling : Bool
  pub has : Callback → Bool

unfoldable pub make : ℕ → ℕ → Channel
make tid fd = record {
  loop_tid = tid;
  fd = fd;
  events = 0;
  revents = 0;
  tied = false;
  polling = false;
  has = λ _. false;
}

abbrev pub callback_index : Callback → ℕ
callback_index on_read = 0
callback_index on_write = 1
callback_index on_close = 2
callback_index on_error = 3

-- `setReadCallback`, `setWriteCallback`, `setCloseCallback` and `setErrorCallback`, with a callback
-- that is not empty
unfoldable pub set_callback : Callback → Channel → Channel
set_callback k c = record c {
  has = λ j. if callback_index j == callback_index k then true else c.has j;
}

-- `flags & mask`, as a test
unfoldable pub has_any : ℕ → ℕ → Bool
has_any flags mask = not (bit_and flags mask == 0)

unfoldable pub is_reading : Channel → Bool
is_reading c = has_any c.events epollin

unfoldable pub is_writing : Channel → Bool
is_writing c = has_any c.events epollout

unfoldable pub is_none_events : Channel → Bool
is_none_events c = c.events == 0

unfoldable pub set_revents : Channel → ℕ → Channel
set_revents c events = record c { revents = events }

unfoldable pub tie : Channel → Channel
tie c = record c { tied = true }

-- A callback that is not set is passed over.
call : Channel → Bool → Callback → List Callback
call c wanted k = if wanted && c.has k then k ∷ [] else []

-- The callbacks that `handleEventsWithGuard` runs, in order.
unfoldable pub handle_events_with_guard : Channel → List Callback
unfolding call
handle_events_with_guard c =
    call c (has_any c.revents epollhup && not (has_any c.revents epollin)) on_close
    ++ (call c (has_any c.revents epollerr) on_error
        ++ (call c (has_any c.revents (bit_or epollin (bit_or epollpri epollrdhup))) on_read
            ++ call c (has_any c.revents epollout) on_write))

-- `handleEvents`, run by the thread `tid`; `alive` tells whether the tied object still exists.
unfoldable pub handle_events : ℕ → Bool → Channel → Result (List Callback)
handle_events tid alive c =
    assert (c.loop_tid == tid)
    >> ok (
        if c.tied
        then (if alive then handle_events_with_guard c else [])
        else handle_events_with_guard c)
