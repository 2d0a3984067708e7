-- ===== src/Interest/Masks.antt =====
-- What the calls do to the tests `isReading`, `isWriting` and `isNoneEvents`, and when they fail.

use cppweb.Base.{
  Bool-cases, inl, inr, ℕ, ◌≡◌, ◌⊎◌, true, false, not, arith, ok, fault, assertion, Returns,
}
use cppweb.Base.Bits.{complement32}
use cppweb.Channel.{Channel, is_reading, is_writing, is_none_events, epollin, epollout}
use cppweb.Channel.Flags.{reading-eq, writing-eq, low-bit_or, third-bit_or}
use cppweb.Epoller.{add, modify, delete, Ctl, ctl_of, update_channel}
use cppweb.Interest.{enable_read, enable_write, disable_read, disable_write, disable_all}

-- `updateChannel` keeps the flags and the other fields, and marks the channel as polled exactly
-- where it waits for something.
pub record Updated (c c' : Channel) : Type 0 where
  pub events : c'.events ≡ c.events
  pub fd : c'.fd ≡ c.fd
  pub loop_tid : c'.loop_tid ≡ c.loop_tid
  pub polling : c'.polling ≡ not (is_none_events c)

pub update_channel-Updated :
    (tid : ℕ) (c : Channel) {c' : Channel} {k : Ctl}
    → update_channel tid c ≡ ok (c', k)
    → Updated c c'
unfolding update_channel
update_channel-Updated tid c e = ground arith

-- In the thread of its loop, a channel that is polled or waits for something can be updated.
pub update_channel-Returns :
    (c : Channel)
    → (c.polling ≡ true) ⊎ (is_none_events c ≡ false)
    → Returns (update_channel c.loop_tid c) (λ p. Updated c p.0)
unfolding update_channel
update_channel-Returns c h = elim (Bool-cases c.polling) [
  | inr fresh ↦ (
    (record c { polling = true }, ctl_of add (record c { polling = true })),
    ground arith,
    ground arith,
  )
  | inl watched ↦ elim (Bool-cases (is_none_events c)) [
    | inl empty ↦ (
      (record c { polling = false }, ctl_of delete (record c { polling = false })),
      ground arith,
      ground arith,
    )
    | inr some_left ↦ ((c, ctl_of modify c), ground arith, ground arith)
  ]
]

-- A channel that is not polled and waits for nothing fails the assertion of `updateChannel`.
pub update_channel_fault :
    (tid : ℕ) (c : Channel)
    → c.polling ≡ false
    → is_none_events c ≡ true
    → update_channel tid c ≡ fault assertion
unfolding update_channel
update_channel_fault tid c p n = ground arith

-- `enableRead` sets the test on reading and keeps the one on writing.
pub enable_read-reading :
    (tid : ℕ) (c : Channel) {c' : Channel} {k : Ctl}
    → enable_read tid c ≡ ok (c', k)
    → (is_reading c' ≡ true) × (is_writing c' ≡ is_writing c)
unfolding enable_read is_reading is_writing is_none_events
enable_read-reading tid c {c'} e =
    let u = update_channel-Updated tid _ e in
    ground (
      arith,
      u,
      reading-eq c'.events,
      writing-eq c'.events,
      reading-eq c.events,
      writing-eq c.events,
      low-bit_or c.events 3,
      third-bit_or c.events 3,
    )

-- `enableWrite` sets the test on writing and keeps the one on reading.
pub enable_write-writing :
    (tid : ℕ) (c : Channel) {c' : Channel} {k : Ctl}
    → enable_write tid c ≡ ok (c', k)
    → (is_writing c' ≡ true) × (is_reading c' ≡ is_reading c)
unfolding enable_write is_reading is_writing is_none_events
enable_write-writing tid c {c'} e =
    let u = update_channel-Updated tid _ e in
    ground (
      arith,
      u,
      reading-eq c'.events,
      writing-eq c'.events,
      reading-eq c.events,
      writing-eq c.events,
      low-bit_or c.events 4,
      third-bit_or c.events 4,
    )

-- `disableRead` keeps the test on reading as it is, and sets the one on writing.
pub disable_read-keeps_reading :
    (tid : ℕ) (c : Channel) {c' : Channel} {k : Ctl}
    → disable_read tid c ≡ ok (c', k)
    → (is_reading c' ≡ is_reading c) × (is_writing c' ≡ true)
unfolding disable_read is_reading is_writing is_none_events
disable_read-keeps_reading tid c {c'} e =
    let u = update_channel-Updated tid _ e in
    ground (
      arith,
      u,
      reading-eq c'.events,
      writing-eq c'.events,
      reading-eq c.events,
      writing-eq c.events,
      low-bit_or c.events (complement32 epollin),
      third-bit_or c.events (complement32 epollin),
    )

-- Where `disableWrite` returns, the channel waits to write exactly if it did before, and it waits
-- to read.
pub disable_write-keeps_writing :
    (tid : ℕ) (c : Channel) {c' : Channel} {k : Ctl}
    → disable_write tid c ≡ ok (c', k)
    → (is_writing c' ≡ is_writing c) × (is_reading c' ≡ true)
unfolding disable_write is_reading is_writing is_none_events
disable_write-keeps_writing tid c {c'} e =
    let u = update_channel-Updated tid _ e in
    ground (
      arith,
      u,
      reading-eq c'.events,
      writing-eq c'.events,
      reading-eq c.events,
      writing-eq c.events,
      low-bit_or c.events (complement32 epollout),
      third-bit_or c.events (complement32 epollout),
    )

-- `disableAll` clears both tests.
pub disable_all-clears :
    (tid : ℕ) (c : Channel) {c' : Channel} {k : Ctl}
    → disable_all tid c ≡ ok (c', k)
    → (is_writing c' ≡ false) × (is_reading c' ≡ false) × (is_none_events c' ≡ true)
unfolding disable_all is_reading is_writing is_none_events
disable_all-clears tid c {c'} e =
    let u = update_channel-Updated tid _ e in
    ground (
      arith,
      u,
      reading-eq c'.events,
      writing-eq c'.events,
      reading-eq c.events,
      writing-eq c.events,
      low-bit_or c.events 0,
      third-bit_or c.events 0,
    )
