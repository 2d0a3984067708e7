-- ===== src/Interest/Returns.antt =====
-- The calls that change the events return, and what they leave behind.
use Prim.Native.Nat.{bit_or}
use cppweb.Base.{
  ap, ◌∙◌, ◌==◌, ◌/◌, ◌%◌, ==_of_ne, inl, inr, ℕ, ◌≡◌, true, false, not, arith, ok, Returns, Bool,
}
use cppweb.Base.Bits.{complement32}
use cppweb.Channel.{Channel, is_reading, is_writing, is_none_events, epollin, epollout}
use cppweb.Channel.Flags.{low-bit_or, third-bit_or}
use cppweb.Epoller.{Ctl}
use cppweb.Interest.{
  enabling_read, enabling_write, disabling_read, disabling_write, disabling_all, Change, change,
  enable_read, enable_write, disable_read, disable_write, disable_all,
}
use cppweb.Interest.Masks.{
  update_channel-Returns, enable_read-reading, enable_write-writing, disable_write-keeps_writing,
  disable_read-keeps_reading, disable_all-clears,
}

-- A call may clear all events only of a channel that is polled.
abbrev pub Allowed : Change → Channel → Type 0
Allowed enabling_read c = Unit {0}
Allowed enabling_write c = Unit {0}
Allowed disabling_read c = Unit {0}
Allowed disabling_write c = Unit {0}
Allowed disabling_all c = c.polling ≡ true

some_low : (flags mask : ℕ) → mask % 2 ≡ 1 → (bit_or flags mask == 0) ≡ false
some_low flags mask h = ==_of_ne (bit_or flags mask) 0 (omega (arith, low-bit_or flags mask))

some_third : (flags mask : ℕ) → mask / 4 % 2 ≡ 1 → (bit_or flags mask == 0) ≡ false
some_third flags mask h = ==_of_ne (bit_or flags mask) 0 (omega (arith, third-bit_or flags mask))

-- In the thread of the loop each allowed call returns.
pub change-Returns :
    (kind : Change) (c : Channel)
    → Allowed kind c
    → (p : Channel × Ctl) × (change kind c.loop_tid c ≡ ok p)
unfolding change enable_read enable_write disable_read disable_write disable_all is_none_events
change-Returns enabling_read c h =
    let (p, e, u) = update_channel-Returns _ (inr (some_low c.events 3 (omega arith))) in (p, e)
change-Returns enabling_write c h =
    let (p, e, u) = update_channel-Returns _ (inr (some_third c.events 4 (omega arith))) in (p, e)
change-Returns disabling_read c h =
    let (p, e, u) =
      update_channel-Returns _ (inr (some_third c.events (complement32 epollin) (omega arith))) in
    (p, e)
change-Returns disabling_write c h =
    let (p, e, u) =
      update_channel-Returns _ (inr (some_low c.events (complement32 epollout) (omega arith))) in
    (p, e)
change-Returns disabling_all c h = let (p, e, u) = update_channel-Returns _ (inl h) in (p, e)

-- What a call leaves behind when it returns: the two tests, and the fields that it keeps.
pub record Flags (reading writing : Bool) (c c' : Channel) : Type 0 where
  pub reads : is_reading c' ≡ reading
  pub writes : is_writing c' ≡ writing
  pub polled : c'.polling ≡ true
  pub loop_tid : c'.loop_tid ≡ c.loop_tid
  pub fd : c'.fd ≡ c.fd

pub enable_read-Returns :
    (c : Channel) → Returns (enable_read c.loop_tid c) (λ p. Flags true (is_writing c) c p.0)
unfolding enable_read is_none_events
enable_read-Returns c =
    let (p, e, u) =
      update_channel-Returns (record c { events = bit_or c.events 3 })
        (inr (some_low c.events 3 (omega arith))) in
    let f = enable_read-reading c.loop_tid c e in
    (
      p,
      e,
      record {
        reads = f.0;
        writes = f.1;
        polled = u.polling ∙ ap not (some_low c.events 3 (omega arith));
        loop_tid = u.loop_tid;
        fd = u.fd;
      },
    )

pub enable_write-Returns :
    (c : Channel) → Returns (enable_write c.loop_tid c) (λ p. Flags (is_reading c) true c p.0)
unfolding enable_write is_none_events
enable_write-Returns c =
    let (p, e, u) =
      update_channel-Returns (record c { events = bit_or c.events 4 })
        (inr (some_third c.events 4 (omega arith))) in
    let f = enable_write-writing c.loop_tid c e in
    (
      p,
      e,
      record {
        reads = f.1;
        writes = f.0;
        polled = u.polling ∙ ap not (some_third c.events 4 (omega arith));
        loop_tid = u.loop_tid;
        fd = u.fd;
      },
    )

-- The two calls that mean to stop an event set the other one, and stop nothing.
pub disable_write-Returns :
    (c : Channel) → Returns (disable_write c.loop_tid c) (λ p. Flags true (is_writing c) c p.0)
unfolding disable_write is_none_events
disable_write-Returns c =
    let mask = complement32 epollout in
    let (p, e, u) =
      update_channel-Returns (record c { events = bit_or c.events mask })
        (inr (some_low c.events mask (omega arith))) in
    let f = disable_write-keeps_writing c.loop_tid c e in
    (
      p,
      e,
      record {
        reads = f.1;
        writes = f.0;
        polled = u.polling ∙ ap not (some_low c.events mask (omega arith));
        loop_tid = u.loop_tid;
        fd = u.fd;
      },
    )

pub disable_read-Returns :
    (c : Channel) → Returns (disable_read c.loop_tid c) (λ p. Flags (is_reading c) true c p.0)
unfolding disable_read is_none_events
disable_read-Returns c =
    let mask = complement32 epollin in
    let (p, e, u) =
      update_channel-Returns (record c { events = bit_or c.events mask })
        (inr (some_third c.events mask (omega arith))) in
    let f = disable_read-keeps_reading c.loop_tid c e in
    (
      p,
      e,
      record {
        reads = f.0;
        writes = f.1;
        polled = u.polling ∙ ap not (some_third c.events mask (omega arith));
        loop_tid = u.loop_tid;
        fd = u.fd;
      },
    )

-- `disableAll` succeeds for a channel that is polled, and ends the polling.
pub disable_all-Returns :
    (c : Channel)
    → c.polling ≡ true
    → Returns (disable_all c.loop_tid c) (λ p.
      (is_reading p.0 ≡ false)
      × (is_writing p.0 ≡ false)
      × (p.0.polling ≡ false)
      × (p.0.loop_tid ≡ c.loop_tid))
unfolding disable_all is_none_events
disable_all-Returns c h =
    let (p, e, u) = update_channel-Returns (record c { events = 0 }) (inl h) in
    let f = disable_all-clears c.loop_tid c e in (p, e, (f.1, f.0, u.polling, u.loop_tid))
