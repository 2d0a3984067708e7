-- ===== src/Epoller.antt =====
-- cppweb/Epoller.hpp and cppweb/Epoller.cpp: what the loop asks of epoll, and how the events that
-- come reach the channels.
pub mod Delivery
use cppweb.Base.{
  ℕ, ◌*◌, true, false, not, List, [], ◌∷◌, ◌++◌, length, ◌==◌, if◌then◌else◌, Result, ok, ◌>>◌,
  assert,
}
use cppweb.Channel.{Channel, is_none_events, set_revents}

-- `EPOLL_CTL_ADD`, `EPOLL_CTL_MOD`, `EPOLL_CTL_DEL`
pub data CtlOp : Type 0 where
  add modify delete : CtlOp

-- A call of `epoll_ctl`.
pub record Ctl : Type 0 where
  pub op : CtlOp
  pub fd : ℕ
  pub events : ℕ

-- `updateChannel(int op, Channel*)`: the call that is made. Its failure is only logged.
unfoldable pub ctl_of : CtlOp → Channel → Ctl
ctl_of op c = record { op = op; fd = c.fd; events = c.events }

-- `updateChannel(Channel*)`, run by the thread `tid`
unfoldable pub update_channel : ℕ → Channel → Result (Channel × Ctl)
update_channel tid c = do
  assert (c.loop_tid == tid)
  if not c.polling
      then assert (not (is_none_events c))
        >> ok (let c' = record c { polling = true } in (c', ctl_of add c'))
      else (if is_none_events c
          then ok (let c' = record c { polling = false } in (c', ctl_of delete c'))
          else ok (c, ctl_of modify c))

-- What `epoll_wait` comes to: an `errno`, or the descriptors that are ready with their events.
pub data Waited : Type 0 where
  failed : ℕ → Waited
  ready : List (ℕ × ℕ) → Waited

-- The channels of a loop, by descriptor.
abbrev pub Channels : Type 0
Channels = ℕ → Channel

-- `size` is the size of `m_events`.
pub record Poll : Type 0 where
  pub size : ℕ
  pub channels : Channels
  pub active : List ℕ

-- The loop over the events: each is stored in its channel, and the channel becomes active.
unfoldable pub deliver : Poll → List (ℕ × ℕ) → Poll
deliver p [] = p
deliver p ((fd, events) ∷ rest) =
    deliver
      (record p {
        channels = λ g. if g == fd then set_revents (p.channels fd) events else p.channels g;
        active = p.active ++ (fd ∷ []);
      })
      rest

-- `poll`: `wait` is the kernel's call, given `maxEvents`.
unfoldable pub poll : (ℕ → Waited) → Poll → Poll
poll wait p = elim (wait p.size) [
  | failed errno ↦ p
  | ready events ↦
      let p' = deliver p events in
      if length events == p.size then record p' { size = 2 * p.size } else p'
]
