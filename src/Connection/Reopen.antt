-- ===== src/Connection/Reopen.antt =====
-- `startRead` on a connection that was closed.
use mathlib.Core.Path.{subst}
use cppweb.Base.{
  ◌>>=◌, ℕ, ◌≡◌, inl, inr, refl, ◌∙◌, true, false, List, Returns, fault, assertion, Bool-cases,
  ==_iff, ◌==◌, ok,
}
use cppweb.Buffer.{Received}
use cppweb.Channel.{is_reading}
use cppweb.Interest.Returns.{enable_read-Returns, disable_all-Returns}
use cppweb.Connection.{
  Connection, connected, disconnected, is, handle_close, start_read_in_loop, handle_read,
  record_effect, controlled, close_call,
}

closed_by :
    (c : Connection)
    → is c.state connected ≡ true
    → c.channel.polling ≡ true
    → Returns (handle_close c.channel.loop_tid c) (λ d.
      (d.state ≡ disconnected)
      × (is_reading d.channel ≡ false)
      × (d.channel.loop_tid ≡ c.channel.loop_tid))
unfolding handle_close
closed_by c live polled =
    let (p, e, f) = disable_all-Returns c.channel polled in
    let own = (==_iff c.channel.loop_tid c.channel.loop_tid).1 refl in
    let d : Connection =
      record_effect (controlled p.1) (record c { state = disconnected; channel = p.0 }) in
    elim (Bool-cases c.has_close) [
      | inl set ↦ (record_effect close_call d, rw (own, live, e, set) refl, (refl, f.0, f.3))
      | inr unset ↦ (d, rw (own, live, e, unset) refl, (refl, f.0, f.3))
    ]

read_again :
    (c : Connection)
    → is_reading c.channel ≡ false
    → Returns (start_read_in_loop c.channel.loop_tid c) (λ d.
      (is_reading d.channel ≡ true)
      × (d.state ≡ c.state)
      × (d.channel.loop_tid ≡ c.channel.loop_tid))
unfolding start_read_in_loop
read_again c idle =
    let (p, e, f) = enable_read-Returns c.channel in
    (
      record_effect (controlled p.1) (record c { channel = p.0 }),
      rw (idle, e) refl,
      (f.reads, refl, f.loop_tid),
    )

read_fault :
    (readv : List ℕ → Received) (tid : ℕ) (c : Connection)
    → c.state ≡ disconnected
    → handle_read readv tid c ≡ fault assertion
unfolding handle_read
read_fault readv tid c closed = elim (Bool-cases (c.channel.loop_tid == tid)) [
  | inl own ↦ rw (own, closed) refl
  | inr other ↦ rw other refl
]

-- The task of `startRead` that runs after an established connection was closed returns, and lets the
-- closed connection wait to read again. The `handleRead` that follows fails its assertion, whatever
-- the kernel answers.
pub handle_close-start_read_in_loop :
    (c : Connection)
    → is c.state connected ≡ true
    → c.channel.polling ≡ true
    → Returns (handle_close c.channel.loop_tid c >>= start_read_in_loop c.channel.loop_tid) (λ d.
      (d.state ≡ disconnected)
      × (is_reading d.channel ≡ true)
      × ((readv : List ℕ → Received) (tid : ℕ) → handle_read readv tid d ≡ fault assertion))
handle_close-start_read_in_loop c live polled =
    let (d, e, (gone, idle, tid)) = closed_by c live polled in
    let (d2, e2, (reading, state, tid2)) = read_again d idle in
    let closed : d2.state ≡ disconnected = state ∙ gone in
    let again : start_read_in_loop c.channel.loop_tid d ≡ ok d2 =
      subst (λ t. start_read_in_loop t d ≡ ok d2) tid e2 in
    (d2, rw e again, (closed, reading, λ readv t. read_fault readv t d2 closed))
