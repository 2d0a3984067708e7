-- ===== src/EventLoop/Serving.antt =====
-- A whole turn of the loop: the poller, the channels and the tasks together.

use mathlib.Core.Path.{subst}
use cppweb.Base.{
  ℕ, ◌≡◌, ◌<◌, ◌≤◌, refl, sym, ap, ◌∙◌, List, [], ◌∷◌, ◌++◌, append_assoc, length, Returns, ==_iff,
  ok, append-nil,
}
use cppweb.Channel.{Channel, set_revents}
use cppweb.Epoller
use cppweb.Epoller.{Poll, Waited, failed, ready}
use cppweb.Epoller.Delivery.{Event, descriptors, Each, Once, Delivered, poll-Delivered}
use cppweb.EventLoop.Turn.{Run, Turn, Users, handle_active, wait_active, take_and_run, turn}
use cppweb.EventLoop.Manners.{runs, Dispatched, IsPolite, Queues}
use cppweb.EventLoop.Dispatching.{handle_active-Ended, run_tasks-Performed, All}

-- The events that `epoll_wait` comes to: none where it fails.
abbrev pub reported : Waited → List Event
reported (failed errno) = []
reported (ready events) = events

poll-reported :
    (wait : ℕ → Waited) (p : Poll) (w : Waited)
    → wait p.size ≡ w
    → Once (reported w)
    → length (reported w) ≤ p.size
    → 0 < p.size
    → Delivered p (cppweb.Epoller.poll wait p) (reported w)
unfolding cppweb.Epoller.poll
poll-reported wait p (failed errno) came once few some_size =
    rw (came, cppweb.Epoller.poll)
      (record { active = sym (append-nil p.active); reported = tt; others = λ fd n. refl })
poll-reported wait p (ready events) came once few some_size =
    (poll-Delivered wait p events came once few some_size).0

reported-own :
    (tid : ℕ) (p q : ℕ → Channel) (es : List Event)
    → Each (λ e. q e.0 ≡ set_revents (p e.0) e.1) es
    → Each (λ e. (p e.0).loop_tid ≡ tid) es
    → All (λ g. (q g).loop_tid ≡ tid) (descriptors es)
unfolding set_revents
reported-own tid p q [] h own = tt
reported-own tid p q (e ∷ es) h own =
    (ap (λ (c : Channel). c.loop_tid) h.0 ∙ own.0, reported-own tid p q es h.1 own.1)

-- What a turn achieves, whose `poll` made `t1` of `t`: `calls` are the callbacks, which led to `middle`, and
-- `added` the tasks that they queued; `later` are those that the tasks queued.
pub record Served (u : Users) (events : List Event) (t t1 t' : Turn) : Type 0 where
  pub delivered : Each (λ e. t1.poll.channels e.0 ≡ set_revents (t.poll.channels e.0) e.1) events
  pub calls : List Run
  pub each : Dispatched (λ g. u.alive g t1) t1.poll.channels (descriptors events) calls
  pub middle : Turn
  pub added : List ℕ
  pub called : Queues u calls t1 middle added
  pub later : List ℕ
  pub performed : Queues u (runs (t.pending ++ added)) (record middle { pending = [] }) t' later
  pub left : t'.pending ≡ later
  pub log : t'.log ≡ t.log ++ (calls ++ runs (t.pending ++ added))

-- Where `epoll_wait` fails or reports channels of this loop, none twice and at most as many as asked for, and
-- the callbacks leave the channels that are active their callbacks and their objects, a turn returns. It hands
-- each event to its channel, and runs for one channel after the other the callbacks that its events ask for;
-- then it runs the tasks that were queued before and those that these callbacks queued, in order, and none
-- that a task queued: these, in order, are what is queued after the turn.
pub turn-Served :
    (u : Users) (wait : ℕ → Waited) (tid : ℕ) (t : Turn) (w : Waited)
    → wait t.poll.size ≡ w
    → Once (reported w)
    → length (reported w) ≤ t.poll.size
    → 0 < t.poll.size
    → Each (λ e. (t.poll.channels e.0).loop_tid ≡ tid) (reported w)
    → IsPolite u (descriptors (reported w))
    → Returns (turn u wait tid tid t) (Served u (reported w) t (wait_active wait t))
unfolding turn wait_active take_and_run
turn-Served u wait tid t w came once few some_size own polite =
    let fds = descriptors (reported w) in
    let d = poll-reported wait (record t.poll { active = [] }) w came once few some_size in
    let t1 = wait_active wait t in
    let (t2, e2, h) =
      handle_active-Ended u tid fds fds t1 polite (λ g m. m)
        (reported-own tid t.poll.channels t1.poll.channels (reported w) d.reported own) in
    let active : handle_active u tid t1.poll.active t1 ≡ ok t2 =
      ap (λ gs. handle_active u tid gs t1) d.active ∙ e2 in
    let (t3, e3, r) = run_tasks-Performed u fds t2.pending (record t2 { pending = [] }) polite in
    (
      t3,
      rw (active, (==_iff tid tid).1 refl) e3,
      record {
        delivered = d.reported;
        calls = h.log;
        each = h.each;
        middle = t2;
        added = h.more;
        called = h.queues;
        later = r.more;
        performed =
            subst (λ xs. Queues u (runs xs) (record t2 { pending = [] }) t3 r.more) h.queued
              r.queues;
        left = r.queued;
        log =
            r.log
            ∙ ap (λ xs. xs ++ runs t2.pending) h.grown
            ∙ append_assoc t.log h.log (runs t2.pending)
            ∙ ap (λ xs. t.log ++ (h.log ++ runs xs)) h.queued;
      },
    )
