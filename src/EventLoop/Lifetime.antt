-- ===== src/EventLoop/Lifetime.antt =====
-- The constructor and the destructor of cppweb/EventLoop.cpp, with those of cppweb/Epoller.cpp.
use cppweb.TimerQueue.Lifetime.{destroy-IsValid}
use cppweb.Base.{
  ℕ, ◌≡◌, ◌≢◌, refl, Bool, true, false, Option, none, some, List, [], ◌∷◌, Returns, Result, ok,
  fault, assertion, exited, ◌>>=◌, ◌>>◌, assert, ◌==◌, ==_iff, ==_of_ne, ap,
}
use cppweb.Channel
use cppweb.Channel.{Channel, on_read, set_callback, is_reading}
use cppweb.Epoller.{Ctl}
use cppweb.Interest.{enable_read}
use cppweb.Interest.Returns.{enable_read-Returns}
use cppweb.Sockets.{Answer, refused, given, or_exit}
use cppweb.TimerQueue.{TimerQueue}
use cppweb.TimerQueue.Memory.{IsValid}
use cppweb.TimerQueue.Lifetime

-- A loop with the descriptors and channels that its constructor makes; `events_size` is the size of the
-- poller's `m_events`.
pub record Parts : Type 0 where
  pub tid : ℕ
  pub epoll_fd : ℕ
  pub events_size : ℕ
  pub timers : TimerQueue
  pub timer_channel : Channel
  pub wakeup_channel : Channel

-- `t_Eventloop == nullptr`, and `t_Eventloop == this`
abbrev is_null : Option ℕ → Bool
is_null none = true
is_null (some a) = false

abbrev is_at : ℕ → Option ℕ → Bool
is_at this none = false
is_at this (some a) = a == this

-- `Epoller::Epoller`: the descriptor, and the size of `m_events`
abbrev make_poller : Answer → Result (ℕ × ℕ)
make_poller created = or_exit created >>= (λ fd. ok (fd, 128))

-- `timerfdCreate`
abbrev timerfd_create : Answer → Result ℕ
timerfd_create timer = or_exit timer

-- The constructor, run by the thread `tid` for a loop at the address `this`: the loop, what `t_Eventloop` of the
-- thread becomes, and the calls of `epoll_ctl`. `slot` is what it was, and the answers are those of
-- `epoll_create1`, `timerfd_create` and `eventfd`.
unfoldable pub construct :
    ℕ → ℕ → Option ℕ → Answer → Answer → Answer → Result (Parts × Option ℕ × List Ctl)
construct this tid slot created timer woken = do
  poller ← make_poller created
  timer_fd ← timerfd_create timer
  q ← cppweb.TimerQueue.Lifetime.make tid tid timer_fd
  wakeup_fd ← or_exit woken
  w ← enable_read tid (set_callback on_read (cppweb.Channel.make tid wakeup_fd))
  assert (is_null slot)
  ok (
    record {
      tid = tid;
      epoll_fd = poller.0;
      events_size = poller.1;
      timers = q.0;
      timer_channel = q.1;
      wakeup_channel = w.0;
    },
    some this,
    q.2 ∷ w.1 ∷ [],
  )

-- The destructor, in a thread whose `t_Eventloop` is `slot`, then those of the members, last first: what
-- `t_Eventloop` becomes, and the descriptors that are closed.
unfoldable pub destruct : ℕ → Option ℕ → Parts → Result (Option ℕ × List ℕ)
destruct this slot p = do
  assert (is_at this slot)
  q ← cppweb.TimerQueue.Lifetime.destroy p.timers
  ok (none, p.timer_channel.fd ∷ p.epoll_fd ∷ [])

-- In a thread without a loop, where the kernel gives the three descriptors, the loop is made: it polls the
-- timers' and the wake-up descriptor for reading, its timers agree with the heap, and it is the thread's loop.
pub record Made (this tid epoll_fd timer_fd wakeup_fd : ℕ) (r : Parts × Option ℕ × List Ctl)
    : Type 0 where
  pub thread : r.0.tid ≡ tid
  pub epoll : r.0.epoll_fd ≡ epoll_fd
  pub room : r.0.events_size ≡ 128
  pub timer : r.0.timer_channel.fd ≡ timer_fd
  pub wakeup : r.0.wakeup_channel.fd ≡ wakeup_fd
  pub valid : IsValid r.0.timers
  pub timer_read : is_reading r.0.timer_channel ≡ true
  pub timer_polled : r.0.timer_channel.polling ≡ true
  pub wakeup_read : is_reading r.0.wakeup_channel ≡ true
  pub wakeup_polled : r.0.wakeup_channel.polling ≡ true
  pub slot : r.1 ≡ some this

construct-Made :
    (this tid epoll_fd timer_fd wakeup_fd : ℕ)
    → Returns
        (construct this tid none (given epoll_fd) (given timer_fd) (given wakeup_fd))
        (Made this tid epoll_fd timer_fd wakeup_fd)
unfolding construct cppweb.TimerQueue.Lifetime.make set_callback cppweb.Channel.make
construct-Made this tid epoll_fd timer_fd wakeup_fd =
    let (p, e, f) = enable_read-Returns (set_callback on_read (cppweb.Channel.make tid timer_fd)) in
    let (w, k, g) =
      enable_read-Returns (set_callback on_read (cppweb.Channel.make tid wakeup_fd)) in
    (
      (
        record {
          tid = tid;
          epoll_fd = epoll_fd;
          events_size = 128;
          timers = record { timers = []; heap = λ a. none; armed = none; fired = [] };
          timer_channel = p.0;
          wakeup_channel = w.0;
        },
        some this,
        p.1 ∷ w.1 ∷ [],
      ),
      rw ((==_iff tid tid).1 refl, e, k) refl,
      record {
        thread = refl;
        epoll = refl;
        room = refl;
        timer = f.fd;
        wakeup = g.fd;
        valid = record { sorted = tt; distinct = tt; live = tt };
        timer_read = f.reads;
        timer_polled = f.polled;
        wakeup_read = g.reads;
        wakeup_polled = g.polled;
        slot = refl;
      },
    )

-- The other outcomes of the constructor: a second loop in a thread fails the assertion, after its descriptors
-- were made; and a descriptor that is refused ends the process.
construct-fault :
    (this tid other : ℕ) (slot : Option ℕ) (e t w n : ℕ) (timer woken : Answer)
    → (construct this tid (some other) (given e) (given t) (given w) ≡ fault assertion)
      × (construct this tid slot (refused n) timer woken ≡ fault exited)
      × (construct this tid slot (given e) (refused n) woken ≡ fault exited)
      × (construct this tid slot (given e) (given t) (refused n) ≡ fault exited)
unfolding construct cppweb.TimerQueue.Lifetime.make set_callback cppweb.Channel.make
construct-fault this tid other slot e t w n timer woken =
    let (p, k, f) = enable_read-Returns (set_callback on_read (cppweb.Channel.make tid t)) in
    let (r, l, g) = enable_read-Returns (set_callback on_read (cppweb.Channel.make tid w)) in
    let own = (==_iff tid tid).1 refl in (rw (own, k, l) refl, refl, refl, rw (own, k) refl)

destruct_lem :
    (this : ℕ) (p : Parts)
    → IsValid p.timers
    → (destruct this (some this) p ≡ ok (none, p.timer_channel.fd ∷ p.epoll_fd ∷ []))
      × ((slot : Option ℕ) → slot ≢ some this → destruct this slot p ≡ fault assertion)
unfolding destruct
destruct_lem this p v =
    let (q, e, gone) = destroy-IsValid v in (rw ((==_iff this this).1 refl, e) refl, other)
  where
    other : (slot : Option ℕ) → slot ≢ some this → destruct this slot p ≡ fault assertion
    other none ne = refl
    other (some a) ne = rw (==_of_ne a this (λ same. ne (ap some same))) refl

-- The constructor in a thread without a loop returns where the kernel gives the three descriptors; the loop polls
-- the timers' and the wake-up descriptor for reading and becomes the thread's loop. In a thread with a loop
-- it fails its assertion. The destructor returns where the loop is the thread's, whatever timers were added by
-- then, leaves the thread without a loop and closes the timers' descriptor and epoll's, and no other; and in
-- another thread it fails its assertion.
pub construct-destruct :
    (this tid e t w : ℕ)
    → Returns (construct this tid none (given e) (given t) (given w)) (Made this tid e t w)
      × ((other : ℕ)
          → construct this tid (some other) (given e) (given t) (given w) ≡ fault assertion)
      × ((p : Parts)
          → IsValid p.timers
          → (destruct this (some this) p ≡ ok (none, p.timer_channel.fd ∷ p.epoll_fd ∷ []))
            × ((slot : Option ℕ) → slot ≢ some this → destruct this slot p ≡ fault assertion))
construct-destruct this tid e t w = (
  construct-Made this tid e t w,
  (λ other. (construct-fault this tid other none e t w 0 (given t) (given w)).0),
  destruct_lem this,
)
