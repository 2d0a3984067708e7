-- ===== src/TimerQueue/Lifetime.antt =====
-- The constructor and the destructor of cppweb/TimerQueue.cpp.
use cppweb.Base.{
  ℕ, ◌≡◌, refl, true, none, List, [], ◌∷◌, Returns, Result, ok, ◌>>=◌, ◌>>◌, assert, ◌==◌, ==_iff,
  if◌then◌else◌, Bool-cases, inl, inr,
}
use cppweb.Channel
use cppweb.Channel.{Channel, on_read, set_callback, is_reading}
use cppweb.Epoller.{Ctl}
use cppweb.Interest.{enable_read}
use cppweb.Interest.Returns.{enable_read-Returns}
use cppweb.TimerQueue.{Entry, TimerQueue, store, deref}
use cppweb.TimerQueue.Members.{All}
use cppweb.TimerQueue.Memory.{Live, Distinct, IsValid, deref-ok, store-Live}

-- The constructor, run by the thread `tid`, for the loop of thread `loop_tid`: the queue, and the channel of
-- the timer descriptor with the `epoll_ctl` that it makes
unfoldable pub make : ℕ → ℕ → ℕ → Result (TimerQueue × Channel × Ctl)
make tid loop_tid timer_fd = do
  assert (loop_tid == tid)
  p ← enable_read tid (set_callback on_read (cppweb.Channel.make loop_tid timer_fd))
  ok (record { timers = []; heap = λ a. none; armed = none; fired = [] }, p.0, p.1)

-- the loop of the destructor
unfoldable pub delete_all : List Entry → TimerQueue → Result TimerQueue
delete_all [] q = ok q
delete_all (e ∷ es) q = do t ← deref e.1 q; delete_all es (store e.1 none q)

-- The destructor.
unfoldable pub destroy : TimerQueue → Result TimerQueue
destroy q = delete_all q.timers q

-- In the loop's thread the constructor returns a queue whose set and heap agree, and the loop waits to read
-- from the timer descriptor.
make-IsValid :
    (tid timer_fd : ℕ)
    → Returns
        (make tid tid timer_fd)
        (λ r. IsValid r.0 × (is_reading r.1 ≡ true) × (r.1.polling ≡ true))
unfolding make set_callback cppweb.Channel.make
make-IsValid tid timer_fd =
    let own = (==_iff tid tid).1 refl in
    let (p, e, f) = enable_read-Returns (set_callback on_read (cppweb.Channel.make tid timer_fd)) in
    (
      (record { timers = []; heap = λ a. none; armed = none; fired = [] }, p.0, p.1),
      rw (own, e) refl,
      (record { sorted = tt; distinct = tt; live = tt }, f.reads, f.polled),
    )

-- What deleting makes of the heap.
record Deleted (es : List Entry) (q q' : TimerQueue) : Type 0 where
  gone : All (λ e. q'.heap e.1 ≡ none) es
  others : (b : ℕ) → q.heap b ≡ none → q'.heap b ≡ none

delete_all-Deleted :
    (es : List Entry) (q : TimerQueue)
    → All (Live q.heap) es
    → Distinct es
    → Returns (delete_all es q) (Deleted es q)
unfolding delete_all
delete_all-Deleted [] q l d = (q, refl, record { gone = tt; others = λ b e. e })
delete_all-Deleted (e ∷ es) q l d =
    let (t, here, time, active) = l.0 in
    let q1 = store e.1 none q in
    let (q', done, k) = delete_all-Deleted es q1 (store-Live e.1 none q es d.0 l.1) d.1 in
    (
      q',
      rw (deref-ok e.1 q here) done,
      record {
        gone = (k.others e.1 (rw ((==_iff e.1 e.1).1 refl) refl), k.gone);
        others = λ b free. k.others b (still b free);
      },
    )
  where
    still : (b : ℕ) → q.heap b ≡ none → (if b == e.1 then none else q.heap b) ≡ none
    still b free = elim (Bool-cases (b == e.1)) [
      | inl same ↦ rw same refl
      | inr other ↦ rw other free
    ]

-- Where set and heap agree, the destructor returns, no timer is deleted twice, and those in the set are gone.
pub destroy-IsValid :
    {q : TimerQueue}
    → IsValid q
    → Returns (destroy q) (λ q'. All (λ e. q'.heap e.1 ≡ none) q.timers)
unfolding destroy
destroy-IsValid {q} v =
    let (q', e, k) = delete_all-Deleted q.timers q v.live v.distinct in (q', e, k.gone)
