-- ===== src/TimerQueue/Duration.antt =====
-- `durationFromNow` and the timer descriptor.
use Prim.Native.Nat.{max}
use cppweb.Base.{ap, ℕ, ◌+◌, ◌-◌, ◌*◌, ◌<◌, ◌≡◌, some, arith}
use cppweb.TimerQueue.{TimerQueue, millisecond, second, duration_from_now, timerfd_set}

-- The seconds and nanoseconds make up the time to wait, a millisecond at least, and the nanoseconds
-- are less than a second.
pub duration_from_now_lem :
    (now at : ℕ)
    → let d = duration_from_now now at in
      (d.0 * second + d.1 ≡ max millisecond (at - now)) × (d.1 < second)
unfolding duration_from_now
duration_from_now_lem now at = ground arith

-- The descriptor becomes readable at the given time, or a millisecond from now if that is later.
pub timerfd_set-armed :
    (now at : ℕ) (q : TimerQueue) → (timerfd_set now at q).armed ≡ some (max (now + millisecond) at)
unfolding timerfd_set
timerfd_set-armed now at q = ap some (omega (arith, (duration_from_now_lem now at).0))
