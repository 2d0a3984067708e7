-- ===== src/Examples/Threads.antt =====
-- The theorems on the start of the loops' threads.
use cppweb.Base.{ℕ, ◌≡◌, refl, true, false, some}
use cppweb.LoopThread
use cppweb.LoopThread.{
  LoopThread, start_loop, begin_wait, set_loop, notify, return_loop, returned, notified, spawned,
  next, here, starts, waits, sets, notifies, returns,
}
use cppweb.LoopThread.Handover.{made, start_loop-return_loop}

-- The caller of `startLoop` waits before the new thread notifies it, and returns.
abbrev handed : LoopThread
handed = record {
  started = true;
  loop = some 64;
  caller = returned (some 64);
  worker = notified;
  quitting = false;
  gone = false;
}

handed_run : cppweb.LoopThread.Steps false cppweb.LoopThread.make handed
unfolding cppweb.LoopThread.make start_loop begin_wait set_loop notify return_loop
handed_run =
    next
      (next (next (next (next here (starts refl refl refl)) (waits refl)) (sets 64 refl))
        (notifies refl))
      (returns refl)

start_loop-return_loop_example : (a : ℕ) × (made handed_run ≡ some a) × (some 64 ≡ some a)
start_loop-return_loop_example = start_loop-return_loop handed_run refl
