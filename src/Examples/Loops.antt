-- ===== src/Examples/Loops.antt =====
-- The theorems on the event loop and the thread pool, at states that a few steps reach.
use cppweb.Sockets.{given}
use cppweb.TimerQueue.Memory.{IsValid}
use cppweb.EventLoop.Lifetime.{construct, destruct, Parts, Made, construct-destruct}
use cppweb.Base.{
  ◌+◌, ◌≡◌, ◌≢◌, inl, refl, [], arith, ltb, ok, lt→ltb, ℕ, Option, none, some, fault, assertion,
  Returns, ◌∷◌,
}
use cppweb.EventLoop.{
  EventFd, EventLoop, decide, push_task, wakeup, polling, Reachable, starts, next, pushes, wakes,
  decides, round,
}
use cppweb.EventLoop.Wakeup.{WillWake, polling-WillWake}
use cppweb.EventLoop.Queue.{InOrder, Reachable-InOrder}
use cppweb.EventLoop
use cppweb.ThreadPool
use cppweb.ThreadPool.{takes, enters, enter_task, take_task, initial, ThreadPool, run_task}
use cppweb.ThreadPool.Waiting.{IsFair, Reachable-IsFair}

-- A descriptor that counts what is written, and is readable where that is not 0.
abbrev counter_fd : EventFd
counter_fd = record {
  write = λ n. n + 1;
  read = λ _. 0;
  readable = λ n. ltb 0 n;
  readable-write = λ n. lt→ltb 0 (n + 1) (omega arith);
}

-- The loop enters `poll`, and another thread queues the task 5.
abbrev polled : EventLoop
polled = push_task 5 (decide (cppweb.EventLoop.make 7))

polled-Reachable : Reachable counter_fd 7 polled
unfolding cppweb.EventLoop.make
polled-Reachable = next (next starts (decides refl)) (pushes 5)

polled-polling : polled.phase ≡ polling
unfolding push_task decide cppweb.EventLoop.make
polled-polling = refl

polled-pending : polled.pending ≢ []
unfolding push_task decide cppweb.EventLoop.make
polled-pending e = cc

polling-WillWake_example : WillWake counter_fd polled
polling-WillWake_example =
    polling-WillWake counter_fd 7 polled-Reachable polled-polling (inl polled-pending)

Reachable-InOrder_example : InOrder polled
Reachable-InOrder_example = Reachable-InOrder counter_fd 7 polled-Reachable

-- A pool of two workers with room for one task; one worker waits, then a task comes.
abbrev waiting : ThreadPool
waiting = take_task (initial 2 1)

abbrev served : ThreadPool
served = enter_task 9 waiting

served_made : cppweb.ThreadPool.make 2 1 ≡ ok (initial 2 1)
unfolding cppweb.ThreadPool.make
served_made = refl

served_ran : run_task 9 waiting ≡ ok served
unfolding run_task take_task initial
served_ran = refl

served-Reachable : cppweb.ThreadPool.Reachable 2 1 served
served-Reachable =
    cppweb.ThreadPool.next (cppweb.ThreadPool.next (cppweb.ThreadPool.starts served_made) takes)
      (enters 9 served_ran)

Reachable-IsFair_example : IsFair served
Reachable-IsFair_example = Reachable-IsFair 2 1 served-Reachable

-- A second loop in the thread 7 fails, and the first one is destroyed.
construct-destruct_example :
    Returns (construct 64 7 none (given 3) (given 4) (given 5)) (Made 64 7 3 4 5)
    × ((other : ℕ) → construct 64 7 (some other) (given 3) (given 4) (given 5) ≡ fault assertion)
    × ((p : Parts)
        → IsValid p.timers
        → (destruct 64 (some 64) p ≡ ok (none, p.timer_channel.fd ∷ p.epoll_fd ∷ []))
          × ((slot : Option ℕ) → slot ≢ some 64 → destruct 64 slot p ≡ fault assertion))
construct-destruct_example = construct-destruct 64 7 3 4 5
