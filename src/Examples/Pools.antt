-- ===== src/Examples/Pools.antt =====
-- The theorems on the workers of the pool and on `stop`.
use mathlib.Core.List.{Perm}
use cppweb.Base.{◌<◌, ℕ, ◌≤◌, ◌≡◌, ◌⊎◌, refl, true, false, List, [], ◌∷◌, ◌++◌, arith}
use cppweb.ThreadPool
use cppweb.ThreadPool.{
  ThreadPool, make, initial, enter_task, notify_not_empty, take_task, notify_not_full,
  clear_running, notify_all,
}
use cppweb.ThreadPool.Workers
use cppweb.ThreadPool.Workers.{
  Stage, serving, draining, joining, joined, Workers, start, admit, enter, test_running, after_take,
  take, finish_task, stop, see_empty, clear, wake_all, join, Step, admits, enters, tests, takes,
  finishes, stops, sees_empty, clears, wakes_all, joins, Steps, here, next,
}
use cppweb.ThreadPool.Rounds.{work}
use cppweb.ThreadPool.Stopping.{IsManned}
use cppweb.ThreadPool.Queue.{Reachable-pool}
use cppweb.ThreadPool.Joining.{worked, join-work, after_all}
use cppweb.ThreadPool.Finished.{joined-ran}
use cppweb.ThreadPool.Drained.{see_empty-ran}

-- One worker, and places for two tasks.
abbrev fresh : Workers
fresh = record {
  pool = record {
    workers = 1;
    tasks = [];
    max_queue_size = 2;
    running = true;
    idle = 0;
    woken = 0;
    blocked = 0;
    released = 0;
    told = false;
    queued = [];
    taken = [];
    direct = [];
  };
  heads = 1;
  calling = 0;
  finished = 0;
  holding = [];
  ran = [];
  entering = [];
  stage = serving;
}

one_left : 0 < 1
one_left = omega arith

-- The worker runs the task 5 when `stop` is called.
abbrev busy_one : Workers
busy_one = record fresh {
  pool = record fresh.pool { queued = 5 ∷ []; taken = 5 ∷ [] };
  heads = 0;
  holding = 5 ∷ [];
  stage = draining;
}

busy_one_run : cppweb.ThreadPool.Workers.Reachable 1 2 busy_one
unfolding start make initial admit enter enter_task notify_not_empty test_running take after_take
    take_task notify_not_full stop
busy_one_run = (
  fresh,
  refl,
  next
      (next (next (next (next here (admits 5 refl)) (enters 5 [] [] refl)) (tests one_left))
        (takes one_left))
      (stops refl refl),
)

-- `stop` left its loop, cleared the flag and notified.
abbrev told_one : Workers
told_one = record busy_one {
  pool = record busy_one.pool { running = false; told = true };
  stage = joining;
}

told_one_run : Steps (see_empty busy_one) told_one
unfolding see_empty clear clear_running wake_all notify_all
told_one_run = next (next here (clears refl)) (wakes_all refl)

-- The worker finishes its task, and returns.
abbrev done_one : Workers
done_one = record told_one { holding = []; ran = 5 ∷ []; finished = 1 }

done_one_run : Steps told_one done_one
unfolding finish_task test_running
done_one_run = next (next here (finishes 5 [] [] refl)) (tests one_left)

joined_one_run : Steps (see_empty busy_one) (join done_one)
unfolding see_empty clear clear_running wake_all notify_all finish_task test_running
joined_one_run =
    next
      (next (next (next (next here (clears refl)) (wakes_all refl)) (finishes 5 [] [] refl))
        (tests one_left))
      (joins refl refl)

see_empty-ran_example : (later : List ℕ) × Perm (5 ∷ []) ((5 ∷ []) ++ later)
unfolding see_empty join
see_empty-ran_example = see_empty-ran 1 2 busy_one_run refl refl joined_one_run refl

told_one-Reachable : cppweb.ThreadPool.Workers.Reachable 1 2 told_one
unfolding see_empty clear clear_running wake_all notify_all
told_one-Reachable =
    after_all 1 2 busy_one_run
      (next (next (next here (sees_empty refl)) (clears refl)) (wakes_all refl))

join-work_example :
    (worked done_one_run ≤ work told_one)
    × ((done_one.finished ≡ 1) ⊎ ((v : Workers) × Step true done_one v))
join-work_example = join-work 1 2 told_one-Reachable refl done_one_run

-- Two callers pass the assertion of `runTask` before `stop` clears the flag, and have the mutex after the
-- worker has returned.
abbrev stuck : Workers
stuck = record fresh {
  pool = record fresh.pool { running = false; told = true; tasks = 7 ∷ []; queued = 7 ∷ [] };
  heads = 0;
  finished = 1;
  entering = 8 ∷ [];
  stage = joined;
}

stuck-Reachable : cppweb.ThreadPool.Workers.Reachable 1 2 stuck
unfolding start make initial admit stop see_empty clear clear_running test_running wake_all
    notify_all enter enter_task notify_not_empty join
stuck-Reachable = (
  fresh,
  refl,
  next
      (next
        (next
          (next
            (next
              (next (next (next (next here (admits 7 refl)) (admits 8 refl)) (stops refl refl))
                (sees_empty refl))
              (clears refl))
            (tests one_left))
          (wakes_all refl))
        (enters 7 [] (8 ∷ []) refl))
      (joins refl refl),
)

stuck_run : Steps stuck (enter 8 [] stuck)
unfolding enter
stuck_run = next here (enters 8 [] [] refl)

joined-ran_example : Perm {A = ℕ} (7 ∷ []) ([] ++ (7 ∷ [])) × ([] ≡ stuck.ran)
unfolding enter
joined-ran_example = joined-ran 1 2 stuck-Reachable refl stuck_run

Reachable-pool_example : cppweb.ThreadPool.Reachable 1 2 stuck.pool × IsManned stuck
Reachable-pool_example = Reachable-pool 1 2 stuck-Reachable
