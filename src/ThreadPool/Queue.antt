-- ===== src/ThreadPool/Queue.antt =====
-- The steps of the workers are steps of the queue.
use mathlib.Core.Path.{subst}
use cppweb.Base.Outcome.{After, After-assert, After-use}
use cppweb.Base.{
  ◌⊎◌, ℕ, ◌≡◌, inl, inr, refl, sym, ap, ◌∙◌, Bool, true, not, List, [], ◌∷◌, ◌++◌, ltb, Bool-cases,
  ok, ◌==◌,
}
use cppweb.ThreadPool
use cppweb.ThreadPool.{
  ThreadPool, make, initial, run_task, take_task, enter_task, resume_enter, resume_take, notify_all,
  clear_running,
}
use cppweb.ThreadPool.Stopping.{IsManned, Reachable-IsManned, is_late}
use cppweb.ThreadPool.Workers.{
  Workers, start, admit, enter, reenter, test_running, after_take, take, retake, finish_task, stop,
  see_empty, clear, wake_all, join, Step, admits, enters, reenters, leaves, stirs, tests, takes,
  retakes, finishes, stops, sees_empty, clears, wakes_all, joins, Steps, here, next, Reachable,
  drained,
}

-- The pool of `w'` is that of `w`, or one step of the queue away.
abbrev pub Follows : ThreadPool → Workers → Type 0
Follows p w' = (w'.pool ≡ p) ⊎ cppweb.ThreadPool.Step p w'.pool

admit-Follows : (task : ℕ) (w : Workers) → After (admit task w) (Follows w.pool)
unfolding admit run_task
admit-Follows task w = After-assert (Follows w.pool) w.pool.running _ (λ on.
    elim (Bool-cases (w.pool.workers == 0)) [
      | inl alone ↦ rw alone (inr (cppweb.ThreadPool.enters task (ran on alone)))
      | inr shared ↦ rw shared (inl refl)
    ])
  where
    ran :
        w.pool.running ≡ true
        → w.pool.workers == 0 ≡ true
        → run_task task w.pool ≡ ok (record w.pool { direct = w.pool.direct ++ (task ∷ []) })
    ran on alone = rw (on, alone) refl

-- `after_take` leaves the pool alone.
after_take-pool : (tasks : List ℕ) (w : Workers) → (after_take tasks w).pool ≡ w.pool
unfolding after_take
after_take-pool [] w = elim (Bool-cases w.pool.running) [
  | inl on ↦ rw on refl
  | inr off ↦ rw off refl
]
after_take-pool (task ∷ rest) w = refl

test_running-pool : (w : Workers) → (test_running w).pool ≡ w.pool
unfolding test_running
test_running-pool w = elim (Bool-cases w.pool.running) [
  | inl on ↦ rw on refl
  | inr off ↦ rw off refl
]

stop-pool : (w : Workers) → After (stop w) (Follows w.pool)
unfolding stop
stop-pool w = After-assert (Follows w.pool) w.pool.running _ (λ on. inl refl)

see_empty-pool : (w : Workers) → (see_empty w).pool ≡ w.pool
unfolding see_empty
see_empty-pool w = seen w.pool.tasks
  where
    seen :
        (ts : List ℕ)
        → (elim ts as (λ _. Workers) [ [] ↦ record w { stage = drained } | _ ∷ _ ↦ w ]).pool
          ≡ w.pool
    seen [] = refl
    seen (t ∷ ts) = refl

pub Step-Follows : {b : Bool} {w w' : Workers} → IsManned w → Step b w w' → Follows w.pool w'
unfolding enter reenter take retake clear wake_all join finish_task
Step-Follows {w = w} {w' = w'} h (admits task e) =
    After-use (Follows w.pool) _ w' e (admit-Follows task w)
Step-Follows h (enters task before after e) = inr (cppweb.ThreadPool.pushes task)
Step-Follows h (reenters task some) = inr (cppweb.ThreadPool.reenters task some)
Step-Follows h (leaves some) = inr (cppweb.ThreadPool.leaves some)
Step-Follows h (stirs some) = inr (cppweb.ThreadPool.stirs some)
Step-Follows {w = w} h (tests some) = inl (test_running-pool w)
Step-Follows {w = w} h (takes some) = inr (
    subst (cppweb.ThreadPool.Step w.pool) (sym (after_take-pool w.pool.tasks _))
      cppweb.ThreadPool.takes)
Step-Follows {w = w} h (retakes some) = inr (
    subst (cppweb.ThreadPool.Step w.pool) (sym (after_take-pool w.pool.tasks _))
      (cppweb.ThreadPool.retakes some))
Step-Follows h (finishes task before after e) = inl refl
Step-Follows {w = w} {w' = w'} h (stops early e) = After-use (Follows w.pool) _ w' e (stop-pool w)
Step-Follows {w = w} h (sees_empty at) = inl (see_empty-pool w)
Step-Follows h (clears at) = inr cppweb.ThreadPool.clears
Step-Follows h (wakes_all at) =
    inr (cppweb.ThreadPool.notifies (h.flag ∙ ap (λ s. not (is_late s)) at))
Step-Follows h (joins at all) = inl refl

pub Step-pool :
    (n m : ℕ) {b : Bool} {w w' : Workers}
    → IsManned w
    → Step b w w'
    → cppweb.ThreadPool.Reachable n m w.pool
    → cppweb.ThreadPool.Reachable n m w'.pool
Step-pool n m h s r = elim (Step-Follows h s) [
  | inl same ↦ subst (cppweb.ThreadPool.Reachable n m) (sym same) r
  | inr step ↦ cppweb.ThreadPool.next r step
]

start-pool : (n m : ℕ) → After (start n m) (λ w. cppweb.ThreadPool.Reachable n m w.pool)
unfolding start make
start-pool n m = elim (Bool-cases (ltb 0 m)) [
  | inl positive ↦ rw positive (cppweb.ThreadPool.starts (made positive))
  | inr empty ↦ rw empty tt
]
  where
    made : ltb 0 m ≡ true → make n m ≡ ok (initial n m)
    made positive = rw positive refl

-- Whatever the callers, the workers and the thread that stops the pool do, in any order, its queue is in
-- a state that the model of the queue alone reaches, so what holds there holds with the workers; and
-- each worker is somewhere, `m_running` is cleared by `stop` alone, behind its loop, and the tasks taken
-- are, in some order, those that were run and those that a worker runs.
pub Reachable-pool :
    (n m : ℕ) {w : Workers} → Reachable n m w → cppweb.ThreadPool.Reachable n m w.pool × IsManned w
Reachable-pool n m (v, made, steps) = (run steps, Reachable-IsManned n m (v, made, steps))
  where
    run : {w : Workers} → Steps v w → cppweb.ThreadPool.Reachable n m w.pool
    run here = After-use (λ w. cppweb.ThreadPool.Reachable n m w.pool) _ v made (start-pool n m)
    run (next before step) =
        Step-pool n m (Reachable-IsManned n m (v, made, before)) step (run before)
