-- ===== src/ThreadPool/Stopping.antt =====
-- The workers of a pool are all somewhere, `m_running` follows `stop`, a task that was taken is run once,
-- and the steps of the workers are steps of the queue.
use mathlib.Core.Path.{subst}
use mathlib.Core.List.{Perm, perm_middle}
use mathlib.Core.List.Perm
use cppweb.Base.Outcome.{After, After-assert, After-use}
use cppweb.Base.{
  ℕ, ◌+◌, ◌-◌, ◌<◌, ◌≡◌, inl, inr, refl, sym, ap, ◌∙◌, Bool, true, false, not, List, [], ◌∷◌, ◌++◌,
  append_assoc, arith, length, length-append, ltb, Bool-cases, ◌==◌,
}
use cppweb.ThreadPool.{
  ThreadPool, make, initial, enter_task, resume_enter, resume_take, notify_all, clear_running,
}
use cppweb.ThreadPool.Rounds.{busy, Took, after_take-Took, Entered, enter_task-Entered}
use cppweb.ThreadPool.Workers.{
  Stage, serving, draining, drained, cleared, joining, joined, Workers, start, admit, enter,
  reenter, test_running, take, retake, finish_task, stop, see_empty, clear, wake_all, join, Step,
  admits, enters, reenters, leaves, stirs, tests, takes, retakes, finishes, stops, sees_empty,
  clears, wakes_all, joins, Steps, here, next, Reachable,
}

-- `m_running` is cleared.
abbrev pub is_late : Stage → Bool
is_late serving = false
is_late draining = false
is_late drained = false
is_late cleared = true
is_late joining = true
is_late joined = true

-- All workers were notified.
abbrev pub is_told : Stage → Bool
is_told serving = false
is_told draining = false
is_told drained = false
is_told cleared = false
is_told joining = true
is_told joined = true

pub record IsManned (w : Workers) : Type 0 where
  pub manned : busy w + w.finished ≡ w.pool.workers
  pub flag : w.pool.running ≡ not (is_late w.stage)
  pub told : w.pool.told ≡ is_told w.stage
  pub once : Perm w.pool.taken (w.ran ++ w.holding)
  pub ended : w.stage ≡ joined → busy w ≡ 0

-- A pool that changes in the queue only.
queue-IsManned :
    {w : Workers} (p : ThreadPool) (entering : List ℕ)
    → IsManned w
    → Entered w.pool p
    → IsManned (record w { pool = p; entering = entering })
queue-IsManned {w} p entering h e = record {
  manned = omega (arith, h.manned, e.waiting, e.flags.workers);
  flag = e.flags.running ∙ h.flag;
  told = e.flags.told ∙ h.told;
  once = subst (λ ts. Perm ts (w.ran ++ w.holding)) (sym e.taken) h.once;
  ended = λ at. omega (arith, h.ended at, e.waiting);
}

-- `w` lacks the worker that took its turn and became `w'`.
after_take-IsManned :
    {w w' : Workers}
    → Took w w'
    → busy w + 1 + w.finished ≡ w.pool.workers
    → w.pool.running ≡ not (is_late w.stage)
    → w.pool.told ≡ is_told w.stage
    → Perm w.pool.taken (w.ran ++ w.holding)
    → (w.stage ≡ joined → busy w + 1 ≡ 0)
    → IsManned w'
after_take-IsManned {w} {w'} t manned flag told once ended = record {
  manned = omega (arith, manned, t.busy_one, t.finished, t.flags.workers);
  flag = t.flags.running ∙ flag ∙ ap (λ s. not (is_late s)) (sym t.stage);
  told = t.flags.told ∙ told ∙ ap is_told (sym t.stage);
  once = t.once once;
  ended = λ at. omega (arith, t.busy_one, ended (sym t.stage ∙ at));
}

admit-IsManned : (task : ℕ) (w : Workers) → IsManned w → After (admit task w) IsManned
unfolding admit
admit-IsManned task w h = After-assert IsManned w.pool.running _ (λ _.
    elim (Bool-cases (w.pool.workers == 0)) [
      | inl alone ↦ rw alone (record {
        manned = h.manned;
        flag = h.flag;
        told = h.told;
        once = h.once;
        ended = h.ended;
      })
      | inr shared ↦ rw shared (record {
        manned = h.manned;
        flag = h.flag;
        told = h.told;
        once = h.once;
        ended = h.ended;
      })
    ])

test_running-IsManned : (w : Workers) → 0 < w.heads → IsManned w → IsManned (test_running w)
unfolding test_running
test_running-IsManned w some h = elim (Bool-cases w.pool.running) [
  | inl on ↦ rw on (record {
    manned = omega (arith, h.manned, some);
    flag = sym on ∙ h.flag;
    told = h.told;
    once = h.once;
    ended = λ at. omega (arith, h.ended at, some);
  })
  | inr off ↦ rw off (record {
    manned = omega (arith, h.manned, some);
    flag = sym off ∙ h.flag;
    told = h.told;
    once = h.once;
    ended = λ at. omega (arith, h.ended at, some);
  })
]

finish_task-IsManned :
    (task : ℕ) (before after : List ℕ) (w : Workers)
    → w.holding ≡ before ++ (task ∷ after)
    → IsManned w
    → IsManned (finish_task task (before ++ after) w)
unfolding finish_task
finish_task-IsManned task before after w e h =
    let size : length w.holding ≡ length (before ++ after) + 1 =
      ap length e
      ∙ omega (arith, length-append before (task ∷ after), length-append before after) in
    record {
      manned = omega (arith, h.manned, size);
      flag = h.flag;
      told = h.told;
      ended = λ at. omega (arith, h.ended at, size);
      once = Perm.trans (subst (λ hs. Perm w.pool.taken (w.ran ++ hs)) e h.once) (moved w.ran);
    }
  where
    moved :
        (ran : List ℕ)
        → Perm (ran ++ (before ++ (task ∷ after))) ((ran ++ (task ∷ [])) ++ (before ++ after))
    moved ran =
        subst (Perm (ran ++ (before ++ (task ∷ after))))
          (sym (append_assoc ran (task ∷ []) (before ++ after)))
          (Perm.append_left ran (perm_middle before after))

-- A pool whose counts that are not of workers change.
released-IsManned :
    {w : Workers} (n : ℕ)
    → IsManned w
    → IsManned (record w { pool = record w.pool { released = n } })
released-IsManned n h = record {
  manned = h.manned;
  flag = h.flag;
  told = h.told;
  once = h.once;
  ended = h.ended;
}

stop-IsManned : (w : Workers) → w.stage ≡ serving → IsManned w → After (stop w) IsManned
unfolding stop
stop-IsManned w early h = After-assert IsManned w.pool.running _ (λ _. record {
  manned = h.manned;
  flag = h.flag ∙ ap (λ s. not (is_late s)) early;
  told = h.told ∙ ap is_told early;
  once = h.once;
  ended = λ now. cc;
})

see_empty-IsManned : (w : Workers) → w.stage ≡ draining → IsManned w → IsManned (see_empty w)
unfolding see_empty
see_empty-IsManned w at h = seen w.pool.tasks
  where
    seen : (ts : List ℕ) → IsManned (elim ts [ [] ↦ record w { stage = drained } | _ ∷ _ ↦ w ])
    seen [] = record {
      manned = h.manned;
      flag = h.flag ∙ ap (λ s. not (is_late s)) at;
      told = h.told ∙ ap is_told at;
      once = h.once;
      ended = λ now. cc;
    }
    seen (t ∷ ts) = h

pub Step-IsManned : {b : Bool} {w w' : Workers} → IsManned w → Step b w w' → IsManned w'
unfolding enter reenter take retake resume_take resume_enter see_empty clear wake_all join
    clear_running notify_all stop
Step-IsManned {w = w} {w' = w'} h (admits task e) =
    After-use IsManned _ w' e (admit-IsManned task w h)
Step-IsManned {w = w} h (enters task before after e) =
    queue-IsManned (enter_task task w.pool) (before ++ after) h (enter_task-Entered task w.pool)
Step-IsManned {w = w} h (reenters task some) =
    queue-IsManned _ w.entering (released-IsManned (w.pool.released - 1) h)
      (enter_task-Entered task (record w.pool { released = w.pool.released - 1 }))
Step-IsManned h (leaves some) = record {
  manned = h.manned;
  flag = h.flag;
  told = h.told;
  once = h.once;
  ended = h.ended;
}
Step-IsManned h (stirs some) = record {
  manned = omega (arith, h.manned, some);
  flag = h.flag;
  told = h.told;
  once = h.once;
  ended = λ at. omega (arith, h.ended at, some);
}
Step-IsManned {w = w} h (tests some) = test_running-IsManned w some h
Step-IsManned {w = w} h (takes some) =
    after_take-IsManned (after_take-Took w.pool.tasks (record w { calling = w.calling - 1 }) refl)
      (omega (arith, h.manned, some)) h.flag h.told h.once (λ at. omega (arith, h.ended at, some))
Step-IsManned {w = w} h (retakes some) =
    after_take-IsManned
      (after_take-Took w.pool.tasks (record w { pool = record w.pool { woken = w.pool.woken - 1 } })
        refl)
      (omega (arith, h.manned, some)) h.flag h.told h.once (λ at. omega (arith, h.ended at, some))
Step-IsManned {w = w} h (finishes task before after e) =
    finish_task-IsManned task before after w e h
Step-IsManned {w = w} {w' = w'} h (stops early e) =
    After-use IsManned _ w' e (stop-IsManned w early h)
Step-IsManned {w = w} h (sees_empty at) = see_empty-IsManned w at h
Step-IsManned h (clears at) = record {
  manned = h.manned;
  flag = refl;
  told = h.told ∙ ap is_told at;
  once = h.once;
  ended = λ now. cc;
}
Step-IsManned h (wakes_all at) = record {
  manned = omega (arith, h.manned);
  flag = h.flag ∙ ap (λ s. not (is_late s)) at;
  told = refl;
  once = h.once;
  ended = λ now. cc;
}
Step-IsManned h (joins at all) = record {
  manned = h.manned;
  flag = h.flag ∙ ap (λ s. not (is_late s)) at;
  told = h.told ∙ ap is_told at;
  once = h.once;
  ended = λ now. omega (arith, h.manned, all);
}

Steps-IsManned : {w w' : Workers} → IsManned w → Steps w w' → IsManned w'
Steps-IsManned h here = h
Steps-IsManned h (next before step) = Step-IsManned (Steps-IsManned h before) step

start-IsManned : (n m : ℕ) → After (start n m) IsManned
unfolding start make initial
start-IsManned n m = elim (Bool-cases (ltb 0 m)) [
  | inl positive ↦ rw positive (record {
    manned = omega arith;
    flag = refl;
    told = refl;
    once = Perm.rfl;
    ended = λ now. cc;
  })
  | inr empty ↦ rw empty tt
]

pub Reachable-IsManned : (n m : ℕ) {w : Workers} → Reachable n m w → IsManned w
Reachable-IsManned n m (v, made, steps) =
    Steps-IsManned (After-use IsManned _ v made (start-IsManned n m)) steps
