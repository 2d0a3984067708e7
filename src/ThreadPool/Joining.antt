-- ===== src/ThreadPool/Joining.antt =====
-- `stop` in `m_threadList`: the workers that it notified return, and what they have run by then.
use cppweb.ThreadPool.Waiting.{Reachable-IsFair}
use cppweb.ThreadPool.Stopping.{IsManned, Reachable-IsManned, is_late, is_told}
use cppweb.ThreadPool.Queue.{Reachable-pool}
use cppweb.Base.Outcome.{After, After-assert, After-use}
use cppweb.Base.{
  ℕ, ◌+◌, ◌-◌, ◌≤◌, ◌≡◌, refl, sym, ap, ◌∙◌, Bool, true, false, List, [], ◌∷◌, ◌++◌, arith, length,
  length-append, if◌then◌else◌, not, ◌⊎◌, inl, inr, Bool-cases, ltb,
}
use cppweb.ThreadPool.{ThreadPool, enter_task, resume_enter, resume_take, notify_all, clear_running}
use cppweb.ThreadPool.Rounds.{work, after_take-Took, enter_task-Entered}
use cppweb.ThreadPool.Workers.{
  Workers, admit, enter, reenter, test_running, take, retake, finish_task, stop, see_empty, clear,
  wake_all, join, Step, admits, enters, reenters, leaves, stirs, tests, takes, retakes, finishes,
  stops, sees_empty, clears, wakes_all, joins, drained, Steps, joining, next, here, Reachable,
}

-- No worker waits, and none that comes to the queue will.
pub record IsQuiet (w : Workers) : Type 0 where
  pub off : w.pool.running ≡ false
  pub none_idle : w.pool.idle ≡ 0

-- `w'` is quiet, and `n` steps of the work of `w` are done.
record Done (n : ℕ) (w w' : Workers) : Type 0 where
  quiet : IsQuiet w'
  less : work w' + n ≤ work w

abbrev spent : Bool → ℕ
spent b = if b then 1 else 0

pub clash : {A : Type 0} {b : Bool} → b ≡ true → b ≡ false → A
clash p q = let both : ⊥ = cc in absurd both

admit-Done : (task : ℕ) (w : Workers) → IsQuiet w → After (admit task w) (Done 0 w)
unfolding admit
admit-Done task w q = After-assert (Done 0 w) w.pool.running _ (λ on. clash on q.off)

stop-Done : (w : Workers) → IsQuiet w → After (stop w) (Done 0 w)
unfolding stop
stop-Done w q = After-assert (Done 0 w) w.pool.running _ (λ on. clash on q.off)

see_empty-Done : (w : Workers) → IsQuiet w → Done 0 w (see_empty w)
unfolding see_empty
see_empty-Done w q =
    elim w.pool.tasks
      as (λ ts.
        Done 0 w (elim ts as (λ _. Workers) [ [] ↦ record w { stage = drained } | _ ∷ _ ↦ w ])) [
          | [] ↦ record {
            quiet = record { off = q.off; none_idle = q.none_idle };
            less = omega arith;
          }
          | _ ∷ _ ↦ record { quiet = q; less = omega arith }
        ]

enter-Done :
    (task : ℕ) (p : ThreadPool) (others : List ℕ) (w : Workers)
    → w.pool.running ≡ p.running
    → w.pool.idle ≡ p.idle
    → w.pool.woken ≡ p.woken
    → IsQuiet w
    → Done 0 w (record w { pool = enter_task task p; entering = others })
enter-Done task p others w on i k q =
    let e = enter_task-Entered task p in
    let awake = e.awake (sym i ∙ q.none_idle) in
    record {
      quiet = record { off = e.flags.running ∙ sym on ∙ q.off; none_idle = awake.1 };
      less = omega (arith, awake.0, k);
    }

Step-Done : {b : Bool} {w w' : Workers} → IsQuiet w → Step b w w' → Done (spent b) w w'
unfolding enter reenter resume_enter test_running take retake resume_take finish_task clear wake_all
    join clear_running notify_all
Step-Done {w = w} {w' = w'} q (admits task e) = After-use (Done 0 w) _ w' e (admit-Done task w q)
Step-Done {w = w} q (enters task before after e) =
    enter-Done task w.pool (before ++ after) w refl refl refl q
Step-Done {w = w} q (reenters task some) =
    enter-Done task (record w.pool { released = w.pool.released - 1 }) w.entering w refl refl refl q
Step-Done q (leaves some) = record {
  quiet = record { off = q.off; none_idle = q.none_idle };
  less = omega arith;
}
Step-Done q (stirs some) = absurd (omega (arith, q.none_idle, some))
Step-Done q (tests some) =
    rw q.off (record {
      quiet = record { off = refl; none_idle = q.none_idle };
      less = omega (arith, some);
    })
Step-Done {w = w} q (takes some) =
    let t = after_take-Took w.pool.tasks (record w { calling = w.calling - 1 }) refl in
    let now = t.works q.off in
    record {
      quiet = record { off = t.flags.running ∙ q.off; none_idle = now.1 ∙ q.none_idle };
      less = omega (arith, now.0, some);
    }
Step-Done {w = w} q (retakes some) =
    let t =
      after_take-Took w.pool.tasks (record w { pool = record w.pool { woken = w.pool.woken - 1 } })
        refl in
    let now = t.works q.off in
    record {
      quiet = record { off = t.flags.running ∙ q.off; none_idle = now.1 ∙ q.none_idle };
      less = omega (arith, now.0, some);
    }
Step-Done {w = w} q (finishes task before after e) = record {
  quiet = record { off = q.off; none_idle = q.none_idle };
  less =
      omega (arith, ap length e, length-append before (task ∷ after), length-append before after);
}
Step-Done {w = w} {w' = w'} q (stops early e) = After-use (Done 0 w) _ w' e (stop-Done w q)
Step-Done {w = w} q (sees_empty at) = see_empty-Done w q
Step-Done q (clears at) = record {
  quiet = record { off = refl; none_idle = q.none_idle };
  less = omega arith;
}
Step-Done q (wakes_all at) = record {
  quiet = record { off = q.off; none_idle = refl };
  less = omega (arith, q.none_idle);
}
Step-Done q (joins at all) = record {
  quiet = record { off = q.off; none_idle = q.none_idle };
  less = omega arith;
}

-- The steps of a run that a worker takes.
abbrev pub worked : {w u : Workers} → Steps w u → ℕ
worked here = 0
worked (next {b = b} before step) = worked before + spent b

Steps-Done : {w u : Workers} → IsQuiet w → (run : Steps w u) → Done (worked run) w u
Steps-Done q here = record { quiet = q; less = omega arith }
Steps-Done q (next before step) =
    let h = Steps-Done q before in
    let k = Step-Done h.quiet step in
    record { quiet = k.quiet; less = omega (arith, h.less, k.less) }

-- A worker that has not returned can go on, where none waits.
goes_on :
    (w : Workers)
    → IsQuiet w
    → IsManned w
    → (w.finished ≡ w.pool.workers) ⊎ ((u : Workers) × Step true w u)
goes_on w q h = elim (Bool-cases (ltb 0 w.heads)) [
  | inl some ↦ inr (test_running w, tests (ground arith))
  | inr no_heads ↦ elim (Bool-cases (ltb 0 w.calling)) [
    | inl some ↦ inr (take w, takes (ground arith))
    | inr no_calling ↦ elim (Bool-cases (ltb 0 w.pool.woken)) [
      | inl some ↦ inr (retake w, retakes (ground arith))
      | inr no_woken ↦ held (ground arith) w.holding refl
    ]
  ]
]
  where
    held :
        w.heads + w.calling + w.pool.woken ≡ 0
        → (ts : List ℕ) → w.holding ≡ ts
        → (w.finished ≡ w.pool.workers) ⊎ ((u : Workers) × Step true w u)
    held none [] e = inl (omega (arith, h.manned, q.none_idle, none, ap length e))
    held none (task ∷ ts) e = inr (finish_task task ts w, finishes task [] ts e)

settled : (n m : ℕ) {w : Workers} → Reachable n m w → w.stage ≡ joining → IsQuiet w
settled n m {w} r at =
    let known = Reachable-pool n m r in
    let off = known.1.flag ∙ ap (λ s. not (is_late s)) at in
    let told = known.1.told ∙ ap is_told at in
    elim (Reachable-IsFair n m known.0).stopped [
      | inl early ↦ clash told early
      | inr over ↦ record { off = off; none_idle = over.0 }
    ]

then_run : {v w u : Workers} → Steps v w → Steps w u → Steps v u
then_run a here = a
then_run a (next before step) = next (then_run a before) step

pub after_all : (n m : ℕ) {w u : Workers} → Reachable n m w → Steps w u → Reachable n m u
after_all n m (v, made, a) run = (v, made, then_run a run)

-- While `stop` joins the threads, whatever runs besides: the workers take at most `work w` steps more, so
-- the bodies of their loops run at most that often; and as long as the threads have not all returned,
-- one of them can go on. So where each task returns, all threads return and `stop` does.
pub join-work :
    (n m : ℕ) {w u : Workers}
    → Reachable n m w
    → w.stage ≡ joining
    → (run : Steps w u)
    → (worked run ≤ work w) × ((u.finished ≡ u.pool.workers) ⊎ ((v : Workers) × Step true u v))
join-work n m r at run =
    let done = Steps-Done (settled n m r at) run in
    (omega (arith, done.less), goes_on _ done.quiet (Reachable-IsManned n m (after_all n m r run)))
