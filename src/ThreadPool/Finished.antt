-- ===== src/ThreadPool/Finished.antt =====
-- What is left to do once `stop` returned.
use mathlib.Core.Path.{subst}
use mathlib.Core.List.{Perm}
use mathlib.Core.List.Perm
use cppweb.Base.Outcome.{After, After-assert, After-use}
use cppweb.Base.{
  ℕ, ◌+◌, ◌-◌, ◌≡◌, refl, sym, ap, ◌∙◌, Bool, false, not, List, [], ◌∷◌, ◌++◌, arith, length,
  length-append, append-nil, fault, assertion, true, ok,
}
use cppweb.ThreadPool.{ThreadPool, enter_task, resume_enter, notify_all, clear_running}
use cppweb.ThreadPool.Waiting.{Reachable-IsFair}
use cppweb.ThreadPool.Stopping.{IsManned, is_late}
use cppweb.ThreadPool.Queue.{Reachable-pool}
use cppweb.ThreadPool.Joining.{clash}
use cppweb.ThreadPool.Rounds.{busy, enter_task-Entered}
use cppweb.ThreadPool.Workers.{
  drained, joined, Workers, admit, enter, reenter, stop, see_empty, clear, wake_all, join, Step,
  admits, enters, reenters, leaves, stirs, tests, takes, retakes, finishes, stops, sees_empty,
  clears, wakes_all, joins, Steps, here, next, Reachable, serving, destroy,
}

-- No worker is left, and none took a task.
record IsOver (w : Workers) : Type 0 where
  off : w.pool.running ≡ false
  none : busy w ≡ 0

-- `w'` is over, and what was run in `w` is all that was.
record Stays (w w' : Workers) : Type 0 where
  over : IsOver w'
  ran : w'.ran ≡ w.ran

admit-Stays : (task : ℕ) (w : Workers) → IsOver w → After (admit task w) (Stays w)
unfolding admit
admit-Stays task w q = After-assert (Stays w) w.pool.running _ (λ on. clash on q.off)

stop-Stays : (w : Workers) → IsOver w → After (stop w) (Stays w)
unfolding stop
stop-Stays w q = After-assert (Stays w) w.pool.running _ (λ on. clash on q.off)

see_empty-Stays : (w : Workers) → IsOver w → Stays w (see_empty w)
unfolding see_empty
see_empty-Stays w q =
    elim w.pool.tasks
      as (λ ts.
        Stays w (elim ts as (λ _. Workers) [ [] ↦ record w { stage = drained } | _ ∷ _ ↦ w ])) [
          | [] ↦ record { over = record { off = q.off; none = q.none }; ran = refl }
          | _ ∷ _ ↦ record { over = q; ran = refl }
        ]

enter-Stays :
    (task : ℕ) (p : ThreadPool) (others : List ℕ) (w : Workers)
    → w.pool.running ≡ p.running
    → w.pool.idle + w.pool.woken ≡ p.idle + p.woken
    → IsOver w
    → Stays w (record w { pool = enter_task task p; entering = others })
enter-Stays task p others w on i q =
    let e = enter_task-Entered task p in
    record {
      over = record {
        off = e.flags.running ∙ sym on ∙ q.off;
        none = omega (arith, q.none, e.waiting, i);
      };
      ran = refl;
    }

Step-Stays : {b : Bool} {w w' : Workers} → IsOver w → Step b w w' → Stays w w'
unfolding enter reenter resume_enter clear wake_all join clear_running notify_all
Step-Stays {w = w} {w' = w'} q (admits task e) = After-use (Stays w) _ w' e (admit-Stays task w q)
Step-Stays {w = w} q (enters task before after e) =
    enter-Stays task w.pool (before ++ after) w refl refl q
Step-Stays {w = w} q (reenters task some) =
    enter-Stays task (record w.pool { released = w.pool.released - 1 }) w.entering w refl refl q
Step-Stays q (leaves some) = record { over = record { off = q.off; none = q.none }; ran = refl }
Step-Stays q (stirs some) = absurd (omega (arith, q.none, some))
Step-Stays q (tests some) = absurd (omega (arith, q.none, some))
Step-Stays {w = w} q (takes some) = absurd (omega (arith, q.none, some))
Step-Stays {w = w} q (retakes some) = absurd (omega (arith, q.none, some))
Step-Stays {w = w} q (finishes task before after e) =
    absurd (omega (arith, q.none, ap length e, length-append before (task ∷ after)))
Step-Stays {w = w} {w' = w'} q (stops early e) = After-use (Stays w) _ w' e (stop-Stays w q)
Step-Stays {w = w} q (sees_empty at) = see_empty-Stays w q
Step-Stays q (clears at) = record { over = record { off = refl; none = q.none }; ran = refl }
Step-Stays q (wakes_all at) = record {
  over = record { off = q.off; none = omega (arith, q.none) };
  ran = refl;
}
Step-Stays q (joins at all) = record { over = record { off = q.off; none = q.none }; ran = refl }

Steps-Stays : {w u : Workers} → IsOver w → Steps w u → Stays w u
Steps-Stays q here = record { over = q; ran = refl }
Steps-Stays q (next before step) =
    let h = Steps-Stays q before in
    let k = Step-Stays h.over step in record { over = k.over; ran = k.ran ∙ h.ran }

emptied : (w : Workers) → busy w ≡ 0 → w.holding ≡ []
emptied w none = empty w.holding refl
  where
    empty : (ts : List ℕ) → w.holding ≡ ts → w.holding ≡ []
    empty [] e = e
    empty (task ∷ ts) e = absurd (omega (arith, none, ap length e))

-- Once all threads were joined, the tasks taken from the queue were run, each once.
pub joined-taken : {w : Workers} → IsManned w → w.stage ≡ joined → Perm w.pool.taken w.ran
joined-taken {w} h at =
    subst (Perm w.pool.taken) (ap (λ ts. w.ran ++ ts) (emptied w (h.ended at)) ∙ append-nil w.ran)
      h.once

-- Once `stop` returned, the tasks that ever entered the queue are, in some order, those that were run and
-- those that are still in it; and whatever is called then, no task is run any more.
pub joined-ran :
    (n m : ℕ) {w u : Workers}
    → Reachable n m w
    → w.stage ≡ joined
    → Steps w u
    → Perm w.pool.queued (w.ran ++ w.pool.tasks) × (u.ran ≡ w.ran)
joined-ran n m {w} r at run =
    let known = Reachable-pool n m r in
    let h = known.1 in
    let over : IsOver w = record {
      off = h.flag ∙ ap (λ s. not (is_late s)) at;
      none = h.ended at;
    } in
    (
      subst (λ ts. Perm ts (w.ran ++ w.pool.tasks)) (sym (Reachable-IsFair n m known.0).in_order)
          (Perm.append_right w.pool.tasks (joined-taken h at)),
      (Steps-Stays over run).ran,
    )

-- The destructor stops a pool that nobody stopped, and does nothing once `stop` returned; a second call of
-- `stop` fails its assertion.
destroy-stop :
    (n m : ℕ) {w : Workers}
    → Reachable n m w
    → (w.stage ≡ serving → destroy w ≡ stop w)
      × (w.stage ≡ joined → (destroy w ≡ ok w) × (stop w ≡ fault assertion))
unfolding destroy stop
destroy-stop n m {w} r =
    let flag = (Reachable-pool n m r).1.flag in
    (
      λ at. let on : w.pool.running ≡ true = flag ∙ ap (λ s. not (is_late s)) at in rw on refl,
      λ at.
          let off : w.pool.running ≡ false = flag ∙ ap (λ s. not (is_late s)) at in
          (rw off refl, rw off refl),
    )
