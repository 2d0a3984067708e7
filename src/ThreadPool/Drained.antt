-- ===== src/ThreadPool/Drained.antt =====
-- The loop of `stop` that waits for an empty queue: the tasks that had entered by then.
use mathlib.Core.Path.{subst}
use mathlib.Core.List.{Perm}
use mathlib.Core.List.Perm
use cppweb.Base.Outcome.{After, After-assert, After-use}
use cppweb.Base.{
  ℕ, ◌-◌, ◌≡◌, inl, inr, refl, sym, ap, ◌∙◌, List, [], ◌∷◌, ◌++◌, ltb, Bool-cases, ◌==◌, append-nil,
  append_assoc,
}
use cppweb.ThreadPool
use cppweb.ThreadPool.{
  ThreadPool, run_task, take_task, enter_task, resume_enter, resume_take, notify_all,
  notify_not_full, clear_running,
}
use cppweb.ThreadPool.Waiting.{Reachable-IsFair}
use cppweb.ThreadPool.Stopping.{IsManned, Step-IsManned}
use cppweb.ThreadPool.Rounds.{enter_task-Entered}
use cppweb.ThreadPool.Queue.{Step-Follows, Reachable-pool}
use cppweb.ThreadPool.Finished.{joined-taken}
use cppweb.ThreadPool.Workers.{
  draining, drained, joined, Workers, see_empty, sees_empty, Steps, here, next, Reachable,
}

-- The second list goes on where the first ends.
record Extends (xs ys : List ℕ) : Type 0 where
  later : List ℕ
  same : ys ≡ xs ++ later

unchanged : {xs ys : List ℕ} → ys ≡ xs → Extends xs ys
unchanged {xs} e = record { later = []; same = e ∙ sym (append-nil xs) }

take_from-Extends :
    (tasks : List ℕ) (p : ThreadPool) → p.tasks ≡ tasks → Extends p.taken (take_task p).taken
unfolding take_task notify_not_full
take_from-Extends [] p found = elim (Bool-cases p.running) [
  | inl on ↦ rw (found, on) (unchanged refl)
  | inr off ↦ rw (found, off) (unchanged refl)
]
take_from-Extends (task ∷ rest) p found = elim (Bool-cases (ltb 0 p.blocked)) [
  | inl some ↦ rw (found, some) (record { later = task ∷ []; same = refl })
  | inr none ↦ rw (found, none) (record { later = task ∷ []; same = refl })
]

run_task-Extends :
    (task : ℕ) (p : ThreadPool) → After (run_task task p) (λ p'. Extends p.taken p'.taken)
unfolding run_task
run_task-Extends task p =
    After-assert (λ p'. Extends p.taken p'.taken) p.running _
      (λ _. elim (Bool-cases (p.workers == 0)) [
        | inl alone ↦ rw alone (unchanged refl)
        | inr shared ↦ rw shared (unchanged (enter_task-Entered task p).taken)
      ])

-- Whatever a thread does, the tasks taken are only added to.
Step-Extends : {p p' : ThreadPool} → cppweb.ThreadPool.Step p p' → Extends p.taken p'.taken
unfolding resume_enter resume_take clear_running notify_all
Step-Extends {p = p} {p' = p'} (cppweb.ThreadPool.enters task e) =
    After-use (λ p'. Extends p.taken p'.taken) _ p' e (run_task-Extends task p)
Step-Extends {p = p} (cppweb.ThreadPool.pushes task) = unchanged (enter_task-Entered task p).taken
Step-Extends {p = p} (cppweb.ThreadPool.reenters task some) =
    unchanged (enter_task-Entered task (record p { released = p.released - 1 })).taken
Step-Extends {p = p} cppweb.ThreadPool.takes = take_from-Extends p.tasks p refl
Step-Extends {p = p} (cppweb.ThreadPool.retakes some) =
    take_from-Extends p.tasks (record p { woken = p.woken - 1 }) refl
Step-Extends (cppweb.ThreadPool.stirs some) = unchanged refl
Step-Extends (cppweb.ThreadPool.leaves some) = unchanged refl
Step-Extends cppweb.ThreadPool.clears = unchanged refl
Step-Extends (cppweb.ThreadPool.notifies over) = unchanged refl

Extends-append : {ks ls ms : List ℕ} → Extends ks ls → Extends ls ms → Extends ks ms
Extends-append {ks} h k = record {
  later = h.later ++ k.later;
  same = k.same ∙ ap (λ ts. ts ++ k.later) h.same ∙ append_assoc ks h.later k.later;
}

Steps-Extends :
    {w u : Workers} → IsManned w → Steps w u → Extends w.pool.taken u.pool.taken × IsManned u
Steps-Extends h here = (unchanged refl, h)
Steps-Extends {w = w} {u = u} h (next {v = v} before step) =
    let k = Steps-Extends h before in
    let now : Extends v.pool.taken u.pool.taken = elim (Step-Follows k.1 step) [
      | inl same ↦ unchanged (ap (λ p. p.taken) same)
      | inr step ↦ Step-Extends step
    ] in
    (Extends-append k.0 now, Step-IsManned k.1 step)

-- The loop ends with an empty queue only.
see_empty-tasks :
    (w : Workers) → w.stage ≡ draining → (see_empty w).stage ≡ drained → w.pool.tasks ≡ []
unfolding see_empty
see_empty-tasks w at = seen w.pool.tasks
  where
    seen :
        (ts : List ℕ)
        → (elim ts as (λ _. Workers) [ [] ↦ record w { stage = drained } | _ ∷ _ ↦ w ]).stage
          ≡ drained
        → ts ≡ []
    seen [] e = refl
    seen (t ∷ ts) e = let both : ⊥ = cc in absurd both

-- The tasks that had entered the queue when `stop` left its loop, which saw the queue empty, have all been
-- run when `stop` returns, each of them once for each time it entered; `later` are the tasks that were run
-- besides them.
pub see_empty-ran :
    (n m : ℕ) {w u : Workers}
    → Reachable n m w
    → w.stage ≡ draining
    → (see_empty w).stage ≡ drained
    → Steps (see_empty w) u
    → u.stage ≡ joined
    → (later : List ℕ) × Perm u.ran (w.pool.queued ++ later)
see_empty-ran n m {w} {u} r at out run over =
    let known = Reachable-pool n m r in
    let grown = Steps-Extends known.1 (after_see run) in
    let all : w.pool.queued ≡ w.pool.taken =
      (Reachable-IsFair n m known.0).in_order
      ∙ ap (λ ts. w.pool.taken ++ ts) (see_empty-tasks w at out)
      ∙ append-nil w.pool.taken in
    (
      grown.0.later,
      Perm.symm (
          subst (λ ts. Perm ts u.ran) (grown.0.same ∙ ap (λ ts. ts ++ grown.0.later) (sym all))
            (joined-taken grown.1 over)),
    )
  where
    after_see : {v : Workers} → Steps (see_empty w) v → Steps w v
    after_see here = next here (sees_empty at)
    after_see (next before step) = next (after_see before) step
