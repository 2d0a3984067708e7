-- ===== src/ThreadPool/Waiting.antt =====
-- The queue keeps its bound and its order, and no thread waits for what is already there.
use mathlib.Core.Path.{subst}
use cppweb.Base.{
  fault, assertion, suc, ◌==◌, leb, ℕ, ◌+◌, ◌-◌, ◌≤◌, ◌≡◌, ◌⊎◌, inl, inr, refl, sym, ap, ◌∙◌, Bool,
  true, false, List, [], ◌∷◌, ◌++◌, arith, Bool-cases, length, append_assoc, length-append, ok, ltb,
}
use cppweb.ThreadPool.{
  initial, ThreadPool, make, notify_not_empty, notify_not_full, enter_task, run_task, resume_enter,
  take_task, resume_take, clear_running, notify_all, Step, enters, pushes, reenters, takes, retakes,
  stirs, leaves, clears, notifies, Reachable, starts, next,
}

-- The queue is bounded and in order. Where a worker waits, enough others were notified to take what
-- is queued; where a producer waits, enough others were notified to fill the free places; and after
-- `stop` no worker waits.
--
-- `c` workers and `d` producers that have just returned from their wait count as notified.
pub record Fair (c d : ℕ) (p : ThreadPool) : Type 0 where
  pub bounded : length p.tasks ≤ p.max_queue_size
  pub in_order : p.queued ≡ p.taken ++ p.tasks
  pub workers : (p.idle ≡ 0) ⊎ (length p.tasks ≤ p.woken + c)
  pub producers : (p.blocked ≡ 0) ⊎ (p.max_queue_size ≤ length p.tasks + p.released + d)
  pub stopped : (p.told ≡ false) ⊎ ((p.idle ≡ 0) × (p.running ≡ false))

abbrev pub IsFair : ThreadPool → Type 0
IsFair p = Fair 0 0 p

clash : {b : Bool} → b ≡ true → b ≡ false → ⊥
clash p q = cc

not_both : {p : ThreadPool} → fault assertion ≡ ok p → ⊥
not_both e = cc

ok_same : {p q : ThreadPool} → ok p ≡ ok q → p ≡ q
ok_same e = cc

enter_task-IsFair : (task : ℕ) (p : ThreadPool) → Fair 0 1 p → IsFair (enter_task task p)
unfolding enter_task notify_not_empty
enter_task-IsFair task p h =
    let grown = length-append p.tasks (task ∷ []) in
    let moved =
      ap (λ xs. xs ++ (task ∷ [])) h.in_order ∙ append_assoc p.taken p.tasks (task ∷ []) in
    elim (Bool-cases (leb p.max_queue_size (length p.tasks))) [
      | inl full ↦ rw full (record {
        bounded = h.bounded;
        in_order = h.in_order;
        workers = h.workers;
        producers = inr (ground arith);
        stopped = h.stopped;
      })
      | inr room ↦ rw room (elim (Bool-cases (ltb 0 p.idle)) [
        | inl waiting ↦ rw waiting (record {
          bounded = rw grown (ground arith);
          in_order = moved;
          workers = rw grown (ground (arith, h));
          producers = rw grown (ground (arith, h));
          stopped = ground (arith, h);
        })
        | inr none_waits ↦ rw none_waits (record {
          bounded = rw grown (ground arith);
          in_order = moved;
          workers = inl (ground arith);
          producers = rw grown (ground (arith, h));
          stopped = h.stopped;
        })
      ])
    ]

take_from-IsFair :
    (tasks : List ℕ) (p : ThreadPool) → p.tasks ≡ tasks → Fair 1 0 p → IsFair (take_task p)
unfolding take_task notify_not_full
take_from-IsFair [] p found h =
    let size : length p.tasks ≡ 0 = ap length found in
    let same = h.in_order ∙ ap (λ xs. p.taken ++ xs) found in
    elim (Bool-cases p.running) [
      | inl active ↦
          rw (found, active)
            (record {
              bounded = omega arith;
              in_order = same;
              workers = inr (omega arith);
              producers = ground (arith, h);
              stopped = ground (arith, h);
            })
      | inr over ↦
          rw (found, over)
            (record {
              bounded = omega arith;
              in_order = same;
              workers = inr (omega arith);
              producers = ground (arith, h);
              stopped = ground (arith, h);
            })
    ]
take_from-IsFair (task ∷ rest) p found h =
    let moved =
      h.in_order ∙ ap (λ xs. p.taken ++ xs) found ∙ sym (append_assoc p.taken (task ∷ []) rest) in
    let size : length p.tasks ≡ suc (length rest) = ap length found in
    elim (Bool-cases (ltb 0 p.blocked)) [
      | inl waiting ↦
          rw (found, waiting)
            (record {
              bounded = omega (arith, h.bounded, size);
              in_order = moved;
              workers = ground (arith, h);
              producers = ground (arith, h);
              stopped = h.stopped;
            })
      | inr none_waits ↦
          rw (found, none_waits)
            (record {
              bounded = omega (arith, h.bounded, size);
              in_order = moved;
              workers = ground (arith, h);
              producers = inl (ground arith);
              stopped = h.stopped;
            })
    ]

take_task-IsFair : (p : ThreadPool) → Fair 1 0 p → IsFair (take_task p)
take_task-IsFair p h = take_from-IsFair p.tasks p refl h

run_task-IsFair : (task : ℕ) {p p' : ThreadPool} → IsFair p → run_task task p ≡ ok p' → IsFair p'
unfolding run_task
run_task-IsFair task {p} {p'} h e = elim (Bool-cases p.running) [
  | inl active ↦ elim (Bool-cases (p.workers == 0)) [
    | inl alone ↦
        let next : ThreadPool = record p { direct = p.direct ++ (task ∷ []) } in
        let ran : run_task task p ≡ ok next = rw (active, alone) refl in
        subst IsFair (ok_same (sym ran ∙ e)) (record {
          bounded = h.bounded;
          in_order = h.in_order;
          workers = h.workers;
          producers = h.producers;
          stopped = h.stopped;
        })
    | inr shared ↦
        let ran : run_task task p ≡ ok (enter_task task p) = rw (active, shared) refl in
        subst IsFair (ok_same (sym ran ∙ e)) (
          enter_task-IsFair task p (record {
            bounded = h.bounded;
            in_order = h.in_order;
            workers = h.workers;
            producers = ground (arith, h);
            stopped = h.stopped;
          }))
  ]
  | inr over ↦
      let failed : run_task task p ≡ fault assertion = rw over refl in
      absurd (not_both (sym failed ∙ e))
]

Step-IsFair : {p p' : ThreadPool} → IsFair p → Step p p' → IsFair p'
unfolding resume_enter resume_take clear_running notify_all
Step-IsFair h (enters task e) = run_task-IsFair task h e
Step-IsFair h (pushes task {p}) = enter_task-IsFair task p (record {
  bounded = h.bounded;
  in_order = h.in_order;
  workers = h.workers;
  producers = ground (arith, h);
  stopped = h.stopped;
})
Step-IsFair h (reenters task {p} some_released) =
    enter_task-IsFair task (record p { released = p.released - 1 })
      (record {
        bounded = h.bounded;
        in_order = h.in_order;
        workers = h.workers;
        producers = ground (arith, h);
        stopped = h.stopped;
      })
Step-IsFair h (takes {p}) = take_task-IsFair p (record {
  bounded = h.bounded;
  in_order = h.in_order;
  workers = ground (arith, h);
  producers = h.producers;
  stopped = h.stopped;
})
Step-IsFair h (retakes {p} some_woken) =
    take_task-IsFair (record p { woken = p.woken - 1 })
      (record {
        bounded = h.bounded;
        in_order = h.in_order;
        workers = ground (arith, h);
        producers = h.producers;
        stopped = h.stopped;
      })
Step-IsFair h (stirs {p} waiting) = record {
  bounded = h.bounded;
  in_order = h.in_order;
  workers = ground (arith, h);
  producers = h.producers;
  stopped = ground (arith, h);
}
Step-IsFair h (leaves {p} waiting) = record {
  bounded = h.bounded;
  in_order = h.in_order;
  workers = h.workers;
  producers = ground (arith, h);
  stopped = h.stopped;
}
Step-IsFair h (clears {p}) = record {
  bounded = h.bounded;
  in_order = h.in_order;
  workers = h.workers;
  producers = h.producers;
  stopped = ground (arith, h);
}
Step-IsFair h (notifies {p} over) = record {
  bounded = h.bounded;
  in_order = h.in_order;
  workers = inl refl;
  producers = h.producers;
  stopped = inr (refl, over);
}

-- Whatever the threads do, and also where they wake without being notified, the queue keeps its bound,
-- and the tasks that entered it are those taken, then those in it. While a worker waits, as many as
-- there are tasks were notified to take them; while a producer waits, as many as there are free
-- places were notified to fill them; and once `stop` notified the workers, none waits again.
pub Reachable-IsFair :
    (num_thread max_queue_size : ℕ) {p : ThreadPool}
    → Reachable num_thread max_queue_size p
    → IsFair p
unfolding make initial
Reachable-IsFair n m (starts e) = elim (Bool-cases (ltb 0 m)) [
  | inl positive ↦
      let made : make n m ≡ ok (initial n m) = rw positive refl in
      subst IsFair (ok_same (sym made ∙ e)) (record {
        bounded = omega arith;
        in_order = refl;
        workers = inl refl;
        producers = inl refl;
        stopped = inl refl;
      })
  | inr empty ↦
      let failed : make n m ≡ fault assertion = rw empty refl in absurd (not_both (sym failed ∙ e))
]
Reachable-IsFair n m (next before step) = Step-IsFair (Reachable-IsFair n m before) step
