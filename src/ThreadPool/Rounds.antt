-- ===== src/ThreadPool/Rounds.antt =====
-- What a round of `takeTask`, and a task that enters, make of the workers.
use mathlib.Core.Path.{subst}
use mathlib.Core.List.{Perm}
use mathlib.Core.List.Perm
use cppweb.Base.{
  ℕ, ◌+◌, ◌*◌, ◌≤◌, ◌≡◌, inl, inr, refl, false, List, [], ◌∷◌, ◌++◌, append_assoc, arith, length,
  length-append, ltb, Bool-cases, leb,
}
use cppweb.ThreadPool.{ThreadPool, take_task, notify_not_full, enter_task, notify_not_empty}
use cppweb.ThreadPool.Workers.{Workers, after_take}

-- What the pool keeps while it serves its threads.
pub record SameFlags (p p' : ThreadPool) : Type 0 where
  pub workers : p'.workers ≡ p.workers
  pub running : p'.running ≡ p.running
  pub told : p'.told ≡ p.told

-- The workers that have not returned.
abbrev pub busy : Workers → ℕ
busy w = w.heads + w.calling + length w.holding + w.pool.idle + w.pool.woken

-- The steps that workers still take once the pool is stopped.
abbrev pub work : Workers → ℕ
work w = w.heads + 2 * length w.holding + 3 * (w.calling + w.pool.woken)

-- A round of `takeTask` by a worker that is not counted in `w` any more.
pub record Took (w w' : Workers) : Type 0 where
  pub flags : SameFlags w.pool w'.pool
  pub finished : w'.finished ≡ w.finished
  pub stage : w'.stage ≡ w.stage
  pub ran : w'.ran ≡ w.ran
  pub busy_one : busy w' ≡ busy w + 1
  pub works : w.pool.running ≡ false → (work w' ≤ work w + 2) × (w'.pool.idle ≡ w.pool.idle)
  pub once : Perm w.pool.taken (w.ran ++ w.holding) → Perm w'.pool.taken (w'.ran ++ w'.holding)

-- `w` has the pool before the round, without its worker.
pub after_take-Took :
    (tasks : List ℕ) (w : Workers)
    → w.pool.tasks ≡ tasks
    → Took w (after_take tasks (record w { pool = take_task w.pool }))
unfolding after_take take_task notify_not_full
after_take-Took [] w found = elim (Bool-cases w.pool.running) [
  | inl on ↦
      rw (found, on)
        (record {
          flags = record { workers = refl; running = refl; told = refl };
          finished = refl;
          stage = refl;
          ran = refl;
          busy_one = omega arith;
          works = λ off. cc;
          once = λ p. p;
        })
  | inr off ↦
      rw (found, off)
        (record {
          flags = record { workers = refl; running = refl; told = refl };
          finished = refl;
          stage = refl;
          ran = refl;
          busy_one = omega arith;
          works = λ _. (omega arith, refl);
          once = λ p. p;
        })
]
after_take-Took (task ∷ rest) w found =
    let grown : length (w.holding ++ (task ∷ [])) ≡ length w.holding + 1 =
      length-append w.holding (task ∷ []) in
    let one_more = λ (p : Perm w.pool.taken (w.ran ++ w.holding)).
      subst (Perm (w.pool.taken ++ (task ∷ []))) (append_assoc w.ran w.holding (task ∷ []))
        (Perm.append_right (task ∷ []) p) in
    elim (Bool-cases (ltb 0 w.pool.blocked)) [
      | inl waiting ↦
          rw (found, waiting)
            (record {
              flags = record { workers = refl; running = refl; told = refl };
              finished = refl;
              stage = refl;
              ran = refl;
              busy_one = omega (arith, grown);
              works = λ _. (omega (arith, grown), refl);
              once = one_more;
            })
      | inr none_waits ↦
          rw (found, none_waits)
            (record {
              flags = record { workers = refl; running = refl; told = refl };
              finished = refl;
              stage = refl;
              ran = refl;
              busy_one = omega (arith, grown);
              works = λ _. (omega (arith, grown), refl);
              once = one_more;
            })
    ]

-- A task that enters moves at most a waiting worker to the notified ones.
pub record Entered (p p' : ThreadPool) : Type 0 where
  pub flags : SameFlags p p'
  pub taken : p'.taken ≡ p.taken
  pub waiting : p'.idle + p'.woken ≡ p.idle + p.woken
  pub awake : p.idle ≡ 0 → (p'.woken ≡ p.woken) × (p'.idle ≡ 0)

pub enter_task-Entered : (task : ℕ) (p : ThreadPool) → Entered p (enter_task task p)
unfolding enter_task notify_not_empty
enter_task-Entered task p = elim (Bool-cases (leb p.max_queue_size (length p.tasks))) [
  | inl full ↦ rw full (record {
    flags = record { workers = refl; running = refl; told = refl };
    taken = refl;
    waiting = refl;
    awake = λ none_idle. (refl, none_idle);
  })
  | inr room ↦ rw room (elim (Bool-cases (ltb 0 p.idle)) [
    | inl some_idle ↦ rw some_idle (record {
      flags = record { workers = refl; running = refl; told = refl };
      taken = refl;
      waiting = ground arith;
      awake = λ none_idle. ground arith;
    })
    | inr none_idle ↦ rw none_idle (record {
      flags = record { workers = refl; running = refl; told = refl };
      taken = refl;
      waiting = refl;
      awake = λ none. (refl, none);
    })
  ])
]
