-- ===== src/ThreadPool/Workers.antt =====
-- cppweb/ThreadPool.cpp: the workers in `runInThread`, the callers of `runTask` before they have the
-- mutex, and `stop` with its joins, around the queue of the pool. The callback for a new thread is left out.
use cppweb.Base.{
  ℕ, ◌+◌, ◌-◌, ◌<◌, ◌≡◌, Bool, true, false, List, [], ◌∷◌, ◌++◌, ◌==◌, if◌then◌else◌, Result, ok,
  ◌>>=◌, ◌>>◌, assert,
}
use cppweb.ThreadPool.{
  ThreadPool, make, enter_task, resume_enter, take_task, resume_take, clear_running, notify_all,
}

-- Where `stop` is: not called; in the loop that waits for an empty queue; behind it; behind
-- `m_running = false`; behind `notify_all`; returned.
pub data Stage : Type 0 where
  serving draining drained cleared joining joined : Stage

-- `heads` counts the workers at the test of `while`, `calling` those before the mutex of `takeTask`, and
-- `finished` those that returned; `holding` lists the tasks that workers run, and `ran` those that they ran.
-- `entering` lists the tasks of callers of `runTask` whose assertion held and that have no mutex yet.
pub record Workers : Type 0 where
  pub pool : ThreadPool
  pub heads : ℕ
  pub calling : ℕ
  pub finished : ℕ
  pub holding : List ℕ
  pub ran : List ℕ
  pub entering : List ℕ
  pub stage : Stage

-- The constructor starts the threads.
unfoldable pub start : ℕ → ℕ → Result Workers
start num_thread max_queue_size = do
  p ← make num_thread max_queue_size
  ok (record {
    pool = p;
    heads = num_thread;
    calling = 0;
    finished = 0;
    holding = [];
    ran = [];
    entering = [];
    stage = serving;
  })

-- `runTask` before its mutex; without workers the task runs at once.
unfoldable pub admit : ℕ → Workers → Result Workers
admit task w = do
  assert w.pool.running
  ok (
      if w.pool.workers == 0
      then record w { pool = record w.pool { direct = w.pool.direct ++ (task ∷ []) } }
      else record w { entering = w.entering ++ (task ∷ []) })

-- `runTask` gets the mutex; `others` are the callers that still wait for it.
unfoldable pub enter : ℕ → List ℕ → Workers → Workers
enter task others w = record w { pool = enter_task task w.pool; entering = others }

unfoldable pub reenter : ℕ → Workers → Workers
reenter task w = record w { pool = resume_enter task w.pool }

-- the test of `while (m_running)` in `runInThread`
unfoldable pub test_running : Workers → Workers
test_running w =
    if w.pool.running
    then record w { heads = w.heads - 1; calling = w.calling + 1 }
    else record w { heads = w.heads - 1; finished = w.finished + 1 }

-- What a round of `takeTask` on the queue `tasks` means for its worker: it waits, or goes on without a
-- task, or with one.
unfoldable pub after_take : List ℕ → Workers → Workers
after_take [] w = if w.pool.running then w else record w { heads = w.heads + 1 }
after_take (task ∷ rest) w = record w { holding = w.holding ++ (task ∷ []) }

unfoldable pub take : Workers → Workers
take w = after_take w.pool.tasks (record w { pool = take_task w.pool; calling = w.calling - 1 })

unfoldable pub retake : Workers → Workers
retake w = after_take w.pool.tasks (record w { pool = resume_take w.pool })

-- A worker has run its task; `others` are the tasks of the others.
unfoldable pub finish_task : ℕ → List ℕ → Workers → Workers
finish_task task others w = record w {
  holding = others;
  ran = w.ran ++ (task ∷ []);
  heads = w.heads + 1;
}

-- `stop`, up to its loop
unfoldable pub stop : Workers → Result Workers
stop w = assert w.pool.running >> ok (record w { stage = draining })

-- the destructor, up to the loop of `stop`
unfoldable pub destroy : Workers → Result Workers
destroy w = if w.pool.running then stop w else ok w

-- the test of `stop` for an empty queue
unfoldable pub see_empty : Workers → Workers
see_empty w = elim w.pool.tasks [ [] ↦ record w { stage = drained } | _ ∷ _ ↦ w ]

unfoldable pub clear : Workers → Workers
clear w = record w { pool = clear_running w.pool; stage = cleared }

unfoldable pub wake_all : Workers → Workers
wake_all w = record w { pool = notify_all w.pool; stage = joining }

-- The last `join` returns.
unfoldable pub join : Workers → Workers
join w = record w { stage = joined }

-- What any thread can do next. The flag tells whether a worker does it.
pub data Step : Bool → Workers → Workers → Type 0 where
  admits : (task : ℕ) {w w' : Workers} → admit task w ≡ ok w' → Step false w w'
  enters :
      (task : ℕ) (before after : List ℕ) {w : Workers}
      → w.entering ≡ before ++ (task ∷ after)
      → Step false w (enter task (before ++ after) w)
  reenters : (task : ℕ) {w : Workers} → 0 < w.pool.released → Step false w (reenter task w)
  leaves :
      {w : Workers}
      → 0 < w.pool.blocked
      → Step false w (record w {
        pool = record w.pool { blocked = w.pool.blocked - 1; released = w.pool.released + 1 };
      })
  stirs :
      {w : Workers}
      → 0 < w.pool.idle
      → Step false w
          (record w { pool = record w.pool { idle = w.pool.idle - 1; woken = w.pool.woken + 1 } })
  tests : {w : Workers} → 0 < w.heads → Step true w (test_running w)
  takes : {w : Workers} → 0 < w.calling → Step true w (take w)
  retakes : {w : Workers} → 0 < w.pool.woken → Step true w (retake w)
  finishes :
      (task : ℕ) (before after : List ℕ) {w : Workers}
      → w.holding ≡ before ++ (task ∷ after)
      → Step true w (finish_task task (before ++ after) w)
  stops : {w w' : Workers} → w.stage ≡ serving → stop w ≡ ok w' → Step false w w'
  sees_empty : {w : Workers} → w.stage ≡ draining → Step false w (see_empty w)
  clears : {w : Workers} → w.stage ≡ drained → Step false w (clear w)
  wakes_all : {w : Workers} → w.stage ≡ cleared → Step false w (wake_all w)
  joins : {w : Workers} → w.stage ≡ joining → w.finished ≡ w.pool.workers → Step false w (join w)

-- Any number of steps.
pub data Steps (w : Workers) : Workers → Type 0 where
  here : Steps w w
  next : {b : Bool} {v u : Workers} → Steps w v → Step b v u → Steps w u

-- The states of the pool made with these sizes.
abbrev pub Reachable : ℕ → ℕ → Workers → Type 0
Reachable num_thread max_queue_size w =
    (v : Workers) × (start num_thread max_queue_size ≡ ok v) × Steps v w
