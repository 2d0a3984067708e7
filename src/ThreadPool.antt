-- ===== src/ThreadPool.antt =====
-- cppweb/ThreadPool.hpp and cppweb/ThreadPool.cpp: the queue of tasks, its workers and producers, as
-- the steps that hold the mutex. Threads that wait on a condition variable are counted: those not
-- notified, and those notified that do not hold the mutex yet. Tasks are numbers.
pub mod Waiting
pub mod Workers
pub mod Rounds
pub mod Stopping
pub mod Queue
pub mod Joining
pub mod Finished
pub mod Drained
use cppweb.Base.{
  ◌<◌, ℕ, ◌+◌, ◌-◌, ◌≡◌, Bool, true, false, not, ◌&&◌, List, [], ◌∷◌, ◌++◌, length, ltb, leb, ◌==◌,
  if◌then◌else◌, Result, ok, assert, check, ◌>>=◌, ◌>>◌,
}

-- `idle` and `woken` count the threads in `m_notEmpty.wait`, `blocked` and `released` those in
-- `m_notFull.wait`. `queued` and `taken` list the tasks that entered and left the queue.
pub record ThreadPool : Type 0 where
  pub workers : ℕ
  pub tasks : List ℕ
  pub max_queue_size : ℕ
  pub running : Bool
  pub idle : ℕ
  pub woken : ℕ
  pub blocked : ℕ
  pub released : ℕ
  pub told : Bool
  pub queued : List ℕ
  pub taken : List ℕ
  pub direct : List ℕ

unfoldable pub initial : ℕ → ℕ → ThreadPool
initial num_thread max_queue_size = record {
  workers = num_thread;
  tasks = [];
  max_queue_size = max_queue_size;
  running = true;
  idle = 0;
  woken = 0;
  blocked = 0;
  released = 0;
  told = false;
  queued = [];
  taken = [];
  direct = [];
}

unfoldable pub make : ℕ → ℕ → Result ThreadPool
make num_thread max_queue_size = do
  assert (ltb 0 max_queue_size)
  ok (initial num_thread max_queue_size)

-- `m_notEmpty.notify_one` and `m_notFull.notify_one`
unfoldable pub notify_not_empty : ThreadPool → ThreadPool
notify_not_empty p = if ltb 0 p.idle then record p { idle = p.idle - 1; woken = p.woken + 1 } else p

unfoldable pub notify_not_full : ThreadPool → ThreadPool
notify_not_full p =
    if ltb 0 p.blocked then record p { blocked = p.blocked - 1; released = p.released + 1 } else p

-- One round of the loop of `runTask`, with the mutex held: the task enters, or the thread waits.
unfoldable pub enter_task : ℕ → ThreadPool → ThreadPool
enter_task task p =
    if leb p.max_queue_size (length p.tasks)
    then record p { blocked = p.blocked + 1 }
    else notify_not_empty
        (record p { tasks = p.tasks ++ (task ∷ []); queued = p.queued ++ (task ∷ []) })

-- `runTask`, up to the first wait.
unfoldable pub run_task : ℕ → ThreadPool → Result ThreadPool
run_task task p = do
  assert p.running
  ok (if p.workers == 0 then record p { direct = p.direct ++ (task ∷ []) } else enter_task task p)

-- `runTask` after a wait.
unfoldable pub resume_enter : ℕ → ThreadPool → ThreadPool
resume_enter task p = enter_task task (record p { released = p.released - 1 })

-- One round of the loop of `takeTask`, with the mutex held: the thread waits, or takes the first
-- task, or returns without one.
unfoldable pub take_task : ThreadPool → ThreadPool
take_task p = elim p.tasks [
  | [] ↦ if p.running then record p { idle = p.idle + 1 } else p
  | task ∷ rest ↦ notify_not_full (record p { tasks = rest; taken = p.taken ++ (task ∷ []) })
]

-- `takeTask` after a wait.
unfoldable pub resume_take : ThreadPool → ThreadPool
resume_take p = take_task (record p { woken = p.woken - 1 })

-- `stop`: the flag is cleared once the queue was seen empty, then all workers are notified.
unfoldable pub clear_running : ThreadPool → ThreadPool
clear_running p = record p { running = false }

unfoldable pub notify_all : ThreadPool → ThreadPool
notify_all p = record p { idle = 0; woken = p.woken + p.idle; told = true }

-- What any thread can do next. A thread may return from a wait without being notified. `pushes` is a
-- `runTask` whose assertion held earlier.
pub data Step : ThreadPool → ThreadPool → Type 0 where
  enters : (task : ℕ) {p p' : ThreadPool} → run_task task p ≡ ok p' → Step p p'
  pushes : (task : ℕ) {p : ThreadPool} → Step p (enter_task task p)
  reenters : (task : ℕ) {p : ThreadPool} → 0 < p.released → Step p (resume_enter task p)
  takes : {p : ThreadPool} → Step p (take_task p)
  retakes : {p : ThreadPool} → 0 < p.woken → Step p (resume_take p)
  stirs :
      {p : ThreadPool} → 0 < p.idle → Step p (record p { idle = p.idle - 1; woken = p.woken + 1 })
  leaves :
      {p : ThreadPool}
      → 0 < p.blocked
      → Step p (record p { blocked = p.blocked - 1; released = p.released + 1 })
  clears : {p : ThreadPool} → Step p (clear_running p)
  notifies : {p : ThreadPool} → p.running ≡ false → Step p (notify_all p)

-- The states of the pool made with these sizes.
pub data Reachable (num_thread max_queue_size : ℕ) : ThreadPool → Type 0 where
  starts :
      {p : ThreadPool}
      → make num_thread max_queue_size ≡ ok p
      → Reachable num_thread max_queue_size p
  next :
      {p p' : ThreadPool}
      → Reachable num_thread max_queue_size p
      → Step p p'
      → Reachable num_thread max_queue_size p'
