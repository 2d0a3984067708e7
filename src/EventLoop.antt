-- ===== src/EventLoop.antt =====
-- cppweb/EventLoop.cpp: the event loop, its queue of tasks and the descriptor that wakes it, as
-- steps that the loop's thread and others take in any order. A step is what runs under the mutex,
-- or one system call. The counter of the wake-up descriptor and the calls on it are the kernel's.
pub mod Wakeup
pub mod Queue
pub mod Turn
pub mod Manners
pub mod Lifetime
pub mod Dispatching
pub mod Serving
use cppweb.Base.{
  Result, ok, assert, check, ◌>>=◌, ◌>>◌, ℕ, ◌+◌, ◌-◌, ◌≡◌, Bool, true, false, List, [], ◌∷◌, ◌++◌,
  ◌==◌, not, if◌then◌else◌,
}

-- `eventfd`, `write` and `read` of one number, and whether `epoll_wait` reports the descriptor.
pub record EventFd : Type 0 where
  pub write : ℕ → ℕ
  pub read : ℕ → ℕ
  pub readable : ℕ → Bool
  pub readable-write : (n : ℕ) → readable (write n) ≡ true

-- Where `loop` is: before the test of `m_quit`; in `poll`; handling the active channels, with the
-- wake-up channel among those left or not; in the loop over the tasks it took; returned.
pub data Phase : Type 0 where
  deciding : Phase
  polling : Phase
  handling : (woken : Bool) → Phase
  running : (tasks : List ℕ) → Phase
  stopped : Phase

-- `owed` counts the calls of `wakeup` that follow a change already made. `queued` lists the tasks
-- that `queueInLoop` was given, `ran` those of them that ran, and `direct` those that `runInLoop`
-- called at once, all oldest first.
pub record EventLoop : Type 0 where
  pub tid : ℕ
  pub quitting : Bool
  pub phase : Phase
  pub pending : List ℕ
  pub counter : ℕ
  pub owed : ℕ
  pub queued : List ℕ
  pub ran : List ℕ
  pub direct : List ℕ

unfoldable pub make : ℕ → EventLoop
make tid = record {
  tid = tid;
  quitting = false;
  phase = deciding;
  pending = [];
  counter = 0;
  owed = 0;
  queued = [];
  ran = [];
  direct = [];
}

unfoldable pub is_in_loop_thread : ℕ → EventLoop → Bool
is_in_loop_thread tid l = l.tid == tid

-- The part of `queueInLoop` that holds the mutex.
unfoldable pub push_task : ℕ → EventLoop → EventLoop
push_task task l = record l {
  pending = l.pending ++ (task ∷ []);
  queued = l.queued ++ (task ∷ []);
  owed = l.owed + 1;
}

unfoldable pub wakeup : EventFd → EventLoop → EventLoop
wakeup fd l = record l { counter = fd.write l.counter; owed = l.owed - 1 }

unfoldable pub queue_in_loop : EventFd → ℕ → EventLoop → EventLoop
queue_in_loop fd task l = wakeup fd (push_task task l)

unfoldable pub run_in_loop : EventFd → ℕ → ℕ → EventLoop → EventLoop
run_in_loop fd tid task l =
    if is_in_loop_thread tid l
    then record l { direct = l.direct ++ (task ∷ []) }
    else queue_in_loop fd task l

-- The change that `quit` makes; from another thread a call of `wakeup` follows.
unfoldable pub set_quit : ℕ → EventLoop → EventLoop
set_quit tid l =
    if not (is_in_loop_thread tid l)
    then record l { quitting = true; owed = l.owed + 1 }
    else record l { quitting = true }

unfoldable pub quit : EventFd → ℕ → EventLoop → Result EventLoop
quit fd tid l = do
  assert (not l.quitting)
  ok (if not (is_in_loop_thread tid l) then wakeup fd (set_quit tid l) else set_quit tid l)

-- the test of `m_quit`
unfoldable pub decide : EventLoop → EventLoop
decide l = if not l.quitting then record l { phase = polling } else record l { phase = stopped }

-- `poll` returns, with the wake-up channel active where its descriptor is readable.
unfoldable pub poll : EventFd → EventLoop → EventLoop
poll fd l = record l { phase = handling (fd.readable l.counter) }

-- `handleRead` of the wake-up channel
unfoldable pub handle_read : EventFd → EventLoop → EventLoop
handle_read fd l = record l { counter = fd.read l.counter; phase = handling false }

-- the exchange of `tasks` and `m_pendingTasks`
unfoldable pub take_tasks : EventLoop → EventLoop
take_tasks l = record l { phase = running l.pending; pending = [] }

-- the first of the tasks that are left
unfoldable pub run_task : ℕ → List ℕ → EventLoop → EventLoop
run_task task tasks l = record l { ran = l.ran ++ (task ∷ []); phase = running tasks }

unfoldable pub finish_round : EventLoop → EventLoop
finish_round l = record l { phase = deciding }

-- The thread can call an operation now: the loop's own thread only where it runs callbacks.
unfoldable pub can_call : ℕ → EventLoop → Bool
can_call tid l =
    if is_in_loop_thread tid l
    then elim l.phase [
      | deciding ↦ false
      | polling ↦ false
      | handling _ ↦ true
      | running _ ↦ true
      | stopped ↦ true
    ]
    else true

-- What any thread can do next.
pub data Step (fd : EventFd) : EventLoop → EventLoop → Type 0 where
  pushes : (task : ℕ) {l : EventLoop} → Step fd l (push_task task l)
  wakes : {l : EventLoop} → Step fd l (wakeup fd l)
  quits :
      (tid : ℕ) {l : EventLoop}
      → can_call tid l ≡ true
      → l.quitting ≡ false
      → Step fd l (set_quit tid l)
  decides : {l : EventLoop} → l.phase ≡ deciding → Step fd l (decide l)
  polls : {l : EventLoop} → l.phase ≡ polling → Step fd l (poll fd l)
  reads : {l : EventLoop} → l.phase ≡ handling true → Step fd l (handle_read fd l)
  takes : {l : EventLoop} → l.phase ≡ handling false → Step fd l (take_tasks l)
  runs :
      (task : ℕ) (tasks : List ℕ) {l : EventLoop}
      → l.phase ≡ running (task ∷ tasks)
      → Step fd l (run_task task tasks l)
  finishes : {l : EventLoop} → l.phase ≡ running [] → Step fd l (finish_round l)

-- The states of the loop made by the thread `tid`.
pub data Reachable (fd : EventFd) (tid : ℕ) : EventLoop → Type 0 where
  starts : Reachable fd tid (make tid)
  next : {l l' : EventLoop} → Reachable fd tid l → Step fd l l' → Reachable fd tid l'

-- The loop over the tasks, undisturbed.
unfoldable pub run_tasks : List ℕ → EventLoop → EventLoop
run_tasks [] l = finish_round l
run_tasks (task ∷ tasks) l = run_tasks tasks (run_task task tasks l)

-- One turn of `loop` from `poll` on, undisturbed.
unfoldable pub round : EventFd → EventLoop → EventLoop
round fd l =
    let l1 = poll fd l in
    let l2 = if fd.readable l.counter then handle_read fd l1 else l1 in
    run_tasks l2.pending (take_tasks l2)
