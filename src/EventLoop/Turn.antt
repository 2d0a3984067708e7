-- ===== src/EventLoop/Turn.antt =====
-- cppweb/EventLoop.cpp: a turn of `loop` with the channels that `poll` makes active, their callbacks, and the
-- tasks, in the loop's thread. Callbacks and tasks are the users', and may change channels and queue tasks.
use cppweb.Base.{ℕ, List, [], ◌∷◌, ◌++◌, Bool, ◌==◌, Result, ok, ◌>>=◌, ◌>>◌, assert}
use cppweb.Channel.{Callback, handle_events}
use cppweb.Epoller.{Waited, Poll}
use cppweb.Epoller

-- A callback of the channel of a descriptor, or a task.
pub data Run : Type 0 where
  called : ℕ → Callback → Run
  ran : ℕ → Run

-- The poller with the channels, `m_activeChannels` among them, the tasks that are queued, and what ran.
pub record Turn : Type 0 where
  pub poll : Poll
  pub pending : List ℕ
  pub log : List Run

-- What the users' code is: the callbacks, the tasks, and whether the object that a channel is tied to exists.
pub record Users : Type 0 where
  pub handle : ℕ → Callback → Turn → Result Turn
  pub perform : ℕ → Turn → Result Turn
  pub alive : ℕ → Turn → Bool

-- The callbacks of one channel, in order.
unfoldable pub call_all : Users → ℕ → List Callback → Turn → Result Turn
call_all u fd [] t = ok t
call_all u fd (k ∷ ks) t = do
  t' ← u.handle fd k (record t { log = t.log ++ (called fd k ∷ []) })
  call_all u fd ks t'

-- The loop over `m_activeChannels`.
unfoldable pub handle_active : Users → ℕ → List ℕ → Turn → Result Turn
handle_active u tid [] t = ok t
handle_active u tid (fd ∷ fds) t = do
  ks ← handle_events tid (u.alive fd t) (t.poll.channels fd)
  t' ← call_all u fd ks t
  handle_active u tid fds t'

-- The loop over `tasks`.
unfoldable pub run_tasks : Users → List ℕ → Turn → Result Turn
run_tasks u [] t = ok t
run_tasks u (task ∷ tasks) t = do
  t' ← u.perform task (record t { log = t.log ++ (ran task ∷ []) })
  run_tasks u tasks t'

-- `m_activeChannels.clear()`, then `m_poller.poll`.
unfoldable pub wait_active : (ℕ → Waited) → Turn → Turn
wait_active wait t = record t { poll = cppweb.Epoller.poll wait (record t.poll { active = [] }) }

-- The exchange of `tasks` and `m_pendingTasks`, and the loop over them.
unfoldable pub take_and_run : Users → Turn → Result Turn
take_and_run u t = run_tasks u t.pending (record t { pending = [] })

-- The body of the loop, run by the thread `tid` in the loop of the thread `loop_tid`.
unfoldable pub turn : Users → (ℕ → Waited) → ℕ → ℕ → Turn → Result Turn
turn u wait loop_tid tid t = do
  let t1 = wait_active wait t
  t2 ← handle_active u tid t1.poll.active t1
  assert (loop_tid == tid)
  take_and_run u t2
