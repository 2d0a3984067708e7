-- ===== src/TcpServer.antt =====
-- cppweb/TCPServer.hpp and cppweb/TCPServer.cpp: a server that listens in several threads, as the steps
-- of the thread that runs `startInLoop` and of those that run `runInThread`. The addresses of the new
-- loops are the system's. The servers of the single loops are those of Server.antt.
pub mod Starting
pub mod Ending
pub mod Missed
use cppweb.Base.{
  ℕ, suc, ◌≡◌, Bool, true, false, not, Option, none, some, List, [], ◌∷◌, ltb, ◌==◌, if◌then◌else◌,
  Result, ok, ◌>>=◌, ◌>>◌, assert, check, zero, ◌++◌,
}
use cppweb.LoopThread.{Worker, unborn, created, announced, notified}

-- Where `startInLoop` is: not asked for; a task of the loop; at the test of `while` with index `i`; after
-- a test that found no loop; in `m_cond.wait`; notified there; returned.
pub data Main : Type 0 where
  idle asked : Main
  testing seen_null waiting woken : ℕ → Main
  done : Main

-- `m_eventLoopList` is `size` and `loops`; `workers` are the threads by their index.
pub record TcpServer : Type 0 where
  pub tid : ℕ
  pub started : Bool
  pub thread_num : ℕ
  pub size : ℕ
  pub loops : ℕ → Option ℕ
  pub main : Main
  pub workers : ℕ → Worker

unfoldable pub make : ℕ → TcpServer
make tid = record {
  tid = tid;
  started = false;
  thread_num = 1;
  size = 0;
  loops = λ i. none;
  main = idle;
  workers = λ i. unborn;
}

unfoldable pub set_thread_num : ℕ → ℕ → TcpServer → Result TcpServer
set_thread_num tid n p = do
  assert (p.tid == tid)
  assert (ltb 0 n)
  assert (not p.started)
  ok (record p {
    thread_num = n;
    size = n;
    loops = λ i. if ltb i p.size then (if ltb i n then p.loops i else none) else none;
  })

-- `start`, up to the task
unfoldable pub start : TcpServer → TcpServer
start p = if p.started then p else record p { started = true; main = asked }

abbrev pub set_worker : ℕ → Worker → TcpServer → TcpServer
set_worker i w p = record p { workers = λ j. if j == i then w else p.workers j }

-- the head of the `for` with index `i`, and the start of the thread
unfoldable pub enter_for : ℕ → TcpServer → TcpServer
enter_for i p =
    if ltb i p.thread_num
    then set_worker i created (record p { main = testing i })
    else record p { main = done }

-- the test of `while`
unfoldable pub test_null : ℕ → TcpServer → TcpServer
test_null i p = elim (p.loops i) [
  | none ↦ record p { main = seen_null i }
  | some a ↦ enter_for (suc i) p
]

-- `wait` releases the mutex and waits.
unfoldable pub begin_wait : ℕ → TcpServer → TcpServer
begin_wait i p = record p { main = waiting i }

-- `wait` returns.
unfoldable pub end_wait : ℕ → TcpServer → TcpServer
end_wait i p = record p { main = testing i }

-- `m_eventLoopList[index] = &loop`, without the mutex
unfoldable pub set_loop : ℕ → ℕ → TcpServer → TcpServer
set_loop i a p =
    set_worker i announced (record p { loops = λ j. if j == i then some a else p.loops j })

-- what `notify_one` does to the thread that may wait
abbrev pub notify_main : Main → Main
notify_main idle = idle
notify_main asked = asked
notify_main (testing i) = testing i
notify_main (seen_null i) = seen_null i
notify_main (waiting i) = woken i
notify_main (woken i) = woken i
notify_main done = done

unfoldable pub notify : ℕ → TcpServer → TcpServer
notify i p = set_worker i notified (record p { main = notify_main p.main })

-- The loops that the destructor quits among those of the indices below `n`, in order. It then joins the
-- threads.
unfoldable pub quits : ℕ → TcpServer → List ℕ
quits zero p = []
quits (suc n) p =
    let rest = quits n p in elim (p.loops n) [ none ↦ rest | some a ↦ rest ++ (a ∷ []) ]

unfoldable pub destroy : TcpServer → List ℕ
destroy p = quits p.size p

-- What the threads can do next. The flag tells whether `wait` may return without being notified.
pub data Step (spurious : Bool) : TcpServer → TcpServer → Type 0 where
  sets_num : (tid n : ℕ) {p p' : TcpServer} → set_thread_num tid n p ≡ ok p' → Step spurious p p'
  starts : {p : TcpServer} → Step spurious p (start p)
  begins : {p : TcpServer} → p.main ≡ asked → Step spurious p (enter_for 1 p)
  tests : (i : ℕ) {p : TcpServer} → p.main ≡ testing i → Step spurious p (test_null i p)
  waits : (i : ℕ) {p : TcpServer} → p.main ≡ seen_null i → Step spurious p (begin_wait i p)
  resumes : (i : ℕ) {p : TcpServer} → p.main ≡ woken i → Step spurious p (end_wait i p)
  stirs :
      (i : ℕ) {p : TcpServer}
      → spurious ≡ true
      → p.main ≡ waiting i
      → Step spurious p (end_wait i p)
  sets : (i a : ℕ) {p : TcpServer} → p.workers i ≡ created → Step spurious p (set_loop i a p)
  notifies : (i : ℕ) {p : TcpServer} → p.workers i ≡ announced → Step spurious p (notify i p)

-- Any number of steps.
pub data Steps (spurious : Bool) (p : TcpServer) : TcpServer → Type 0 where
  here : Steps spurious p p
  next : {q r : TcpServer} → Steps spurious p q → Step spurious q r → Steps spurious p r
