-- ===== src/LoopThread.antt =====
-- cppweb/EventLoopThread.hpp and cppweb/EventLoopThread.cpp: a thread that makes an event loop and hands
-- it to the caller of `startLoop`, as the steps of the two threads. The address of the new loop is the
-- system's.
pub mod Handover
pub mod Ending
use cppweb.Base.{
  if◌then◌else◌, ℕ, ◌≡◌, Bool, true, false, not, Option, none, some, Result, ok, ◌>>=◌, ◌>>◌,
  assert, check,
}

-- Where the caller of `startLoop` is: it did not call; the thread is started; in `m_cond.wait`; notified
-- there; returned with a value.
pub data Caller : Type 0 where
  idle spawned waiting woken : Caller
  returned : Option ℕ → Caller

-- Where `runInThread` is: not started; before `m_loop = &loop`; before `notify_one`; in `loop`; returned.
pub data Worker : Type 0 where
  unborn created announced notified ended : Worker

-- `quitting` tells whether the loop was told to quit, and `gone` whether the destructor returned.
pub record LoopThread : Type 0 where
  pub started : Bool
  pub loop : Option ℕ
  pub caller : Caller
  pub worker : Worker
  pub quitting : Bool
  pub gone : Bool

unfoldable pub make : LoopThread
make = record {
  started = false;
  loop = none;
  caller = idle;
  worker = unborn;
  quitting = false;
  gone = false;
}

-- `startLoop`, up to the start of the thread
unfoldable pub start_loop : LoopThread → Result LoopThread
start_loop p =
    assert (not p.started) >> ok (record p { started = true; caller = spawned; worker = created })

-- `wait`, which has no condition
unfoldable pub begin_wait : LoopThread → LoopThread
begin_wait p = record p { caller = waiting }

unfoldable pub set_loop : ℕ → LoopThread → LoopThread
set_loop a p = record p { loop = some a; worker = announced }

-- the caller after `notify_one`
abbrev pub notify_caller : Caller → Caller
notify_caller idle = idle
notify_caller spawned = spawned
notify_caller waiting = woken
notify_caller woken = woken
notify_caller (returned r) = returned r

unfoldable pub notify : LoopThread → LoopThread
notify p = record p { caller = notify_caller p.caller; worker = notified }

unfoldable pub return_loop : LoopThread → LoopThread
return_loop p = record p { caller = returned p.loop }

-- `quit` of the loop, by a thread that has its address
unfoldable pub quit : LoopThread → LoopThread
quit p = record p { quitting = true }

-- `loop` returns, and `runInThread` with it, which ends the loop; `m_loop` stays.
unfoldable pub end_thread : LoopThread → LoopThread
end_thread p = record p { worker = ended }

abbrev pub has_ended : Worker → Bool
has_ended unborn = false
has_ended created = false
has_ended announced = false
has_ended notified = false
has_ended ended = true

-- The destructor can return: it joins the thread where there is one.
unfoldable pub can_return : LoopThread → Bool
can_return p = if p.started then has_ended p.worker else true

unfoldable pub destroy : LoopThread → LoopThread
destroy p = record p { gone = true }

-- What the threads can do next. The flag tells whether `wait` may return without being notified.
pub data Step (spurious : Bool) : LoopThread → LoopThread → Type 0 where
  starts :
      {p p' : LoopThread}
      → p.gone ≡ false
      → p.caller ≡ idle
      → start_loop p ≡ ok p'
      → Step spurious p p'
  waits : {p : LoopThread} → p.caller ≡ spawned → Step spurious p (begin_wait p)
  sets : (a : ℕ) {p : LoopThread} → p.worker ≡ created → Step spurious p (set_loop a p)
  notifies : {p : LoopThread} → p.worker ≡ announced → Step spurious p (notify p)
  returns : {p : LoopThread} → p.caller ≡ woken → Step spurious p (return_loop p)
  quits : {p : LoopThread} → p.worker ≡ notified → Step spurious p (quit p)
  ends : {p : LoopThread} → p.worker ≡ notified → p.quitting ≡ true → Step spurious p (end_thread p)
  destroys : {p : LoopThread} → can_return p ≡ true → Step spurious p (destroy p)
  stirs : {p : LoopThread} → spurious ≡ true → p.caller ≡ waiting → Step spurious p (return_loop p)

-- Any number of steps.
pub data Steps (spurious : Bool) (p : LoopThread) : LoopThread → Type 0 where
  here : Steps spurious p p
  next : {q r : LoopThread} → Steps spurious p q → Step spurious q r → Steps spurious p r
