-- ===== src/LoopThread/Handover.antt =====
-- When `startLoop` returns, it returns the loop; and when it does not return.

use cppweb.Base.{
  ℕ, ◌≡◌, ◌≢◌, ◌⊎◌, refl, sym, ap, ◌∙◌, false, Option, none, some, arith, ok, Bool, inl, inr,
}
use cppweb.LoopThread.{
  Caller, idle, spawned, waiting, woken, returned, created, announced, notified, LoopThread, make,
  start_loop, begin_wait, set_loop, notify_caller, notify, return_loop, Step, starts, waits, sets,
  notifies, returns, stirs, Steps, here, next, ended, quit, end_thread, destroy, quits, ends,
  destroys,
}

-- The loop that the new thread made in a run, where it came to that: the one of its last `m_loop = &loop`.
abbrev pub made : {b : Bool} → {p p' : LoopThread} → Steps b p p' → Option ℕ
made here = none
made (next before (starts there turn e)) = made before
made (next before (waits turn)) = made before
made (next before (sets a turn)) = some a
made (next before (notifies turn)) = made before
made (next before (returns turn)) = made before
made (next before (quits turn)) = made before
made (next before (ends turn told)) = made before
made (next before (destroys free)) = made before
made (next before (stirs may turn)) = made before

-- `m_loop` is the loop `o` that the worker made, and there is one.
abbrev HasLoop : Option ℕ → LoopThread → Type 0
HasLoop o p = (a : ℕ) × (o ≡ some a) × (p.loop ≡ some a)

-- What the caller may rely on: it is notified, and returns, only with the loop that the worker made.
record IsHanded (o : Option ℕ) (p : LoopThread) : Type 0 where
  when_created : p.worker ≡ created → (p.caller ≡ spawned) ⊎ (p.caller ≡ waiting)
  when_announced : p.worker ≡ announced → HasLoop o p
  when_notified : p.worker ≡ notified → HasLoop o p
  when_ended : p.worker ≡ ended → HasLoop o p
  when_woken : p.caller ≡ woken → HasLoop o p
  when_returned : (r : Option ℕ) → p.caller ≡ returned r → (a : ℕ) × (o ≡ some a) × (r ≡ some a)

-- The worker has notified, and maybe ended, and the caller is before the wait or in it.
abbrev pub IsMissed : LoopThread → Type 0
IsMissed p =
    ((p.worker ≡ notified) ⊎ (p.worker ≡ ended)) × ((p.caller ≡ spawned) ⊎ (p.caller ≡ waiting))

start_loop-started :
    (p : LoopThread) {p' : LoopThread}
    → start_loop p ≡ ok p'
    → (p'.caller ≡ spawned) × (p'.worker ≡ created)
unfolding start_loop
start_loop-started p e = ground arith

make-IsHanded : IsHanded none make
unfolding make
make-IsHanded = record {
  when_created = λ e. cc;
  when_announced = λ e. cc;
  when_notified = λ e. cc;
  when_ended = λ e. cc;
  when_woken = λ e. cc;
  when_returned = λ r e. cc;
}

abbrev result_of : Caller → Option ℕ
result_of idle = none
result_of spawned = none
result_of waiting = none
result_of woken = none
result_of (returned o) = o

notify_caller-returned : (c : Caller) (r : Option ℕ) → notify_caller c ≡ returned r → c ≡ returned r
notify_caller-returned idle r e = e
notify_caller-returned spawned r e = e
notify_caller-returned waiting r e = cc
notify_caller-returned woken r e = cc
notify_caller-returned (returned s) r e = e

started-IsHanded :
    {o : Option ℕ} {p : LoopThread} → p.caller ≡ spawned → p.worker ≡ created → IsHanded o p
started-IsHanded ec ew = record {
  when_created = λ _. inl ec;
  when_announced = λ e. cc;
  when_notified = λ e. cc;
  when_ended = λ e. cc;
  when_woken = λ e. cc;
  when_returned = λ r e. cc;
}

-- A caller of a thread that made no loop yet has not been woken.
not_yet :
    (c : Caller) → (c ≡ spawned) ⊎ (c ≡ waiting) → (c ≢ woken) × ((r : Option ℕ) → c ≢ returned r)
not_yet c (inl e) = ((λ w. cc), (λ r w. cc))
not_yet c (inr e) = ((λ w. cc), (λ r w. cc))

Steps-IsHanded : {p : LoopThread} (run : Steps false make p) → IsHanded (made run) p
unfolding begin_wait set_loop notify return_loop quit end_thread destroy
Steps-IsHanded here = make-IsHanded
Steps-IsHanded (next before (starts there turn e)) =
    let s = start_loop-started _ e in started-IsHanded s.0 s.1
Steps-IsHanded (next before (waits turn)) =
    let h = Steps-IsHanded before in
    record {
      when_created = λ e. inr refl;
      when_announced = h.when_announced;
      when_notified = h.when_notified;
      when_ended = h.when_ended;
      when_woken = λ e. cc;
      when_returned = λ r e. cc;
    }
Steps-IsHanded (next {q} before (sets a turn)) =
    let h = Steps-IsHanded before in
    let early = not_yet q.caller (h.when_created turn) in
    record {
      when_created = λ e. cc;
      when_announced = λ _. (a, refl, refl);
      when_notified = λ _. (a, refl, refl);
      when_ended = λ e. (a, refl, refl);
      when_woken = λ _. (a, refl, refl);
      when_returned = λ r e. absurd (early.1 r e);
    }
Steps-IsHanded (next {q} before (notifies turn)) =
    let h = Steps-IsHanded before in
    record {
      when_created = λ e. cc;
      when_announced = λ e. cc;
      when_notified = λ _. h.when_announced turn;
      when_ended = λ e. cc;
      when_woken = λ _. h.when_announced turn;
      when_returned = λ r e. h.when_returned r (notify_caller-returned q.caller r e);
    }
Steps-IsHanded (next {q} before (returns turn)) =
    let h = Steps-IsHanded before in
    record {
      when_created = λ e. absurd ((not_yet q.caller (h.when_created e)).0 turn);
      when_announced = h.when_announced;
      when_notified = h.when_notified;
      when_ended = h.when_ended;
      when_woken = λ e. cc;
      when_returned = λ r e. let (a, m, l) = h.when_woken turn in (a, m, ap result_of (sym e) ∙ l);
    }
Steps-IsHanded (next before (quits turn)) =
    let h = Steps-IsHanded before in
    record {
      when_created = h.when_created;
      when_announced = h.when_announced;
      when_notified = h.when_notified;
      when_ended = h.when_ended;
      when_woken = h.when_woken;
      when_returned = h.when_returned;
    }
Steps-IsHanded (next before (ends turn told)) =
    let h = Steps-IsHanded before in
    record {
      when_created = λ e. cc;
      when_announced = λ e. cc;
      when_notified = λ e. cc;
      when_ended = λ _. h.when_notified turn;
      when_woken = h.when_woken;
      when_returned = h.when_returned;
    }
Steps-IsHanded (next before (destroys free)) =
    let h = Steps-IsHanded before in
    record {
      when_created = h.when_created;
      when_announced = h.when_announced;
      when_notified = h.when_notified;
      when_ended = h.when_ended;
      when_woken = h.when_woken;
      when_returned = h.when_returned;
    }
Steps-IsHanded (next before (stirs never turn)) = cc

Step-IsMissed : {p p' : LoopThread} → IsMissed p → Step false p p' → IsMissed p'
unfolding begin_wait set_loop notify return_loop quit end_thread destroy
Step-IsMissed h (starts there turn e) = ground (arith, h)
Step-IsMissed h (waits turn) = ground (arith, h)
Step-IsMissed h (sets a turn) = ground (arith, h)
Step-IsMissed h (notifies turn) = ground (arith, h)
Step-IsMissed h (returns turn) = ground (arith, h)
Step-IsMissed h (quits turn) = ground (arith, h)
Step-IsMissed h (ends turn told) = ground (arith, h)
Step-IsMissed h (destroys free) = ground (arith, h)
Step-IsMissed h (stirs never turn) = cc

Steps-IsMissed : {p p' : LoopThread} → IsMissed p → Steps false p p' → IsMissed p'
Steps-IsMissed h here = h
Steps-IsMissed h (next before step) = Step-IsMissed (Steps-IsMissed h before) step

-- If `wait` returns only when it is notified, then whatever order the two threads take their steps in,
-- a call of `startLoop` that returns, returns the loop that the new thread made in this run, never a null
-- pointer and no other loop.
pub start_loop-return_loop :
    {p : LoopThread} {r : Option ℕ} (run : Steps false make p)
    → p.caller ≡ returned r
    → (a : ℕ) × (made run ≡ some a) × (r ≡ some a)
start_loop-return_loop {r = r} run e = (Steps-IsHanded run).when_returned r e

-- If the new thread has called `notify_one` and the caller is not yet in `wait`, or is in it without
-- having been notified, and `wait` returns only when it is notified, then `startLoop` never returns.
pub notify-begin_wait :
    {p q : LoopThread} {r : Option ℕ} → IsMissed p → Steps false p q → q.caller ≢ returned r
notify-begin_wait h run e = let m = Steps-IsMissed h run in ground (arith, m)
