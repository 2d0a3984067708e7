-- ===== src/Examples/Timers.antt =====
-- The theorems on timers, at a set with one timer that repeats and one that does not.
use cppweb.TimerQueue.Dangling.{handle_read-cancel_in_loop}
use mathlib.Core.Path.{subst}
use cppweb.TimerQueue.Members.{Has}
use cppweb.TimerQueue.Reentrant.{Handled, handle_read-Handled}
use cppweb.TimerQueue.Using.{Uses, IsUsing, Adds-Uses, Uses-append, cancel_in_loop-Uses}
use cppweb.TimerQueue.Growth.{Grown, handle_read-Grown}
use cppweb.TimerQueue.Adding.{IsAdding, add_timer-Adds}
use cppweb.Base.{
  ℕ, ◌≡◌, inl, inr, refl, true, false, Option, none, some, [], ◌∷◌, arith, ok, fault, dangling,
  Returns, ◌==◌, if◌then◌else◌, Option-cases, Result, ◌>>=◌, List, sym, ==_of_ne, ◌≢◌,
}
use cppweb.TimerQueue.{Timer, TimerQueue, Run, add_timer, cancel_in_loop, handle_read, Entry}
use cppweb.TimerQueue.Memory.{IsValid}
use cppweb.TimerQueue.Settle.{IsQuiet}

-- The timer at the address 64 repeats, and the one at 96 does not.
abbrev pub heap : ℕ → Option Timer
heap a =
    if a == 64
    then some (record { at = 10; interval = 5; repeat = true; canceled = false })
    else (if a == 96
        then some (record { at = 20; interval = 0; repeat = false; canceled = false })
        else none)

abbrev pub two_timers : TimerQueue
two_timers = record { timers = (10, 64) ∷ (20, 96) ∷ []; heap = heap; armed = some 10; fired = [] }

pub two_timers-IsValid : IsValid two_timers
two_timers-IsValid = record {
  sorted = ((ground arith, tt), (tt, tt));
  distinct = (((λ e. omega (arith, e)), tt), (tt, tt));
  live = ((_, refl, refl, refl), ((_, refl, refl, refl), tt));
}

abbrev pub quiet_run : Run
quiet_run a q = ok q

pub quiet_run-IsQuiet : IsQuiet quiet_run
quiet_run-IsQuiet a q = refl

-- The callback of the timer at 64 cancels that at 96, when both are due.
abbrev cancels_other : Run
cancels_other a q = if a == 64 then cancel_in_loop 96 q else ok q

cancels_other-quiet : (b : ℕ) (q : TimerQueue) → b ≢ 64 → cancels_other b q ≡ ok q
cancels_other-quiet b q ne = rw (==_of_ne b 64 ne) refl

handle_read-cancel_in_loop_example : handle_read cancels_other 22 23 two_timers ≡ fault dangling
handle_read-cancel_in_loop_example =
    handle_read-cancel_in_loop cancels_other 22 23 (20, 96) two_timers-IsValid refl (omega arith)
      (λ _. refl) (inr (inl refl, omega arith, cancels_other-quiet))

-- A callback that adds a timer that is due already, where its address is free.
abbrev adder : Run
adder a q = elim (q.heap 128) [ none ↦ add_timer 12 12 0 128 q | some t ↦ ok q ]

adder-IsAdding : IsAdding adder
adder-IsAdding a q v = elim (Option-cases (q.heap 128)) [
  | inl free ↦ rw (free, adder) (add_timer-Adds 12 12 0 128 v free)
  | inr (t, taken) ↦
      rw (taken, adder)
        (
          q,
          refl,
          record {
            valid = v;
            fired = refl;
            kept = λ f m. m;
            heap = λ b u e. e;
            apart = λ b u e far. far;
          },
        )
]

handle_read-Grown_example : Returns (handle_read adder 12 13 two_timers) (Grown 12 13 two_timers)
handle_read-Grown_example = handle_read-Grown adder 12 13 adder-IsAdding two_timers-IsValid

-- A callback that adds a timer where its address is free, and then cancels the timer that is first in the set.
abbrev cancel_head : List Entry → TimerQueue → Result TimerQueue
cancel_head [] q = ok q
cancel_head (e ∷ es) q = cancel_in_loop e.1 q

abbrev cancel_first : TimerQueue → Result TimerQueue
cancel_first q = cancel_head q.timers q

unchanged-Uses : {q : TimerQueue} → IsValid q → Uses q q
unchanged-Uses v = record {
  valid = v;
  fired = refl;
  heap = λ b t e far. e;
  apart = λ b t e far. far;
}

cancel_head-Uses :
    (es : List Entry) {q : TimerQueue}
    → IsValid q
    → q.timers ≡ es
    → Returns (cancel_head es q) (Uses q)
cancel_head-Uses [] {q} v waits = (q, refl, unchanged-Uses v)
cancel_head-Uses (e ∷ es) v waits =
    cancel_in_loop-Uses e.0 e.1 v (subst (Has e) (sym waits) (inl refl))

cancel_first-Uses : {q : TimerQueue} → IsValid q → Returns (cancel_first q) (Uses q)
cancel_first-Uses {q} v = cancel_head-Uses q.timers v refl

abbrev replacer : Run
replacer a q = elim (q.heap 128) [
  | none ↦ add_timer 12 30 0 128 q >>= cancel_first
  | some t ↦ cancel_first q
]

replacer-IsUsing : IsUsing replacer
replacer-IsUsing a q v = elim (Option-cases (q.heap 128)) [
  | inl free ↦
      let (q1, e1, added) = add_timer-Adds 12 30 0 128 v free in
      let (q2, e2, gone) = cancel_first-Uses added.valid in
      rw (free, replacer, e1) (q2, e2, Uses-append (Adds-Uses added) gone)
  | inr (t, taken) ↦ rw (taken, replacer) (cancel_first-Uses v)
]

handle_read-Handled_example :
    Returns (handle_read replacer 12 13 two_timers) (Handled 12 13 two_timers)
handle_read-Handled_example = handle_read-Handled replacer 12 13 replacer-IsUsing two_timers-IsValid
