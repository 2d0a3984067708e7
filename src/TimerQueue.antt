-- ===== src/TimerQueue.antt =====
-- cppweb/Timer.hpp, cppweb/TimerQueue.hpp and cppweb/TimerQueue.cpp: timers on the heap, the set
-- of entries ordered by time and then by address, and the timer descriptor. Times are nanoseconds
-- since the epoch, and intervals are not negative. The user's callback of a timer is an argument.
pub mod Order
pub mod Duration
pub mod Memory
pub mod Reading
pub mod Lasting
pub mod Adding
pub mod Growth
pub mod Using
pub mod Reentrant
pub mod Dangling
pub mod Lifetime
pub mod Expiry
pub mod Cancel
pub mod Settle
pub mod Members
use cppweb.Base.{
  ◌*◌, ℕ, suc, ◌+◌, ◌-◌, ◌/◌, ◌%◌, ◌≡◌, Bool, true, false, not, ◌&&◌, Option, none, some, List, [],
  ◌∷◌, ◌++◌, ltb, leb, ◌==◌, if◌then◌else◌, Result, ok, fault, ◌>>=◌, ◌>>◌, assert, check, dangling,
}

-- `Timer`, without its callback
pub record Timer : Type 0 where
  pub at : ℕ
  pub interval : ℕ
  pub repeat : Bool
  pub canceled : Bool

unfoldable pub make_timer : ℕ → ℕ → Timer
make_timer at interval = record {
  at = at;
  interval = interval;
  repeat = ltb 0 interval;
  canceled = false;
}

unfoldable pub is_expired : Timer → ℕ → Bool
is_expired t now = leb t.at now

unfoldable pub cancel : Timer → Result Timer
cancel t = assert (not t.canceled) >> ok (record t { canceled = true })

unfoldable pub restart : Timer → Result Timer
restart t = assert t.repeat >> ok (record t { at = t.at + t.interval })

-- An `Entry`: a time, and the address of a timer.
abbrev pub Entry : Type 0
Entry = ℕ × ℕ

abbrev pub less : Entry → Entry → Bool
less x y = if ltb x.0 y.0 then true else (if ltb y.0 x.0 then false else ltb x.1 y.1)

-- `std::set::insert`: the entries in order, and whether the entry is new.
unfoldable pub insert : Entry → List Entry → List Entry × Bool
insert e [] = (e ∷ [], true)
insert e (x ∷ xs) =
    let rest = insert e xs in
    if less e x
    then (e ∷ x ∷ xs, true)
    else if less x e
    then (x ∷ rest.0, rest.1)
    else (x ∷ xs, false)

-- `std::set::erase`
unfoldable pub erase : Entry → List Entry → List Entry
erase e [] = []
erase e (x ∷ xs) =
    let rest = erase e xs in if less e x then x ∷ xs else if less x e then x ∷ rest else xs

-- The entries below the place that `lower_bound` finds, and the others.
unfoldable pub split_at_bound : Entry → List Entry → List Entry × List Entry
split_at_bound e [] = ([], [])
split_at_bound e (x ∷ xs) =
    let rest = split_at_bound e xs in if less x e then (x ∷ rest.0, rest.1) else ([], x ∷ xs)

-- `heap` holds the timers that are not deleted. `armed` is the time at which the timer descriptor
-- becomes readable, and `fired` the timers whose callbacks ran, oldest first.
pub record TimerQueue : Type 0 where
  pub timers : List Entry
  pub heap : ℕ → Option Timer
  pub armed : Option ℕ
  pub fired : List ℕ

abbrev pub store : ℕ → Option Timer → TimerQueue → TimerQueue
store a t q = record q { heap = λ b. if b == a then t else q.heap b }

-- Use of a timer through its pointer.
unfoldable pub deref : ℕ → TimerQueue → Result Timer
deref a q = elim (q.heap a) [ none ↦ fault dangling | some t ↦ ok t ]

abbrev pub millisecond : ℕ
millisecond = 1_000_000

abbrev pub second : ℕ
second = 1_000_000_000

-- `durationFromNow`, as seconds and nanoseconds. A time that is past gives 0 here, a negative
-- number in the source, and less than a millisecond in both.
unfoldable pub duration_from_now : ℕ → ℕ → ℕ × ℕ
duration_from_now now at =
    let ns = at - now in
    let waited = if ltb ns millisecond then millisecond else ns in
    (waited / second, waited % second)

-- `timerfdSet`: the descriptor becomes readable after that duration.
unfoldable pub timerfd_set : ℕ → ℕ → TimerQueue → TimerQueue
timerfd_set now at q =
    let d = duration_from_now now at in record q { armed = some (now + (d.0 * second + d.1)) }

-- `timerfdSet` where the new entry is the first.
unfoldable pub arm_if_first : ℕ → Entry → TimerQueue → TimerQueue
arm_if_first now e q = elim q.timers [
  | [] ↦ q
  | first ∷ _ ↦ if first.0 == e.0 && first.1 == e.1 then timerfd_set now e.0 q else q
]

-- The task of `addTimer`.
unfoldable pub add_in_loop : ℕ → ℕ → ℕ → TimerQueue → Result TimerQueue
add_in_loop now at a q = do
  let r = insert (at, a) q.timers
  assert r.1
  ok (arm_if_first now (at, a) (record q { timers = r.0 }))

-- `addTimer` in the loop's thread; `a` is the address that `new` returns.
unfoldable pub add_timer : ℕ → ℕ → ℕ → ℕ → TimerQueue → Result TimerQueue
add_timer now at interval a q = add_in_loop now at a (store a (some (make_timer at interval)) q)

-- The task of `cancelTimer`.
unfoldable pub cancel_in_loop : ℕ → TimerQueue → Result TimerQueue
cancel_in_loop a q = do
  t ← deref a q
  t' ← cancel t
  ok (store a none (record q { timers = erase (t'.at, a) q.timers }))

-- `getExpired`
unfoldable pub get_expired : ℕ → TimerQueue → List Entry × TimerQueue
get_expired now q = let r = split_at_bound (now + 1, 0) q.timers in (r.0, record q { timers = r.1 })

-- The user's callback of the timer at an address, and what it does to the queue.
abbrev pub Run : Type 0
Run = ℕ → TimerQueue → Result TimerQueue

-- one round of the loop of `handleRead`, up to the callback
unfoldable pub fire : Run → ℕ → Entry → TimerQueue → Result TimerQueue
fire run now e q = do
  t ← deref e.1 q
  assert (is_expired t now)
  if not t.canceled then run e.1 (record q { fired = q.fired ++ (e.1 ∷ []) }) else ok q

-- The rest of the round: a timer that repeats goes back into the set, another is deleted.
unfoldable pub settle : Entry → TimerQueue → Result TimerQueue
settle e q = do
  t ← deref e.1 q
  if not t.canceled && t.repeat
      then (do
        t' ← restart t
        ok (store e.1 (some t') (record q { timers = (insert (t'.at, e.1) q.timers).0 })))
      else ok (store e.1 none q)

unfoldable pub run_expired : Run → ℕ → List Entry → TimerQueue → Result TimerQueue
run_expired run now [] q = ok q
run_expired run now (e ∷ es) q = do
  q1 ← fire run now e q
  q2 ← settle e q1
  run_expired run now es q2

-- `timerfdSet` for the first entry, if there is one.
unfoldable pub arm_first : ℕ → TimerQueue → TimerQueue
arm_first now q = elim q.timers [ [] ↦ q | first ∷ _ ↦ timerfd_set now first.0 q ]

-- `handleRead`: the descriptor was read, so it is not armed. The clock reads `now` first, and
-- `later` when the descriptor is set again.
unfoldable pub handle_read : Run → ℕ → ℕ → TimerQueue → Result TimerQueue
handle_read run now later q = do
  let r = get_expired now (record q { armed = none })
  q' ← run_expired run now r.0 r.1
  ok (arm_first later q')
