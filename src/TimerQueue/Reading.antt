-- ===== src/TimerQueue/Reading.antt =====
-- `handleRead` as a whole, and the callback that cancels its own timer.
use Prim.Native.Nat.{max}
use mathlib.Core.Path.{subst}
use cppweb.Base.{
  ℕ, ◌+◌, ◌≤◌, ◌<◌, ◌≡◌, ◌≢◌, refl, sym, ◌∙◌, true, Option, none, some, List, [], ◌∷◌, ◌++◌, arith,
  Returns, fault, dangling,
}
use cppweb.TimerQueue.{
  Timer, Entry, TimerQueue, Run, settle, run_expired, get_expired, split_at_bound, arm_first,
  handle_read, cancel_in_loop, millisecond, less, timerfd_set,
}
use cppweb.TimerQueue.Order.{IsSorted}
use cppweb.TimerQueue.Members.{All, Has, Split, split_at_bound-Split}
use cppweb.TimerQueue.Memory.{Live, Distinct, IsValid, SameSet, SameSet-IsValid, deref-dangling}
use cppweb.TimerQueue.Duration.{timerfd_set-armed}
use cppweb.TimerQueue.Settle.{IsQuiet, fire-ok}
use cppweb.TimerQueue.Cancel.{cancel_in_loop-deletes}
use cppweb.TimerQueue.Expiry.{addresses, Done, CanRun, run_expired-Ran}

All-split : (P : Entry → Type 0) (xs ys : List Entry) → All P (xs ++ ys) → All P xs × All P ys
All-split P [] ys h = (tt, h)
All-split P (x ∷ xs) ys h = let (a, b) = All-split P xs ys h.1 in ((h.0, a), b)

IsSorted-tail : (xs ys : List Entry) → IsSorted (xs ++ ys) → IsSorted ys
IsSorted-tail [] ys s = s
IsSorted-tail (x ∷ xs) ys s = IsSorted-tail xs ys s.1

Distinct-split :
    (xs ys : List Entry)
    → Distinct (xs ++ ys)
    → Distinct xs × Distinct ys × All (λ e. All (λ f. f.1 ≢ e.1) ys) xs
Distinct-split [] ys d = (tt, d, tt)
Distinct-split (x ∷ xs) ys d =
    let (a, b, c) = Distinct-split xs ys d.1 in
    let (n, m) = All-split (λ f. f.1 ≢ x.1) xs ys d.0 in ((n, a), b, (m, c))

-- Splitting off what has expired leaves a queue on which the loop may run.
pub Split-CanRun :
    (now : ℕ) (q : TimerQueue) (r : List Entry × List Entry)
    → IsValid q
    → Split now q.timers r
    → CanRun now (record q { armed = none; timers = r.1 }) r.0
Split-CanRun now q r v s =
    let live = All-split (Live q.heap) r.0 r.1 (subst (All (Live q.heap)) (sym s.whole) v.live) in
    let d = Distinct-split r.0 r.1 (subst Distinct (sym s.whole) v.distinct) in
    record {
      valid = record {
        sorted = IsSorted-tail r.0 r.1 (subst IsSorted (sym s.whole) v.sorted);
        distinct = d.1;
        live = live.1;
      };
      live = live.0;
      due = s.due;
      distinct = d.0;
      apart = d.2;
    }

pub arm_first-SameSet : (now : ℕ) (q : TimerQueue) → SameSet q (arm_first now q)
unfolding arm_first timerfd_set
arm_first-SameSet now q = ground arith

pub arm_first-armed :
    (now : ℕ) (q : TimerQueue) (e : Entry) (rest : List Entry)
    → q.timers ≡ e ∷ rest
    → (arm_first now q).armed ≡ some (max (now + millisecond) e.0)
unfolding arm_first
arm_first-armed now q e rest h = rw (h, arm_first) (timerfd_set-armed now e.0 q)

-- What one call of `handleRead` achieves: `expired` are the entries whose time has come, and
-- `waiting` the others.
pub record Expired (now later : ℕ) (q q' : TimerQueue) : Type 0 where
  pub expired : List Entry
  pub waiting : List Entry
  pub whole : expired ++ waiting ≡ q.timers
  pub due : All (λ e. e.0 ≤ now) expired
  pub not_due : All (λ e. now < e.0) waiting
  pub fired : q'.fired ≡ q.fired ++ addresses expired
  pub done : All (Done q.heap q') expired
  pub kept : (e : Entry) → Has e waiting → Has e q'.timers
  pub valid : IsValid q'
  pub armed :
      (e : Entry) (rest : List Entry)
      → q'.timers ≡ e ∷ rest
      → q'.armed ≡ some (max (later + millisecond) e.0)

Done-SameSet :
    (heap : ℕ → Option Timer) {q q' : TimerQueue} (es : List Entry)
    → SameSet q q'
    → All (Done heap q) es
    → All (Done heap q') es
Done-SameSet heap [] s h = tt
Done-SameSet heap (x ∷ xs) s h = (
  record {
    repeats = λ t here again. rw s.timers (h.0.repeats t here again);
    once = λ t here last. rw s.heap (h.0.once t here last);
  },
  Done-SameSet heap xs s h.1,
)

-- Where set and heap agree, and the callbacks leave the queue alone, `handleRead` returns, and set
-- and heap agree again. Exactly the timers whose time has come run, once each and in order; one
-- that repeats is in the set again an interval later, and another is deleted. The others stay, and
-- the descriptor is set for the first of the set, a millisecond ahead at least.
pub handle_read-Expired :
    (run : Run) (now later : ℕ) {q : TimerQueue}
    → IsQuiet run
    → IsValid q
    → Returns (handle_read run now later q) (Expired now later q)
unfolding handle_read get_expired
handle_read-Expired run now later {q} quiet v =
    let split = split_at_bound-Split now q.timers v.sorted in
    let r = split_at_bound (now + 1, 0) q.timers in
    let (q1, e, ran) = run_expired-Ran run now r.0 quiet (Split-CanRun now q r v split) in
    let same = arm_first-SameSet later q1 in
    (
      arm_first later q1,
      rw e refl,
      record {
        expired = r.0;
        waiting = r.1;
        whole = split.whole;
        due = split.due;
        not_due = split.not_due;
        fired = same.fired ∙ ran.fired;
        done = Done-SameSet q.heap r.0 same ran.done;
        kept = λ f m. rw same.timers (ran.kept f m);
        valid = SameSet-IsValid same ran.valid;
        armed = λ f rest h. arm_first-armed later q1 f rest (sym same.timers ∙ h);
      },
    )

pub split_first :
    (b e : Entry) (rest : List Entry)
    → less e b ≡ true
    → split_at_bound b (e ∷ rest) ≡ (e ∷ (split_at_bound b rest).0, (split_at_bound b rest).1)
unfolding split_at_bound
split_first b e rest h = rw h refl

run_expired_dangling :
    (run : Run) (now : ℕ) (e : Entry) (es : List Entry) (q : TimerQueue)
    → Live q.heap e
    → e.0 ≤ now
    → ((q1 : TimerQueue) → run e.1 q1 ≡ cancel_in_loop e.1 q1)
    → run_expired run now (e ∷ es) q ≡ fault dangling
unfolding run_expired settle
run_expired_dangling run now e es q l due cancels =
    let q1 : TimerQueue = record q { fired = q.fired ++ (e.1 ∷ []) } in
    let (q2, e2, gone) = cancel_in_loop-deletes e.1 q1 l.1 l.3 in
    rw (fire-ok run now e q l due, cancels q1, e2, deref-dangling e.1 q2 gone) refl

-- Where set and heap agree and the first timer has expired, a callback of that timer that cancels
-- the timer itself makes `handleRead` use it after its deletion.
pub handle_read_dangling :
    (run : Run) (now later : ℕ) {q : TimerQueue} {e : Entry} {rest : List Entry}
    → IsValid q
    → q.timers ≡ e ∷ rest
    → e.0 ≤ now
    → ((q1 : TimerQueue) → run e.1 q1 ≡ cancel_in_loop e.1 q1)
    → handle_read run now later q ≡ fault dangling
unfolding handle_read get_expired
handle_read_dangling run now later {q} {e} {rest} v first due cancels =
    let early : less e (now + 1, 0) ≡ true = ground arith in
    let live = subst (All (Live q.heap)) first v.live in
    rw
      (
        first,
        split_first (now + 1, 0) e rest early,
        run_expired_dangling run now e (split_at_bound (now + 1, 0) rest).0
            (record q { armed = none; timers = (split_at_bound (now + 1, 0) rest).1 }) live.0 due
            cancels,
      )
      refl
