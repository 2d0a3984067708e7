-- ===== src/TimerQueue/Using.antt =====
-- Callbacks of timers that add timers and cancel those that wait.

use cppweb.Base.Outcome.{After, After-bind, After-use}
use cppweb.Base.{ℕ, ◌≡◌, ◌≢◌, refl, sym, ◌∙◌, some, Returns, ==_of_ne}
use cppweb.TimerQueue.{Timer, TimerQueue, Run, cancel, deref, cancel_in_loop}
use cppweb.TimerQueue.Members.{All, Has, All-Has, erase-All}
use cppweb.TimerQueue.Memory.{IsValid}
use cppweb.TimerQueue.Cancel.{cancel_in_loop-IsValid}
use cppweb.TimerQueue.Adding.{Adds}

-- The queue after a callback that leaves the timers out of the set alone, which are those that `handleRead`
-- took out of it and those that were not added yet.
pub record Uses (q q' : TimerQueue) : Type 0 where
  pub valid : IsValid q'
  pub fired : q'.fired ≡ q.fired
  pub heap :
      (b : ℕ) (t : Timer) → q.heap b ≡ some t → All (λ f. f.1 ≢ b) q.timers → q'.heap b ≡ some t
  pub apart :
      (b : ℕ) (t : Timer)
      → q.heap b ≡ some t
      → All (λ f. f.1 ≢ b) q.timers
      → All (λ f. f.1 ≢ b) q'.timers

-- The user's callbacks return, and use the queue in that way.
abbrev pub IsUsing : Run → Type 0
IsUsing run = (a : ℕ) (q : TimerQueue) → IsValid q → Returns (run a q) (Uses q)

pub Adds-Uses : {q q' : TimerQueue} → Adds q q' → Uses q q'
Adds-Uses h = record {
  valid = h.valid;
  fired = h.fired;
  heap = λ b t at far. h.heap b t at;
  apart = h.apart;
}

-- One use after another.
pub Uses-append : {p q r : TimerQueue} → Uses p q → Uses q r → Uses p r
Uses-append h k = record {
  valid = k.valid;
  fired = k.fired ∙ h.fired;
  heap = λ b t at far. k.heap b t (h.heap b t at far) (h.apart b t at far);
  apart = λ b t at far. k.apart b t (h.heap b t at far) (h.apart b t at far);
}

-- `cancelTimer` leaves the timers at other addresses alone, and adds no entry.
cancel_in_loop-others :
    (a : ℕ) (q : TimerQueue)
    → After (cancel_in_loop a q) (λ q'.
      ((b : ℕ) → b ≢ a → q'.heap b ≡ q.heap b)
      × ((b : ℕ) → All (λ f. f.1 ≢ b) q.timers → All (λ f. f.1 ≢ b) q'.timers))
unfolding cancel_in_loop cancel
cancel_in_loop-others a q = After-bind _ (deref a q) _ (λ t _. After-bind _ (cancel t) _ (λ u _. (
  (λ b ne. rw (==_of_ne b a ne) refl),
  (λ b far. erase-All (λ f. f.1 ≢ b) (u.at, a) q.timers far),
)))

-- Where set and heap agree, `cancelTimer` of a timer in the set is such a use.
pub cancel_in_loop-Uses :
    (at a : ℕ) {q : TimerQueue}
    → IsValid q
    → Has (at, a) q.timers
    → Returns (cancel_in_loop a q) (Uses q)
cancel_in_loop-Uses at a {q} v m =
    let (q', e, (v', gone, out, same)) = cancel_in_loop-IsValid at a v m in
    let others =
      After-use
        (λ (q' : TimerQueue).
          ((b : ℕ) → b ≢ a → q'.heap b ≡ q.heap b)
          × ((b : ℕ) → All (λ f. f.1 ≢ b) q.timers → All (λ f. f.1 ≢ b) q'.timers))
        _ q' e (cancel_in_loop-others a q) in
    (
      q',
      e,
      record {
        valid = v';
        fired = same;
        heap = λ b t at_b far.
            others.0 b (λ eq. All-Has (λ f. f.1 ≢ b) q.timers far m (sym eq)) ∙ at_b;
        apart = λ b t at_b far. others.1 b far;
      },
    )
