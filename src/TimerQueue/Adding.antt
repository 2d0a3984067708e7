-- ===== src/TimerQueue/Adding.antt =====
-- Callbacks of timers that add timers.

use cppweb.Base.Outcome.{After, After-assert, After-use}
use cppweb.TimerQueue.Cancel.{All-of_Has}
use cppweb.Base.{
  ℕ, ◌≡◌, ◌≢◌, refl, sym, ap, ◌∙◌, some, Returns, none, inl, inr, ◌==◌, ==_of_ne, if◌then◌else◌,
  Option,
}
use cppweb.TimerQueue.{
  Timer, Entry, TimerQueue, Run, timerfd_set, store, make_timer, add_timer, add_in_loop,
  arm_if_first, insert,
}
use cppweb.TimerQueue.Members.{All, Has, All-Has}
use cppweb.TimerQueue.Memory.{IsValid, arm_if_first-SameSet, add_timer-IsValid}

-- The queue after a callback that only adds timers, each at an address that was free.
pub record Adds (q q' : TimerQueue) : Type 0 where
  pub valid : IsValid q'
  pub fired : q'.fired ≡ q.fired
  pub kept : (f : Entry) → Has f q.timers → Has f q'.timers
  pub heap : (b : ℕ) (t : Timer) → q.heap b ≡ some t → q'.heap b ≡ some t
  pub apart :
      (b : ℕ) (t : Timer)
      → q.heap b ≡ some t
      → All (λ f. f.1 ≢ b) q.timers
      → All (λ f. f.1 ≢ b) q'.timers

-- The user's callbacks return, and only add timers.
abbrev pub IsAdding : Run → Type 0
IsAdding run = (a : ℕ) (q : TimerQueue) → IsValid q → Returns (run a q) (Adds q)

-- `addTimer` leaves the timers at other addresses alone.
add_timer-heap :
    (now at interval a : ℕ) (q : TimerQueue)
    → After (add_timer now at interval a q) (λ q'. (b : ℕ) → b ≢ a → q'.heap b ≡ q.heap b)
unfolding add_timer add_in_loop arm_if_first timerfd_set
add_timer-heap now at interval a q =
    let q1 : TimerQueue = record (store a (some (make_timer at interval)) q) {
      timers = (insert (at, a) q.timers).0;
    } in
    After-assert _ (insert (at, a) q.timers).1 _ (λ _. λ b ne.
      ap (λ (h : ℕ → Option Timer). h b) (arm_if_first-SameSet now (at, a) q1).heap ∙ stored b ne)
  where
    stored :
        (b : ℕ) → b ≢ a → (if b == a then some (make_timer at interval) else q.heap b) ≡ q.heap b
    stored b ne = rw (==_of_ne b a ne) refl

-- Where set and heap agree and `new` returns a free address, `addTimer` only adds.
pub add_timer-Adds :
    (now at interval a : ℕ) {q : TimerQueue}
    → IsValid q
    → q.heap a ≡ none
    → Returns (add_timer now at interval a q) (Adds q)
add_timer-Adds now at interval a {q} v free =
    let (q', e, (v', here, members, same)) = add_timer-IsValid now at interval a v free in
    let others =
      After-use (λ (q' : TimerQueue). (b : ℕ) → b ≢ a → q'.heap b ≡ q.heap b) _ q' e
        (add_timer-heap now at interval a q) in
    (
      q',
      e,
      record {
        valid = v';
        fired = same;
        kept = λ f m. (members f).1 (inr m);
        heap = λ b t at_b. others b (taken b t at_b) ∙ at_b;
        apart = λ b t at_b far.
            All-of_Has (λ f. f.1 ≢ b) q'.timers
              (λ f m. elim ((members f).0 m) [
                | inl new ↦ λ eq. taken b t at_b (sym (ap (λ (g : Entry). g.1) new ∙ eq))
                | inr old ↦ All-Has (λ g. g.1 ≢ b) q.timers far old
              ]);
      },
    )
  where
    taken : (b : ℕ) (t : Timer) → q.heap b ≡ some t → b ≢ a
    taken b t at_b same = clash (sym at_b ∙ ap q.heap same ∙ free)
      where
        clash : {t : Timer} → some t ≡ none → ⊥
        clash e = cc
