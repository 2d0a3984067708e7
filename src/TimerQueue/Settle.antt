-- ===== src/TimerQueue/Settle.antt =====
-- One round of the loop of `handleRead`, for callbacks that leave the queue alone.

use cppweb.Base.{
  ℕ, ◌+◌, ◌≤◌, ◌≡◌, ◌≢◌, inl, inr, refl, ap, Bool, true, false, none, some, [], ◌∷◌, ◌++◌, arith,
  Returns, ok, ==_iff, ==_of_ne, le→leb, Bool-cases,
}
use cppweb.TimerQueue.{
  Timer, Entry, TimerQueue, store, restart, insert, is_expired, Run, fire, settle,
}
use cppweb.TimerQueue.Order.{insert-IsSorted}
use cppweb.TimerQueue.Members.{All, Has, insert-Has, insert-All}
use cppweb.TimerQueue.Memory.{deref-ok, Live, IsValid, store-Live, insert-Distinct}

-- The user's callbacks return and leave the queue alone.
abbrev pub IsQuiet : Run → Type 0
IsQuiet run = (a : ℕ) (q : TimerQueue) → run a q ≡ ok q

-- The callback of a live timer that has expired runs, and the assertion on the expiry holds.
pub fire-ok :
    (run : Run) (now : ℕ) (e : Entry) (q : TimerQueue)
    → Live q.heap e
    → e.0 ≤ now
    → fire run now e q ≡ run e.1 (record q { fired = q.fired ++ (e.1 ∷ []) })
unfolding fire is_expired
fire-ok run now e q l due =
    rw (deref-ok e.1 q l.1, l.3, le→leb l.0.at now (omega (arith, l.2))) refl

-- What the end of a round does with the timer `t` of the entry `e`.
pub record Settled (e : Entry) (t : Timer) (q q' : TimerQueue) : Type 0 where
  pub valid : IsValid q'
  pub fired : q'.fired ≡ q.fired
  pub others : (b : ℕ) → b ≢ e.1 → q'.heap b ≡ q.heap b
  pub kept : (f : Entry) → Has f q.timers → Has f q'.timers
  pub apart : (g : ℕ) → e.1 ≢ g → All (λ f. f.1 ≢ g) q.timers → All (λ f. f.1 ≢ g) q'.timers
  pub repeats : t.repeat ≡ true → Has (e.0 + t.interval, e.1) q'.timers
  pub once : t.repeat ≡ false → q'.heap e.1 ≡ none

pub settle-Settled :
    (e : Entry) (t : Timer) (q : TimerQueue)
    → IsValid q
    → All (λ f. f.1 ≢ e.1) q.timers
    → q.heap e.1 ≡ some t
    → t.at ≡ e.0
    → t.canceled ≡ false
    → Returns (settle e q) (Settled e t q)
unfolding settle restart
settle-Settled e t q v apart here time active = elim (Bool-cases t.repeat) [
  | inl again ↦
      let next : Entry = (t.at + t.interval, e.1) in
      let t' : Timer = record t { at = t.at + t.interval } in
      let q' : TimerQueue = store e.1 (some t') (record q { timers = (insert next q.timers).0 }) in
      let stored : q'.heap e.1 ≡ some t' = rw ((==_iff e.1 e.1).1 refl) refl in
      (
        q',
        rw (deref-ok e.1 q here, active, again) refl,
        record {
          valid = record {
            sorted = insert-IsSorted next q.timers v.sorted;
            distinct = insert-Distinct next q.timers apart v.distinct;
            live =
                insert-All (Live q'.heap) next q.timers (t', stored, refl, active)
                  (store-Live e.1 (some t') q q.timers apart v.live);
          };
          fired = refl;
          others = λ b ne. rw (==_of_ne b e.1 ne) refl;
          kept = λ f m. (insert-Has f next q.timers).1 (inr m);
          apart = λ g ne h. insert-All (λ f. f.1 ≢ g) next q.timers ne h;
          repeats = λ _.
              (insert-Has (e.0 + t.interval, e.1) next q.timers).1
                (inl (ap (λ k. (k + t.interval, e.1)) time));
          once = λ no_more. absurd (not_both again no_more);
        },
      )
  | inr last ↦
      let q' : TimerQueue = store e.1 none q in
      (
        q',
        rw (deref-ok e.1 q here, active, last) refl,
        record {
          valid = record {
            sorted = v.sorted;
            distinct = v.distinct;
            live = store-Live e.1 none q q.timers apart v.live;
          };
          fired = refl;
          others = λ b ne. rw (==_of_ne b e.1 ne) refl;
          kept = λ f m. m;
          apart = λ g ne h. h;
          repeats = λ again. absurd (not_both again last);
          once = λ _. rw ((==_iff e.1 e.1).1 refl) refl;
        },
      )
]
  where
    not_both : {b : Bool} → b ≡ true → b ≡ false → ⊥
    not_both p q = cc
