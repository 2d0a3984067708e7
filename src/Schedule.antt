-- ===== src/Schedule.antt =====
-- `runAt`, `runEvery` and `runAfter` of cppweb/EventLoop.cpp: timers that the loop's thread sets through
-- its loop. The clock reads `now` first, and `later` when the descriptor is set.
use mathlib.Core.Path.{subst}
use cppweb.Base.{
  ℕ, ◌+◌, ◌≤◌, ◌<◌, ◌≡◌, ◌⊎◌, inl, inr, refl, sym, ap, ◌∙◌, Option, none, some, List, [], ◌∷◌, ◌++◌,
  arith, Result, Returns, ltb, if◌then◌else◌,
}
use cppweb.TimerQueue.{Timer, Entry, TimerQueue, Run, make_timer, add_timer, handle_read}
use cppweb.TimerQueue.Members.{Has, All-Has}
use cppweb.TimerQueue.Memory.{Live, IsValid, add_timer-IsValid}
use cppweb.TimerQueue.Settle.{IsQuiet}
use cppweb.TimerQueue.Expiry.{addresses, Done}
use cppweb.TimerQueue.Reading.{Expired, handle_read-Expired}

-- The first number of nanoseconds that a `TimePoint`, an `int64_t`, does not hold; it is reached in 2262.
abbrev pub time_end : ℕ
time_end = 9_223_372_036_854_775_808

-- `clock::nowAfter`, where the clock reads `now`. A sum that does not fit wraps to a negative number, a time
-- before each that the clock reads; it stands here as 0, the earliest.
unfoldable pub now_after : ℕ → ℕ → ℕ
now_after now interval = let sum = now + interval in if ltb sum time_end then sum else 0

now_after_lem :
    (now interval : ℕ) → now + interval < time_end → now_after now interval ≡ now + interval
unfolding now_after
now_after_lem now interval fits = ground arith

unfoldable pub run_at : ℕ → ℕ → ℕ → TimerQueue → Result TimerQueue
run_at later at a q = add_timer later at 0 a q

unfoldable pub run_every : ℕ → ℕ → ℕ → ℕ → TimerQueue → Result TimerQueue
run_every now later interval a q = add_timer later (now_after now interval) interval a q

unfoldable pub run_after : ℕ → ℕ → ℕ → ℕ → TimerQueue → Result TimerQueue
run_after now later interval a q = run_at later (now_after now interval) a q

-- An entry of the timer at an address is in a list.
abbrev pub HasTimer : ℕ → List Entry → Type 0
HasTimer a es = (e : Entry) × Has e es × (e.1 ≡ a)

-- What a `handleRead` at the time `t` makes of the timer at `a` that is to run at `at`.
pub record Punctual (t at a : ℕ) (q q' : TimerQueue) : Type 0 where
  pub ran : List Entry
  pub fired : q'.fired ≡ q.fired ++ addresses ran
  pub in_time : at ≤ t → HasTimer a ran × (q'.heap a ≡ none)
  pub not_early : t < at → (¬ HasTimer a ran) × Has (at, a) q'.timers
  pub valid : IsValid q'

pub Has-++ : (e : Entry) (xs ys : List Entry) → Has e (xs ++ ys) → Has e xs ⊎ Has e ys
Has-++ e [] ys h = inr h
Has-++ e (x ∷ xs) ys (inl same) = inl (inl same)
Has-++ e (x ∷ xs) ys (inr h) = elim (Has-++ e xs ys h) [ inl m ↦ inl (inr m) | inr m ↦ inr m ]

Has-left : (e : Entry) (xs ys : List Entry) → Has e xs → Has e (xs ++ ys)
Has-left e [] ys m = elim m [ ]
Has-left e (x ∷ xs) ys (inl same) = inl same
Has-left e (x ∷ xs) ys (inr h) = inr (Has-left e xs ys h)

-- The time of an entry is that of its timer.
entry_time :
    (heap : ℕ → Option Timer) (e : Entry) {t : Timer} → Live heap e → heap e.1 ≡ some t → e.0 ≡ t.at
entry_time heap e l h = ground (arith, l)

Expired-Punctual :
    (t later at a : ℕ) {q q' : TimerQueue}
    → IsValid q
    → q.heap a ≡ some (make_timer at 0)
    → Has (at, a) q.timers
    → Expired t later q q'
    → Punctual t at a q q'
unfolding make_timer
Expired-Punctual t later at a {q} {q'} v here m x =
    let place = Has-++ (at, a) x.expired x.waiting (subst (Has (at, a)) (sym x.whole) m) in
    record {
      ran = x.expired;
      fired = x.fired;
      in_time = λ l. elim place [
        | inl gone ↦ (
          ((at, a), gone, refl),
          (All-Has (Done q.heap q') x.expired x.done gone).once _ here refl,
        )
        | inr left ↦ absurd (apart l (All-Has (λ e. t < e.0) x.waiting x.not_due left))
      ];
      not_early = λ l. (
        (λ (e, ran, same).
            let live =
              All-Has (Live q.heap) q.timers v.live
                (subst (Has e) x.whole (Has-left e x.expired x.waiting ran)) in
            let time : e.0 ≡ at = entry_time q.heap e live (ap q.heap same ∙ here) in
            apart (subst (λ n. n ≤ t) time (All-Has (λ e. e.0 ≤ t) x.expired x.due ran)) l),
        elim place [
          | inl gone ↦ absurd (apart (All-Has (λ e. e.0 ≤ t) x.expired x.due gone) l)
          | inr left ↦ x.kept (at, a) left
        ],
      );
      valid = x.valid;
    }
  where
    apart : {m n : ℕ} → m ≤ n → n < m → ⊥
    apart l k = omega arith

-- In the loop's thread, where set and heap agree and `new` returns a free address, `runAfter` returns.
-- A `handleRead` that comes next, with callbacks that leave the queue alone, runs the new timer and deletes
-- it if the interval has passed since `runAfter`, and does not run it and keeps it in the set if not. This is
-- so for an interval whose end is a time that an `int64_t` of nanoseconds holds.
pub run_after-handle_read :
    (now later interval a : ℕ) {q : TimerQueue}
    → IsValid q
    → q.heap a ≡ none
    → now + interval < time_end
    → Returns (run_after now later interval a q) (λ q'.
      (run : Run)
      → IsQuiet run
      → (t later' : ℕ) → Returns (handle_read run t later' q') (Punctual t (now + interval) a q'))
unfolding run_after run_at
run_after-handle_read now later interval a {q} v free fits =
    let (q', e, (v', here, members, same)) = add_timer-IsValid later (now + interval) 0 a v free in
    (
      q',
      ap (λ at. add_timer later at 0 a q) (now_after_lem now interval fits) ∙ e,
      λ run quiet t later'.
          let (q2, e2, x) = handle_read-Expired run t later' quiet v' in
          (
            q2,
            e2,
            Expired-Punctual t later' (now + interval) a v' here
                ((members (now + interval, a)).1 (inl refl)) x,
          ),
    )
