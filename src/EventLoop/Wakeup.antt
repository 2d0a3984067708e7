-- ===== src/EventLoop/Wakeup.antt =====
-- No call of `queueInLoop` or `quit` is missed: a loop that waits in `poll` will be woken.
use cppweb.Base.{
  ◌≢◌, ◌≢◌, ℕ, ◌<◌, ◌≡◌, ◌⊎◌, inl, inr, refl, ap, Bool, true, false, [], arith, Bool-cases,
}
use cppweb.EventLoop.{
  EventFd, polling, handling, EventLoop, make, is_in_loop_thread, push_task, wakeup, set_quit,
  decide, poll, handle_read, take_tasks, run_task, finish_round, Step, pushes, wakes, quits,
  decides, polls, reads, takes, runs, finishes, Reachable, starts, next, can_call,
}

-- The descriptor is readable, or a call of `wakeup` is about to make it so.
abbrev pub WillWake : EventFd → EventLoop → Type 0
WillWake fd l = (fd.readable l.counter ≡ true) ⊎ (0 < l.owed)

-- A task that is queued is taken in this turn of the loop, or the loop will be woken; and a loop in
-- `poll` that must quit will be woken.
abbrev pub IsAwake : EventFd → EventLoop → Type 0
IsAwake fd l =
    ((l.phase ≢ handling false) → l.pending ≢ [] → WillWake fd l)
    × (l.phase ≡ polling → l.quitting ≡ true → WillWake fd l)

write-WillWake : (fd : EventFd) (l : EventLoop) → WillWake fd (wakeup fd l)
unfolding wakeup
write-WillWake fd l = inl (fd.readable-write l.counter)

not_polling :
    (fd : EventFd) (tid : ℕ) (l : EventLoop)
    → can_call tid l ≡ true
    → l.phase ≡ polling
    → is_in_loop_thread tid l ≡ false
unfolding can_call
not_polling fd tid l can p = ground arith

clash : {b : Bool} → b ≡ true → b ≡ false → ⊥
clash p q = cc

Step-IsAwake : (fd : EventFd) {l l' : EventLoop} → IsAwake fd l → Step fd l l' → IsAwake fd l'
unfolding push_task set_quit decide poll handle_read take_tasks run_task finish_round
Step-IsAwake fd h (pushes task) = ((λ _ _. inr (omega arith)), (λ _ _. inr (omega arith)))
Step-IsAwake fd h (wakes {l}) = ((λ _ _. write-WillWake fd l), (λ _ _. write-WillWake fd l))
Step-IsAwake fd h (quits tid {l} can fresh) = elim (Bool-cases (is_in_loop_thread tid l)) [
  | inl inside ↦
      rw inside ((λ p n. h.0 p n), (λ p _. absurd (clash inside (not_polling fd tid l can p))))
  | inr outside ↦ rw outside ((λ _ _. inr (omega arith)), (λ _ _. inr (omega arith)))
]
Step-IsAwake fd h (decides {l} turn) = elim (Bool-cases l.quitting) [
  | inl quitting ↦ rw quitting ((λ _ n. h.0 (λ p. cc (turn, p)) n), (λ p _. absurd (cc p)))
  | inr active ↦ rw active ((λ _ n. h.0 (λ p. cc (turn, p)) n), (λ _ q. absurd (clash q refl)))
]
Step-IsAwake fd h (polls {l} turn) = (
  (λ p n. elim (Bool-cases (fd.readable l.counter)) [
    | inl ready ↦ inl ready
    | inr idle ↦ absurd (p (ap handling idle))
  ]),
  (λ p _. absurd (cc p)),
)
Step-IsAwake fd h (reads turn) = ((λ p _. absurd (p refl)), (λ p _. absurd (cc p)))
Step-IsAwake fd h (takes turn) = ((λ _ n. absurd (n refl)), (λ p _. absurd (cc p)))
Step-IsAwake fd h (runs task tasks turn) =
    ((λ _ n. h.0 (λ p. cc (turn, p)) n), (λ p _. absurd (cc p)))
Step-IsAwake fd h (finishes turn) = ((λ _ n. h.0 (λ p. cc (turn, p)) n), (λ p _. absurd (cc p)))

Reachable-IsAwake : (fd : EventFd) (tid : ℕ) {l : EventLoop} → Reachable fd tid l → IsAwake fd l
unfolding make
Reachable-IsAwake fd tid starts = ((λ _ n. absurd (n refl)), (λ p _. absurd (cc p)))
Reachable-IsAwake fd tid (next before step) = Step-IsAwake fd (Reachable-IsAwake fd tid before) step

-- However threads and loop interleave, where the loop is in `poll` and has a task pending, or was
-- told to quit, the wake-up descriptor is readable, or a call of `wakeup` is still to come.
pub polling-WillWake :
    (fd : EventFd) (tid : ℕ) {l : EventLoop}
    → Reachable fd tid l
    → l.phase ≡ polling
    → (l.pending ≢ []) ⊎ (l.quitting ≡ true)
    → WillWake fd l
polling-WillWake fd tid r turn (inl waits) =
    (Reachable-IsAwake fd tid r).0 (λ p. cc (turn, p)) waits
polling-WillWake fd tid r turn (inr told) = (Reachable-IsAwake fd tid r).1 turn told
