-- ===== src/EventLoop/Queue.antt =====
-- The queue of tasks: none is lost, run twice or overtaken by one queued later.
use cppweb.Base.{
  ℕ, ◌≡◌, inl, inr, refl, sym, ap, ◌∙◌, List, [], ◌∷◌, ◌++◌, append_assoc, append-nil, Bool-cases,
}
use cppweb.EventLoop.{
  EventFd, Phase, deciding, polling, handling, running, stopped, EventLoop, make, is_in_loop_thread,
  push_task, wakeup, set_quit, decide, poll, handle_read, take_tasks, run_task, finish_round,
  run_tasks, round, Step, pushes, wakes, quits, decides, polls, reads, takes, runs, finishes,
  Reachable, starts, next,
}

-- The tasks that were taken and did not run yet.
abbrev pub left : Phase → List ℕ
left p = elim p [
  | deciding ↦ []
  | polling ↦ []
  | handling _ ↦ []
  | running tasks ↦ tasks
  | stopped ↦ []
]

-- The tasks that were queued are those that ran, those taken, and those pending, in this order.
abbrev pub InOrder : EventLoop → Type 0
InOrder l = l.queued ≡ l.ran ++ (left l.phase ++ l.pending)

Step-InOrder : (fd : EventFd) {l l' : EventLoop} → InOrder l → Step fd l l' → InOrder l'
unfolding push_task wakeup set_quit decide poll handle_read take_tasks run_task finish_round
Step-InOrder fd h (pushes task {l}) =
    ap (λ xs. xs ++ (task ∷ [])) h
    ∙ append_assoc l.ran (left l.phase ++ l.pending) (task ∷ [])
    ∙ ap (λ xs. l.ran ++ xs) (append_assoc (left l.phase) l.pending (task ∷ []))
Step-InOrder fd h wakes = h
Step-InOrder fd h (quits tid {l} can fresh) = elim (Bool-cases (is_in_loop_thread tid l)) [
  | inl inside ↦ rw inside h
  | inr outside ↦ rw outside h
]
Step-InOrder fd h (decides {l} turn) = elim (Bool-cases l.quitting) [
  | inl quitting ↦ rw quitting (h ∙ rw turn refl)
  | inr active ↦ rw active (h ∙ rw turn refl)
]
Step-InOrder fd h (polls turn) = h ∙ rw turn refl
Step-InOrder fd h (reads turn) = h ∙ rw turn refl
Step-InOrder fd h (takes {l} turn) =
    h ∙ rw turn (ap (λ xs. l.ran ++ xs) (sym (append-nil l.pending)))
Step-InOrder fd h (runs task tasks {l} turn) =
    h ∙ rw turn (sym (append_assoc l.ran (task ∷ []) (tasks ++ l.pending)))
Step-InOrder fd h (finishes turn) = h ∙ rw turn refl

-- However threads and loop interleave, the tasks given to `queueInLoop` are, oldest first, those
-- that ran, then those the loop took, then those pending: none is lost, run twice or overtaken.
pub Reachable-InOrder : (fd : EventFd) (tid : ℕ) {l : EventLoop} → Reachable fd tid l → InOrder l
unfolding make
Reachable-InOrder fd tid starts = refl
Reachable-InOrder fd tid (next before step) = Step-InOrder fd (Reachable-InOrder fd tid before) step

-- A turn of the loop that nobody disturbs.
pub record Turned (l l' : EventLoop) : Type 0 where
  pub phase : l'.phase ≡ deciding
  pub ran : l'.ran ≡ l.ran ++ l.pending
  pub pending : l'.pending ≡ []
  pub quitting : l'.quitting ≡ l.quitting

run_tasks-ran :
    (tasks : List ℕ) (l : EventLoop)
    → ((run_tasks tasks l).ran ≡ l.ran ++ tasks)
      × ((run_tasks tasks l).phase ≡ deciding)
      × ((run_tasks tasks l).pending ≡ l.pending)
      × ((run_tasks tasks l).quitting ≡ l.quitting)
unfolding run_tasks finish_round run_task
run_tasks-ran [] l = (sym (append-nil l.ran), refl, refl, refl)
run_tasks-ran (task ∷ tasks) l =
    let (a, b, c, d) = run_tasks-ran tasks (run_task task tasks l) in
    (a ∙ append_assoc l.ran (task ∷ []) tasks, b, c, d)

round_turns : (fd : EventFd) (l : EventLoop) → Turned l (round fd l)
unfolding round poll handle_read take_tasks
round_turns fd l = elim (Bool-cases (fd.readable l.counter)) [
  | inl ready ↦
      let l2 : EventLoop = handle_read fd (poll fd l) in
      let (a, b, c, d) = run_tasks-ran l2.pending (take_tasks l2) in
      rw ready (record { phase = b; ran = a; pending = c; quitting = d })
  | inr idle ↦
      let l2 : EventLoop = poll fd l in
      let (a, b, c, d) = run_tasks-ran l2.pending (take_tasks l2) in
      rw idle (record { phase = b; ran = a; pending = c; quitting = d })
]

Reachable-run_tasks :
    (fd : EventFd) (tid : ℕ) (tasks : List ℕ) (l : EventLoop)
    → Reachable fd tid l
    → l.phase ≡ running tasks
    → Reachable fd tid (run_tasks tasks l)
unfolding run_tasks run_task
Reachable-run_tasks fd tid [] l r turn = next r (finishes turn)
Reachable-run_tasks fd tid (task ∷ tasks) l r turn =
    Reachable-run_tasks fd tid tasks (run_task task tasks l) (next r (runs task tasks turn)) refl

Reachable-round :
    (fd : EventFd) (tid : ℕ) (l : EventLoop)
    → Reachable fd tid l
    → l.phase ≡ polling
    → Reachable fd tid (round fd l)
unfolding round poll handle_read take_tasks
Reachable-round fd tid l r turn = elim (Bool-cases (fd.readable l.counter)) [
  | inl ready ↦
      let l1 = poll fd l in
      let l2 : EventLoop = handle_read fd l1 in
      let r1 : Reachable fd tid l1 = next r (polls turn) in
      let r2 : Reachable fd tid l2 = next r1 (reads (ap handling ready)) in
      rw ready (Reachable-run_tasks fd tid l2.pending (take_tasks l2) (next r2 (takes refl)) refl)
  | inr idle ↦
      let l1 = poll fd l in
      let r1 : Reachable fd tid l1 = next r (polls turn) in
      rw idle (
        Reachable-run_tasks fd tid l1.pending (take_tasks l1) (next r1 (takes (ap handling idle)))
          refl)
]

-- From every reachable state in which the loop is in `poll`, a turn that nobody disturbs is a
-- sequence of its steps. It runs exactly the tasks that were pending, in order, leaves none, and ends
-- before the test of `m_quit`.
pub round-Turned :
    (fd : EventFd) (tid : ℕ) {l : EventLoop}
    → Reachable fd tid l
    → l.phase ≡ polling
    → Turned l (round fd l) × Reachable fd tid (round fd l)
round-Turned fd tid {l} r turn = (round_turns fd l, Reachable-round fd tid l r turn)
