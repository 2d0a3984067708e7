-- ===== src/TcpServer/Missed.antt =====
-- A notification that comes between the test of `m_eventLoopList` and the wait.
use cppweb.Base.{
  ℕ, suc, ◌≡◌, ◌≢◌, ◌⊎◌, inl, inr, refl, sym, ap, ◌∙◌, true, false, arith, ok, some, ◌==◌,
  Bool-cases,
}
use cppweb.LoopThread.{unborn, announced, notified}
use cppweb.TcpServer.{
  seen_null, waiting, done, notify, notify_main, test_null, end_wait, enter_for, TcpServer,
  set_thread_num, start, begin_wait, Step, sets_num, starts, begins, tests, waits, resumes, stirs,
  sets, notifies, Steps, here, next,
}

-- `startInLoop` has found no loop, or waits, and each thread that was started has notified.
pub record IsMissed (p : TcpServer) : Type 0 where
  pub on : p.started ≡ true
  pub stuck : ((i : ℕ) × (p.main ≡ seen_null i)) ⊎ ((i : ℕ) × (p.main ≡ waiting i))
  pub quiet : (i : ℕ) → (p.workers i ≡ unborn) ⊎ (p.workers i ≡ notified)

not_off : (tid n : ℕ) (p p' : TcpServer) → set_thread_num tid n p ≡ ok p' → p.started ≡ false
unfolding set_thread_num
not_off tid n p p' e = ground arith

Step-IsMissed : {p p' : TcpServer} → IsMissed p → Step false p p' → IsMissed p'
unfolding begin_wait start
Step-IsMissed h (sets_num tid n e) = absurd (clash (sym (not_off tid n _ _ e) ∙ h.on))
  where
    clash : false ≡ true → ⊥
    clash e = cc
Step-IsMissed h starts = rw h.on (record { on = refl; stuck = h.stuck; quiet = h.quiet })
Step-IsMissed h (begins turn) = absurd (elim h.stuck [ inl (j, s) ↦ cc | inr (j, s) ↦ cc ])
Step-IsMissed h (tests i turn) = absurd (elim h.stuck [ inl (j, s) ↦ cc | inr (j, s) ↦ cc ])
Step-IsMissed h (waits i turn) = record { on = h.on; stuck = inr (i, refl); quiet = h.quiet }
Step-IsMissed h (resumes i turn) = absurd (elim h.stuck [ inl (j, s) ↦ cc | inr (j, s) ↦ cc ])
Step-IsMissed h (stirs i may turn) = cc
Step-IsMissed h (sets i a turn) = absurd (elim (h.quiet i) [ inl s ↦ cc | inr s ↦ cc ])
Step-IsMissed h (notifies i turn) = absurd (elim (h.quiet i) [ inl s ↦ cc | inr s ↦ cc ])

Steps-IsMissed : {p p' : TcpServer} → IsMissed p → Steps false p p' → IsMissed p'
Steps-IsMissed h here = h
Steps-IsMissed h (next before step) = Step-IsMissed (Steps-IsMissed h before) step

-- The worker `i` is about to notify, and the others have notified or are not started.
abbrev pub IsLast : ℕ → TcpServer → Type 0
IsLast i p = (j : ℕ) → j ≢ i → (p.workers j ≡ unborn) ⊎ (p.workers j ≡ notified)

notify-IsMissed :
    (i : ℕ) (p : TcpServer)
    → p.started ≡ true
    → p.main ≡ seen_null i
    → IsLast i p
    → IsMissed (notify i p)
unfolding notify
notify-IsMissed i p on seen last = record {
  on = on;
  stuck = inl (i, ap notify_main seen);
  quiet = λ j. elim (Bool-cases (j == i)) [
    | inl same ↦ inr (rw same refl)
    | inr other ↦ rw other (last j (λ e. ground arith))
  ];
}

-- In a server that is started, the thread `i` has stored its loop and not yet notified, `startInLoop` has
-- tested for that loop before and found none, and is not yet in `wait`, and the other threads have notified or
-- are not started. If `wait` returns only when it is notified: where the thread calls `notify_one` before
-- `startInLoop` is in `wait`, `startInLoop` never returns, although the loop is there. Where `startInLoop` is
-- in `wait` first, the same call wakes it, and its next test finds the loop and goes on.
pub notify-test_null :
    (i : ℕ) {p q : TcpServer}
    → p.started ≡ true
    → p.main ≡ seen_null i
    → p.workers i ≡ announced
    → ((a : ℕ) × (p.loops i ≡ some a))
    → IsLast i p
    → (Steps false (notify i p) q → q.main ≢ done)
      × let woken_up = end_wait i (notify i (begin_wait i p)) in
        Steps false p (test_null i woken_up) × (test_null i woken_up ≡ enter_for (suc i) woken_up)
unfolding notify begin_wait end_wait test_null
notify-test_null i {p} on seen near (a, stored) last = (
  (λ run e. elim (Steps-IsMissed (notify-IsMissed i p on seen last) run).stuck [
    | inl (j, s) ↦ cc
    | inr (j, s) ↦ cc
  ]),
  (
    next (next (next (next here (waits i seen)) (notifies i near)) (resumes i refl)) (tests i refl),
    rw (test_null, stored) refl,
  ),
)
