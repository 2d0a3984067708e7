-- ===== src/TcpServer/Starting.antt =====
-- `startInLoop` reads the list of loops within its bounds, and returns only when all loops are there.
use mathlib.Core.Path.{subst}
use cppweb.Base.{
  ℕ, suc, ◌≤◌, ◌<◌, ◌≡◌, ◌⊎◌, inl, inr, refl, sym, ap, ◌∙◌, Bool, true, false, some, arith,
  Bool-cases, Option-cases, ltb, ◌==◌, ok, ==_iff, ltb→lt, ltb→ge, ◌≢◌,
}
use cppweb.TcpServer.{
  Main, idle, asked, testing, seen_null, waiting, woken, done, TcpServer, make, set_thread_num,
  start, enter_for, test_null, begin_wait, end_wait, set_loop, notify_main, notify, Step, sets_num,
  starts, begins, tests, waits, resumes, stirs, sets, notifies, Steps, here, next,
}

-- The indices below this one have their loops.
abbrev pub reached : Main → ℕ → ℕ
reached idle n = 0
reached asked n = 0
reached (testing i) n = i
reached (seen_null i) n = i
reached (waiting i) n = i
reached (woken i) n = i
reached done n = n

-- The index that `startInLoop` reads next, if it reads.
abbrev pub IsWithin : Main → ℕ → Type 0
IsWithin idle n = Unit {0}
IsWithin asked n = Unit {0}
IsWithin (testing i) n = (1 ≤ i) × (i < n)
IsWithin (seen_null i) n = (1 ≤ i) × (i < n)
IsWithin (waiting i) n = (1 ≤ i) × (i < n)
IsWithin (woken i) n = (1 ≤ i) × (i < n)
IsWithin done n = Unit {0}

abbrev pub HasLoop : TcpServer → ℕ → Type 0
HasLoop p i = (a : ℕ) × (p.loops i ≡ some a)

pub record IsStarting (p : TcpServer) : Type 0 where
  pub sized : (p.thread_num ≡ 1) ⊎ (p.thread_num ≡ p.size)
  pub unstarted : (p.started ≡ true) ⊎ (p.main ≡ idle)
  pub within : IsWithin p.main p.thread_num
  pub have : (i : ℕ) → 1 ≤ i → i < reached p.main p.thread_num → HasLoop p i

pub make-IsStarting : (tid : ℕ) → IsStarting (make tid)
unfolding make
make-IsStarting tid = record {
  sized = inl refl;
  unstarted = inr refl;
  within = tt;
  have = λ i l h. absurd (ground arith);
}

-- The head of the `for`, where the loops before the index are there.
enter_for-IsStarting :
    (i : ℕ) (p : TcpServer)
    → 1 ≤ i
    → (p.thread_num ≡ 1) ⊎ (p.thread_num ≡ p.size)
    → p.started ≡ true
    → ((j : ℕ) → 1 ≤ j → j < i → HasLoop p j)
    → IsStarting (enter_for i p)
unfolding enter_for
enter_for-IsStarting i p one sized on have = elim (Bool-cases (ltb i p.thread_num)) [
  | inl more ↦
      rw more
        (record { sized = sized; unstarted = inl on; within = (one, ltb→lt _ _ more); have = have })
  | inr over ↦
      let past = ltb→ge _ _ over in
      rw over (record {
        sized = sized;
        unstarted = inl on;
        within = tt;
        have = λ j l h. have j l (omega arith);
      })
]

is_on : {p : TcpServer} {m : Main} → IsStarting p → p.main ≡ m → m ≢ idle → p.started ≡ true
is_on h turn ne = elim h.unstarted [ inl on ↦ on | inr off ↦ absurd (ne (sym turn ∙ off)) ]

pub have_at :
    {p : TcpServer} {m : Main}
    → IsStarting p
    → p.main ≡ m
    → (i : ℕ) → 1 ≤ i
    → i < reached m p.thread_num
    → HasLoop p i
have_at {p} h turn i l k = h.have i l (subst (λ m. i < reached m p.thread_num) (sym turn) k)

pub range_at : {p : TcpServer} {m : Main} → IsStarting p → p.main ≡ m → IsWithin m p.thread_num
range_at {p} h turn = subst (λ m. IsWithin m p.thread_num) turn h.within

-- A step of the main thread to a place with the same index.
moved-IsStarting :
    {p : TcpServer} {m : Main} (m' : Main)
    → IsStarting p
    → p.main ≡ m
    → m ≢ idle
    → reached m' p.thread_num ≡ reached m p.thread_num
    → (IsWithin m p.thread_num → IsWithin m' p.thread_num)
    → IsStarting (record p { main = m' })
moved-IsStarting {p} m' h turn ne same fits = record {
  sized = h.sized;
  unstarted = inl (is_on h turn ne);
  within = fits (range_at h turn);
  have = λ i l k. have_at h turn i l (rw (sym same) k);
}

test_null-IsStarting :
    (i : ℕ) {p : TcpServer} → IsStarting p → p.main ≡ testing i → IsStarting (test_null i p)
unfolding test_null
test_null-IsStarting i {p} h turn = elim (Option-cases (p.loops i)) [
  | inl null ↦ rw (null, test_null) (moved-IsStarting (seen_null i) h turn (λ e. cc) refl (λ w. w))
  | inr (a, there) ↦
      rw (there, test_null)
        (enter_for-IsStarting (suc i) p (omega arith) h.sized (is_on h turn (λ e. cc)) (λ j l k.
          elim (Bool-cases (j == i)) [
            | inl same ↦ (a, ap p.loops ((==_iff j i).0 same) ∙ there)
            | inr other ↦ have_at h turn j l (below i j k other)
          ]))
]
  where
    below : (i j : ℕ) → j < suc i → (j == i) ≡ false → j < i
    below i j k other = ground arith

-- What `setThreadNum` needs, and does.
record NumSet (n : ℕ) (p p' : TcpServer) : Type 0 where
  off : p.started ≡ false
  thread_num : p'.thread_num ≡ n
  size : p'.size ≡ n
  main : p'.main ≡ p.main

set_thread_num-NumSet :
    (tid n : ℕ) (p p' : TcpServer) → set_thread_num tid n p ≡ ok p' → NumSet n p p'
unfolding set_thread_num
set_thread_num-NumSet tid n p p' e = record {
  off = ground arith;
  thread_num = ground arith;
  size = ground arith;
  main = ground arith;
}

set_thread_num-IsStarting :
    {n : ℕ} {p p' : TcpServer} → IsStarting p → NumSet n p p' → IsStarting p'
set_thread_num-IsStarting {n} {p} {p'} h s =
    let not_on : p.main ≡ idle = elim h.unstarted [
      | inl on ↦ absurd (clash (sym s.off ∙ on))
      | inr off ↦ off
    ] in
    let off = s.main ∙ not_on in
    record {
      sized = inr (s.thread_num ∙ sym s.size);
      unstarted = inr off;
      within = rw off tt;
      have = λ i l k. absurd (nothing (subst (λ m. i < reached m p'.thread_num) off k));
    }
  where
    clash : false ≡ true → ⊥
    clash e = cc

    nothing : {i : ℕ} → i < 0 → ⊥
    nothing k = omega arith

start-IsStarting : {p : TcpServer} → IsStarting p → IsStarting (start p)
unfolding start
start-IsStarting {p} h = elim (Bool-cases p.started) [
  | inl on ↦
      rw on (record { sized = h.sized; unstarted = inl refl; within = h.within; have = h.have })
  | inr off ↦ rw off (record {
    sized = h.sized;
    unstarted = inl refl;
    within = tt;
    have = λ i l k. absurd (omega arith);
  })
]

set_loop-HasLoop : (i a j : ℕ) (p : TcpServer) → HasLoop p j → HasLoop (set_loop i a p) j
unfolding set_loop
set_loop-HasLoop i a j p h = elim (Bool-cases (j == i)) [
  | inl same ↦ (a, rw same refl)
  | inr other ↦ rw other h
]

set_loop-IsStarting : (i a : ℕ) {p : TcpServer} → IsStarting p → IsStarting (set_loop i a p)
unfolding set_loop
set_loop-IsStarting i a {p} h = record {
  sized = h.sized;
  unstarted = h.unstarted;
  within = h.within;
  have = λ j l k. set_loop-HasLoop i a j p (h.have j l k);
}

notify_main-reached : (m : Main) (n : ℕ) → reached (notify_main m) n ≡ reached m n
notify_main-reached m n = ground arith

notify_main-IsWithin : (m : Main) (n : ℕ) → IsWithin m n → IsWithin (notify_main m) n
notify_main-IsWithin idle n w = w
notify_main-IsWithin asked n w = w
notify_main-IsWithin (testing i) n w = w
notify_main-IsWithin (seen_null i) n w = w
notify_main-IsWithin (waiting i) n w = w
notify_main-IsWithin (woken i) n w = w
notify_main-IsWithin done n w = w

notify-IsStarting : (i : ℕ) {p : TcpServer} → IsStarting p → IsStarting (notify i p)
unfolding notify
notify-IsStarting i {p} h = record {
  sized = h.sized;
  unstarted = elim h.unstarted [ inl on ↦ inl on | inr off ↦ inr (ap notify_main off) ];
  within = notify_main-IsWithin p.main p.thread_num h.within;
  have = λ j l k. h.have j l (subst (λ r. j < r) (notify_main-reached p.main p.thread_num) k);
}

Step-IsStarting : {b : Bool} {p p' : TcpServer} → IsStarting p → Step b p p' → IsStarting p'
unfolding begin_wait end_wait
Step-IsStarting h (sets_num tid n e) =
    set_thread_num-IsStarting h (set_thread_num-NumSet tid n _ _ e)
Step-IsStarting h starts = start-IsStarting h
Step-IsStarting h (begins turn) =
    enter_for-IsStarting 1 _ (omega arith) h.sized (is_on h turn (λ e. cc))
      (λ j l k. absurd (omega arith))
Step-IsStarting h (tests i turn) = test_null-IsStarting i h turn
Step-IsStarting h (waits i turn) = moved-IsStarting (waiting i) h turn (λ e. cc) refl (λ w. w)
Step-IsStarting h (resumes i turn) = moved-IsStarting (testing i) h turn (λ e. cc) refl (λ w. w)
Step-IsStarting h (stirs i may turn) = moved-IsStarting (testing i) h turn (λ e. cc) refl (λ w. w)
Step-IsStarting h (sets i a turn) = set_loop-IsStarting i a h
Step-IsStarting h (notifies i turn) = notify-IsStarting i h

pub Steps-IsStarting : {b : Bool} {p p' : TcpServer} → IsStarting p → Steps b p p' → IsStarting p'
Steps-IsStarting h here = h
Steps-IsStarting h (next before step) = Step-IsStarting (Steps-IsStarting h before) step
