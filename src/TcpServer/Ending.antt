-- ===== src/TcpServer/Ending.antt =====
-- `startInLoop` from its reads of the list of loops to its return, and the destructor after that.
use mathlib.Core.List.{Mem, mem-append_left, mem-append_right, mem-cons_self}
use cppweb.Base.{
  ℕ, zero, suc, ◌≤◌, ◌<◌, ◌≡◌, ◌⊎◌, inl, inr, sym, ap, ◌∙◌, Bool, some, [], ◌∷◌, Option-cases,
  arith, ◌==◌, ==_iff, Bool-cases, false,
}
use cppweb.TcpServer.{TcpServer, testing, done, make, quits, destroy, Steps}
use cppweb.TcpServer.Starting.{make-IsStarting, have_at, range_at, Steps-IsStarting}

-- The loop of an index is there, and the destructor quits it.
abbrev pub IsQuit : TcpServer → ℕ → Type 0
IsQuit p i = (a : ℕ) × (p.loops i ≡ some a) × Mem a (destroy p)

quits-loops : (p : TcpServer) (n i a : ℕ) → i < n → p.loops i ≡ some a → Mem a (quits n p)
unfolding quits
quits-loops p zero i a l e = absurd (omega arith)
quits-loops p (suc n) i a l e = elim (Bool-cases (i == n)) [
  | inl last ↦
      let at : p.loops n ≡ some a = ap p.loops (sym ((==_iff i n).0 last)) ∙ e in
      rw (at, quits) (mem-append_right (quits n p) mem-cons_self)
  | inr before ↦ earlier (quits-loops p n i a (below before) e)
]
  where
    below : (i == n) ≡ false → i < n
    below other = ground arith

    earlier : Mem a (quits n p) → Mem a (quits (suc n) p)
    earlier m = elim (Option-cases (p.loops n)) [
      | inl null ↦ rw (null, quits) m
      | inr (b, there) ↦ rw (there, quits) (mem-append_left (b ∷ []) m)
    ]

inside : {i n s : ℕ} → 1 ≤ i → i < n → (n ≡ 1) ⊎ (n ≡ s) → i < s
inside l k e = ground arith

-- In whatever order the threads take their steps, and also where `wait` returns without being notified,
-- each index with which `startInLoop` reads `m_eventLoopList` is one of the list; and once `startInLoop`
-- has returned, every thread but the first has its loop there, and the destructor quits that loop.
pub test_null-destroy :
    (b : Bool) (tid : ℕ) {p : TcpServer}
    → Steps b (make tid) p
    → ((i : ℕ) → p.main ≡ testing i → i < p.size)
      × (p.main ≡ done → (i : ℕ) → 1 ≤ i → i < p.thread_num → IsQuit p i)
unfolding destroy
test_null-destroy b tid {p} run =
    let h = Steps-IsStarting (make-IsStarting tid) run in
    (
      (λ i turn. let w = range_at h turn in inside w.0 w.1 h.sized),
      (λ turn i l k.
          let (a, there) = have_at h turn i l k in
          (a, there, quits-loops p p.size i a (inside l k h.sized) there)),
    )
