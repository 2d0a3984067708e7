-- ===== src/LoopThread/Ending.antt =====
-- The destructor of cppweb/EventLoopThread.cpp, which joins the thread.
use cppweb.Base.{◌≡◌, ◌≢◌, ◌⊎◌, true, false, inl, inr, refl, arith, ok, Bool}
use cppweb.LoopThread.{
  unborn, ended, LoopThread, make, start_loop, begin_wait, set_loop, notify, return_loop, quit,
  end_thread, destroy, can_return, Step, starts, waits, sets, notifies, returns, quits, ends,
  destroys, stirs, Steps, here, next, created,
}

-- The thread ends only where its loop was told to quit, and runs only where it was started; a destructor that
-- returned found it ended or not started.
record IsEnding (p : LoopThread) : Type 0 where
  told : p.worker ≡ ended → p.quitting ≡ true
  born : p.worker ≢ unborn → p.started ≡ true
  alone : p.gone ≡ true → (p.started ≡ false) ⊎ (p.worker ≡ ended)

start_loop-kept :
    (p : LoopThread) {p' : LoopThread}
    → start_loop p ≡ ok p'
    → (p'.started ≡ true) × (p'.worker ≡ created) × (p'.gone ≡ p.gone)
unfolding start_loop
start_loop-kept p e = ground arith

can_return_lem : (p : LoopThread) → can_return p ≡ true → (p.started ≡ false) ⊎ (p.worker ≡ ended)
unfolding can_return
can_return_lem p e = ground arith

make-IsEnding : IsEnding make
unfolding make
make-IsEnding = record { told = λ e. cc; born = λ n. absurd (n refl); alone = λ e. cc }

Step-IsEnding : {b : Bool} {p p' : LoopThread} → IsEnding p → Step b p p' → IsEnding p'
unfolding begin_wait set_loop notify return_loop quit end_thread destroy
Step-IsEnding h (starts {p} there turn e) =
    let s = start_loop-kept p e in
    record { told = λ w. cc (s.1, w); born = λ n. s.0; alone = λ g. cc (s.2, there, g) }
Step-IsEnding h (waits turn) = record { told = h.told; born = h.born; alone = h.alone }
Step-IsEnding h (sets a {p} turn) = record {
  told = λ w. cc;
  born = λ n. h.born (λ w. cc (turn, w));
  alone =
      λ g. elim (h.alone g) [ inl idle_one ↦ inl idle_one | inr over ↦ absurd (cc (turn, over)) ];
}
Step-IsEnding h (notifies turn) = record {
  told = λ w. cc;
  born = λ n. h.born (λ w. cc (turn, w));
  alone =
      λ g. elim (h.alone g) [ inl idle_one ↦ inl idle_one | inr over ↦ absurd (cc (turn, over)) ];
}
Step-IsEnding h (returns turn) = record { told = h.told; born = h.born; alone = h.alone }
Step-IsEnding h (quits turn) = record { told = λ w. refl; born = h.born; alone = h.alone }
Step-IsEnding h (ends turn told) = record {
  told = λ w. told;
  born = λ n. h.born (λ w. cc (turn, w));
  alone = λ g. inr refl;
}
Step-IsEnding h (destroys {p} free) = record {
  told = h.told;
  born = h.born;
  alone = λ g. can_return_lem p free;
}
Step-IsEnding h (stirs may turn) = record { told = h.told; born = h.born; alone = h.alone }

Steps-IsEnding : {b : Bool} {p p' : LoopThread} → IsEnding p → Steps b p p' → IsEnding p'
Steps-IsEnding h here = h
Steps-IsEnding h (next before step) = Step-IsEnding (Steps-IsEnding h before) step

-- Whatever the threads do, and also where they wake without being notified: the destructor returns only where no
-- thread was started, or where its loop was told to quit and the thread has ended. So the destructor of a
-- started thread whose loop nobody tells to quit never returns.
destroy-quit :
    {b : Bool} {p : LoopThread}
    → Steps b make p
    → p.gone ≡ true
    → (p.started ≡ false) ⊎ ((p.worker ≡ ended) × (p.quitting ≡ true))
destroy-quit run g =
    let h = Steps-IsEnding make-IsEnding run in
    elim (h.alone g) [ inl none_started ↦ inl none_started | inr over ↦ inr (over, h.told over) ]
