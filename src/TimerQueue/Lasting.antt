-- ===== src/TimerQueue/Lasting.antt =====
-- A timer that repeats and is not cancelled stays on the heap through `handleRead`.
use cppweb.Base.{
  ℕ, ◌≡◌, refl, sym, ap, ◌∙◌, true, false, not, ◌&&◌, none, some, List, [], ◌∷◌, ◌==◌, ==_iff,
  Bool-cases, inl, inr, ◌+◌, ◌++◌,
}
use cppweb.Base.Outcome.{After, After-bind, After-assert, After-if, After-use}
use cppweb.TimerQueue.{
  Timer, Entry, TimerQueue, Run, deref, is_expired, restart, fire, settle, run_expired, get_expired,
  handle_read, split_at_bound,
}
use cppweb.TimerQueue.Memory.{deref-ok}
use cppweb.TimerQueue.Settle.{IsQuiet}
use cppweb.TimerQueue.Reading.{arm_first-SameSet}

-- The timer at `b` is on the heap, repeats, and is not cancelled.
abbrev pub Lasts : ℕ → TimerQueue → Type 0
Lasts b q = (t : Timer) × (q.heap b ≡ some t) × (t.repeat ≡ true) × (t.canceled ≡ false)

settle-Lasts : (b : ℕ) (e : Entry) (q : TimerQueue) → Lasts b q → After (settle e q) (Lasts b)
unfolding settle restart
settle-Lasts b e q (t, here, again, active) = elim (Bool-cases (b == e.1)) [
  | inl same ↦
      let own : q.heap e.1 ≡ some t = ap q.heap (sym ((==_iff b e.1).0 same)) ∙ here in
      rw (deref-ok e.1 q own, active, again)
        (
          record { at = t.at + t.interval; interval = t.interval; repeat = true; canceled = false },
          rw same refl,
          refl,
          refl,
        )
  | inr other ↦ After-bind (Lasts b) (deref e.1 q) _ (λ u _.
      After-if (not u.canceled && u.repeat) (Lasts b) _ _
        (After-bind (Lasts b) (restart u) _ (λ u' _. (t, rw other here, again, active)))
        (t, rw other here, again, active))
]

run_expired-Lasts :
    (run : Run) (now b : ℕ) (es : List Entry) (q : TimerQueue)
    → IsQuiet run
    → Lasts b q
    → After (run_expired run now es q) (Lasts b)
unfolding run_expired fire
run_expired-Lasts run now b [] q quiet l = l
run_expired-Lasts run now b (e ∷ es) q quiet l =
    After-bind (Lasts b) (fire run now e q) _ (λ q1 fired.
      let kept = After-use (Lasts b) _ q1 fired (fire-Lasts l) in
      After-bind (Lasts b) (settle e q1) _ (λ q2 settled.
        run_expired-Lasts run now b es q2 quiet
          (After-use (Lasts b) _ q2 settled (settle-Lasts b e q1 kept))))
  where
    fire-Lasts : Lasts b q → After (fire run now e q) (Lasts b)
    fire-Lasts l = After-bind (Lasts b) (deref e.1 q) _ (λ t _.
        After-assert (Lasts b) (is_expired t now) _ (λ _.
          After-if (not t.canceled) (Lasts b) _ _
            (rw (quiet e.1 (record q { fired = q.fired ++ (e.1 ∷ []) })) l) l))

pub handle_read-Lasts :
    (run : Run) (now later b : ℕ) (q : TimerQueue)
    → IsQuiet run
    → Lasts b q
    → After (handle_read run now later q) (Lasts b)
unfolding handle_read get_expired
handle_read-Lasts run now later b q quiet l =
    let r = split_at_bound (now + 1, 0) q.timers in
    let q0 : TimerQueue = record q { armed = none; timers = r.1 } in
    After-bind (Lasts b) (run_expired run now r.0 q0) _ (λ q1 ran.
      let (t, here, again, active) =
        After-use (Lasts b) _ q1 ran (run_expired-Lasts run now b r.0 q0 quiet l) in
      (t, ap (λ h. h b) (arm_first-SameSet later q1).heap ∙ here, again, active))
