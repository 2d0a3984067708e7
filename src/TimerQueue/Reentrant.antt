-- ===== src/TimerQueue/Reentrant.antt =====
-- `handleRead` with callbacks that add timers and cancel those that wait.
use Prim.Native.Nat.{max}
use cppweb.TimerQueue.Reading.{Split-CanRun, arm_first-SameSet, arm_first-armed}
use cppweb.Base.{
  ℕ, ◌+◌, ◌≡◌, ◌≢◌, refl, sym, ap, ◌∙◌, some, List, [], ◌∷◌, ◌++◌, append_assoc, append-nil,
  Returns, ◌<◌, ◌≤◌,
}
use cppweb.TimerQueue.{
  Entry, TimerQueue, Run, run_expired, millisecond, handle_read, get_expired, split_at_bound,
  arm_first,
}
use cppweb.TimerQueue.Members.{All, split_at_bound-Split}
use cppweb.TimerQueue.Memory.{Live, IsValid, SameSet-IsValid}
use cppweb.TimerQueue.Settle.{fire-ok, settle-Settled}
use cppweb.TimerQueue.Expiry.{addresses, CanRun, Live-others, apart-Settled}
use cppweb.TimerQueue.Using.{Uses, IsUsing}

-- What the loop over the expired entries achieves.
record Served (q : TimerQueue) (es : List Entry) (q' : TimerQueue) : Type 0 where
  valid : IsValid q'
  fired : q'.fired ≡ q.fired ++ addresses es

Live-Uses :
    {q q' : TimerQueue} (es : List Entry)
    → Uses q q'
    → All (λ e. All (λ f. f.1 ≢ e.1) q.timers) es
    → All (Live q.heap) es
    → All (Live q'.heap) es × All (λ e. All (λ f. f.1 ≢ e.1) q'.timers) es
Live-Uses [] u far h = (tt, tt)
Live-Uses (x ∷ xs) u far ((t, here, time, active), h) =
    let rest = Live-Uses xs u far.1 h in
    (((t, u.heap x.1 t here far.0, time, active), rest.0), (u.apart x.1 t here far.0, rest.1))

run_expired-Served :
    (run : Run) (now : ℕ) (es : List Entry) {q : TimerQueue}
    → IsUsing run
    → CanRun now q es
    → Returns (run_expired run now es q) (Served q es)
unfolding run_expired
run_expired-Served run now [] {q} uses c =
    (q, refl, record { valid = c.valid; fired = sym (append-nil q.fired) })
run_expired-Served run now (e ∷ es) {q} uses c =
    let (t, here, time, active) = c.live.0 in
    let q0 : TimerQueue = record q { fired = q.fired ++ (e.1 ∷ []) } in
    let v0 : IsValid q0 = record {
      sorted = c.valid.sorted;
      distinct = c.valid.distinct;
      live = c.valid.live;
    } in
    let (q1, e1, u) = uses e.1 q0 v0 in
    let left = Live-Uses es u c.apart.1 c.live.1 in
    let (q2, e2, s) =
      settle-Settled e t q1 u.valid (u.apart e.1 t here c.apart.0) (u.heap e.1 t here c.apart.0)
        time active in
    let (q3, e3, r) = run_expired-Served run now es uses (record {
      valid = s.valid;
      live = Live-others q1.heap q2.heap e.1 es s.others c.distinct.0 left.0;
      due = c.due.1;
      distinct = c.distinct.1;
      apart = apart-Settled e t q1 q2 es s c.distinct.0 left.1;
    }) in
    (
      q3,
      rw (fire-ok run now e q c.live.0 c.due.0, e1, e2) e3,
      record {
        valid = r.valid;
        fired =
            r.fired
            ∙ ap (λ xs. xs ++ addresses es) (s.fired ∙ u.fired)
            ∙ append_assoc q.fired (e.1 ∷ []) (addresses es);
      },
    )

-- What one call of `handleRead` achieves: `expired` are the entries whose time has come, and
-- `waiting` the others.
pub record Handled (now later : ℕ) (q q' : TimerQueue) : Type 0 where
  pub expired : List Entry
  pub waiting : List Entry
  pub whole : expired ++ waiting ≡ q.timers
  pub due : All (λ e. e.0 ≤ now) expired
  pub not_due : All (λ e. now < e.0) waiting
  pub fired : q'.fired ≡ q.fired ++ addresses expired
  pub valid : IsValid q'
  pub armed :
      (e : Entry) (rest : List Entry)
      → q'.timers ≡ e ∷ rest
      → q'.armed ≡ some (max (later + millisecond) e.0)

-- Where set and heap agree, and the callbacks return and whatever they add and cancel leaves the timers alone
-- that are not in the set, `handleRead` returns, and set and heap agree again: no deleted timer is used.
-- Exactly the timers whose time had come run, once each and in order, and the descriptor is set for the
-- first of those then in the set, a millisecond ahead at least.
pub handle_read-Handled :
    (run : Run) (now later : ℕ) {q : TimerQueue}
    → IsUsing run
    → IsValid q
    → Returns (handle_read run now later q) (Handled now later q)
unfolding handle_read get_expired
handle_read-Handled run now later {q} uses v =
    let split = split_at_bound-Split now q.timers v.sorted in
    let r = split_at_bound (now + 1, 0) q.timers in
    let (q1, e, served) = run_expired-Served run now r.0 uses (Split-CanRun now q r v split) in
    let same = arm_first-SameSet later q1 in
    (
      arm_first later q1,
      rw e refl,
      record {
        expired = r.0;
        waiting = r.1;
        whole = split.whole;
        due = split.due;
        not_due = split.not_due;
        fired = same.fired ∙ served.fired;
        valid = SameSet-IsValid same served.valid;
        armed = λ f rest h. arm_first-armed later q1 f rest (sym same.timers ∙ h);
      },
    )
