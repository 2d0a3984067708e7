-- ===== src/TimerQueue/Growth.antt =====
-- `handleRead` with callbacks that add timers.
use Prim.Native.Nat.{max}
use cppweb.TimerQueue.Reading.{Split-CanRun, arm_first-SameSet, arm_first-armed}
use mathlib.Core.Path.{subst}
use cppweb.Base.{
  ℕ, ◌+◌, ◌≡◌, ◌≢◌, refl, sym, ap, ◌∙◌, true, some, List, [], ◌∷◌, ◌++◌, append_assoc, append-nil,
  Returns, ◌<◌, ◌≤◌,
}
use cppweb.TimerQueue.{
  Timer, Entry, TimerQueue, Run, run_expired, millisecond, handle_read, get_expired, split_at_bound,
  arm_first,
}
use cppweb.TimerQueue.Members.{All, Has, split_at_bound-Split}
use cppweb.TimerQueue.Memory.{Live, IsValid, All-map, SameSet-IsValid}
use cppweb.TimerQueue.Settle.{fire-ok, settle-Settled}
use cppweb.TimerQueue.Expiry.{addresses, CanRun, Live-others, apart-Settled}
use cppweb.TimerQueue.Adding.{Adds, IsAdding}

-- What the loop over the expired entries achieves.
record Went (q : TimerQueue) (es : List Entry) (q' : TimerQueue) : Type 0 where
  valid : IsValid q'
  fired : q'.fired ≡ q.fired ++ addresses es
  kept : (f : Entry) → Has f q.timers → Has f q'.timers
  repeats :
      All
        (λ e.
          (t : Timer)
          → q.heap e.1 ≡ some t
          → t.repeat ≡ true
          → Has (e.0 + t.interval, e.1) q'.timers)
        es

Live-Adds :
    {q q' : TimerQueue} (es : List Entry) → Adds q q' → All (Live q.heap) es → All (Live q'.heap) es
Live-Adds {q} {q'} es ad h =
    All-map (Live q.heap) (Live q'.heap)
      (λ e (t, here, time, active). (t, ad.heap e.1 t here, time, active)) es h

apart-Adds :
    {q q' : TimerQueue} (es : List Entry)
    → Adds q q'
    → All (Live q.heap) es
    → All (λ e. All (λ f. f.1 ≢ e.1) q.timers) es
    → All (λ e. All (λ f. f.1 ≢ e.1) q'.timers) es
apart-Adds [] ad l h = tt
apart-Adds (x ∷ xs) ad l h = (ad.apart x.1 l.0.0 l.0.1 h.0, apart-Adds xs ad l.1 h.1)

repeats-others :
    (q q1 q2 q' : TimerQueue) (a : ℕ) (es : List Entry)
    → Adds q q1
    → ((b : ℕ) → b ≢ a → q2.heap b ≡ q1.heap b)
    → All (λ e. e.1 ≢ a) es
    → All
        (λ e.
          (t : Timer)
          → q2.heap e.1 ≡ some t
          → t.repeat ≡ true
          → Has (e.0 + t.interval, e.1) q'.timers)
        es
    → All
        (λ e.
          (t : Timer)
          → q.heap e.1 ≡ some t
          → t.repeat ≡ true
          → Has (e.0 + t.interval, e.1) q'.timers)
        es
repeats-others q q1 q2 q' a [] ad same n h = tt
repeats-others q q1 q2 q' a (x ∷ xs) ad same n h = (
  (λ t here again. h.0 t (same x.1 n.0 ∙ ad.heap x.1 t here) again),
  repeats-others q q1 q2 q' a xs ad same n.1 h.1,
)

some_same : {t u : Timer} → some t ≡ some u → t ≡ u
some_same e = cc

run_expired-Went :
    (run : Run) (now : ℕ) (es : List Entry) {q : TimerQueue}
    → IsAdding run
    → CanRun now q es
    → Returns (run_expired run now es q) (Went q es)
unfolding run_expired
run_expired-Went run now [] {q} adding c = (
  q,
  refl,
  record { valid = c.valid; fired = sym (append-nil q.fired); kept = λ f m. m; repeats = tt },
)
run_expired-Went run now (e ∷ es) {q} adding c =
    let (t, here, time, active) = c.live.0 in
    let q0 : TimerQueue = record q { fired = q.fired ++ (e.1 ∷ []) } in
    let v0 : IsValid q0 = record {
      sorted = c.valid.sorted;
      distinct = c.valid.distinct;
      live = c.valid.live;
    } in
    let (q1, e1, ad) = adding e.1 q0 v0 in
    let (q2, e2, s) =
      settle-Settled e t q1 ad.valid (ad.apart e.1 t here c.apart.0) (ad.heap e.1 t here) time
        active in
    let (q3, e3, r) = run_expired-Went run now es adding (record {
      valid = s.valid;
      live = Live-others q1.heap q2.heap e.1 es s.others c.distinct.0 (Live-Adds es ad c.live.1);
      due = c.due.1;
      distinct = c.distinct.1;
      apart = apart-Settled e t q1 q2 es s c.distinct.0 (apart-Adds es ad c.live.1 c.apart.1);
    }) in
    (
      q3,
      rw (fire-ok run now e q c.live.0 c.due.0, e1, e2) e3,
      record {
        valid = r.valid;
        fired =
            r.fired
            ∙ ap (λ xs. xs ++ addresses es) (s.fired ∙ ad.fired)
            ∙ append_assoc q.fired (e.1 ∷ []) (addresses es);
        kept = λ f m. r.kept f (s.kept f (ad.kept f m));
        repeats = (
          (λ u at again.
              let same : t ≡ u = some_same (sym here ∙ at) in
              r.kept (e.0 + u.interval, e.1)
                (subst (λ (w : Timer). Has (e.0 + w.interval, e.1) q2.timers) same
                  (s.repeats (ap (λ (w : Timer). w.repeat) same ∙ again)))),
          repeats-others q0 q1 q2 q3 e.1 es ad s.others c.distinct.0 r.repeats,
        );
      },
    )

-- What one call of `handleRead` achieves: `expired` are the entries whose time has come, and
-- `waiting` the others.
pub record Grown (now later : ℕ) (q q' : TimerQueue) : Type 0 where
  pub expired : List Entry
  pub waiting : List Entry
  pub whole : expired ++ waiting ≡ q.timers
  pub due : All (λ e. e.0 ≤ now) expired
  pub not_due : All (λ e. now < e.0) waiting
  pub fired : q'.fired ≡ q.fired ++ addresses expired
  pub repeats :
      All
        (λ e.
          (t : Timer)
          → q.heap e.1 ≡ some t
          → t.repeat ≡ true
          → Has (e.0 + t.interval, e.1) q'.timers)
        expired
  pub kept : (e : Entry) → Has e waiting → Has e q'.timers
  pub valid : IsValid q'
  pub armed :
      (e : Entry) (rest : List Entry)
      → q'.timers ≡ e ∷ rest
      → q'.armed ≡ some (max (later + millisecond) e.0)

-- Where set and heap agree, and the callbacks return and only add timers at free addresses, `handleRead`
-- returns, and set and heap agree again. Exactly the timers whose time had come before run, once each and
-- in order, and none that a callback added; one that repeats is in the set again an interval later, the
-- others stay, and the descriptor is set for the first of the set, a millisecond ahead at least.
pub handle_read-Grown :
    (run : Run) (now later : ℕ) {q : TimerQueue}
    → IsAdding run
    → IsValid q
    → Returns (handle_read run now later q) (Grown now later q)
unfolding handle_read get_expired
handle_read-Grown run now later {q} adding v =
    let split = split_at_bound-Split now q.timers v.sorted in
    let r = split_at_bound (now + 1, 0) q.timers in
    let (q1, e, went) = run_expired-Went run now r.0 adding (Split-CanRun now q r v split) in
    let same = arm_first-SameSet later q1 in
    (
      arm_first later q1,
      rw e refl,
      record {
        expired = r.0;
        waiting = r.1;
        whole = split.whole;
        due = split.due;
        not_due = split.not_due;
        fired = same.fired ∙ went.fired;
        repeats = rw same.timers went.repeats;
        kept = λ f m. rw same.timers (went.kept f m);
        valid = SameSet-IsValid same went.valid;
        armed = λ f rest h. arm_first-armed later q1 f rest (sym same.timers ∙ h);
      },
    )
