-- ===== src/TimerQueue/Expiry.antt =====
-- `handleRead`: each timer that has expired runs once, in order, and is rescheduled or deleted.
use mathlib.Core.Path.{subst}
use cppweb.Base.{
  ℕ, ◌+◌, ◌≤◌, ◌≡◌, ◌≢◌, refl, sym, ap, ◌∙◌, true, false, Option, none, some, List, [], ◌∷◌, ◌++◌,
  append_assoc, append-nil, Returns,
}
use cppweb.TimerQueue.{Timer, Entry, TimerQueue, Run, run_expired, settle}
use cppweb.TimerQueue.Members.{All, Has}
use cppweb.TimerQueue.Memory.{Live, Distinct, IsValid}
use cppweb.TimerQueue.Settle.{IsQuiet, fire-ok, Settled, settle-Settled}

abbrev pub addresses : List Entry → List ℕ
addresses [] = []
addresses (e ∷ es) = e.1 ∷ addresses es

-- The timer of the entry, as it stood in `heap`, is rescheduled or deleted in `q'`.
pub record Done (heap : ℕ → Option Timer) (q' : TimerQueue) (e : Entry) : Type 0 where
  pub repeats :
      (t : Timer) → heap e.1 ≡ some t → t.repeat ≡ true → Has (e.0 + t.interval, e.1) q'.timers
  pub once : (t : Timer) → heap e.1 ≡ some t → t.repeat ≡ false → q'.heap e.1 ≡ none

-- What the loop over the expired entries `es` achieves.
pub record Ran (q : TimerQueue) (es : List Entry) (q' : TimerQueue) : Type 0 where
  pub valid : IsValid q'
  pub fired : q'.fired ≡ q.fired ++ addresses es
  pub kept : (f : Entry) → Has f q.timers → Has f q'.timers
  pub others : (b : ℕ) → All (λ f. f.1 ≢ b) es → q'.heap b ≡ q.heap b
  pub done : All (Done q.heap q') es

-- The loop may run: its entries are live and expired, and none is in the set.
pub record CanRun (now : ℕ) (q : TimerQueue) (es : List Entry) : Type 0 where
  pub valid : IsValid q
  pub live : All (Live q.heap) es
  pub due : All (λ e. e.0 ≤ now) es
  pub distinct : Distinct es
  pub apart : All (λ e. All (λ f. f.1 ≢ e.1) q.timers) es

pub Live-others :
    (heap heap' : ℕ → Option Timer) (a : ℕ) (es : List Entry)
    → ((b : ℕ) → b ≢ a → heap' b ≡ heap b)
    → All (λ e. e.1 ≢ a) es
    → All (Live heap) es
    → All (Live heap') es
Live-others heap heap' a [] same n h = tt
Live-others heap heap' a (x ∷ xs) same n h =
    ((h.0.0, same x.1 n.0 ∙ h.0.1, h.0.2, h.0.3), Live-others heap heap' a xs same n.1 h.1)

pub apart-Settled :
    (e : Entry) (t : Timer) (q q' : TimerQueue) (es : List Entry)
    → Settled e t q q'
    → All (λ f. f.1 ≢ e.1) es
    → All (λ f. All (λ g. g.1 ≢ f.1) q.timers) es
    → All (λ f. All (λ g. g.1 ≢ f.1) q'.timers) es
apart-Settled e t q q' [] s n h = tt
apart-Settled e t q q' (x ∷ xs) s n h =
    (s.apart x.1 (λ same. n.0 (sym same)) h.0, apart-Settled e t q q' xs s n.1 h.1)

Done-others :
    (heap heap' : ℕ → Option Timer) (q' : TimerQueue) (a : ℕ) (es : List Entry)
    → ((b : ℕ) → b ≢ a → heap' b ≡ heap b)
    → All (λ e. e.1 ≢ a) es
    → All (Done heap' q') es
    → All (Done heap q') es
Done-others heap heap' q' a [] same n h = tt
Done-others heap heap' q' a (x ∷ xs) same n h = (
  record {
    repeats = λ t here. h.0.repeats t (same x.1 n.0 ∙ here);
    once = λ t here. h.0.once t (same x.1 n.0 ∙ here);
  },
  Done-others heap heap' q' a xs same n.1 h.1,
)

-- The round of the first entry settles it, and leaves a queue on which the loop may go on.
pub CanRun-next :
    (now : ℕ) (e : Entry) (es : List Entry) {q : TimerQueue}
    → CanRun now q (e ∷ es)
    → let q1 : TimerQueue = record q { fired = q.fired ++ (e.1 ∷ []) } in
      (t : Timer) × (q.heap e.1 ≡ some t)
      × Returns (settle e q1) (λ q2. Settled e t q1 q2 × CanRun now q2 es)
CanRun-next now e es {q} c =
    let (t, here, time, active) = c.live.0 in
    let q1 : TimerQueue = record q { fired = q.fired ++ (e.1 ∷ []) } in
    let v1 : IsValid q1 = record {
      sorted = c.valid.sorted;
      distinct = c.valid.distinct;
      live = c.valid.live;
    } in
    let (q2, e2, s) = settle-Settled e t q1 v1 c.apart.0 here time active in
    (
      t,
      here,
      (
        q2,
        e2,
        (
          s,
          record {
            valid = s.valid;
            live = Live-others q.heap q2.heap e.1 es s.others c.distinct.0 c.live.1;
            due = c.due.1;
            distinct = c.distinct.1;
            apart = apart-Settled e t q1 q2 es s c.distinct.0 c.apart.1;
          },
        ),
      ),
    )

some_same : {t u : Timer} → some t ≡ some u → t ≡ u
some_same e = cc

pub run_expired-Ran :
    (run : Run) (now : ℕ) (es : List Entry) {q : TimerQueue}
    → IsQuiet run
    → CanRun now q es
    → Returns (run_expired run now es q) (Ran q es)
unfolding run_expired
run_expired-Ran run now [] {q} quiet c = (
  q,
  refl,
  record {
    valid = c.valid;
    fired = sym (append-nil q.fired);
    kept = λ f m. m;
    others = λ b n. refl;
    done = tt;
  },
)
run_expired-Ran run now (e ∷ es) {q} quiet c =
    let q1 : TimerQueue = record q { fired = q.fired ++ (e.1 ∷ []) } in
    let (t, here, (q2, e2, (s, next))) = CanRun-next now e es c in
    let (q3, e3, r) = run_expired-Ran run now es quiet next in
    let own : q3.heap e.1 ≡ q2.heap e.1 = r.others e.1 c.distinct.0 in
    (
      q3,
      rw (fire-ok run now e q c.live.0 c.due.0, quiet e.1 q1, e2) e3,
      record {
        valid = r.valid;
        fired =
            r.fired
            ∙ ap (λ xs. xs ++ addresses es) s.fired
            ∙ append_assoc q.fired (e.1 ∷ []) (addresses es);
        kept = λ f m. r.kept f (s.kept f m);
        others = λ b n. r.others b n.1 ∙ s.others b (λ same. n.0 (sym same));
        done = (
          record {
            repeats = λ u at again.
                let same : t ≡ u = some_same (sym here ∙ at) in
                r.kept (e.0 + u.interval, e.1)
                  (subst (λ (w : Timer). Has (e.0 + w.interval, e.1) q2.timers) same
                    (s.repeats (ap (λ (w : Timer). w.repeat) same ∙ again)));
            once = λ u at last.
                let same : t ≡ u = some_same (sym here ∙ at) in
                own ∙ s.once (ap (λ (w : Timer). w.repeat) same ∙ last);
          },
          Done-others q.heap q2.heap q3 e.1 es s.others c.distinct.0 r.done,
        );
      },
    )
