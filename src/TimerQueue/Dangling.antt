-- ===== src/TimerQueue/Dangling.antt =====
-- A callback that cancels a timer which `handleRead` has taken out of the set.

use mathlib.Core.Path.{subst}
use cppweb.TimerQueue.Reading.{split_first, Split-CanRun, handle_read_dangling}
use cppweb.TimerQueue.Order.{IsSorted}
use cppweb.Base.{
  ◌<◌, ℕ, ◌≤◌, ◌≡◌, ◌≢◌, inl, inr, refl, sym, ap, ◌∙◌, Option, none, List, [], ◌∷◌, ◌++◌, fault,
  dangling, ok, ==_of_ne, ==_iff, ◌==◌, if◌then◌else◌, true, ◌⊎◌, arith, ◌+◌,
}
use cppweb.TimerQueue.{
  Timer, Entry, TimerQueue, Run, fire, run_expired, cancel_in_loop, cancel, erase, store, less,
  split_at_bound, handle_read, get_expired,
}
use cppweb.TimerQueue.Members.{
  All, Has, All-Has, erase-All, erase-IsSorted, Split, split_at_bound-Split,
}
use cppweb.TimerQueue.Memory.{
  deref-dangling, Live, Distinct, IsValid, All-map, deref-ok, store-Live, erase-Distinct,
}
use cppweb.TimerQueue.Settle.{fire-ok, settle-Settled}
use cppweb.TimerQueue.Expiry.{apart-Settled, CanRun}

-- The timer of the entry is one of the others, and is live.
abbrev LiveBut : ℕ → (ℕ → Option Timer) → Entry → Type 0
LiveBut a heap e = e.1 ≢ a → Live heap e

LiveBut-others :
    (a : ℕ) (heap heap' : ℕ → Option Timer) (b : ℕ) (es : List Entry)
    → ((c : ℕ) → c ≢ b → heap' c ≡ heap c)
    → All (λ e. e.1 ≢ b) es
    → All (LiveBut a heap) es
    → All (LiveBut a heap') es
LiveBut-others a heap heap' b [] same n h = tt
LiveBut-others a heap heap' b (x ∷ xs) same n h = (
  (λ ne. let (t, here, time, active) = h.0 ne in (t, same x.1 n.0 ∙ here, time, active)),
  LiveBut-others a heap heap' b xs same n.1 h.1,
)

-- The loop reaches a timer that was deleted.
run_expired-deleted :
    (run : Run) (now c : ℕ) (f : Entry) (es : List Entry) {q : TimerQueue}
    → ((b : ℕ) (q1 : TimerQueue) → b ≢ c → run b q1 ≡ ok q1)
    → IsValid q
    → q.heap f.1 ≡ none
    → Has f es
    → All (λ e. e.1 ≢ c) es
    → All (LiveBut f.1 q.heap) es
    → All (λ e. e.0 ≤ now) es
    → Distinct es
    → All (λ e. All (λ g. g.1 ≢ e.1) q.timers) es
    → run_expired run now es q ≡ fault dangling
unfolding run_expired fire
run_expired-deleted run now c f [] quiet v gone m away live due distinct apart = absurd m
run_expired-deleted run now c f (e ∷ es) {q} quiet v gone (inl same) away live due distinct apart =
    rw (deref-dangling e.1 q (ap (λ (g : Entry). q.heap g.1) same ∙ gone)) refl
run_expired-deleted run now c f (e ∷ es) {q} quiet v gone (inr m) away live due distinct apart =
    let other : f.1 ≢ e.1 = All-Has (λ g. g.1 ≢ e.1) es distinct.0 m in
    let (t, here, time, active) = live.0 (λ same. other (sym same)) in
    let q1 : TimerQueue = record q { fired = q.fired ++ (e.1 ∷ []) } in
    let v1 : IsValid q1 = record { sorted = v.sorted; distinct = v.distinct; live = v.live } in
    let (q2, e2, s) = settle-Settled e t q1 v1 apart.0 here time active in
    rw (fire-ok run now e q (t, here, time, active) due.0, quiet e.1 q1 away.0, e2)
      (run_expired-deleted run now c f es quiet s.valid (s.others f.1 other ∙ gone) m away.1
        (LiveBut-others f.1 q.heap q2.heap e.1 es s.others distinct.0 live.1) due.1 distinct.1
        (apart-Settled e t q1 q2 es s distinct.0 apart.1))

-- The first of the entries cancels the timer of a later one.
run_expired-cancel_in_loop :
    (run : Run) (now : ℕ) (e f : Entry) (es : List Entry) {q : TimerQueue}
    → CanRun now q (e ∷ es)
    → Has f es
    → ((q1 : TimerQueue) → run e.1 q1 ≡ cancel_in_loop f.1 q1)
    → ((b : ℕ) (q1 : TimerQueue) → b ≢ e.1 → run b q1 ≡ ok q1)
    → run_expired run now (e ∷ es) q ≡ fault dangling
unfolding run_expired cancel_in_loop cancel
run_expired-cancel_in_loop run now e f es {q} c m cancels quiet =
    let (t, here, time, active) = c.live.0 in
    let (u, there, later, live) = All-Has (Live q.heap) es c.live.1 m in
    let other : f.1 ≢ e.1 = All-Has (λ g. g.1 ≢ e.1) es c.distinct.0 m in
    let q0 : TimerQueue = record q { fired = q.fired ++ (e.1 ∷ []) } in
    let left = erase (u.at, f.1) q.timers in
    let q1 : TimerQueue = store f.1 none (record q0 { timers = left }) in
    let kept = λ (b : ℕ) (ne : b ≢ f.1). same_at b f.1 none q.heap ne in
    let v1 : IsValid q1 = record {
      sorted = erase-IsSorted (u.at, f.1) q.timers c.valid.sorted;
      distinct = erase-Distinct (u.at, f.1) q.timers c.valid.distinct;
      live =
          store-Live f.1 none q left
            (erase-All (λ g. g.1 ≢ f.1) (u.at, f.1) q.timers
              (All-Has (λ g. All (λ h. h.1 ≢ g.1) q.timers) es c.apart.1 m))
            (erase-All (Live q.heap) (u.at, f.1) q.timers c.valid.live);
    } in
    let far = λ (g : Entry) (h : All (λ k. k.1 ≢ g.1) q.timers).
      erase-All (λ k. k.1 ≢ g.1) (u.at, f.1) q.timers h in
    let (q2, e2, s) =
      settle-Settled e t q1 v1 (far e c.apart.0) (kept e.1 (λ same. other (sym same)) ∙ here) time
        active in
    rw (fire-ok run now e q c.live.0 c.due.0, cancels q0, deref-ok f.1 q0 there, live, e2)
      (run_expired-deleted run now e.1 f es quiet s.valid (s.others f.1 other ∙ gone_at f.1 q.heap)
        m c.distinct.0
        (LiveBut-others f.1 q1.heap q2.heap e.1 es s.others c.distinct.0 (
          All-map (Live q.heap) (LiveBut f.1 q1.heap)
            (λ g (w, at, r, k) ne. (w, kept g.1 ne ∙ at, r, k)) es c.live.1))
        c.due.1 c.distinct.1
        (apart-Settled e t q1 q2 es s c.distinct.0 (
          All-map (λ g. All (λ k. k.1 ≢ g.1) q.timers) (λ g. All (λ k. k.1 ≢ g.1) left) far es
            c.apart.1)))
  where
    same_at :
        (b a : ℕ) (t : Option Timer) (heap : ℕ → Option Timer)
        → b ≢ a
        → (if b == a then t else heap b) ≡ heap b
    same_at b a t heap ne = rw (==_of_ne b a ne) refl

    gone_at : (a : ℕ) (heap : ℕ → Option Timer) → (if a == a then none else heap a) ≡ none
    gone_at a heap = rw ((==_iff a a).1 refl) refl

-- An entry that is due is among those that are taken out.
due-Has :
    (now : ℕ) (f : Entry) (xs ys : List Entry)
    → All (λ e. now < e.0) ys
    → f.0 ≤ now
    → Has f (xs ++ ys)
    → Has f xs
due-Has now f [] ys late due m =
    let after = All-Has (λ e. now < e.0) ys late m in absurd (omega (arith, after, due))
due-Has now f (x ∷ xs) ys late due (inl same) = inl same
due-Has now f (x ∷ xs) ys late due (inr m) = inr (due-Has now f xs ys late due m)

handle_read_later :
    (run : Run) (now later : ℕ) (f : Entry) {q : TimerQueue} {e : Entry} {rest : List Entry}
    → IsValid q
    → q.timers ≡ e ∷ rest
    → e.0 ≤ now
    → Has f rest
    → f.0 ≤ now
    → ((q1 : TimerQueue) → run e.1 q1 ≡ cancel_in_loop f.1 q1)
    → ((b : ℕ) (q1 : TimerQueue) → b ≢ e.1 → run b q1 ≡ ok q1)
    → handle_read run now later q ≡ fault dangling
unfolding handle_read get_expired
handle_read_later run now later f {q} {e} {rest} v first due m due_f cancels quiet =
    let b : Entry = (now + 1, 0) in
    let early : less e b ≡ true = ground arith in
    let sorted = subst IsSorted first v.sorted in
    let tail = split_at_bound-Split now rest sorted.1 in
    let es = (split_at_bound b rest).0 in
    let listed : Has f es =
      due-Has now f es (split_at_bound b rest).1 tail.not_due due_f
        (subst (Has f) (sym tail.whole) m) in
    let split =
      subst (λ r. Split now (e ∷ rest) r) (split_first b e rest early)
        (split_at_bound-Split now (e ∷ rest) sorted) in
    let can =
      Split-CanRun now q (e ∷ es, (split_at_bound b rest).1) v
        (subst (λ (ts : List Entry). Split now ts (e ∷ es, (split_at_bound b rest).1)) (sym first)
          split) in
    rw
      (
        first,
        split_first b e rest early,
        run_expired-cancel_in_loop run now e f es can listed cancels quiet,
      )
      refl

-- Where set and heap agree and the first timer has expired, a callback of that timer that cancels the timer itself,
-- or another one that has expired as well, while the others' callbacks leave the queue alone, makes
-- `handleRead` use the cancelled timer after its deletion.
pub handle_read-cancel_in_loop :
    (run : Run) (now later : ℕ) (f : Entry) {q : TimerQueue} {e : Entry} {rest : List Entry}
    → IsValid q
    → q.timers ≡ e ∷ rest
    → e.0 ≤ now
    → ((q1 : TimerQueue) → run e.1 q1 ≡ cancel_in_loop f.1 q1)
    → (f ≡ e)
      ⊎ (Has f rest × (f.0 ≤ now) × ((b : ℕ) (q1 : TimerQueue) → b ≢ e.1 → run b q1 ≡ ok q1))
    → handle_read run now later q ≡ fault dangling
handle_read-cancel_in_loop run now later f v first due cancels (inl same) =
    handle_read_dangling run now later v first due
      (λ q1. cancels q1 ∙ ap (λ (g : Entry). cancel_in_loop g.1 q1) same)
handle_read-cancel_in_loop run now later f v first due cancels (inr (m, due_f, quiet)) =
    handle_read_later run now later f v first due m due_f cancels quiet
