-- ===== src/TimerQueue/Cancel.antt =====
-- `cancelTimer`, and the uses of a timer that was deleted.
use mathlib.Core.Path.{subst}
use cppweb.Base.{
  ℕ, ◌≡◌, ◌≢◌, inl, inr, refl, Option, none, List, [], ◌∷◌, arith, Returns, fault, dangling, ==_iff,
  some, false,
}
use cppweb.TimerQueue.{Timer, Entry, TimerQueue, store, cancel, erase, cancel_in_loop}
use cppweb.TimerQueue.Members.{All, Has, All-Has, erase-All, erase-IsSorted, not-Has-erase}
use cppweb.TimerQueue.Memory.{deref-ok, deref-dangling, Live, IsValid, store-Live, erase-Distinct}

pub All-of_Has : (P : Entry → Type 0) (xs : List Entry) → ((e : Entry) → Has e xs → P e) → All P xs
All-of_Has P [] h = tt
All-of_Has P (x ∷ xs) h = (h x (inl refl), All-of_Has P xs (λ e m. h e (inr m)))

-- Two live entries of one address are the same.
same_entry : (heap : ℕ → Option Timer) (e f : Entry) → Live heap e → Live heap f → f.1 ≡ e.1 → f ≡ e
same_entry heap e f l m same = ground (arith, l, m)

-- Where set and heap agree, `cancelTimer` of a timer in the set, run in the loop's thread,
-- returns: the timer is deleted, no entry of its address is left, set and heap agree again, and no
-- callback ran.
pub cancel_in_loop-IsValid :
    (at a : ℕ) {q : TimerQueue}
    → IsValid q
    → Has (at, a) q.timers
    → Returns (cancel_in_loop a q) (λ q'.
      IsValid q' × (q'.heap a ≡ none) × All (λ f. f.1 ≢ a) q'.timers × (q'.fired ≡ q.fired))
unfolding cancel_in_loop cancel
cancel_in_loop-IsValid at a {q} v m =
    let (t, here, time, active) = All-Has (Live q.heap) q.timers v.live m in
    let rest : List Entry = erase (at, a) q.timers in
    let live = erase-All (Live q.heap) (at, a) q.timers v.live in
    let gone : All (λ f. f.1 ≢ a) rest =
      All-of_Has (λ f. f.1 ≢ a) rest
        (λ f k same.
          not-Has-erase (at, a) q.timers v.sorted
            (subst (λ g. Has g rest)
              (same_entry q.heap (at, a) f (t, here, time, active)
                (All-Has (Live q.heap) rest live k) same)
              k)) in
    (
      store a none (record q { timers = rest }),
      rw (deref-ok a q here, active, time) refl,
      (
        record {
          sorted = erase-IsSorted (at, a) q.timers v.sorted;
          distinct = erase-Distinct (at, a) q.timers v.distinct;
          live = store-Live a none q rest gone live;
        },
        rw ((==_iff a a).1 refl) refl,
        gone,
        refl,
      ),
    )

-- A timer that was deleted, because it was cancelled or because it had run once, is used again by a
-- `cancelTimer`.
pub cancel_in_loop_dangling :
    (a : ℕ) (q : TimerQueue) → q.heap a ≡ none → cancel_in_loop a q ≡ fault dangling
unfolding cancel_in_loop
cancel_in_loop_dangling a q h = rw (deref-dangling a q h)

-- A timer that is active can be cancelled also where its entry has left the set, and is deleted.
pub cancel_in_loop-deletes :
    (a : ℕ) (q : TimerQueue) {t : Timer}
    → q.heap a ≡ some t
    → t.canceled ≡ false
    → Returns (cancel_in_loop a q) (λ q'. q'.heap a ≡ none)
unfolding cancel_in_loop cancel
cancel_in_loop-deletes a q {t} here active = (
  store a none (record q { timers = erase (t.at, a) q.timers }),
  rw (deref-ok a q here, active) refl,
  rw ((==_iff a a).1 refl) refl,
)
