-- ===== src/TimerQueue/Memory.antt =====
-- The set of entries and the timers on the heap agree, and adding or cancelling a timer keeps it so.
use mathlib.Core.Path.{subst}
use cppweb.Base.{
  fault, dangling, ok, ◌↔◌, ℕ, ◌≡◌, ◌≢◌, ◌⊎◌, inl, inr, refl, sym, ap, ◌∙◌, false, Option, none,
  some, List, [], ◌∷◌, arith, Returns, ==_iff, ==_of_ne, Bool-cases,
}
use cppweb.TimerQueue.{
  deref, less, Timer, make_timer, Entry, TimerQueue, store, insert, erase, arm_if_first,
  timerfd_set, add_in_loop, add_timer,
}
use cppweb.TimerQueue.Order.{IsSorted, insert-IsSorted}
use cppweb.TimerQueue.Members.{All, Has, All-Has, insert_fresh, insert-Has, insert-All, erase-All}

pub deref-ok : (a : ℕ) (q : TimerQueue) {t : Timer} → q.heap a ≡ some t → deref a q ≡ ok t
unfolding deref
deref-ok a q h = rw (h, deref)

pub deref-dangling : (a : ℕ) (q : TimerQueue) → q.heap a ≡ none → deref a q ≡ fault dangling
unfolding deref
deref-dangling a q h = rw (h, deref)

-- The entry's timer is on the heap, expires at the entry's time, and is not cancelled.
abbrev pub Live : (ℕ → Option Timer) → Entry → Type 0
Live heap e = (t : Timer) × (heap e.1 ≡ some t) × (t.at ≡ e.0) × (t.canceled ≡ false)

-- No timer stands in the set twice.
abbrev pub Distinct : List Entry → Type 0
Distinct [] = Unit {0}
Distinct (x ∷ xs) = All (λ e. e.1 ≢ x.1) xs × Distinct xs

pub record IsValid (q : TimerQueue) : Type 0 where
  pub sorted : IsSorted q.timers
  pub distinct : Distinct q.timers
  pub live : All (Live q.heap) q.timers

pub All-map :
    (P Q : Entry → Type 0) → ((e : Entry) → P e → Q e) → (xs : List Entry) → All P xs → All Q xs
All-map P Q f [] h = tt
All-map P Q f (x ∷ xs) h = (f x h.0, All-map P Q f xs h.1)

-- What is stored at one address does not matter to the entries of others.
pub store-Live :
    (a : ℕ) (t : Option Timer) (q : TimerQueue) (xs : List Entry)
    → All (λ e. e.1 ≢ a) xs
    → All (Live q.heap) xs
    → All (Live (store a t q).heap) xs
store-Live a t q [] n h = tt
store-Live a t q (x ∷ xs) n h = (rw (==_of_ne x.1 a n.0) h.0, store-Live a t q xs n.1 h.1)

pub insert-Distinct :
    (e : Entry) (xs : List Entry) → All (λ f. f.1 ≢ e.1) xs → Distinct xs → Distinct (insert e xs).0
unfolding insert
insert-Distinct e [] n d = (tt, tt)
insert-Distinct e (x ∷ xs) n d = elim (Bool-cases (less e x)) [
  | inl first ↦ rw first (n, d)
  | inr other ↦ elim (Bool-cases (less x e)) [
    | inl later ↦
        rw (other, later)
          (
            insert-All (λ f. f.1 ≢ x.1) e xs (λ same. n.0 (sym same)) d.0,
            insert-Distinct e xs n.1 d.1,
          )
    | inr same ↦ rw (other, same) d
  ]
]

pub erase-Distinct : (e : Entry) (xs : List Entry) → Distinct xs → Distinct (erase e xs)
unfolding erase
erase-Distinct e [] d = tt
erase-Distinct e (x ∷ xs) d = elim (Bool-cases (less e x)) [
  | inl first ↦ rw first d
  | inr other ↦ elim (Bool-cases (less x e)) [
    | inl later ↦ rw (other, later) (erase-All (λ f. f.1 ≢ x.1) e xs d.0, erase-Distinct e xs d.1)
    | inr same ↦ rw (other, same) d.1
  ]
]

-- An address with no timer has no entry.
free-ne :
    (heap : ℕ → Option Timer) (a : ℕ) (xs : List Entry)
    → heap a ≡ none
    → All (Live heap) xs
    → All (λ e. e.1 ≢ a) xs
free-ne heap a [] free h = tt
free-ne heap a (x ∷ xs) free h = ((λ same. cc (h.0.1, ap heap same)), free-ne heap a xs free h.1)

-- Setting the descriptor leaves the set and the heap alone.
pub record SameSet (q q' : TimerQueue) : Type 0 where
  pub timers : q'.timers ≡ q.timers
  pub heap : q'.heap ≡ q.heap
  pub fired : q'.fired ≡ q.fired

pub arm_if_first-SameSet : (now : ℕ) (e : Entry) (q : TimerQueue) → SameSet q (arm_if_first now e q)
unfolding arm_if_first timerfd_set
arm_if_first-SameSet now e q = ground arith

pub SameSet-IsValid : {q q' : TimerQueue} → SameSet q q' → IsValid q → IsValid q'
SameSet-IsValid {q} {q'} s v = record {
  sorted = subst IsSorted (sym s.timers) v.sorted;
  distinct = subst Distinct (sym s.timers) v.distinct;
  live =
      subst (λ (xs : List Entry). All (Live q'.heap) xs) (sym s.timers)
        (subst (λ (h : ℕ → Option Timer). All (Live h) q.timers) (sym s.heap) v.live);
}

not-Has : (e : Entry) (xs : List Entry) → All (λ f. f.1 ≢ e.1) xs → ¬ Has e xs
not-Has e xs n m = All-Has (λ f. f.1 ≢ e.1) xs n m refl

-- Where set and heap agree, and `new` returns a free address, `addTimer` in the loop's thread
-- returns: the assertion on the insertion holds, the new timer is on the heap and in the set
-- beside exactly the others, and set and heap agree again.
pub add_timer-IsValid :
    (now at interval a : ℕ) {q : TimerQueue}
    → IsValid q
    → q.heap a ≡ none
    → Returns (add_timer now at interval a q) (λ q'.
      IsValid q'
      × (q'.heap a ≡ some (make_timer at interval))
      × ((e : Entry) → Has e q'.timers ↔ (((at, a) ≡ e) ⊎ Has e q.timers))
      × (q'.fired ≡ q.fired))
unfolding add_timer add_in_loop make_timer
add_timer-IsValid now at interval a {q} v free =
    let e : Entry = (at, a) in
    let ne : All (λ f. f.1 ≢ a) q.timers = free-ne q.heap a q.timers free v.live in
    let t = make_timer at interval in
    let q1 : TimerQueue = record (store a (some t) q) { timers = (insert e q.timers).0 } in
    let same = arm_if_first-SameSet now e q1 in
    let here : q1.heap a ≡ some t = rw ((==_iff a a).1 refl) refl in
    (
      arm_if_first now e q1,
      rw (insert_fresh e q.timers (not-Has e q.timers ne)) refl,
      (
        SameSet-IsValid same (record {
          sorted = insert-IsSorted e q.timers v.sorted;
          distinct = insert-Distinct e q.timers ne v.distinct;
          live =
              insert-All (Live q1.heap) e q.timers (t, here, refl, refl)
                (store-Live a (some t) q q.timers ne v.live);
        }),
        ap (λ (h : ℕ → Option Timer). h a) same.heap ∙ here,
        (λ f. rw same.timers (insert-Has f e q.timers)),
        same.fired,
      ),
    )
