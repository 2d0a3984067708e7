-- ===== src/TimerQueue/Members.antt =====
-- The members of the set of entries after `insert`, `erase` and `getExpired`.
use mathlib.Core.Path.{subst}
use cppweb.Base.{
  ◌≤◌, refl, ◌++◌, ◌+◌, ap, ◌↔◌, ◌∙◌, ◌<◌, ◌≡◌, ◌⊎◌, inl, inr, true, List, [], ◌∷◌, arith,
  Bool-cases, ℕ,
}
use cppweb.TimerQueue.{Entry, less, insert, split_at_bound, erase}
use cppweb.TimerQueue.Order.{less→Before, not_less, AllAfter, AllAfter-mono, IsSorted}

abbrev pub All {ℓ} : (Entry → Type ℓ) → List Entry → Type ℓ
All P [] = Unit
All P (x ∷ xs) = P x × All P xs

-- `e` is in the set.
abbrev pub Has : Entry → List Entry → Type 0
Has e [] = ⊥
Has e (x ∷ xs) = (x ≡ e) ⊎ Has e xs

pub All-Has : (P : Entry → Type 0) {e : Entry} (xs : List Entry) → All P xs → Has e xs → P e
All-Has P [] h m = elim m [ ]
All-Has P (x ∷ xs) h (inl same) = subst P same h.0
All-Has P (x ∷ xs) h (inr more) = All-Has P xs h.1 more

-- An entry that is not in the set is new.
pub insert_fresh : (e : Entry) (xs : List Entry) → ¬ Has e xs → (insert e xs).1 ≡ true
unfolding insert
insert_fresh e [] h = refl
insert_fresh e (x ∷ xs) h = elim (Bool-cases (less e x)) [
  | inl first ↦ rw first refl
  | inr other ↦ elim (Bool-cases (less x e)) [
    | inl later ↦ rw (other, later) (insert_fresh e xs (λ m. h (inr m)))
    | inr same ↦ absurd (h (inl (not_less x e same other)))
  ]
]

-- `insert` adds its entry and keeps the others.
pub insert-Has : (y e : Entry) (xs : List Entry) → Has y (insert e xs).0 ↔ ((e ≡ y) ⊎ Has y xs)
unfolding insert
insert-Has y e [] = ((λ h. h), (λ h. h))
insert-Has y e (x ∷ xs) = elim (Bool-cases (less e x)) [
  | inl first ↦ rw first ((λ h. h), (λ h. h))
  | inr other ↦ elim (Bool-cases (less x e)) [
    | inl later ↦ rw (other, later) (later_iff (insert-Has y e xs))
    | inr same ↦
        let eq = not_less x e same other in
        rw (other, same) ((λ h. inr h), elim [ inl p ↦ inl (eq ∙ p) | inr m ↦ m ])
  ]
]
  where
    later_iff : {A B C D : Type 0} → A ↔ (B ⊎ D) → (C ⊎ A) ↔ (B ⊎ (C ⊎ D))
    later_iff iff = (
      elim [ inl c ↦ inr (inl c) | inr a ↦ elim (iff.0 a) [ inl b ↦ inl b | inr d ↦ inr (inr d) ] ],
      elim [
        | inl b ↦ inr (iff.1 (inl b))
        | inr m ↦ elim m [ inl c ↦ inl c | inr d ↦ inr (iff.1 (inr d)) ]
      ],
    )

pub insert-All :
    (P : Entry → Type 0) (e : Entry) (xs : List Entry) → P e → All P xs → All P (insert e xs).0
unfolding insert
insert-All P e [] p h = (p, tt)
insert-All P e (x ∷ xs) p h = elim (Bool-cases (less e x)) [
  | inl first ↦ rw first (p, h)
  | inr other ↦ elim (Bool-cases (less x e)) [
    | inl later ↦ rw (other, later) (h.0, insert-All P e xs p h.1)
    | inr same ↦ rw (other, same) h
  ]
]

pub erase-All : (P : Entry → Type 0) (e : Entry) (xs : List Entry) → All P xs → All P (erase e xs)
unfolding erase
erase-All P e [] h = tt
erase-All P e (x ∷ xs) h = elim (Bool-cases (less e x)) [
  | inl first ↦ rw first h
  | inr other ↦ elim (Bool-cases (less x e)) [
    | inl later ↦ rw (other, later) (h.0, erase-All P e xs h.1)
    | inr same ↦ rw (other, same) h.1
  ]
]

AllAfter-erase : (x e : Entry) (xs : List Entry) → AllAfter x xs → AllAfter x (erase e xs)
unfolding erase
AllAfter-erase x e [] h = tt
AllAfter-erase x e (y ∷ ys) h = elim (Bool-cases (less e y)) [
  | inl first ↦ rw first h
  | inr other ↦ elim (Bool-cases (less y e)) [
    | inl later ↦ rw (other, later) (h.0, AllAfter-erase x e ys h.1)
    | inr same ↦ rw (other, same) h.1
  ]
]

-- `erase` keeps the order.
pub erase-IsSorted : (e : Entry) (xs : List Entry) → IsSorted xs → IsSorted (erase e xs)
unfolding erase
erase-IsSorted e [] s = tt
erase-IsSorted e (x ∷ xs) s = elim (Bool-cases (less e x)) [
  | inl first ↦ rw first s
  | inr other ↦ elim (Bool-cases (less x e)) [
    | inl later ↦ rw (other, later) (AllAfter-erase x e xs s.0, erase-IsSorted e xs s.1)
    | inr same ↦ rw (other, same) s.1
  ]
]

after-ne : (x : Entry) (xs : List Entry) → AllAfter x xs → ¬ Has x xs
after-ne x [] a m = m
after-ne x (y ∷ ys) a (inl e) = ground (arith, a.0)
after-ne x (y ∷ ys) a (inr m) = after-ne x ys a.1 m

-- An erased entry is gone.
pub not-Has-erase : (e : Entry) (xs : List Entry) → IsSorted xs → ¬ Has e (erase e xs)
unfolding erase
not-Has-erase e [] s = λ m. m
not-Has-erase e (x ∷ xs) s = elim (Bool-cases (less e x)) [
  | inl first ↦
      let b = less→Before e x first in
      rw first (after-ne e (x ∷ xs) (b, AllAfter-mono e x xs b s.0))
  | inr other ↦ elim (Bool-cases (less x e)) [
    | inl later ↦
        let b = less→Before x e later in
        rw (other, later) (elim [ inl same ↦ ground (arith, b) | inr m ↦ not-Has-erase e xs s.1 m ])
    | inr same ↦
        rw (other, same) (subst (λ z. ¬ Has z xs) (not_less x e same other) (after-ne x xs s.0))
  ]
]

-- What `getExpired` splits off is what has expired, in order.
pub record Split (now : ℕ) (xs : List Entry) (r : List Entry × List Entry) : Type 0 where
  pub whole : r.0 ++ r.1 ≡ xs
  pub due : All (λ e. e.0 ≤ now) r.0
  pub not_due : All (λ e. now < e.0) r.1

after_bound :
    (now : ℕ) (x : Entry) (xs : List Entry) → now < x.0 → AllAfter x xs → All (λ e. now < e.0) xs
after_bound now x [] h a = tt
after_bound now x (y ∷ ys) h a = (grind arith, after_bound now x ys h a.1)

pub split_at_bound-Split :
    (now : ℕ) (xs : List Entry) → IsSorted xs → Split now xs (split_at_bound (now + 1, 0) xs)
unfolding split_at_bound
split_at_bound-Split now [] s = record { whole = refl; due = tt; not_due = tt }
split_at_bound-Split now (x ∷ xs) s = elim (Bool-cases (less x (now + 1, 0))) [
  | inl due ↦
      let r = split_at_bound-Split now xs s.1 in
      let low : x.0 ≤ now = grind (arith, less→Before x (now + 1, 0) due) in
      rw due (record { whole = ap (◌∷◌ x) r.whole; due = (low, r.due); not_due = r.not_due })
  | inr later ↦
      let high : now < x.0 = ground arith in
      rw later (record { whole = refl; due = tt; not_due = (high, after_bound now x xs high s.0) })
]
