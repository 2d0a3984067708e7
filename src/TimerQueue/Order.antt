-- ===== src/TimerQueue/Order.antt =====
-- The set of entries: strictly ordered by time, then address. What is expired is in front.

use cppweb.Base.{◌<◌, ◌≡◌, ◌⊎◌, inl, inr, true, false, List, [], ◌∷◌, arith, Bool-cases}
use cppweb.TimerQueue.{Entry, less, insert}

-- `x` comes before `y` in the set.
abbrev pub Before : Entry → Entry → Type 0
Before x y = (x.0 < y.0) ⊎ ((x.0 ≡ y.0) × (x.1 < y.1))

pub less→Before : (x y : Entry) → less x y ≡ true → Before x y
less→Before x y h = grind arith

pub Before→less : (x y : Entry) → Before x y → less x y ≡ true
Before→less x y h = ground arith

pub not_less : (x y : Entry) → less x y ≡ false → less y x ≡ false → x ≡ y
not_less x y h k = ground arith

abbrev pub AllAfter : Entry → List Entry → Type 0
AllAfter e [] = Unit {0}
AllAfter e (x ∷ xs) = Before e x × AllAfter e xs

-- The entries are strictly increasing.
abbrev pub IsSorted : List Entry → Type 0
IsSorted [] = Unit {0}
IsSorted (x ∷ xs) = AllAfter x xs × IsSorted xs

pub Before-trans : (x y z : Entry) → Before x y → Before y z → Before x z
Before-trans x y z h k = ground arith

pub AllAfter-mono : (x y : Entry) (xs : List Entry) → Before x y → AllAfter y xs → AllAfter x xs
AllAfter-mono x y [] h a = tt
AllAfter-mono x y (z ∷ zs) h a = (Before-trans x y z h a.0, AllAfter-mono x y zs h a.1)

insert-AllAfter :
    (e x : Entry) (xs : List Entry) → Before e x → AllAfter e xs → AllAfter e (insert x xs).0
unfolding insert
insert-AllAfter e x [] h a = (h, tt)
insert-AllAfter e x (y ∷ ys) h a = elim (Bool-cases (less x y)) [
  | inl first ↦ rw first (h, a)
  | inr other ↦ elim (Bool-cases (less y x)) [
    | inl later ↦ rw (other, later) (a.0, insert-AllAfter e x ys h a.1)
    | inr same ↦ rw (other, same) a
  ]
]

-- `insert` keeps the order.
pub insert-IsSorted : (e : Entry) (xs : List Entry) → IsSorted xs → IsSorted (insert e xs).0
unfolding insert
insert-IsSorted e [] s = (tt, tt)
insert-IsSorted e (x ∷ xs) s = elim (Bool-cases (less e x)) [
  | inl first ↦ let b = less→Before e x first in rw first ((b, AllAfter-mono e x xs b s.0), s)
  | inr other ↦ elim (Bool-cases (less x e)) [
    | inl later ↦
        rw (other, later)
          (insert-AllAfter x e xs (less→Before x e later) s.0, insert-IsSorted e xs s.1)
    | inr same ↦ rw (other, same) s
  ]
]
