-- ===== src/Bytes/Find.antt =====
-- `std::search` and `memchr` find the first match, and only a match.
use cppweb.Base.{
  if◌then◌else◌, ℕ, zero, suc, ◌<◌, ◌≡◌, ◌⊎◌, inl, inr, refl, ap, true, false, none, some, List, [],
  ◌∷◌, arith, length, drop, Bool-cases, ◌==◌, drop-nil,
}
use cppweb.Bytes.{starts_with, search_index, memchr}

-- `i` is the offset of the first match of `pattern`: there is one there, and none before.
pub record FirstMatch (pattern text : List ℕ) (i : ℕ) : Type 0 where
  pub here : starts_with pattern (drop i text) ≡ true
  pub none_before : (j : ℕ) → j < i → starts_with pattern (drop j text) ≡ false

none_later :
    (p : ℕ) (ps : List ℕ) (x : ℕ) (text : List ℕ) {i : ℕ}
    → starts_with (p ∷ ps) (x ∷ text) ≡ false
    → FirstMatch (p ∷ ps) text i
    → (j : ℕ) → j < suc i
    → starts_with (p ∷ ps) (drop j (x ∷ text)) ≡ false
none_later p ps x text missed first zero h = missed
none_later p ps x text missed first (suc j) h = first.none_before j (omega arith)

later :
    (p : ℕ) (ps : List ℕ) (x : ℕ) (text : List ℕ) {i : ℕ}
    → starts_with (p ∷ ps) (x ∷ text) ≡ false
    → FirstMatch (p ∷ ps) text i
    → FirstMatch (p ∷ ps) (x ∷ text) (suc i)
later p ps x text missed first = record {
  here = first.here;
  none_before = none_later p ps x text missed first;
}

nowhere_later :
    (p : ℕ) (ps : List ℕ) (x : ℕ) (text : List ℕ)
    → starts_with (p ∷ ps) (x ∷ text) ≡ false
    → ((j : ℕ) → starts_with (p ∷ ps) (drop j text) ≡ false)
    → (j : ℕ) → starts_with (p ∷ ps) (drop j (x ∷ text)) ≡ false
nowhere_later p ps x text missed nowhere zero = missed
nowhere_later p ps x text missed nowhere (suc j) = nowhere j

-- `std::search` stops at the first match, or at the end where the pattern matches nowhere.
pub search_index_lem :
    (p : ℕ) (ps text : List ℕ)
    → ((search_index (p ∷ ps) text < length text)
        × FirstMatch (p ∷ ps) text (search_index (p ∷ ps) text))
      ⊎ ((search_index (p ∷ ps) text ≡ length text)
          × ((j : ℕ) → starts_with (p ∷ ps) (drop j text) ≡ false))
unfolding search_index
search_index_lem p ps [] = inr (refl, λ j. rw (drop-nil {0} {A = ℕ} j))
search_index_lem p ps (x ∷ text) = elim (Bool-cases (starts_with (p ∷ ps) (x ∷ text))) [
  | inl found ↦
      rw found (inl (omega arith, record { here = found; none_before = λ j h. elim h [ ] }))
  | inr missed ↦ elim (search_index_lem p ps text) [
    | inl (inside, first) ↦ rw missed (inl (omega arith, later p ps x text missed first))
    | inr (end, nowhere) ↦ rw missed (inr (ap suc end, nowhere_later p ps x text missed nowhere))
  ]
]

-- `memchr` is the search for a pattern of one byte.
pub memchr-search_index :
    (c : ℕ) (text : List ℕ)
    → memchr c text ≡ (
        if search_index (c ∷ []) text == length text
        then none
        else some (search_index (c ∷ []) text))
unfolding memchr search_index
memchr-search_index c [] = refl
memchr-search_index c (x ∷ text) = ground (arith, memchr-search_index c text)
