-- ===== src/Examples/Logs.antt =====
-- The theorem on the text of messages, with numbers printed in decimal.
use cppweb.Base.{
  ℕ, zero, suc, ◌+◌, ◌/◌, ◌%◌, ◌^◌, ◌<◌, ◌≤◌, ◌≡◌, refl, true, some, List, [], ◌∷◌, ◌++◌, length,
  length-append, replicate, arith, ltb, if◌then◌else◌, Bool-cases, inl, inr, get_elem?, Returns,
  length-replicate,
}
use cppweb.Logger.Text.{IsText, Printf, Time, max_line, log_level_str, base_text, sys_text, sys_str}
use cppweb.Logger.Fits.{IsTime, append-IsText}
use cppweb.Logger.Printing.{Printed, base_text-sys_text}

-- The digits of a number, with fuel.
abbrev digits : ℕ → ℕ → List ℕ
digits zero n = 48 ∷ []
digits (suc fuel) n =
    let rest = digits fuel (n / 10) in
    if ltb n 10 then (48 + n) ∷ [] else rest ++ ((48 + n % 10) ∷ [])

digits-short : (fuel k n : ℕ) → n < 10 ^ suc k → length (digits fuel n) ≤ suc k
digits-short zero k n h = omega arith
digits-short (suc fuel) k n h = elim (Bool-cases (ltb n 10)) [
  | inl small ↦ rw small (omega arith)
  | inr large ↦ rw large (longer k (λ j. digits-short fuel j (n / 10)) h (ground arith))
]
  where
    longer :
        (k : ℕ)
        → ((j : ℕ) → n / 10 < 10 ^ suc j → length (digits fuel (n / 10)) ≤ suc j)
        → n < 10 ^ suc k
        → 10 ≤ n
        → length (digits fuel (n / 10) ++ ((48 + n % 10) ∷ [])) ≤ suc k
    longer zero short h large = absurd (omega (arith, h, large))
    longer (suc j) short h large = omega (
      arith,
      length-append (digits fuel (n / 10)) ((48 + n % 10) ∷ []),
      short j (omega (arith, h)),
    )

digits-IsText : (fuel n : ℕ) → IsText (digits fuel n)
digits-IsText zero n = ((λ e. omega (arith, e)), tt)
digits-IsText (suc fuel) n = elim (Bool-cases (ltb n 10)) [
  | inl small ↦ rw small ((λ e. omega (arith, e)), tt)
  | inr large ↦ rw large (
      append-IsText (digits fuel (n / 10)) ((48 + n % 10) ∷ []) (digits-IsText fuel (n / 10))
        ((λ e. omega (arith, e)), tt))
]

-- The last digits of a number, as many as the width, with zeros in front.
abbrev last_digits : ℕ → ℕ → List ℕ
last_digits zero n = []
last_digits (suc w) n = last_digits w (n / 10) ++ ((48 + n % 10) ∷ [])

length-last_digits : (w n : ℕ) → length (last_digits w n) ≡ w
length-last_digits zero n = refl
length-last_digits (suc w) n = omega (
  arith,
  length-append (last_digits w (n / 10)) ((48 + n % 10) ∷ []),
  length-last_digits w (n / 10),
)

last_digits-IsText : (w n : ℕ) → IsText (last_digits w n)
last_digits-IsText zero n = tt
last_digits-IsText (suc w) n =
    append-IsText (last_digits w (n / 10)) ((48 + n % 10) ∷ []) (last_digits-IsText w (n / 10))
      ((λ e. omega (arith, e)), tt)

abbrev in_decimal : Printf
in_decimal = record {
  decimal = λ n. digits n n;
  filled = λ fill w n. last_digits w n;
  length-decimal = λ k n h. digits-short n k n h;
  length-filled = λ fill w n h. length-last_digits w n;
  decimal-IsText = λ n. digits-IsText n n;
  filled-IsText = λ fill w n ne. last_digits-IsText w n;
}

abbrev new_year : Time
new_year = record { year = 124; mon = 0; mday = 1; hour = 0; min = 0; sec = 0; usec = 7 }

new_year-IsTime : IsTime new_year
new_year-IsTime = record {
  year = omega arith;
  mon = omega arith;
  mday = omega arith;
  hour = omega arith;
  min = omega arith;
  sec = omega arith;
  usec = omega arith;
}

-- "hi", into a buffer of ones.
base_text-sys_text_example :
    Returns (base_text in_decimal new_year 4711 4 (104 ∷ 105 ∷ []) (replicate max_line 1)) (λ b.
      (tag : List ℕ) × (get_elem? log_level_str 4 ≡ some tag)
      × Printed in_decimal new_year 4711 tag (104 ∷ 105 ∷ []) b)
    × Returns
        (sys_text in_decimal new_year 4711 true (104 ∷ 105 ∷ []) (replicate max_line 1))
        (Printed in_decimal new_year 4711 (sys_str true) (104 ∷ 105 ∷ []))
base_text-sys_text_example =
    base_text-sys_text in_decimal new_year 4711 4 true (104 ∷ 105 ∷ []) (replicate max_line 1)
      new_year-IsTime (omega arith) (omega arith)
      ((λ e. omega (arith, e)), ((λ e. omega (arith, e)), tt)) (length-replicate {A = ℕ} max_line 1)
