-- ===== src/Logger/Fits.antt =====
-- A message stays within the buffer, and what is printed of it.

use cppweb.Base.{
  ℕ, zero, suc, ◌+◌, ◌^◌, ◌<◌, ◌≤◌, ◌≡◌, ◌≢◌, refl, sym, ap, ◌∙◌, List, [], ◌∷◌, ◌++◌, append_assoc,
  length, take, drop, length-append, take-append-drop, arith, ==_of_ne, Returns, take_of_ge,
  take-append_le,
}
use cppweb.Bytes.{slice, overwrite, copy_to}
use cppweb.Bytes.Slices.{
  slice_split, take-slice, copy_to-ok, length-overwrite, slice-overwrite_before,
  slice-overwrite_self,
}
use cppweb.Logger.Text.{IsText, Printf, Time, max_line, space, zero_digit, stamp, c_string}

-- The buffer of 256 bytes holds the text at its start, and a NUL behind it.
pub record Holds (text bytes : List ℕ) : Type 0 where
  pub size : length bytes ≡ max_line
  pub here : slice bytes 0 (length text + 1) ≡ text ++ (0 ∷ [])

-- Another text behind the one that is there.
pub copy-Holds :
    (text more bytes : List ℕ)
    → length bytes ≡ max_line
    → slice bytes 0 (length text) ≡ text
    → length text + length more < max_line
    → Returns (copy_to bytes (length text) (more ++ (0 ∷ []))) (Holds (text ++ more))
copy-Holds text more bytes size here room =
    let end = more ++ (0 ∷ []) in
    let grown : length end ≡ length more + 1 = length-append more (0 ∷ []) in
    let fits : length text + length end ≤ length bytes = omega (arith, grown, size, room) in
    let i = length text in
    (
      overwrite bytes i end,
      copy_to-ok bytes i end fits,
      record {
        size = length-overwrite bytes i end fits ∙ size;
        here =
            ap (slice (overwrite bytes i end) 0) (omega (arith, length-append text more, grown))
            ∙ slice_split (overwrite bytes i end) 0 i (length end)
            ∙ ap (λ xs. xs ++ slice (overwrite bytes i end) (0 + i) (length end))
                (slice-overwrite_before bytes i end fits 0 i (omega arith) ∙ here)
            ∙ ap (λ k. text ++ slice (overwrite bytes i end) k (length end)) (omega arith)
            ∙ ap (λ xs. text ++ xs) (slice-overwrite_self bytes i end fits)
            ∙ sym (append_assoc text more (0 ∷ []));
      },
    )

pub held : {text bytes : List ℕ} → Holds text bytes → slice bytes 0 (length text) ≡ text
held {text} {bytes} h =
    sym (take-slice bytes 0 (length text) (length text + 1) (omega arith))
    ∙ ap (take (length text)) h.here
    ∙ take-append_le (length text) text (0 ∷ []) (omega arith)
    ∙ take_of_ge (length text) text (omega arith)

c_string-text : (text rest : List ℕ) → IsText text → c_string (text ++ (0 ∷ rest)) ≡ text
unfolding c_string
c_string-text [] rest h = refl
c_string-text (c ∷ cs) rest h = rw (==_of_ne c 0 h.0, c_string-text cs rest h.1) refl

pub printed : {text bytes : List ℕ} → Holds text bytes → IsText text → c_string bytes ≡ text
printed {text} {bytes} h t =
    ap c_string (
      sym (take-append-drop (length text + 1) bytes)
      ∙ ap (λ xs. xs ++ drop (length text + 1) bytes) h.here
      ∙ append_assoc text (0 ∷ []) (drop (length text + 1) bytes))
    ∙ c_string-text text (drop (length text + 1) bytes) t

pub append-IsText : (xs ys : List ℕ) → IsText xs → IsText ys → IsText (xs ++ ys)
append-IsText [] ys h k = k
append-IsText (x ∷ xs) ys h k = (h.0, append-IsText xs ys h.1 k)

pub take-IsText : (n : ℕ) (xs : List ℕ) → IsText xs → IsText (take n xs)
take-IsText zero xs h = tt
take-IsText (suc n) [] h = tt
take-IsText (suc n) (x ∷ xs) h = (h.0, take-IsText n xs h.1)

-- The fields of a time are in the ranges of gmtime(3), in a year of four digits.
pub record IsTime (t : Time) : Type 0 where
  pub year : t.year + 1900 < 10000
  pub mon : t.mon < 12
  pub mday : t.mday < 32
  pub hour : t.hour < 24
  pub min : t.min < 60
  pub sec : t.sec < 61
  pub usec : t.usec < 1000000

length-front :
    (f : Printf) (fill w n : ℕ) (rest : List ℕ) {k : ℕ}
    → n < 10 ^ w
    → length rest ≡ k
    → length (f.filled fill w n ++ rest) ≡ w + k
length-front f fill w n rest small e =
    length-append (f.filled fill w n) rest ∙ omega (arith, f.length-filled fill w n small, e)

pub length-stamp : (f : Printf) (t : Time) → IsTime t → length (stamp f t) ≡ 24
length-stamp f t h = length-front f space 4 (t.year + 1900) _ (omega (arith, h.year)) (
    length-front f zero_digit 2 (t.mon + 1) _ (omega (arith, h.mon)) (
      length-front f zero_digit 2 t.mday _ (omega (arith, h.mday)) (
        ap suc (
          length-front f zero_digit 2 t.hour _ (omega (arith, h.hour)) (
            ap suc (
              length-front f zero_digit 2 t.min _ (omega (arith, h.min)) (
                ap suc (
                  length-front f zero_digit 2 t.sec _ (omega (arith, h.sec))
                    (ap suc (f.length-filled zero_digit 6 t.usec (omega (arith, h.usec))))))))))))

pub stamp-IsText : (f : Printf) (t : Time) → IsText (stamp f t)
stamp-IsText f t =
    front space 4 (t.year + 1900) _ (λ e. omega (arith, e))
      (zeros 2 (t.mon + 1) _ (
        zeros 2 t.mday _ (
          (λ e. omega (arith, e)),
          zeros 2 t.hour _ (
            (λ e. omega (arith, e)),
            zeros 2 t.min _ (
              (λ e. omega (arith, e)),
              zeros 2 t.sec _ (
                (λ e. omega (arith, e)),
                f.filled-IsText zero_digit 6 t.usec (λ e. omega (arith, e)),
              ),
            ),
          ),
        )))
  where
    front :
        (fill w n : ℕ) (rest : List ℕ) → fill ≢ 0 → IsText rest → IsText (f.filled fill w n ++ rest)
    front fill w n rest ne h =
        append-IsText (f.filled fill w n) rest (f.filled-IsText fill w n ne) h

    zeros : (w n : ℕ) (rest : List ℕ) → IsText rest → IsText (f.filled zero_digit w n ++ rest)
    zeros w n rest h = front zero_digit w n rest (λ e. omega (arith, e)) h
