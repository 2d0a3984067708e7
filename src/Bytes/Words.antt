-- ===== src/Bytes/Words.antt =====
-- Integers as bytes in memory.
use mathlib.Core.List.{reverse, reverse-reverse, reverse_aux}
use native.Mathlib.Nat.{pow-suc}
use cppweb.Base.{
  ℕ, zero, suc, ◌+◌, ◌*◌, ◌/◌, ◌%◌, ◌^◌, ◌<◌, ◌≡◌, refl, ap, ◌∙◌, List, [], ◌∷◌, arith, length,
}
use cppweb.Bytes.{object_bytes, object_value}

abbrev pub AllBytes : List ℕ → Type 0
AllBytes [] = Unit {0}
AllBytes (x ∷ xs) = (x < 256) × AllBytes xs

pub length-object_bytes : (w x : ℕ) → length (object_bytes w x) ≡ w
unfolding object_bytes
length-object_bytes zero x = refl
length-object_bytes (suc w) x = ap suc (length-object_bytes w (x / 256))

pub object_bytes-AllBytes : (w x : ℕ) → AllBytes (object_bytes w x)
unfolding object_bytes
object_bytes-AllBytes zero x = tt
object_bytes-AllBytes (suc w) x = (omega arith, object_bytes-AllBytes w (x / 256))

-- An integer that fits comes back from its bytes.
pub object_value-object_bytes : (w x : ℕ) → x < 256 ^ w → object_value (object_bytes w x) ≡ x
unfolding object_bytes object_value
object_value-object_bytes zero x h = omega arith
object_value-object_bytes (suc w) x h =
    omega
      (arith, pow-suc 256 w, object_value-object_bytes w (x / 256) (omega (arith, pow-suc 256 w)))

-- So do bytes from their integer.
pub object_bytes-object_value :
    (xs : List ℕ) → AllBytes xs → object_bytes (length xs) (object_value xs) ≡ xs
unfolding object_bytes object_value
object_bytes-object_value [] h = refl
object_bytes-object_value (x ∷ xs) h =
    let low : (x + 256 * object_value xs) % 256 ≡ x = omega (arith, h.0) in
    let high : (x + 256 * object_value xs) / 256 ≡ object_value xs = omega (arith, h.0) in
    rw (low, high, object_bytes-object_value xs h.1)

reverse_aux-AllBytes : (xs ys : List ℕ) → AllBytes xs → AllBytes ys → AllBytes (reverse_aux xs ys)
reverse_aux-AllBytes [] ys h k = k
reverse_aux-AllBytes (x ∷ xs) ys h k = reverse_aux-AllBytes xs (x ∷ ys) h.1 (h.0, k)

length-reverse_aux : (xs ys : List ℕ) → length (reverse_aux xs ys) ≡ length xs + length ys
length-reverse_aux [] ys = omega arith
length-reverse_aux (x ∷ xs) ys = omega (arith, length-reverse_aux xs (x ∷ ys))

pub reverse-AllBytes : (xs : List ℕ) → AllBytes xs → AllBytes (reverse xs)
reverse-AllBytes xs h = reverse_aux-AllBytes xs [] h tt

pub length-reverse : (xs : List ℕ) → length (reverse xs) ≡ length xs
length-reverse xs = omega (arith, length-reverse_aux xs [])

-- The value of bytes in reverse, put back into bytes.
pub object_bytes-reverse :
    (w x : ℕ)
    → object_bytes w (object_value (reverse (object_bytes w x))) ≡ reverse (object_bytes w x)
object_bytes-reverse w x =
    let ys : List ℕ = reverse (object_bytes w x) in
    let size : w ≡ length ys =
      omega (arith, length-reverse (object_bytes w x), length-object_bytes w x) in
    ap (λ n. object_bytes n (object_value ys)) size
    ∙ object_bytes-object_value ys (reverse-AllBytes _ (object_bytes-AllBytes w x))

-- An integer that fits comes back from two reversals of its bytes.
pub object_value-reverse-reverse :
    (w x : ℕ)
    → x < 256 ^ w
    → object_value (reverse (object_bytes w (object_value (reverse (object_bytes w x))))) ≡ x
object_value-reverse-reverse w x h =
    ap (λ ys. object_value (reverse ys)) (object_bytes-reverse w x)
    ∙ ap object_value (reverse-reverse (object_bytes w x))
    ∙ object_value-object_bytes w x h
