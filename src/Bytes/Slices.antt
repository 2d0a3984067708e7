-- ===== src/Bytes/Slices.antt =====
-- What a slice of a storage holds after a write, and when copies stay within the storage.
use cppweb.Base.{
  ℕ, ◌+◌, ◌-◌, ◌≤◌, ◌≡◌, refl, sym, ap, ◌∙◌, List, ◌++◌, arith, length, take, drop, replicate,
  length-append, length-take, length-drop, take-append_le, drop-append_add, drop-drop, take_of_ge,
  take-append-drop, ok, le→leb, max_size, take_add, slice-append_left, drop-take, take-take,
}
use cppweb.Bytes.{slice, overwrite, copy_from, copy_to, resize}

pub length-slice : (xs : List ℕ) (i n : ℕ) → i + n ≤ length xs → length (slice xs i n) ≡ n
length-slice xs i n h = omega (arith, length-take n (drop i xs), length-drop i xs)

pub slice_split :
    (xs : List ℕ) (i m n : ℕ) → slice xs i (m + n) ≡ slice xs i m ++ slice xs (i + m) n
slice_split xs i m n = rw (take_add m n (drop i xs), drop-drop m i xs)

pub drop-slice : (xs : List ℕ) (i n m : ℕ) → drop n (slice xs i (n + m)) ≡ slice xs (i + n) m
drop-slice xs i n m = drop-take n m (drop i xs) ∙ ap (take m) (drop-drop n i xs)

pub take-slice : (xs : List ℕ) (i n m : ℕ) → n ≤ m → take n (slice xs i m) ≡ slice xs i n
take-slice xs i n m h = take-take n m (drop i xs) h

pub length-overwrite :
    (xs : List ℕ) (i : ℕ) (ys : List ℕ)
    → i + length ys ≤ length xs
    → length (overwrite xs i ys) ≡ length xs
length-overwrite xs i ys h = omega (
  arith,
  length-append (take i xs) (ys ++ drop (i + length ys) xs),
  length-append ys (drop (i + length ys) xs),
  length-take i xs,
  length-drop (i + length ys) xs,
)

module _ (xs : List ℕ) (i : ℕ) (ys : List ℕ) (fits : i + length ys ≤ length xs) where
  length_head : length (take i xs) ≡ i
  length_head = omega (arith, length-take i xs)

  -- A slice that ends before the place written is as it was.
  pub slice-overwrite_before : (j n : ℕ) → j + n ≤ i → slice (overwrite xs i ys) j n ≡ slice xs j n
  slice-overwrite_before j n h =
      let rest : List ℕ = ys ++ drop (i + length ys) xs in
      slice-append_left j n (take i xs) rest (omega (arith, length_head))
      ∙ sym (slice-append_left j n (take i xs) (drop i xs) (omega (arith, length_head)))
      ∙ ap (λ zs. slice zs j n) (take-append-drop i xs)

  -- The place written holds what was written.
  pub slice-overwrite_self : slice (overwrite xs i ys) i (length ys) ≡ ys
  slice-overwrite_self =
      rw
        (drop-append_add i 0 (take i xs) (ys ++ drop (i + length ys) xs)
          (omega (arith, length_head)))
        (take-append_le (length ys) ys (drop (i + length ys) xs) (omega arith)
          ∙ take_of_ge (length ys) ys (omega arith))

  -- A slice behind the place written is as it was.
  pub slice-overwrite_after :
      (j n : ℕ) → i + length ys ≤ j → slice (overwrite xs i ys) j n ≡ slice xs j n
  slice-overwrite_after j n h =
      let k : ℕ = j - (i + length ys) in
      let e : i + length ys + k ≡ j = omega arith in
      rw (
        drop-append_add j (length ys + k) (take i xs) (ys ++ drop (i + length ys) xs)
            (omega (arith, length_head)),
        drop-append_add (length ys + k) k ys (drop (i + length ys) xs) refl,
        drop-drop k (i + length ys) xs,
        e,
      )

-- A copy within the storage succeeds.
pub copy_from-ok :
    (xs : List ℕ) (i j : ℕ) → i ≤ j → j ≤ length xs → copy_from xs i j ≡ ok (slice xs i (j - i))
unfolding copy_from
copy_from-ok xs i j h k = rw (le→leb i j h, le→leb j (length xs) k)

pub copy_to-ok :
    (xs : List ℕ) (i : ℕ) (ys : List ℕ)
    → i + length ys ≤ length xs
    → copy_to xs i ys ≡ ok (overwrite xs i ys)
unfolding copy_to
copy_to-ok xs i ys h = rw (le→leb (i + length ys) (length xs) h)

-- A larger storage keeps its bytes.
pub resize-ok :
    (xs : List ℕ) (n : ℕ)
    → length xs ≤ n
    → n ≤ max_size
    → resize xs n ≡ ok (xs ++ replicate (n - length xs) 0)
unfolding resize
resize-ok xs n h k = rw (le→leb n max_size k, take_of_ge n xs h)
