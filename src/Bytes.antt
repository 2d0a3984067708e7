-- ===== src/Bytes.antt =====
-- Storage as lists of bytes: what `std::vector<char>`, `std::copy`, `std::search`, `memchr` and
-- integer objects in memory do, as cppweb/Buffer.hpp uses them.
pub mod Slices
pub mod Find
pub mod Words
use cppweb.Base.{
  ℕ, zero, suc, ◌+◌, ◌-◌, ◌*◌, ◌/◌, ◌%◌, Bool, true, false, ◌&&◌, Option, none, some, List, [], ◌∷◌,
  ◌++◌, length, take, drop, replicate, leb, ◌==◌, if◌then◌else◌, Result, ok, ◌>>◌, check, max_size,
  length_error, out_of_bounds,
}

-- the `n` bytes from index `i` on
abbrev pub slice : List ℕ → ℕ → ℕ → List ℕ
slice xs i n = take n (drop i xs)

abbrev pub overwrite : List ℕ → ℕ → List ℕ → List ℕ
overwrite xs i ys = take i xs ++ (ys ++ drop (i + length ys) xs)

-- `std::copy` from the addresses `[from, until)` of the storage
unfoldable pub copy_from : List ℕ → ℕ → ℕ → Result (List ℕ)
copy_from xs from until =
    check (leb from until && leb until (length xs)) out_of_bounds
    >> ok (slice xs from (until - from))

-- `std::copy` of the bytes `ys` to the address `i` of the storage
unfoldable pub copy_to : List ℕ → ℕ → List ℕ → Result (List ℕ)
copy_to xs i ys = check (leb (i + length ys) (length xs)) out_of_bounds >> ok (overwrite xs i ys)

-- `std::vector::resize`, which fills with zeros
unfoldable pub resize : List ℕ → ℕ → Result (List ℕ)
resize xs n = check (leb n max_size) length_error >> ok (take n xs ++ replicate (n - length xs) 0)

-- the bytes in memory of an integer of `w` bytes, on a little-endian host
unfoldable pub object_bytes : ℕ → ℕ → List ℕ
object_bytes zero x = []
object_bytes (suc w) x = x % 256 ∷ object_bytes w (x / 256)

-- the integer that bytes in memory stand for
unfoldable pub object_value : List ℕ → ℕ
object_value [] = 0
object_value (b ∷ bs) = b + 256 * object_value bs

abbrev pub starts_with : List ℕ → List ℕ → Bool
starts_with [] text = true
starts_with (p ∷ ps) [] = false
starts_with (p ∷ ps) (x ∷ text) = x == p && starts_with ps text

-- `std::search`: the offset of the first match, or the length of the text if there is none
unfoldable pub search_index : List ℕ → List ℕ → ℕ
search_index pattern [] = 0
search_index pattern (x ∷ text) =
    if starts_with pattern (x ∷ text) then 0 else suc (search_index pattern text)

-- `memchr`: the offset of the first byte that is `c`
unfoldable pub memchr : ℕ → List ℕ → Option ℕ
memchr c [] = none
memchr c (x ∷ text) =
    if x == c then some 0 else elim (memchr c text) [ none ↦ none | some i ↦ some (suc i) ]
