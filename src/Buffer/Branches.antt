-- ===== src/Buffer/Branches.antt =====
-- `append` and `retrieveAsString` on every branch.
use native.Mathlib.Decide.{dec_le}
use cppweb.Base.{
  ℕ, ◌+◌, ◌-◌, ◌^◌, ◌≤◌, ◌<◌, ◌≡◌, ◌⊎◌, inl, inr, List, ◌++◌, arith, length, take, drop, Returns,
  fault, length_error, assertion, max_size,
}
use cppweb.Buffer.{Buffer, append, retrieve_as_string, cheap_prepend}
use cppweb.Buffer.Valid.{Holds}
use cppweb.Buffer.Space.{CanCompact}
use cppweb.Buffer.Content.{append-Holds, append_fault}
use cppweb.Buffer.Retrieve.{retrieve_as_string_bounded, retrieve_fault}

-- While the size does not wrap, `append` adds its bytes behind those that the buffer holds, where
-- the free space in the storage or a larger storage can take them, and throws everywhere else.
pub append_lem :
    {b : Buffer} {xs : List ℕ} (ys : List ℕ)
    → Holds b xs
    → b.writer_index + length ys < 2 ^ 64
    → ((CanCompact b (length ys) ⊎ (b.writer_index + length ys ≤ max_size))
        × Returns (append b ys) (λ b'. Holds b' (xs ++ ys)))
      ⊎ (((¬ CanCompact b (length ys)) × (max_size < b.writer_index + length ys))
          × (append b ys ≡ fault length_error))
append_lem {b} ys h small = elim (dec_le (b.writer_index + length ys) max_size) [
  | yes room ↦ inl (inr room, append-Holds ys h (inr room))
  | no full ↦
      let free = (length b.buffer - b.writer_index) + (b.reader_index - cheap_prepend) in
      elim (dec_le (length ys) free) [
        | yes fits ↦ inl (inl fits, append-Holds ys h (inl fits))
        | no tight ↦
            let over : max_size < b.writer_index + length ys = omega (arith, full) in
            inr ((tight, over), append_fault ys h.valid tight over small)
      ]
]

-- `retrieveAsString` returns the first `n` bytes and leaves the others, where the buffer holds at
-- least `n`, and fails its assertion everywhere else.
retrieve_as_string_lem :
    {b : Buffer} {xs : List ℕ} (n : ℕ)
    → Holds b xs
    → ((n ≤ length xs)
        × Returns
            (retrieve_as_string b n)
            (λ p. (p.0 ≡ take n xs) × Holds p.1 (drop n xs) × (p.1.writer_index ≤ b.writer_index)))
      ⊎ ((length xs < n) × (retrieve_as_string b n ≡ fault assertion))
retrieve_as_string_lem {xs = xs} n h = elim (dec_le n (length xs)) [
  | yes few ↦ inl (few, retrieve_as_string_bounded n h few)
  | no many ↦ inr (omega (arith, many), (retrieve_fault n h (omega (arith, many))).1)
]
