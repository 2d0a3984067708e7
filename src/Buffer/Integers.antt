-- ===== src/Buffer/Integers.antt =====
-- The integers that `append…Int…` and `prepend…Int…` write are read back by `read…Int…`, and stand
-- in network order.
use mathlib.Core.List.{reverse}
use mathlib.Core.Path.{subst}
use cppweb.Base.{
  ◌>>=◌, length-append, ℕ, ◌+◌, ◌-◌, ◌^◌, ◌≤◌, ◌<◌, ◌≡◌, ◌⊎◌, inr, refl, sym, ap, ◌∙◌, List, [],
  ◌++◌, arith, length, take, ok, fault, assertion, Returns, max_size, le→leb, gt→leb, add_size-eq,
  take-append_add, drop-append_add, append-nil,
}
use cppweb.Bytes.{slice, object_bytes}
use cppweb.Bytes.Slices.{copy_from-ok, take-slice}
use cppweb.Bytes.Words.{
  length-object_bytes, object_bytes-reverse, object_value-reverse-reverse, length-reverse,
}
use cppweb.Buffer.{
  Buffer, peek, swap_bytes, append_int, peek_int, read_int, prepend_int, cheap_prepend,
}
use cppweb.Buffer.Valid.{Holds, readable-eq, readable-Holds}
use cppweb.Buffer.Space.{CanCompact}
use cppweb.Buffer.Content.{append-Holds}
use cppweb.Buffer.Retrieve.{retrieve-Holds}
use cppweb.Buffer.Prepend.{prepend-Holds}

-- The bytes of `x` on the wire: the highest first.
abbrev pub wire : ℕ → ℕ → List ℕ
wire w x = reverse (object_bytes w x)

wire-length : (w x : ℕ) → length (wire w x) ≡ w
wire-length w x = length-reverse (object_bytes w x) ∙ length-object_bytes w x

-- `appendInt` writes the bytes of the integer, the highest first.
pub append_int-Holds :
    (w x : ℕ) {b : Buffer} {xs : List ℕ}
    → Holds b xs
    → CanCompact b w ⊎ (b.writer_index + w ≤ max_size)
    → Returns (append_int w b x) (λ b'. Holds b' (xs ++ wire w x))
unfolding append_int swap_bytes
append_int-Holds w x {b} {xs} h space =
    rw (object_bytes-reverse w x) (append-Holds (wire w x) h (rw (wire-length w x) space))

-- `peekInt` returns the integer whose bytes come first, and fails its assertion where fewer than
-- `w` bytes are there.
pub peek_int-ok :
    (w x : ℕ) {b : Buffer} (xs : List ℕ)
    → Holds b (wire w x ++ xs)
    → x < 256 ^ w
    → peek_int w b ≡ ok x
unfolding peek_int swap_bytes peek
peek_int-ok w x {b} xs h small =
    rw
      (
        readable-Holds h,
        le→leb w (length (wire w x ++ xs)) (omega (arith, enough)),
        add_size-eq b.reader_index w (omega (arith, inside)),
        copy_from-ok b.buffer b.reader_index (b.reader_index + w) (omega arith) inside,
        front,
      )
      (ap ok (object_value-reverse-reverse w x small))
  where
    enough : w ≤ length (wire w x ++ xs)
    enough = omega (arith, length-append (wire w x) xs, wire-length w x)

    inside : b.reader_index + w ≤ length b.buffer
    inside = omega (arith, enough, readable-Holds h, readable-eq h.valid)

    front : slice b.buffer b.reader_index (b.reader_index + w - b.reader_index) ≡ wire w x
    front =
        sym (
          take-slice b.buffer b.reader_index (b.reader_index + w - b.reader_index)
            (b.writer_index - b.reader_index)
            (omega (arith, enough, readable-Holds h, readable-eq h.valid)))
        ∙ ap (take (b.reader_index + w - b.reader_index)) h.bytes
        ∙ take-append_add (b.reader_index + w - b.reader_index) 0 (wire w x) xs
            (omega (arith, wire-length w x))
        ∙ append-nil (wire w x)

pub peek_int_fault :
    (w : ℕ) {b : Buffer} {xs : List ℕ} → Holds b xs → length xs < w → peek_int w b ≡ fault assertion
unfolding peek_int
peek_int_fault w {b} {xs} h few = rw (readable-Holds h, gt→leb w (length xs) few)

-- `readInt` returns that integer and takes its bytes away.
pub read_int-Holds :
    (w x : ℕ) {b : Buffer} (xs : List ℕ)
    → Holds b (wire w x ++ xs)
    → x < 256 ^ w
    → Returns (read_int w b) (λ p. (p.0 ≡ x) × Holds p.1 xs)
unfolding read_int
read_int-Holds w x {b} xs h small =
    let size : w ≤ length (wire w x ++ xs) =
      omega (arith, length-append (wire w x) xs, wire-length w x) in
    let (b', e, held) = retrieve-Holds w h size in
    (
      (x, b'),
      rw (peek_int-ok w x xs h small, e),
      (
        refl,
        subst (Holds b') (drop-append_add w 0 (wire w x) xs (omega (arith, wire-length w x))) held,
      ),
    )

-- Fewer bytes than the integer takes fail the assertion.
pub read_int_fault :
    (w : ℕ) {b : Buffer} {xs : List ℕ} → Holds b xs → length xs < w → read_int w b ≡ fault assertion
unfolding read_int
read_int_fault w h few = rw (peek_int_fault w h few)

-- An integer of `w` bytes that is appended to an empty buffer, where `max_size` has room for it,
-- is read back, and leaves the buffer empty.
pub read_int-append_int :
    (w x : ℕ) {b : Buffer}
    → Holds b []
    → b.writer_index + w ≤ max_size
    → x < 256 ^ w
    → Returns (append_int w b x >>= read_int w) (λ p. (p.0 ≡ x) × Holds p.1 [])
read_int-append_int w x {b} h space small =
    let (b', e, held) = append_int-Holds w x h (inr space) in
    let held' : Holds b' (wire w x ++ []) = subst (Holds b') (sym (append-nil (wire w x))) held in
    rw e (read_int-Holds w x [] held' small)

pub prepend_int-Holds :
    (w x : ℕ) {b : Buffer} {xs : List ℕ}
    → Holds b xs
    → cheap_prepend + w ≤ b.reader_index
    → Returns (prepend_int w b x) (λ b'. Holds b' (wire w x ++ xs))
unfolding prepend_int swap_bytes
prepend_int-Holds w x h fits =
    rw (object_bytes-reverse w x) (prepend-Holds (wire w x) h (rw (wire-length w x) fits))
