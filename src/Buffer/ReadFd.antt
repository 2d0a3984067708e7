-- ===== src/Buffer/ReadFd.antt =====
-- `readFd`: the bytes that `readv` spreads over the storage and the extra area become readable.
use mathlib.Core.Path.{subst}
use native.Mathlib.Decide.{dec_le}
use cppweb.Base.{
  ℕ, ◌+◌, ◌-◌, ◌≤◌, ◌<◌, ◌≡◌, inr, refl, ap, ◌∙◌, List, [], ◌∷◌, ◌++◌, arith, length, take, drop,
  ok, Returns, max_size, le→leb, gt→leb, add_size-eq, take_of_ge, length-take, length-drop,
  take-append-drop, append_assoc,
}
use cppweb.Bytes.{overwrite}
use cppweb.Bytes.Slices.{copy_to-ok, length-overwrite}
use cppweb.Buffer.{
  Buffer, Received, failed, received, areas, extra_size, read_fd, take_in, writeable_bytes,
}
use cppweb.Buffer.Valid.{Holds, contents, writeable-eq}
use cppweb.Buffer.Content.{append_room, append-Holds}

abbrev pub total : List ℕ → ℕ
total [] = 0
total (n ∷ ns) = n + total ns

-- A failed `readv` leaves the buffer alone, and the caller gets its `errno`.
pub read_fd_failed :
    (readv : List ℕ → Received) (b : Buffer) (errno : ℕ)
    → readv (areas b) ≡ failed errno
    → read_fd readv b ≡ ok (failed errno, b)
unfolding read_fd
read_fd_failed readv b errno e = rw (e, read_fd) refl

module _ {b : Buffer} {xs : List ℕ} (ys : List ℕ) (h : Holds b xs) where
  abbrev stored : List ℕ → Buffer
  stored head =
      let storage : List ℕ = overwrite b.buffer b.writer_index head in
      record b { buffer = storage; writer_index = length storage }

  whole : (n : ℕ) → contents b ++ take n ys ++ drop n ys ≡ xs ++ ys
  whole n =
      append_assoc (contents b) (take n ys) (drop n ys)
      ∙ ap (λ zs. contents b ++ zs) (take-append-drop n ys)
      ∙ ap (λ zs. zs ++ ys) h.bytes

  -- All bytes fit behind the readable ones.
  take_in_direct :
      length ys ≤ length b.buffer - b.writer_index
      → Returns (take_in b ys) (λ b'. Holds b' (xs ++ ys))
  unfolding take_in
  take_in_direct few =
      let room : b.writer_index + length ys ≤ length b.buffer = omega arith in
      let held = append_room ys h.valid room in
      (
        record b {
          buffer = overwrite b.buffer b.writer_index ys;
          writer_index = b.writer_index + length ys;
        },
        rw
            (
              writeable-eq h.valid,
              take_of_ge (length b.buffer - b.writer_index) ys few,
              copy_to-ok b.buffer b.writer_index ys room,
              le→leb (length ys) (length b.buffer - b.writer_index) few,
              add_size-eq b.writer_index (length ys) (omega arith),
            )
            refl,
        record { valid = held.valid; bytes = held.bytes ∙ ap (λ zs. zs ++ ys) h.bytes },
      )

  -- The bytes fill the storage, and the rest is appended from the extra area.
  take_in_spill :
      length b.buffer - b.writer_index < length ys
      → length b.buffer + (length ys - (length b.buffer - b.writer_index)) ≤ max_size
      → Returns (take_in b ys) (λ b'. Holds b' (xs ++ ys))
  unfolding take_in
  take_in_spill many space =
      let n = length b.buffer - b.writer_index in
      let head : List ℕ = take n ys in
      let head_size : length head ≡ n = omega (arith, length-take n ys) in
      let fits : b.writer_index + length head ≤ length b.buffer = omega (arith, head_size) in
      let size = length-overwrite b.buffer b.writer_index head fits in
      let full : b.writer_index + length head ≡ length (overwrite b.buffer b.writer_index head) =
        omega (arith, head_size, size) in
      let first = append_room head h.valid fits in
      let first' : Holds (stored head) (contents b ++ head) =
        subst
          (λ k.
            Holds (record b { buffer = overwrite b.buffer b.writer_index head; writer_index = k })
              (contents b ++ head))
          full first in
      let (b', e, held) =
        append-Holds (drop n ys) first' (inr (omega (arith, size, length-drop n ys))) in
      (
        b',
        rw
            (
              writeable-eq h.valid,
              copy_to-ok b.buffer b.writer_index head fits,
              gt→leb (length ys) n many,
            )
            e,
        record { valid = held.valid; bytes = held.bytes ∙ whole n },
      )

take_in-Holds :
    {b : Buffer} {xs : List ℕ} (ys : List ℕ)
    → Holds b xs
    → length b.buffer + (length ys - (length b.buffer - b.writer_index)) ≤ max_size
    → Returns (take_in b ys) (λ b'. Holds b' (xs ++ ys))
take_in-Holds {b} ys h space = elim (dec_le (length ys) (length b.buffer - b.writer_index)) [
  | yes few ↦ take_in_direct ys h few
  | no many ↦ take_in_spill ys h (omega arith) space
]

total-areas : (b : Buffer) → total (areas b) ≤ writeable_bytes b + extra_size
unfolding areas
total-areas b = ground arith

-- Where the storage and the extra area stay within `max_size` together, and `readv` delivers at
-- most as many bytes as the areas hold, `readFd` returns them, and adds them to the readable ones
-- in order.
pub read_fd-Holds :
    (readv : List ℕ → Received) {b : Buffer} {xs : List ℕ} (ys : List ℕ)
    → Holds b xs
    → readv (areas b) ≡ received ys
    → length ys ≤ total (areas b)
    → length b.buffer + extra_size ≤ max_size
    → Returns (read_fd readv b) (λ p. (p.0 ≡ received ys) × Holds p.1 (xs ++ ys))
unfolding read_fd
read_fd-Holds readv {b} {xs} ys h e bound space =
    let (b', eq, held) = take_in-Holds ys h (omega (arith, total-areas b, writeable-eq h.valid)) in
    ((received ys, b'), rw (e, read_fd, eq) refl, (refl, held))
