-- ===== src/Buffer/Valid.antt =====
-- The representation invariant of a `Buffer`, the bytes that it holds, and its sizes where the
-- arithmetic of `size_t` does not wrap.
use cppweb.Base.{
  ℕ, ◌+◌, ◌-◌, ◌≤◌, ◌≡◌, refl, List, arith, length, ok, max_size, add_size-eq, sub_size-eq, le→leb,
  ap,
}
use cppweb.Bytes.{slice}
use cppweb.Bytes.Slices.{length-slice}
use cppweb.Buffer.{Buffer, cheap_prepend, readable_bytes, writeable_bytes, has_written}

pub record IsValid (b : Buffer) : Type 0 where
  pub low : cheap_prepend ≤ b.reader_index
  pub order : b.reader_index ≤ b.writer_index
  pub within : b.writer_index ≤ length b.buffer
  pub small : length b.buffer ≤ max_size

-- the readable bytes
abbrev pub contents : Buffer → List ℕ
contents b = slice b.buffer b.reader_index (b.writer_index - b.reader_index)

-- The buffer is well formed and its readable bytes are `xs`.
pub record Holds (b : Buffer) (xs : List ℕ) : Type 0 where
  pub valid : IsValid b
  pub bytes : contents b ≡ xs

module _ {b : Buffer} (v : IsValid b) where
  pub readable-eq : readable_bytes b ≡ b.writer_index - b.reader_index
  unfolding readable_bytes
  readable-eq = sub_size-eq b.writer_index b.reader_index v.order (omega arith)

  pub writeable-eq : writeable_bytes b ≡ length b.buffer - b.writer_index
  unfolding writeable_bytes
  writeable-eq = sub_size-eq (length b.buffer) b.writer_index v.within (omega arith)

  pub length-contents : length (contents b) ≡ b.writer_index - b.reader_index
  length-contents =
      length-slice b.buffer b.reader_index (b.writer_index - b.reader_index) (omega arith)

  pub has_written-ok :
      (n : ℕ)
      → n ≤ length b.buffer - b.writer_index
      → has_written b n ≡ ok (record b { writer_index = b.writer_index + n })
  unfolding has_written
  has_written-ok n h =
      rw
        (
          writeable-eq,
          le→leb n (length b.buffer - b.writer_index) h,
          add_size-eq b.writer_index n (omega arith),
        )
        refl

-- The number of readable bytes that the code computes is that of the bytes held.
pub readable-Holds : {b : Buffer} {xs : List ℕ} → Holds b xs → readable_bytes b ≡ length xs
readable-Holds {b} {xs} h =
    omega (arith, readable-eq h.valid, length-contents h.valid, ap length h.bytes)
