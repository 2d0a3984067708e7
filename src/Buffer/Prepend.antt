-- ===== src/Buffer/Prepend.antt =====
-- `prepend`: the assertion guards the reserved bytes themselves, so only bytes that `retrieve` has
-- freed can be used.
use mathlib.Core.Path.{ap₂}
use native.Mathlib.Decide.{dec_le}
use cppweb.Base.{
  ◌⊎◌, inl, inr, ◌∙◌, ℕ, ◌+◌, ◌-◌, ◌≤◌, ◌<◌, ◌≡◌, refl, List, ◌++◌, arith, length, fault, assertion,
  Returns, sub_size-eq, le→leb, gt→leb, ap,
}
use cppweb.Bytes.{overwrite, slice}
use cppweb.Bytes.Slices.{
  copy_to-ok, length-overwrite, slice-overwrite_self, slice-overwrite_after, slice_split,
}
use cppweb.Buffer.{Buffer, cheap_prepend, prepend, prependable_bytes}
use cppweb.Buffer.Valid.{IsValid, Holds}

-- With at least `length ys` bytes between the reserved ones and the readable ones, `prepend` puts
-- `ys` in front of what the buffer holds.
pub prepend-Holds :
    {b : Buffer} {xs : List ℕ} (ys : List ℕ)
    → Holds b xs
    → cheap_prepend + length ys ≤ b.reader_index
    → Returns (prepend b ys) (λ b'. Holds b' (ys ++ xs))
unfolding prepend prependable_bytes
prepend-Holds {b} {xs} ys h fits = (
  record b { buffer = storage; reader_index = start },
  rw
      (
        sub_size-eq b.reader_index cheap_prepend (omega arith) (omega arith),
        le→leb (length ys) (b.reader_index - cheap_prepend) (omega arith),
        sub_size-eq b.reader_index (length ys) (omega arith) (omega arith),
        copy_to-ok b.buffer start ys inside,
      )
      refl,
  record {
    valid = record {
      low = omega arith;
      order = omega arith;
      within = omega (arith, size);
      small = omega (arith, size);
    };
    bytes =
        ap (slice storage start) width
        ∙ slice_split storage start (length ys) readable
        ∙ ap₂ ◌++◌ (slice-overwrite_self b.buffer start ys inside) (
            ap (λ j. slice storage j readable) next
            ∙ slice-overwrite_after b.buffer start ys inside b.reader_index readable (omega arith)
            ∙ h.bytes);
  },
)
  where
    start : ℕ
    start = b.reader_index - length ys

    readable : ℕ
    readable = b.writer_index - b.reader_index

    storage : List ℕ
    storage = overwrite b.buffer start ys

    inside : start + length ys ≤ length b.buffer
    inside = omega arith

    size : length storage ≡ length b.buffer
    size = length-overwrite b.buffer start ys inside

    width : b.writer_index - start ≡ length ys + readable
    width = omega arith

    next : start + length ys ≡ b.reader_index
    next = omega arith

-- With fewer such bytes the assertion of `prepend` fails, although `cheap_prepend` more are free.
pub prepend_fault :
    {b : Buffer} (ys : List ℕ)
    → IsValid b
    → b.reader_index < cheap_prepend + length ys
    → prepend b ys ≡ fault assertion
unfolding prepend prependable_bytes
prepend_fault {b} ys v tight =
    rw
      (
        sub_size-eq b.reader_index cheap_prepend v.low (omega arith),
        gt→leb (length ys) (b.reader_index - cheap_prepend) (omega arith),
      )
      refl

-- `prepend` puts `ys` in front of what the buffer holds where at least `length ys` bytes lie between
-- the reserved ones and the readable ones, and fails its assertion everywhere else: it never uses
-- the `cheap_prepend` bytes that are reserved.
pub prepend_lem :
    {b : Buffer} {xs : List ℕ} (ys : List ℕ)
    → Holds b xs
    → ((cheap_prepend + length ys ≤ b.reader_index)
        × Returns (prepend b ys) (λ b'. Holds b' (ys ++ xs)))
      ⊎ ((b.reader_index < cheap_prepend + length ys) × (prepend b ys ≡ fault assertion))
prepend_lem {b} ys h = elim (dec_le (cheap_prepend + length ys) b.reader_index) [
  | yes room ↦ inl (room, prepend-Holds ys h room)
  | no full ↦ inr (omega (arith, full), prepend_fault ys h.valid (omega (arith, full)))
]
