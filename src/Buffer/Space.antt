-- ===== src/Buffer/Space.antt =====
-- `makeSpace`, `ensureWriteableBytes`: room is made, and the readable bytes stay.
use cppweb.Base.{
  ◌^◌, ℕ, ◌+◌, ◌-◌, ◌≤◌, ◌<◌, ◌≡◌, ◌⊎◌, inl, inr, refl, ◌∙◌, ap, ◌++◌, arith, length, replicate,
  fault, length_error, Returns, add_size, sub_size, max_size, add_size-eq, sub_size-eq, ltb, le→leb,
  ge→ltb, lt→ltb, gt→leb, Bool-cases, ltb→lt, ltb→ge, length-append, length-replicate,
  slice-append_left,
}
use cppweb.Bytes.{slice, overwrite, resize}
use cppweb.Bytes.Slices.{
  copy_from-ok, copy_to-ok, resize-ok, length-overwrite, slice-overwrite_self,
}
use cppweb.Buffer.{
  Buffer, cheap_prepend, writeable_bytes, prependable_bytes, make_space, ensure_writeable_bytes,
}
use cppweb.Buffer.Valid.{IsValid, contents, readable-eq, writeable-eq, length-contents}

abbrev free_bytes : Buffer → ℕ
free_bytes b = length b.buffer - b.writer_index + (b.reader_index - cheap_prepend)

-- The free bytes in front of the readable ones and behind them suffice for `n` more.
abbrev pub CanCompact : Buffer → ℕ → Type 0
CanCompact b n = n ≤ (length b.buffer - b.writer_index) + (b.reader_index - cheap_prepend)

-- What making room for `n` bytes achieves.
pub record Room (b : Buffer) (n : ℕ) (b' : Buffer) : Type 0 where
  pub valid : IsValid b'
  pub kept : contents b' ≡ contents b
  pub room : b'.writer_index + n ≤ length b'.buffer
  pub back : b'.writer_index ≤ b.writer_index

-- The sum that `makeSpace` tests.
free-eq :
    {b : Buffer}
    → IsValid b
    → sub_size (add_size (writeable_bytes b) (prependable_bytes b)) cheap_prepend
      ≡ (length b.buffer - b.writer_index) + (b.reader_index - cheap_prepend)
unfolding prependable_bytes
free-eq {b} v =
    rw
      (
        writeable-eq v,
        add_size-eq (length b.buffer - b.writer_index) b.reader_index (omega arith),
        sub_size-eq (length b.buffer - b.writer_index + b.reader_index) cheap_prepend (omega arith)
            (omega arith),
      )
      (omega arith)

make_space_grow :
    {b : Buffer} (n : ℕ)
    → IsValid b
    → (length b.buffer - b.writer_index) + (b.reader_index - cheap_prepend) < n
    → b.writer_index + n ≤ max_size
    → Returns (make_space b n) (Room b n)
unfolding make_space
make_space_grow {b} n v tight fits = (
  record b { buffer = b.buffer ++ replicate (b.writer_index + n - length b.buffer) 0 },
  rw
      (
        free-eq v,
        lt→ltb _ _ tight,
        add_size-eq b.writer_index n (omega arith),
        resize-ok b.buffer (b.writer_index + n) (omega arith) fits,
      )
      refl,
  record {
    valid = record {
      low = v.low;
      order = v.order;
      within = omega (arith, grown);
      small = omega (arith, grown);
    };
    kept =
        slice-append_left b.reader_index (b.writer_index - b.reader_index) b.buffer
          (replicate (b.writer_index + n - length b.buffer) 0) (omega arith);
    room = omega (arith, grown);
    back = omega arith;
  },
)
  where
    grown :
        length (b.buffer ++ replicate (b.writer_index + n - length b.buffer) 0) ≡ b.writer_index + n
    grown = omega (
      arith,
      length-append b.buffer (replicate (b.writer_index + n - length b.buffer) 0),
      length-replicate {0} {A = ℕ} (b.writer_index + n - length b.buffer) 0,
    )

make_space_compact :
    {b : Buffer} (n : ℕ)
    → IsValid b
    → CanCompact b n
    → length b.buffer - b.writer_index < n
    → Returns (make_space b n) (Room b n)
unfolding make_space
make_space_compact {b} n v fits tight = (
  record b {
    buffer = overwrite b.buffer cheap_prepend (contents b);
    reader_index = cheap_prepend;
    writer_index = cheap_prepend + (b.writer_index - b.reader_index);
  },
  rw
      (
        free-eq v,
        ge→ltb _ _ fits,
        lt→ltb cheap_prepend b.reader_index (omega arith),
        copy_from-ok b.buffer b.reader_index b.writer_index v.order v.within,
        copy_to-ok b.buffer cheap_prepend (contents b) moved,
        readable-eq v,
        add_size-eq cheap_prepend (b.writer_index - b.reader_index) (omega arith),
      )
      refl,
  record {
    valid = record {
      low = omega arith;
      order = omega arith;
      within = omega (arith, kept_size);
      small = omega (arith, kept_size);
    };
    kept =
        ap (slice (overwrite b.buffer cheap_prepend (contents b)) cheap_prepend) width
        ∙ slice-overwrite_self b.buffer cheap_prepend (contents b) moved;
    room = omega (arith, kept_size);
    back = omega arith;
  },
)
  where
    moved : cheap_prepend + length (contents b) ≤ length b.buffer
    moved = omega (arith, length-contents v)

    kept_size : length (overwrite b.buffer cheap_prepend (contents b)) ≡ length b.buffer
    kept_size = length-overwrite b.buffer cheap_prepend (contents b) moved

    width : cheap_prepend + (b.writer_index - b.reader_index) - cheap_prepend ≡ length (contents b)
    width = omega (arith, length-contents v)

-- Room that is neither there nor within `max_size()` makes the `resize` throw.
make_space_fault :
    {b : Buffer} (n : ℕ)
    → IsValid b
    → (length b.buffer - b.writer_index) + (b.reader_index - cheap_prepend) < n
    → max_size < b.writer_index + n
    → b.writer_index + n < 2 ^ 64
    → make_space b n ≡ fault length_error
unfolding make_space resize
make_space_fault {b} n v tight over fits =
    rw
      (
        free-eq v,
        lt→ltb _ _ tight,
        add_size-eq b.writer_index n fits,
        gt→leb (b.writer_index + n) max_size over,
      )
      refl

make_space-Room :
    {b : Buffer} (n : ℕ)
    → IsValid b
    → length b.buffer - b.writer_index < n
    → CanCompact b n ⊎ (b.writer_index + n ≤ max_size)
    → Returns (make_space b n) (Room b n)
make_space-Room n v tight (inl fits) = make_space_compact n v fits tight
make_space-Room {b} n v tight (inr fits) = elim (Bool-cases (ltb (free_bytes b) n)) [
  | inl more ↦ make_space_grow n v (ltb→lt _ _ more) fits
  | inr enough ↦ make_space_compact n v (ltb→ge _ _ enough) tight
]

-- `ensureWriteableBytes` makes room and keeps the readable bytes, where the room can be made.
pub ensure-Room :
    {b : Buffer} (n : ℕ)
    → IsValid b
    → CanCompact b n ⊎ (b.writer_index + n ≤ max_size)
    → Returns (ensure_writeable_bytes b n) (Room b n)
unfolding ensure_writeable_bytes
ensure-Room {b} n v h = elim (Bool-cases (ltb (length b.buffer - b.writer_index) n)) [
  | inl short ↦
      let (b', e, r) = make_space-Room n v (ltb→lt _ _ short) h in
      (
        b',
        rw
            (
              writeable-eq v,
              short,
              e,
              writeable-eq r.valid,
              le→leb n (length b'.buffer - b'.writer_index) (omega (arith, r.room)),
            )
            refl,
        r,
      )
  | inr enough ↦ (
    b,
    rw
        (
          writeable-eq v,
          enough,
          writeable-eq v,
          le→leb n (length b.buffer - b.writer_index) (ltb→ge _ _ enough),
        )
        refl,
    record { valid = v; kept = refl; room = omega (arith, ltb→ge _ _ enough); back = omega arith },
  )
]

pub ensure_fault :
    {b : Buffer} (n : ℕ)
    → IsValid b
    → ¬ CanCompact b n
    → max_size < b.writer_index + n
    → b.writer_index + n < 2 ^ 64
    → ensure_writeable_bytes b n ≡ fault length_error
unfolding ensure_writeable_bytes
ensure_fault {b} n v tight over fits =
    rw
      (
        writeable-eq v,
        lt→ltb (length b.buffer - b.writer_index) n (omega arith),
        make_space_fault n v (omega arith) over fits,
      )
      refl
