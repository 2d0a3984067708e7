-- ===== src/Buffer/Content.antt =====
-- What the constructor of `Buffer` makes, and what `append` adds to the bytes that it holds.

use cppweb.Base.{
  ℕ, ◌+◌, ◌-◌, ◌^◌, ◌≤◌, ◌<◌, ◌≡◌, ◌⊎◌, refl, ap, ◌∙◌, List, [], ◌++◌, arith, length, replicate,
  fault, length_error, Returns, max_size, add_size-eq, le→leb, length-replicate, ==_iff,
}
use cppweb.Bytes.{overwrite}
use cppweb.Bytes.Slices.{
  copy_to-ok, length-overwrite, slice-overwrite_self, slice-overwrite_before, slice_split,
}
use cppweb.Buffer.{prependable_bytes, Buffer, cheap_prepend, make, append, writeable_bytes}
use cppweb.Buffer.Valid.{IsValid, Holds, contents, readable-eq, writeable-eq, has_written-ok}
use cppweb.Buffer.Space.{CanCompact, ensure-Room, ensure_fault}

add_sub_cancel : (a n : ℕ) → a + n - a ≡ n
add_sub_cancel a n = omega arith

-- The constructor's three assertions hold: it returns an empty buffer with room for `n` bytes.
pub make-Holds :
    (n : ℕ)
    → cheap_prepend + n ≤ max_size
    → Returns (make n) (λ b. Holds b [] × (writeable_bytes b ≡ n))
unfolding make prependable_bytes
make-Holds n h =
    let fresh : Buffer = record {
      buffer = replicate (cheap_prepend + n) 0;
      reader_index = cheap_prepend;
      writer_index = cheap_prepend;
    } in
    let size : length fresh.buffer ≡ cheap_prepend + n = length-replicate (cheap_prepend + n) 0 in
    let v : IsValid fresh = record {
      low = omega arith;
      order = omega arith;
      within = omega (arith, size);
      small = omega (arith, size);
    } in
    let room : writeable_bytes fresh ≡ n = omega (arith, writeable-eq v, size) in
    (
      fresh,
      rw
          (
            add_size-eq cheap_prepend n (omega arith),
            le→leb (cheap_prepend + n) max_size h,
            readable-eq v,
            room,
            (==_iff n n).1 refl,
          )
          refl,
      (record { valid = v; bytes = refl }, room),
    )

-- The bytes are written behind the readable ones.
pub append_room :
    {b : Buffer} (ys : List ℕ)
    → IsValid b
    → b.writer_index + length ys ≤ length b.buffer
    → let w = b.writer_index + length ys in
      Holds
        (record b { buffer = overwrite b.buffer b.writer_index ys; writer_index = w })
        (contents b ++ ys)
append_room {b} ys v fits = record {
  valid = record {
    low = v.low;
    order = omega arith;
    within = omega (arith, size);
    small = omega (arith, size);
  };
  bytes = rw (
    width,
    slice_split storage b.reader_index readable (length ys),
    next,
    slice-overwrite_before b.buffer b.writer_index ys fits b.reader_index readable (omega arith),
    slice-overwrite_self b.buffer b.writer_index ys fits,
  );
}
  where
    readable : ℕ
    readable = b.writer_index - b.reader_index

    storage : List ℕ
    storage = overwrite b.buffer b.writer_index ys

    size : length storage ≡ length b.buffer
    size = length-overwrite b.buffer b.writer_index ys fits

    width : b.writer_index + length ys - b.reader_index ≡ readable + length ys
    width = omega arith

    next : b.reader_index + readable ≡ b.writer_index
    next = omega arith

-- The same, with a bound on the end of the readable bytes.
pub append_bounded :
    {b : Buffer} {xs : List ℕ} (ys : List ℕ)
    → Holds b xs
    → CanCompact b (length ys) ⊎ (b.writer_index + length ys ≤ max_size)
    → Returns
        (append b ys)
        (λ b'. Holds b' (xs ++ ys) × (b'.writer_index ≤ b.writer_index + length ys))
unfolding append
append_bounded {b} {xs} ys h space =
    let (b', e, r) = ensure-Room (length ys) h.valid space in
    let written : Buffer = record b' { buffer = overwrite b'.buffer b'.writer_index ys } in
    let size : length written.buffer ≡ length b'.buffer =
      length-overwrite b'.buffer b'.writer_index ys r.room in
    let v : IsValid written = record {
      low = r.valid.low;
      order = r.valid.order;
      within = omega (arith, size, r.valid.within);
      small = omega (arith, size, r.valid.small);
    } in
    let held = append_room ys r.valid r.room in
    (
      record written { writer_index = b'.writer_index + length ys },
      rw
          (
            e,
            copy_to-ok b'.buffer b'.writer_index ys r.room,
            has_written-ok v (length ys) (omega (arith, size, r.room)),
          )
          refl,
      (
        record { valid = held.valid; bytes = held.bytes ∙ ap (λ zs. zs ++ ys) (r.kept ∙ h.bytes) },
        omega (arith, r.back),
      ),
    )

-- `append` returns, without a failed assertion or a copy out of bounds, and the buffer then holds
-- its bytes followed by the new ones.
pub append-Holds :
    {b : Buffer} {xs : List ℕ} (ys : List ℕ)
    → Holds b xs
    → CanCompact b (length ys) ⊎ (b.writer_index + length ys ≤ max_size)
    → Returns (append b ys) (λ b'. Holds b' (xs ++ ys))
append-Holds ys h space = let (b', e, held) = append_bounded ys h space in (b', e, held.0)

-- Where neither the front nor a larger storage can take the bytes, `append` throws.
pub append_fault :
    {b : Buffer} (ys : List ℕ)
    → IsValid b
    → ¬ CanCompact b (length ys)
    → max_size < b.writer_index + length ys
    → b.writer_index + length ys < 2 ^ 64
    → append b ys ≡ fault length_error
unfolding append
append_fault ys v tight over fits = rw (ensure_fault (length ys) v tight over fits)
