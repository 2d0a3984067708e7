-- ===== src/Buffer/Retrieve.antt =====
-- What `retrieve` and its relatives take from the bytes that a `Buffer` holds, and when they fail.
use mathlib.Core.Path.{subst}
use cppweb.Base.{
  ℕ, ◌+◌, ◌-◌, ◌≤◌, ◌<◌, ◌≡◌, refl, sym, ap, ◌∙◌, List, [], arith, length, take, drop, fault,
  assertion, Returns, add_size-eq, le→leb, gt→leb, ltb, Bool-cases, ltb→lt, ltb→ge, inl, inr,
  take_of_ge, drop_of_ge, ok,
}
use cppweb.Bytes.{slice}
use cppweb.Bytes.Slices.{copy_from-ok, drop-slice, take-slice}
use cppweb.Buffer.{Buffer, peek, retrieve, retrieve_all, retrieve_as_string, retrieve_all_as_string}
use cppweb.Buffer.Valid.{IsValid, Holds, readable-eq, readable-Holds}

add_sub_cancel : (a n : ℕ) → a + n - a ≡ n
add_sub_cancel a n = omega arith

pub retrieve_all-Holds : {b : Buffer} → IsValid b → Holds (retrieve_all b) []
unfolding retrieve_all
retrieve_all-Holds v = record {
  valid = record { low = omega arith; order = omega arith; within = omega arith; small = v.small };
  bytes = refl;
}

-- `retrieve` takes `n` bytes from the front.
pub retrieve-Holds :
    {b : Buffer} {xs : List ℕ} (n : ℕ)
    → Holds b xs
    → n ≤ length xs
    → Returns (retrieve b n) (λ b'. Holds b' (drop n xs))
unfolding retrieve
retrieve-Holds {b} {xs} n h few = elim (Bool-cases (ltb n (length xs))) [
  | inl some_left ↦ (
    record b { reader_index = b.reader_index + n },
    rw
        (
          readable-Holds h,
          le→leb n (length xs) few,
          some_left,
          add_size-eq b.reader_index n (omega (arith, readable, ltb→lt _ _ some_left)),
        )
        refl,
    record {
      valid = record {
        low = omega arith;
        order = omega (arith, readable, ltb→lt _ _ some_left);
        within = h.valid.within;
        small = h.valid.small;
      };
      bytes =
          sym (drop-slice b.buffer b.reader_index n (b.writer_index - (b.reader_index + n)))
          ∙ ap (λ k. drop n (slice b.buffer b.reader_index k)) width
          ∙ ap (drop n) h.bytes;
    },
  )
  | inr none_left ↦ (
    retrieve_all b,
    rw (readable-Holds h, le→leb n (length xs) few, none_left) refl,
    rw (drop_of_ge n xs (ltb→ge _ _ none_left)) (retrieve_all-Holds h.valid),
  )
]
  where
    readable : length xs ≡ b.writer_index - b.reader_index
    readable = omega (arith, readable-Holds h, readable-eq h.valid)

    width : n + (b.writer_index - (b.reader_index + n)) ≡ b.writer_index - b.reader_index
    width = omega (arith, readable)

-- The end of the readable bytes does not move up.
pub retrieve-writer :
    {b b' : Buffer} (n : ℕ) → IsValid b → retrieve b n ≡ ok b' → b'.writer_index ≤ b.writer_index
unfolding retrieve retrieve_all
retrieve-writer n v e = ground arith

-- More bytes than there are fail the assertion of `retrieve` and of `retrieveAsString`.
pub retrieve_fault :
    {b : Buffer} {xs : List ℕ} (n : ℕ)
    → Holds b xs
    → length xs < n
    → (retrieve b n ≡ fault assertion) × (retrieve_as_string b n ≡ fault assertion)
unfolding retrieve retrieve_as_string
retrieve_fault {b} {xs} n h many =
    let over = gt→leb n (length xs) many in
    (rw (readable-Holds h, over) refl, rw (readable-Holds h, over) refl)

-- `retrieveAsString` returns the first `n` bytes, and leaves the others.
pub retrieve_as_string_bounded :
    {b : Buffer} {xs : List ℕ} (n : ℕ)
    → Holds b xs
    → n ≤ length xs
    → Returns
        (retrieve_as_string b n)
        (λ p. (p.0 ≡ take n xs) × Holds p.1 (drop n xs) × (p.1.writer_index ≤ b.writer_index))
unfolding retrieve_as_string peek
retrieve_as_string_bounded {b} {xs} n h few =
    let (b', e, held) = retrieve-Holds n h few in
    let readable : length xs ≡ b.writer_index - b.reader_index =
      omega (arith, readable-Holds h, readable-eq h.valid) in
    (
      (slice b.buffer b.reader_index n, b'),
      rw
          (
            readable-Holds h,
            le→leb n (length xs) few,
            add_size-eq b.reader_index n (omega (arith, readable)),
            copy_from-ok b.buffer b.reader_index (b.reader_index + n) (omega arith)
                (omega (arith, readable)),
            e,
            add_sub_cancel b.reader_index n,
          )
          refl,
      (
        sym (
              take-slice b.buffer b.reader_index n (b.writer_index - b.reader_index)
                (omega (arith, readable)))
            ∙ ap (take n) h.bytes,
        held,
        retrieve-writer n h.valid e,
      ),
    )

-- `retrieveAllAsString` returns all bytes, and empties the buffer.
pub retrieve_all_as_string_bounded :
    {b : Buffer} {xs : List ℕ}
    → Holds b xs
    → Returns
        (retrieve_all_as_string b)
        (λ p. (p.0 ≡ xs) × Holds p.1 [] × (p.1.writer_index ≤ b.writer_index))
unfolding retrieve_all_as_string
retrieve_all_as_string_bounded {b} {xs} h =
    let (p, e, got) = retrieve_as_string_bounded (length xs) h (omega arith) in
    (
      p,
      rw (readable-Holds h) e,
      (
        got.0 ∙ take_of_ge (length xs) xs (omega arith),
        subst (Holds p.1) (drop_of_ge (length xs) xs (omega arith)) got.1,
        got.2,
      ),
    )

pub retrieve_all-writer : {b : Buffer} → IsValid b → (retrieve_all b).writer_index ≤ b.writer_index
unfolding retrieve_all
retrieve_all-writer v = omega arith
