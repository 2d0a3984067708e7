-- ===== src/Buffer/Search.antt =====
-- `findCRLF` and `findEOL` find the first line end among the readable bytes.
use cppweb.Base.{
  if◌then◌else◌, ==_of_ne, add_size-eq, ◌∙◌, sym, le→leb, length-drop, ℕ, ◌+◌, ◌-◌, ◌≤◌, ◌≡◌, inl,
  inr, ap, false, Option, none, some, List, [], ◌∷◌, arith, length, drop, ◌==◌, ==_iff, ok, Result,
}
use cppweb.Bytes.{slice, starts_with, search_index, memchr}
use cppweb.Bytes.Find.{FirstMatch, search_index_lem, memchr-search_index}
use cppweb.Bytes.Slices.{copy_from-ok, drop-slice}
use cppweb.Buffer.{Buffer, crlf, peek, find_crlf, find_eol, find_crlf_from, find_eol_from}
use cppweb.Buffer.Valid.{Holds, readable-Holds, readable-eq}

-- The result of a search for `pattern` among `xs`, which begin at the index `start`: the index of
-- the first match, or `nullptr` where there is none.
pub data Searched (pattern xs : List ℕ) (start : ℕ) : Result (Option ℕ) → Type 0 where
  found : (i : ℕ) → FirstMatch pattern xs i → Searched pattern xs start (ok (some (start + i)))
  missing :
      ((j : ℕ) → starts_with pattern (drop j xs) ≡ false) → Searched pattern xs start (ok none)

searched :
    (p : ℕ) (ps xs : List ℕ) (start end : ℕ)
    → end ≡ start + length xs
    → let at = start + search_index (p ∷ ps) xs in
      Searched (p ∷ ps) xs start (ok (if at == end then none else some at))
searched p ps xs start end e = elim (search_index_lem p ps xs) [
  | inl (inside, first) ↦
      rw (==_of_ne (start + search_index (p ∷ ps) xs) end (omega arith)) (found _ first)
  | inr (last, nowhere) ↦
      rw ((==_iff (start + search_index (p ∷ ps) xs) end).1 (omega arith)) (missing nowhere)
]

Searched-byte :
    (c : ℕ) (xs : List ℕ) (start : ℕ)
    → Searched
        (c ∷ [])
        xs
        start
        (ok (elim (memchr c xs) [ none ↦ none | some i ↦ some (start + i) ]))
Searched-byte c xs start = rw (memchr-search_index c xs) (elim (search_index_lem c [] xs) [
  | inl (inside, first) ↦
      rw (==_of_ne (search_index (c ∷ []) xs) (length xs) (omega arith)) (found _ first)
  | inr (last, nowhere) ↦
      rw ((==_iff (search_index (c ∷ []) xs) (length xs)).1 last) (missing nowhere)
])

module _ {b : Buffer} {xs : List ℕ} (h : Holds b xs) where
  writer-eq : b.writer_index ≡ b.reader_index + length xs
  writer-eq = omega (arith, readable-Holds h, readable-eq h.valid)

  -- On a well-formed buffer `findCRLF` returns a pointer to the first CR LF among the readable
  -- bytes, or `nullptr` where there is none.
  find_crlf-Searched : Searched crlf xs b.reader_index (find_crlf b)
  unfolding find_crlf peek
  find_crlf-Searched =
      rw (copy_from-ok b.buffer b.reader_index b.writer_index h.valid.order h.valid.within, h.bytes)
        (searched 13 (10 ∷ []) xs b.reader_index b.writer_index writer-eq)

  -- On a well-formed buffer `findEOL` returns a pointer to the first LF among the readable bytes, or
  -- `nullptr` where there is none.
  find_eol-Searched : Searched (10 ∷ []) xs b.reader_index (find_eol b)
  unfolding find_eol peek
  find_eol-Searched =
      rw
        (
          readable-eq h.valid,
          add_size-eq b.reader_index (b.writer_index - b.reader_index) (omega arith),
          whole,
          copy_from-ok b.buffer b.reader_index b.writer_index h.valid.order h.valid.within,
          h.bytes,
        )
        (Searched-byte 10 xs b.reader_index)
    where
      whole : b.reader_index + (b.writer_index - b.reader_index) ≡ b.writer_index
      whole = omega arith

  -- The two searches from `start` find the first line end behind it, and they fail an assertion
  -- where `start` does not point at the readable bytes or their end.
  rest_bytes :
      (start : ℕ)
      → b.reader_index ≤ start
      → start ≤ b.writer_index
      → slice b.buffer start (b.writer_index - start) ≡ drop (start - b.reader_index) xs
  rest_bytes start low high =
      let n = start - b.reader_index in
      let place : b.reader_index + n ≡ start = omega arith in
      let width : n + (b.writer_index - start) ≡ b.writer_index - b.reader_index = omega arith in
      ap (λ j. slice b.buffer j (b.writer_index - start)) (sym place)
      ∙ sym (drop-slice b.buffer b.reader_index n (b.writer_index - start))
      ∙ ap (λ k. drop n (slice b.buffer b.reader_index k)) width
      ∙ ap (drop n) h.bytes

  -- On a well-formed buffer, from a start among the readable bytes or at their end,
  -- `findCRLF(start)` returns a pointer to the first CR LF from there on, or `nullptr` where there
  -- is none.
  find_crlf_from-Searched :
      (start : ℕ)
      → b.reader_index ≤ start
      → start ≤ b.writer_index
      → Searched crlf (drop (start - b.reader_index) xs) start (find_crlf_from b start)
  unfolding find_crlf_from peek
  find_crlf_from-Searched start low high =
      rw
        (
          le→leb b.reader_index start low,
          le→leb start b.writer_index high,
          copy_from-ok b.buffer start b.writer_index high h.valid.within,
          rest_bytes start low high,
        )
        (searched 13 (10 ∷ []) (drop (start - b.reader_index) xs) start b.writer_index
          (omega (arith, writer-eq, length-drop (start - b.reader_index) xs)))

  find_eol_from-Searched :
      (start : ℕ)
      → b.reader_index ≤ start
      → start ≤ b.writer_index
      → Searched (10 ∷ []) (drop (start - b.reader_index) xs) start (find_eol_from b start)
  unfolding find_eol_from peek
  find_eol_from-Searched start low high =
      rw
        (
          le→leb b.reader_index start low,
          le→leb start b.writer_index high,
          copy_from-ok b.buffer start b.writer_index high h.valid.within,
          rest_bytes start low high,
        )
        (Searched-byte 10 (drop (start - b.reader_index) xs) start)

  -- On a well-formed buffer, with a start among the readable bytes or at their end: `findCRLF()` and
  -- `findEOL()` return a pointer to the first CR LF, or LF, among the readable bytes, `findCRLF(start)` and
  -- `findEOL(start)` to the first one from the start on, and each `nullptr` where there is none.
  pub find_crlf-find_eol :
      (start : ℕ)
      → b.reader_index ≤ start
      → start ≤ b.writer_index
      → Searched crlf xs b.reader_index (find_crlf b)
        × Searched (10 ∷ []) xs b.reader_index (find_eol b)
        × Searched crlf (drop (start - b.reader_index) xs) start (find_crlf_from b start)
        × Searched (10 ∷ []) (drop (start - b.reader_index) xs) start (find_eol_from b start)
  find_crlf-find_eol start low high = (
    find_crlf-Searched,
    find_eol-Searched,
    find_crlf_from-Searched start low high,
    find_eol_from-Searched start low high,
  )
