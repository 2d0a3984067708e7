-- ===== src/Buffer.antt =====
-- cppweb/Buffer.hpp and cppweb/Buffer.cpp: the byte buffer of a connection. `m_buffer` is the list
-- of all bytes of the storage, and the two indices are `size_t` values. A pointer into the storage
-- is the index that it points at. An `assert` that fails, a `resize` beyond `max_size()` and a copy
-- outside the storage end in a fault.
pub mod Branches
pub mod Valid
pub mod Space
pub mod Refine
pub mod Search
pub mod ReadFd
pub mod Integers
pub mod Prepend
pub mod Content
pub mod Retrieve
use cppweb.Base.{
  ℕ, ◌+◌, Option, none, some, List, [], ◌∷◌, length, take, drop, replicate, ltb, leb, ◌==◌,
  if◌then◌else◌, Result, ok, ◌>>=◌, ◌>>◌, check, assert, length_error, add_size, sub_size, max_size,
}
use cppweb.Bytes.{copy_from, copy_to, resize, object_bytes, object_value, search_index, memchr}
use mathlib.Core.List.{reverse}

-- `kCheapPrepend`
abbrev pub cheap_prepend : ℕ
cheap_prepend = 8

-- `kInitialSize`
abbrev pub initial_size : ℕ
initial_size = 1024

-- `kCRLF`
abbrev pub crlf : List ℕ
crlf = 13 ∷ 10 ∷ []

pub record Buffer : Type 0 where
  pub buffer : List ℕ
  pub reader_index : ℕ
  pub writer_index : ℕ

unfoldable pub readable_bytes : Buffer → ℕ
readable_bytes b = sub_size b.writer_index b.reader_index

unfoldable pub writeable_bytes : Buffer → ℕ
writeable_bytes b = sub_size (length b.buffer) b.writer_index

unfoldable pub prependable_bytes : Buffer → ℕ
prependable_bytes b = b.reader_index

-- `explicit Buffer(size_t initialSize)`
unfoldable pub make : ℕ → Result Buffer
make initial = do
  let n = add_size cheap_prepend initial
  check (leb n max_size) length_error
  let b : Buffer = record {
    buffer = replicate n 0;
    reader_index = cheap_prepend;
    writer_index = cheap_prepend;
  }
  assert (readable_bytes b == 0)
  assert (writeable_bytes b == initial)
  assert (prependable_bytes b == cheap_prepend)
  ok b

-- `peek`: where the readable bytes begin
unfoldable pub peek : Buffer → ℕ
peek b = b.reader_index

unfoldable pub retrieve_all : Buffer → Buffer
retrieve_all b = record b { reader_index = cheap_prepend; writer_index = cheap_prepend }

unfoldable pub retrieve : Buffer → ℕ → Result Buffer
retrieve b n =
    assert (leb n (readable_bytes b))
    >> ok (
        if ltb n (readable_bytes b)
        then record b { reader_index = add_size b.reader_index n }
        else retrieve_all b)

unfoldable pub retrieve_as_string : Buffer → ℕ → Result (List ℕ × Buffer)
retrieve_as_string b n = do
  assert (leb n (readable_bytes b))
  result ← copy_from b.buffer (peek b) (add_size (peek b) n)
  b' ← retrieve b n
  ok (result, b')

unfoldable pub retrieve_all_as_string : Buffer → Result (List ℕ × Buffer)
retrieve_all_as_string b = retrieve_as_string b (readable_bytes b)

unfoldable pub has_written : Buffer → ℕ → Result Buffer
has_written b n =
    assert (leb n (writeable_bytes b)) >> ok (record b { writer_index = add_size b.writer_index n })

-- The storage grows, or the readable bytes move to its front.
unfoldable pub make_space : Buffer → ℕ → Result Buffer
make_space b n =
    if ltb (sub_size (add_size (writeable_bytes b) (prependable_bytes b)) cheap_prepend) n
    then (do
      storage ← resize b.buffer (add_size b.writer_index n)
      ok (record b { buffer = storage }))
    else (do
      assert (ltb cheap_prepend b.reader_index)
      let readable = readable_bytes b
      bytes ← copy_from b.buffer b.reader_index b.writer_index
      storage ← copy_to b.buffer cheap_prepend bytes
      ok (record b {
        buffer = storage;
        reader_index = cheap_prepend;
        writer_index = add_size cheap_prepend readable;
      }))

unfoldable pub ensure_writeable_bytes : Buffer → ℕ → Result Buffer
ensure_writeable_bytes b n = do
  b' ← (if ltb (writeable_bytes b) n then make_space b n else ok b)
  assert (leb n (writeable_bytes b'))
  ok b'

unfoldable pub append : Buffer → List ℕ → Result Buffer
append b bytes = do
  b' ← ensure_writeable_bytes b (length bytes)
  storage ← copy_to b'.buffer b'.writer_index bytes
  has_written (record b' { buffer = storage }) (length bytes)

unfoldable pub prepend : Buffer → List ℕ → Result Buffer
prepend b bytes = do
  assert (leb (length bytes) (sub_size (prependable_bytes b) cheap_prepend))
  let start = sub_size b.reader_index (length bytes)
  storage ← copy_to b.buffer start bytes
  ok (record b { buffer = storage; reader_index = start })

-- `htobe16/32/64` and `be16/32/64toh` on a little-endian host, for an integer of `w` bytes, which
-- stands as the number of its bit pattern.
unfoldable pub swap_bytes : ℕ → ℕ → ℕ
swap_bytes w x = object_value (reverse (object_bytes w x))

-- `appendInt64/32/16`: `w` is 8, 4 or 2.
unfoldable pub append_int : ℕ → Buffer → ℕ → Result Buffer
append_int w b x = append b (object_bytes w (swap_bytes w x))

unfoldable pub append_int8 : Buffer → ℕ → Result Buffer
append_int8 b x = append b (object_bytes 1 x)

-- `peekInt64/32/16`
unfoldable pub peek_int : ℕ → Buffer → Result ℕ
peek_int w b = do
  assert (leb w (readable_bytes b))
  bytes ← copy_from b.buffer (peek b) (add_size (peek b) w)
  ok (swap_bytes w (object_value bytes))

unfoldable pub peek_int8 : Buffer → Result ℕ
peek_int8 b = do
  assert (leb 1 (readable_bytes b))
  bytes ← copy_from b.buffer (peek b) (add_size (peek b) 1)
  ok (object_value bytes)

-- `readInt64/32/16`, with `retrieveInt64/32/16`
unfoldable pub read_int : ℕ → Buffer → Result (ℕ × Buffer)
read_int w b = do result ← peek_int w b; b' ← retrieve b w; ok (result, b')

unfoldable pub read_int8 : Buffer → Result (ℕ × Buffer)
read_int8 b = do result ← peek_int8 b; b' ← retrieve b 1; ok (result, b')

-- `prependInt64/32/16`
unfoldable pub prepend_int : ℕ → Buffer → ℕ → Result Buffer
prepend_int w b x = prepend b (object_bytes w (swap_bytes w x))

unfoldable pub prepend_int8 : Buffer → ℕ → Result Buffer
prepend_int8 b x = prepend b (object_bytes 1 x)

-- `findCRLF(start)`; `none` is `nullptr`. `findCRLF()` starts at `peek()`.
unfoldable pub find_crlf_from : Buffer → ℕ → Result (Option ℕ)
find_crlf_from b start = do
  assert (leb (peek b) start)
  assert (leb start b.writer_index)
  bytes ← copy_from b.buffer start b.writer_index
  let found = start + search_index crlf bytes
  ok (if found == b.writer_index then none else some found)

unfoldable pub find_crlf : Buffer → Result (Option ℕ)
find_crlf b = do
  bytes ← copy_from b.buffer (peek b) b.writer_index
  let found = peek b + search_index crlf bytes
  ok (if found == b.writer_index then none else some found)

-- `findEOL(start)`
unfoldable pub find_eol_from : Buffer → ℕ → Result (Option ℕ)
find_eol_from b start = do
  assert (leb (peek b) start)
  assert (leb start b.writer_index)
  bytes ← copy_from b.buffer start b.writer_index
  ok (elim (memchr 10 bytes) [ none ↦ none | some i ↦ some (start + i) ])

unfoldable pub find_eol : Buffer → Result (Option ℕ)
find_eol b = do
  bytes ← copy_from b.buffer (peek b) (add_size (peek b) (readable_bytes b))
  ok (elim (memchr 10 bytes) [ none ↦ none | some i ↦ some (peek b + i) ])

-- What a read by the kernel comes to: an `errno`, or the bytes that it delivered.
pub data Received : Type 0 where
  failed : ℕ → Received
  received : List ℕ → Received

-- the size of `extrabuf`
abbrev pub extra_size : ℕ
extra_size = 65536

-- The lengths of the areas that `readFd` hands to `readv`.
unfoldable pub areas : Buffer → List ℕ
areas b =
    let writeable = writeable_bytes b in
    if ltb writeable extra_size then writeable ∷ extra_size ∷ [] else writeable ∷ []

-- What `readFd` does with the bytes that `readv` delivered: they fill the writeable part of the
-- storage first, and what is left stands in `extrabuf`.
unfoldable pub take_in : Buffer → List ℕ → Result Buffer
take_in b bytes = do
  let writeable = writeable_bytes b
  storage ← copy_to b.buffer b.writer_index (take writeable bytes)
  let filled : Buffer = record b { buffer = storage }
  if leb (length bytes) writeable
      then ok (record filled { writer_index = add_size b.writer_index (length bytes) })
      else append (record filled { writer_index = length storage }) (drop writeable bytes)

-- `readFd`: `readv` is the kernel's call, given the lengths of the areas. The result beside the
-- buffer is what the caller learns, the number of bytes or the `errno`.
unfoldable pub read_fd : (List ℕ → Received) → Buffer → Result (Received × Buffer)
read_fd readv b = elim (readv (areas b)) [
  | failed errno ↦ ok (failed errno, b)
  | received bytes ↦ do b' ← take_in b bytes; ok (received bytes, b')
]
