-- ===== src/Examples/Buffers.antt =====
-- The theorems on `Buffer` and its searches at small buffers.
use cppweb.Base.{
  sub_size-eq, ℕ, ◌+◌, ◌≤◌, ◌<◌, ◌≡◌, ◌⊎◌, refl, List, [], ◌∷◌, ◌++◌, arith, drop, Returns, fault,
  assertion, length_error, max_size, ◌>>=◌,
}
use cppweb.Buffer.{
  writeable_bytes, Buffer, append, prepend, cheap_prepend, read_fd, received, find_crlf, find_eol,
  find_crlf_from, crlf, read_int, append_int, areas, extra_size, find_eol_from,
}
use cppweb.Buffer.Valid.{Holds}
use cppweb.Buffer.Space.{CanCompact}
use cppweb.Buffer.Branches.{append_lem}
use cppweb.Buffer.Prepend.{prepend_lem}
use cppweb.Buffer.Integers.{read_int-append_int}
use cppweb.Buffer.Search.{Searched, find_crlf-find_eol}
use cppweb.Buffer.ReadFd.{read_fd-Holds, total}
use cppweb.Buffer.Refine.{
  Op, append_bytes, read_string, retrieve_bytes, read_all, count, step, step_queue, run,
  run_refines,
}

-- "Hi" and CR LF behind eight reserved bytes, with two free ones behind.
abbrev pub greeting : List ℕ
greeting = 72 ∷ 105 ∷ 13 ∷ 10 ∷ []

abbrev pub small : Buffer
small = record {
  buffer = 0 ∷ 0 ∷ 0 ∷ 0 ∷ 0 ∷ 0 ∷ 0 ∷ 0 ∷ 72 ∷ 105 ∷ 13 ∷ 10 ∷ 0 ∷ 0 ∷ [];
  reader_index = 8;
  writer_index = 12;
}

pub small-Holds : Holds small greeting
small-Holds = record {
  valid = record {
    low = omega arith;
    order = omega arith;
    within = omega arith;
    small = omega arith;
  };
  bytes = refl;
}

abbrev pub vacant : Buffer
vacant = record small { writer_index = 8 }

pub vacant-Holds : Holds vacant []
vacant-Holds = record {
  valid = record {
    low = omega arith;
    order = omega arith;
    within = omega arith;
    small = omega arith;
  };
  bytes = refl;
}

abbrev calls : List Op
calls = append_bytes (33 ∷ 33 ∷ 33 ∷ []) ∷ read_string 2 ∷ count ∷ retrieve_bytes 9 ∷ read_all ∷ []

run_refines_example : run step small calls ≡ run step_queue greeting calls
run_refines_example = run_refines calls small-Holds (omega arith)

append_lem_example :
    ((CanCompact small 3 ⊎ (15 ≤ max_size))
      × Returns (append small (1 ∷ 2 ∷ 3 ∷ [])) (λ b'. Holds b' (greeting ++ (1 ∷ 2 ∷ 3 ∷ []))))
    ⊎ (((¬ CanCompact small 3) × (max_size < 15))
        × (append small (1 ∷ 2 ∷ 3 ∷ []) ≡ fault length_error))
append_lem_example = append_lem (1 ∷ 2 ∷ 3 ∷ []) small-Holds (omega arith)

prepend_lem_example :
    ((cheap_prepend + 4 ≤ 8)
      × Returns
          (prepend small (0 ∷ 0 ∷ 0 ∷ 4 ∷ []))
          (λ b'. Holds b' ((0 ∷ 0 ∷ 0 ∷ 4 ∷ []) ++ greeting)))
    ⊎ ((8 < cheap_prepend + 4) × (prepend small (0 ∷ 0 ∷ 0 ∷ 4 ∷ []) ≡ fault assertion))
prepend_lem_example = prepend_lem (0 ∷ 0 ∷ 0 ∷ 4 ∷ []) small-Holds

read_int-append_int_example :
    Returns
      (append_int 4 vacant 305_419_896 >>= read_int 4)
      (λ p. (p.0 ≡ 305_419_896) × Holds p.1 [])
read_int-append_int_example =
    read_int-append_int 4 305_419_896 vacant-Holds (omega arith) (omega arith)

find_crlf-find_eol_example :
    Searched crlf greeting 8 (find_crlf small)
    × Searched (10 ∷ []) greeting 8 (find_eol small)
    × Searched crlf (drop 1 greeting) 9 (find_crlf_from small 9)
    × Searched (10 ∷ []) (drop 1 greeting) 9 (find_eol_from small 9)
find_crlf-find_eol_example = find_crlf-find_eol small-Holds 9 (omega arith) (omega arith)

abbrev three_more : List ℕ
three_more = 1 ∷ 2 ∷ 3 ∷ []

total-areas : total (areas small) ≡ 2 + extra_size
unfolding areas writeable_bytes
total-areas = rw (sub_size-eq 14 12 (omega arith) (omega arith)) refl

read_fd-Holds_example :
    Returns
      (read_fd (λ _. received three_more) small)
      (λ p. (p.0 ≡ received three_more) × Holds p.1 (greeting ++ three_more))
read_fd-Holds_example =
    read_fd-Holds (λ _. received three_more) three_more small-Holds refl
      (omega (arith, total-areas)) (omega arith)
