-- ===== src/Buffer/Refine.antt =====
-- A client of `Buffer` cannot tell it from a queue of bytes, whatever calls it makes in a row.
use cppweb.Base.{
  Fault, sym, ℕ, ◌+◌, ◌≤◌, ◌≡◌, inr, refl, ap, ◌∙◌, List, [], ◌∷◌, ◌++◌, arith, length, take, drop,
  if◌then◌else◌, leb, Result, ok, fault, assertion, ◌>>=◌, max_size, Bool-cases, leb→le, leb→gt,
  inl,
}
use cppweb.Buffer.{
  Buffer, append, retrieve, retrieve_as_string, retrieve_all_as_string, retrieve_all,
  readable_bytes,
}
use cppweb.Buffer.Valid.{Holds, readable-Holds}
use cppweb.Buffer.Content.{append_bounded}
use cppweb.Buffer.Retrieve.{
  retrieve-Holds, retrieve-writer, retrieve_fault, retrieve_as_string_bounded,
  retrieve_all_as_string_bounded, retrieve_all-Holds, retrieve_all-writer,
}

pub data Op : Type 0 where
  append_bytes : List ℕ → Op
  retrieve_bytes : ℕ → Op
  read_string : ℕ → Op
  read_all : Op
  drop_all : Op
  count : Op

-- What the caller learns.
pub data Reply : Type 0 where
  done : Reply
  text : List ℕ → Reply
  number : ℕ → Reply

-- One call on a buffer.
unfoldable pub step : Buffer → Op → Result (Reply × Buffer)
step b (append_bytes ys) = do b' ← append b ys; ok (done, b')
step b (retrieve_bytes n) = do b' ← retrieve b n; ok (done, b')
step b (read_string n) = do p ← retrieve_as_string b n; ok (text p.0, p.1)
step b read_all = do p ← retrieve_all_as_string b; ok (text p.0, p.1)
step b drop_all = ok (done, retrieve_all b)
step b count = ok (number (readable_bytes b), b)

-- The same call on a queue.
unfoldable pub step_queue : List ℕ → Op → Result (Reply × List ℕ)
step_queue xs (append_bytes ys) = ok (done, xs ++ ys)
step_queue xs (retrieve_bytes n) =
    if leb n (length xs) then ok (done, drop n xs) else fault assertion
step_queue xs (read_string n) =
    if leb n (length xs) then ok (text (take n xs), drop n xs) else fault assertion
step_queue xs read_all = ok (text xs, [])
step_queue xs drop_all = ok (done, [])
step_queue xs count = ok (number (length xs), xs)

-- The calls in order, with what each returns; a fault ends the run.
module _ {S : Type 0} (call : S → Op → Result (Reply × S)) where
  unfoldable pub run : S → List Op → List (Result Reply)
  run s [] = []
  run s (o ∷ os) = elim (call s o) [ ok p ↦ ok p.0 ∷ run p.1 os | fault e ↦ fault e ∷ [] ]

module _ {S : Type 0} (call : S → Op → Result (Reply × S)) where
  run-ok :
      {s t : S} {r : Reply} {o : Op} (os : List Op)
      → call s o ≡ ok (r, t)
      → run call s (o ∷ os) ≡ ok r ∷ run call t os
  unfolding run
  run-ok os e = rw (e, run)

  run-fault :
      {s : S} {f : Fault} {o : Op} (os : List Op)
      → call s o ≡ fault f
      → run call s (o ∷ os) ≡ fault f ∷ []
  unfolding run
  run-fault os e = rw (e, run)

-- The bytes that a call appends.
abbrev pub added : Op → ℕ
added (append_bytes ys) = length ys
added (retrieve_bytes n) = 0
added (read_string n) = 0
added read_all = 0
added drop_all = 0
added count = 0

abbrev pub appended : List Op → ℕ
appended [] = 0
appended (o ∷ os) = added o + appended os

-- The two calls return the same and keep the correspondence, or they fail alike.
data Agree (o : Op) (b : Buffer) (xs : List ℕ) : Type 0 where
  both_ok :
      (r : Reply) (b' : Buffer) (xs' : List ℕ)
      → step b o ≡ ok (r, b')
      → step_queue xs o ≡ ok (r, xs')
      → Holds b' xs'
      → b'.writer_index ≤ b.writer_index + added o
      → Agree o b xs
  both_fault : (f : Fault) → step b o ≡ fault f → step_queue xs o ≡ fault f → Agree o b xs

step_refines :
    (o : Op) {b : Buffer} {xs : List ℕ}
    → Holds b xs
    → b.writer_index + added o ≤ max_size
    → Agree o b xs
unfolding step step_queue
step_refines (append_bytes ys) {b} {xs} h space =
    let (b', e, held) = append_bounded ys h (inr space) in
    both_ok done b' (xs ++ ys) (rw e refl) refl held.0 held.1
step_refines (retrieve_bytes n) {b} {xs} h space = elim (Bool-cases (leb n (length xs))) [
  | inl few ↦
      let (b', e, held) = retrieve-Holds n h (leb→le _ _ few) in
      both_ok done b' (drop n xs) (rw e refl) (rw few refl) held
        (omega (arith, retrieve-writer n h.valid e))
  | inr many ↦
      both_fault assertion (rw ((retrieve_fault n h (leb→gt _ _ many)).0) refl) (rw many refl)
]
step_refines (read_string n) {b} {xs} h space = elim (Bool-cases (leb n (length xs))) [
  | inl few ↦
      let (p, e, got) = retrieve_as_string_bounded n h (leb→le _ _ few) in
      both_ok (text p.0) p.1 (drop n xs) (rw e refl) (rw (few, got.0) refl) got.1
        (omega (arith, got.2))
  | inr many ↦
      both_fault assertion (rw ((retrieve_fault n h (leb→gt _ _ many)).1) refl) (rw many refl)
]
step_refines read_all {b} {xs} h space =
    let (p, e, got) = retrieve_all_as_string_bounded h in
    both_ok (text p.0) p.1 [] (rw e refl) (rw got.0 refl) got.1 (omega (arith, got.2))
step_refines drop_all {b} {xs} h space =
    both_ok done (retrieve_all b) [] refl refl (retrieve_all-Holds h.valid)
      (omega (arith, retrieve_all-writer h.valid))
step_refines count {b} {xs} h space =
    both_ok (number (length xs)) b xs (rw (readable-Holds h) refl) refl h (omega arith)

-- While the write index and all bytes to append stay within `max_size` together, no sequence of
-- calls tells a well-formed buffer from the queue of the bytes that it holds: the replies are the
-- same, and so is the first failed assertion.
pub run_refines :
    (os : List Op) {b : Buffer} {xs : List ℕ}
    → Holds b xs
    → b.writer_index + appended os ≤ max_size
    → run step b os ≡ run step_queue xs os
unfolding run
run_refines [] h space = refl
run_refines (o ∷ os) {b} {xs} h space = elim (step_refines o h (omega arith)) [
  | both_ok r b' xs' e e' held bound ↦
      run-ok step os e
      ∙ ap (◌∷◌ (ok r)) (run_refines os held (omega arith))
      ∙ sym (run-ok step_queue os e')
  | both_fault f e e' ↦ run-fault step os e ∙ sym (run-fault step_queue os e')
]
