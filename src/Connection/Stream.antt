-- ===== src/Connection/Stream.antt =====
-- The byte stream of a connection: what the kernel took, followed by what waits in the output
-- buffer, is what was sent, in order.

use cppweb.Base.{
  ℕ, ◌+◌, ◌≤◌, ◌≡◌, ◌≢◌, inr, refl, sym, ap, ◌∙◌, true, List, [], ◌∷◌, ◌++◌, append_assoc,
  append-nil, arith, length, Returns, max_size,
}
use cppweb.Buffer.Valid.{Holds}
use cppweb.Buffer.Content.{append-Holds}
use cppweb.Channel.{is_writing}
use cppweb.Interest.Returns.{enable_write-Returns}
use cppweb.Connection.{
  Connection, Effect, written, shut_down, message_call, close_call, controlled, Written, accepted,
  watch_output, keep_output,
}

-- the bytes that the kernel took, in order
abbrev pub taken : List Effect → List ℕ
taken [] = []
taken (written bytes ∷ log) = bytes ++ taken log
taken (shut_down ∷ log) = taken log
taken (message_call ∷ log) = taken log
taken (close_call ∷ log) = taken log
taken (controlled k ∷ log) = taken log

pub taken-append :
    (log : List Effect) (e : Effect) → taken (log ++ (e ∷ [])) ≡ taken log ++ taken (e ∷ [])
taken-append [] e = refl
taken-append (written bytes ∷ log) e =
    ap (λ zs. bytes ++ zs) (taken-append log e)
    ∙ sym (append_assoc bytes (taken log) (taken (e ∷ [])))
taken-append (shut_down ∷ log) e = taken-append log e
taken-append (message_call ∷ log) e = taken-append log e
taken-append (close_call ∷ log) e = taken-append log e
taken-append (controlled k ∷ log) e = taken-append log e

-- The output buffer holds `xs`, and the channel waits to write where that is not empty.
pub record Waiting (c : Connection) (xs : List ℕ) : Type 0 where
  pub output : Holds c.output xs
  pub watched : xs ≢ [] → is_writing c.channel ≡ true

-- `write(2)` takes at most the bytes that it is given.
abbrev pub IsWrite : (List ℕ → Written) → Type 0
IsWrite write = (bytes : List ℕ) (n : ℕ) → write bytes ≡ accepted n → n ≤ length bytes

-- `c'` differs from `c` in what no step of the stream reads, and in tasks.
pub record SameStream (c c' : Connection) : Type 0 where
  pub channel : c'.channel ≡ c.channel
  pub output : c'.output ≡ c.output
  pub state : c'.state ≡ c.state
  pub log : c'.log ≡ c.log

watch_output-SameStream : (n : ℕ) (c : Connection) → SameStream c (watch_output n c)
unfolding watch_output
watch_output-SameStream n c = ground arith

-- What could not be written waits behind the output, and the channel waits to write.
pub keep_output-Waiting :
    {c : Connection} {xs : List ℕ} (rest : List ℕ)
    → Waiting c xs
    → c.output.writer_index + length rest ≤ max_size
    → Returns (keep_output c.channel.loop_tid rest c) (λ c'.
      Waiting c' (xs ++ rest)
      × (is_writing c'.channel ≡ true)
      × (taken c'.log ≡ taken c.log)
      × (c'.state ≡ c.state)
      × (c'.channel.loop_tid ≡ c.channel.loop_tid))
unfolding keep_output
keep_output-Waiting {c} {xs} rest w room =
    let d : Connection = watch_output (length rest) c in
    let same = watch_output-SameStream (length rest) c in
    let (o, appended, held) = append-Holds rest w.output (inr room) in
    let (p, enabled, flags) = enable_write-Returns c.channel in
    (
      record d { output = o; channel = p.0; log = d.log ++ (controlled p.1 ∷ []) },
      rw (same.output, appended, same.channel, enabled) refl,
      (
        record { output = held; watched = λ _. flags.writes },
        flags.writes,
        taken-append d.log (controlled p.1) ∙ append-nil (taken d.log) ∙ ap taken same.log,
        same.state,
        flags.loop_tid,
      ),
    )
