-- ===== src/Connection/Drain.antt =====
-- `handleWrite`: the output goes to the kernel in order. Since `disableWrite` clears nothing, the
-- channel goes on waiting to write when the output is empty.

use cppweb.Base.{
  if◌then◌else◌, ge→ltb, ℕ, ◌+◌, ◌<◌, ◌≡◌, ◌≢◌, refl, ap, ◌∙◌, Bool, true, false, List, [], ◌∷◌,
  ◌++◌, append-nil, arith, length, Returns, ok, fault, assertion, add_size-eq, lt→ltb, suc,
}
use cppweb.Bytes.Slices.{copy_from-ok}
use cppweb.Buffer.{peek}
use cppweb.Buffer.Valid.{readable-Holds, readable-eq}
use cppweb.Channel.{is_writing}
use cppweb.Interest.Returns.{disable_write-Returns}
use cppweb.Connection.{
  Connection, disconnecting, disconnected, is, Effect, written, shut_down, message_call, close_call,
  controlled, Written, queue_in_loop, write_complete_task, shutdown_in_loop, output_done,
  handle_write, after_drain,
}
use cppweb.Connection.Stream.{taken, taken-append, Waiting}

-- the calls of `shutdown(2)`
abbrev pub shutdowns : List Effect → ℕ
shutdowns [] = 0
shutdowns (written bytes ∷ log) = shutdowns log
shutdowns (shut_down ∷ log) = suc (shutdowns log)
shutdowns (message_call ∷ log) = shutdowns log
shutdowns (close_call ∷ log) = shutdowns log
shutdowns (controlled k ∷ log) = shutdowns log

pub shutdowns-append :
    (log : List Effect) (e : Effect)
    → shutdowns (log ++ (e ∷ [])) ≡ shutdowns log + shutdowns (e ∷ [])
shutdowns-append [] e = omega arith
shutdowns-append (written bytes ∷ log) e = shutdowns-append log e
shutdowns-append (shut_down ∷ log) e = omega (arith, shutdowns-append log e)
shutdowns-append (message_call ∷ log) e = shutdowns-append log e
shutdowns-append (close_call ∷ log) e = shutdowns-append log e
shutdowns-append (controlled k ∷ log) e = shutdowns-append log e

-- What the end of the output leaves: the channel waits to write as before, and no `shutdown(2)` was
-- made.
pub record Drained (c c' : Connection) : Type 0 where
  pub output : c'.output ≡ c.output
  pub writing : is_writing c'.channel ≡ true
  pub loop_tid : c'.channel.loop_tid ≡ c.channel.loop_tid
  pub state : c'.state ≡ c.state
  pub stream : taken c'.log ≡ taken c.log
  pub no_shutdown : shutdowns c'.log ≡ shutdowns c.log

shutdown-busy :
    (wanted : Bool) (tid : ℕ) (c : Connection)
    → c.channel.loop_tid ≡ tid
    → is_writing c.channel ≡ true
    → (if wanted then shutdown_in_loop tid c else ok c) ≡ ok c
unfolding shutdown_in_loop
shutdown-busy true tid c here busy = ground arith
shutdown-busy false tid c here busy = refl

queue-Drained :
    (wanted : Bool) (c d : Connection)
    → Drained c d
    → Drained c (if wanted then queue_in_loop write_complete_task d else d)
queue-Drained true c d h = record {
  output = h.output;
  writing = h.writing;
  loop_tid = h.loop_tid;
  state = h.state;
  stream = h.stream;
  no_shutdown = h.no_shutdown;
}
queue-Drained false c d h = h

pub output_done-Drained :
    (c : Connection)
    → is_writing c.channel ≡ true
    → Returns (output_done c.channel.loop_tid c) (Drained c)
unfolding output_done
output_done-Drained c busy =
    let (p, e, f) = disable_write-Returns c.channel in
    let c1 : Connection = record c { channel = p.0; log = c.log ++ (controlled p.1 ∷ []) } in
    let writing : is_writing c1.channel ≡ true = f.writes ∙ busy in
    (
      (if c.has_write_complete then queue_in_loop write_complete_task c1 else c1),
      rw (e, shutdown-busy (is c.state disconnecting) c.channel.loop_tid c1 f.loop_tid writing)
          refl,
      queue-Drained c.has_write_complete c c1 (record {
        output = refl;
        writing = writing;
        loop_tid = f.loop_tid;
        state = refl;
        stream = taken-append c.log (controlled p.1) ∙ append-nil (taken c.log);
        no_shutdown = omega (arith, shutdowns-append c.log (controlled p.1));
      }),
    )

nonempty : (xs : List ℕ) → xs ≢ [] → 0 < length xs
nonempty [] h = absurd (h refl)
nonempty (x ∷ xs) h = omega arith

module _ (write : List ℕ → Written) {c : Connection} {xs : List ℕ} (w : Waiting c xs) where
  -- The part of `handleWrite` up to its `write`.
  pub handle_write-step :
      is c.state disconnected ≡ false
      → xs ≢ []
      → handle_write write c.channel.loop_tid c ≡ after_drain c.channel.loop_tid xs (write xs) c
  unfolding handle_write peek
  handle_write-step live some_left =
      let h = w.output in
      let n = length xs in
      let pos : 0 < n = nonempty xs some_left in
      let end : c.output.reader_index + n ≡ c.output.writer_index =
        omega (arith, readable-Holds h, readable-eq h.valid) in
      rw
        (
          live,
          readable-Holds h,
          lt→ltb 0 n pos,
          w.watched some_left,
          add_size-eq c.output.reader_index n (omega (arith, end)),
          end,
          copy_from-ok c.output.buffer c.output.reader_index c.output.writer_index h.valid.order
              h.valid.within,
          h.bytes,
        )
        refl

  -- Without output `handleWrite` fails its assertion.
  pub handle_write_fault :
      (tid : ℕ)
      → is c.state disconnected ≡ false
      → xs ≡ []
      → handle_write write tid c ≡ fault assertion
  unfolding handle_write
  handle_write_fault tid live none_left =
      rw (live, readable-Holds w.output, ge→ltb 0 (length xs) (omega (arith, ap length none_left)))
        refl
