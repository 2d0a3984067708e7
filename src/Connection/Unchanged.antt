-- ===== src/Connection/Unchanged.antt =====
-- The operations of a connection that keep its state and do not run the close callback.

use cppweb.Base.Outcome.{After, After-bind, After-assert, After-if, After-map, After-use}
use cppweb.Base.{
  inl, inr, ltb, sub_size, add_size, drop, take, length, ◌&&◌, not, ℕ, refl, Bool, List, [], ◌∷◌,
  arith, ok, if◌then◌else◌, ◌==◌, Bool-cases,
}
use cppweb.Buffer.{failed, received, readable_bytes, peek, append, retrieve, Received, read_fd}
use cppweb.Channel.{is_writing}
use cppweb.Interest.{enable_write}
use cppweb.Connection.{
  queue_in_loop, write_complete_task, disconnecting, record_effect, is, disconnected, Connection,
  written, shut_down, message_call, Written, accepted, refused, on_channel, after_write,
  watch_output, keep_output, shutdown_in_loop, handle_close, write_now, send_rest, send_in_loop,
  output_done, after_drain, handle_write, handle_read, disable_write, copy_from, handle_error,
}
use cppweb.Connection.Lifecycle.{
  Forward, Still, Still-Forward, on_channel-Still, closes-append, entered-Still, Still-trans,
  Still-if, handle_close-Forward,
}

pub shutdown_in_loop-Still : (tid : ℕ) (c : Connection) → After (shutdown_in_loop tid c) (Still c)
unfolding shutdown_in_loop
shutdown_in_loop-Still tid c = After-assert _ (c.channel.loop_tid == tid) _ (λ _.
    Still-if (not (is c.state disconnected) && not (is_writing c.channel)) (record_effect shut_down)
      c (entered-Still shut_down c refl))

watch_output-Still : (n : ℕ) (c : Connection) → Still c (watch_output n c)
unfolding watch_output
watch_output-Still n c = ground arith

keep_output-Still :
    (tid : ℕ) (rest : List ℕ) (c : Connection) → After (keep_output tid rest c) (Still c)
unfolding keep_output
keep_output-Still tid rest c =
    let d : Connection = watch_output (length rest) c in
    let w = watch_output-Still (length rest) c in
    After-bind _ (append d.output rest) _ (λ o _.
      After-map _ _ (on_channel (enable_write tid) (record d { output = o }))
        (λ c' s.
          Still-trans w
            (record { state = s.state; callback = s.callback; closes_same = s.closes_same }))
        (on_channel-Still (enable_write tid) (record d { output = o })))

after_write-Still :
    (bytes : List ℕ) (r : Written) (c : Connection) → Still c ((after_write bytes r c).2)
unfolding after_write
after_write-Still bytes (refused errno) c = record {
  state = refl;
  callback = refl;
  closes_same = refl;
}
after_write-Still bytes (accepted n) c =
    ground (arith, closes-append c.log (written (take n bytes)))

write_now-Still :
    (write : List ℕ → Written) (bytes : List ℕ) (c : Connection)
    → After (write_now write bytes c) (λ p. Still c p.2)
unfolding write_now
write_now-Still write bytes c = elim (Bool-cases (is_writing c.channel)) [
  | inl busy ↦ rw busy (record { state = refl; callback = refl; closes_same = refl })
  | inr idle ↦ rw idle (
      After-assert _ (readable_bytes c.output == 0) _
        (λ _. after_write-Still bytes (write bytes) c))
]

send_rest-Still :
    (tid : ℕ) (bytes : List ℕ) (p : ℕ × Bool × Connection)
    → After (send_rest tid bytes p) (Still p.2)
unfolding send_rest
send_rest-Still tid bytes p =
    After-if (not p.1 && ltb 0 (sub_size (length bytes) p.0)) _ _ _
      (keep_output-Still tid (drop p.0 bytes) p.2)
      (record { state = refl; callback = refl; closes_same = refl })

pub send_in_loop-Still :
    (write : List ℕ → Written) (tid : ℕ) (bytes : List ℕ) (c : Connection)
    → After (send_in_loop write tid bytes c) (Still c)
unfolding send_in_loop
send_in_loop-Still write tid bytes c = After-assert _ (c.channel.loop_tid == tid) _ (λ _.
    After-if (is c.state disconnected) _ _ _
      (record { state = refl; callback = refl; closes_same = refl })
      (After-bind _ (write_now write bytes c) _ (λ p e.
        After-map _ _ (send_rest tid bytes p)
          (λ c'. Still-trans (After-use (λ p. Still c p.2) _ p e (write_now-Still write bytes c)))
          (send_rest-Still tid bytes p))))

output_done-Still : (tid : ℕ) (c : Connection) → After (output_done tid c) (Still c)
unfolding output_done
output_done-Still tid c = After-bind _ (on_channel (disable_write tid) c) _ (λ c1 e.
    let s1 = After-use (Still c) _ c1 e (on_channel-Still (disable_write tid) c) in
    After-bind _ (if is c1.state disconnecting then shutdown_in_loop tid c1 else ok c1) _ (λ c2 e2.
      let s2 = After-use (Still c1) _ c2 e2 (
        After-if (is c1.state disconnecting) (Still c1) _ _ (shutdown_in_loop-Still tid c1)
          (record { state = refl; callback = refl; closes_same = refl })) in
      Still-trans s1 (
        Still-trans s2 (
          Still-if c2.has_write_complete (queue_in_loop write_complete_task) c2
            (record { state = refl; callback = refl; closes_same = refl })))))

after_drain-Still :
    (tid : ℕ) (bytes : List ℕ) (r : Written) (c : Connection)
    → After (after_drain tid bytes r c) (Still c)
unfolding after_drain
after_drain-Still tid bytes (refused errno) c = record {
  state = refl;
  callback = refl;
  closes_same = refl;
}
after_drain-Still tid bytes (accepted n) c = After-bind _ (retrieve c.output n) _ (λ o e.
    let e = written (take n bytes) in
    let c1 : Connection = record_effect e (record c { output = o }) in
    let s1 : Still c c1 = record {
      state = refl;
      callback = refl;
      closes_same = omega (arith, closes-append c.log e);
    } in
    After-if (readable_bytes o == 0) _ _ _
      (After-map _ _ (output_done tid c1) (λ c'. Still-trans s1) (output_done-Still tid c1)) s1)

pub handle_write-Still :
    (write : List ℕ → Written) (tid : ℕ) (c : Connection)
    → After (handle_write write tid c) (Still c)
unfolding handle_write
handle_write-Still write tid c =
    After-if (is c.state disconnected) _ _ _
      (record { state = refl; callback = refl; closes_same = refl })
      (After-assert _ (ltb 0 (readable_bytes c.output)) _ (λ _.
        After-assert _ (is_writing c.channel) _ (λ _.
          After-bind _
            (copy_from c.output.buffer (peek c.output)
              (add_size (peek c.output) (readable_bytes c.output)))
            _ (λ bytes _. after_drain-Still tid bytes (write bytes) c))))

pub handle_read-Forward :
    (readv : List ℕ → Received) (tid : ℕ) (c : Connection)
    → After (handle_read readv tid c) (Forward c)
unfolding handle_read handle_error
handle_read-Forward readv tid c = After-assert _ (c.channel.loop_tid == tid) _ (λ _.
    After-assert _ (not (is c.state disconnected)) _ (λ _.
      After-bind _ (read_fd readv c.input) _ (λ p _.
        After-map (Forward (record c { input = p.1 })) (Forward c) _
          (λ d f. record {
            rises = f.rises;
            callback = f.callback;
            counted = f.counted;
            closed_once = f.closed_once;
          })
          (taken_in p.0 (record c { input = p.1 })))))
  where
    taken_in :
        (r : Received) (c' : Connection)
        → After
            (elim r [
              | failed errno ↦ ok (handle_error c')
              | received [] ↦ handle_close tid c'
              | received (_ ∷ _) ↦ ok (if c'.has_message then record_effect message_call c' else c')
            ])
            (Forward c')
    taken_in (failed errno) c' =
        Still-Forward (record { state = refl; callback = refl; closes_same = refl })
    taken_in (received []) c' = handle_close-Forward tid c'
    taken_in (received (_ ∷ _)) c' = Still-Forward (
        Still-if c'.has_message (record_effect message_call) c'
          (entered-Still message_call c' refl))
