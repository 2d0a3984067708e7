-- ===== src/Connection/Calls.antt =====
-- The states of a connection over any sequence of calls and tasks, by any threads.

use cppweb.Base.{
  leb→le, ◌>>=◌, ℕ, ◌≤◌, ◌≡◌, inl, inr, refl, false, List, [], ◌∷◌, arith, Result, ok, leb, ◌==◌,
  Bool-cases,
}
use cppweb.Buffer.{Received}
use cppweb.Channel.{is_reading, tie}
use cppweb.Interest.{enable_read, disable_read}
use cppweb.Connection.{
  State, connecting, connected, disconnecting, disconnected, rank, is, Connection, Task, Written,
  on_channel, queue_in_loop, run_in_loop, connect_established, send_in_loop, send, send_task,
  shutdown_task, stop_read_task, start_read_task, shutdown_in_loop, shutdown, handle_close,
  force_close_in_loop, force_close_exchange, force_close, stop_read_in_loop, start_read_in_loop,
  stop_read, start_read, handle_read, handle_write,
}
use cppweb.Connection.Lifecycle.{
  Forward, Still, Still-Forward, Forward-trans, on_channel-Still, handle_close-Forward,
}
use cppweb.Connection.Unchanged.{
  shutdown_in_loop-Still, send_in_loop-Still, handle_write-Still, handle_read-Forward,
}
use cppweb.Base.Outcome.{After, After-bind, After-assert, After-if, After-map, After-use}

-- A call of the user, a task of the loop (`_now`), or a handler of the channel.
pub data Call : Type 0 where
  establish shut shut_now force force_now stop stop_now start start_now hang_up : Call
  send_bytes send_now : (List ℕ → Written) → List ℕ → Call
  receive : (List ℕ → Received) → Call
  flush : (List ℕ → Written) → Call

-- The call, made by the thread `tid`.
unfoldable pub invoke : ℕ → Call → Connection → Result Connection
invoke tid establish c = connect_established tid c
invoke tid shut c = shutdown tid c
invoke tid shut_now c = shutdown_in_loop tid c
invoke tid force c = ok (force_close c)
invoke tid force_now c = force_close_in_loop tid c
invoke tid stop c = stop_read tid c
invoke tid stop_now c = stop_read_in_loop tid c
invoke tid start c = start_read tid c
invoke tid start_now c = start_read_in_loop tid c
invoke tid hang_up c = handle_close tid c
invoke tid (send_bytes write bytes) c = send write tid bytes c
invoke tid (send_now write bytes) c = send_in_loop write tid bytes c
invoke tid (receive readv) c = handle_read readv tid c
invoke tid (flush write) c = handle_write write tid c

-- Calls one after the other, each with its thread.
unfoldable pub invoke_all : List (ℕ × Call) → Connection → Result Connection
invoke_all [] c = ok c
invoke_all ((tid, call) ∷ rest) c = do c' ← invoke tid call c; invoke_all rest c'

same : {c : Connection} → Forward c c
same = Still-Forward (record { state = refl; callback = refl; closes_same = refl })

queued-Forward : (t : Task) (c : Connection) → Forward c (queue_in_loop t c)
queued-Forward t c = record {
  rises = omega arith;
  callback = refl;
  counted = refl;
  closed_once = omega arith;
}

run_in_loop-Forward :
    (tid : ℕ) (t : Task) (now : Connection → Result Connection) (c : Connection)
    → After (now c) (Forward c)
    → After (run_in_loop tid t now c) (Forward c)
run_in_loop-Forward tid t now c h =
    After-if (c.channel.loop_tid == tid) _ _ _ h (queued-Forward t c)

of_Still : (m : Result Connection) (c : Connection) → After m (Still c) → After m (Forward c)
of_Still m c h = After-map (Still c) (Forward c) m (λ c'. Still-Forward) h

establish-Forward : (tid : ℕ) (c : Connection) → After (connect_established tid c) (Forward c)
unfolding connect_established
establish-Forward tid c = After-assert _ (c.channel.loop_tid == tid) _ (λ _.
    After-assert _ (is c.state connecting) _ (λ fresh.
      let d : Connection = record c { state = connected; channel = tie c.channel } in
      let forward : Forward c d = record {
        rises = ground arith;
        callback = refl;
        counted = ground arith;
        closed_once = ground arith;
      } in
      After-map _ _ (on_channel (enable_read tid) d)
        (λ c' s. Forward-trans forward (Still-Forward s)) (on_channel-Still (enable_read tid) d)))

halved-Forward :
    (c : Connection) → rank c.state ≤ 2 → Forward c (record c { state = disconnecting })
halved-Forward c low = record {
  rises = low;
  callback = refl;
  counted = ground arith;
  closed_once = ground arith;
}

shutdown-Forward : (tid : ℕ) (c : Connection) → After (shutdown tid c) (Forward c)
unfolding shutdown
shutdown-Forward tid c = After-assert _ (leb (rank c.state) (rank disconnecting)) _ (λ low.
    let d : Connection = record c { state = disconnecting } in
    let f = halved-Forward c (leb→le _ _ low) in
    After-if (is c.state connected) _ _ _
      (After-map (Forward d) (Forward c) _ (λ c'. Forward-trans f)
        (run_in_loop-Forward tid shutdown_task (shutdown_in_loop tid) d
          (of_Still _ d (shutdown_in_loop-Still tid d))))
      f)

below_closed : (s : State) → is s disconnected ≡ false → rank s ≤ 2
below_closed s live = ground arith

force_close-Forward : (c : Connection) → Forward c (force_close c)
unfolding force_close force_close_exchange
force_close-Forward c = elim (Bool-cases (is c.state disconnected)) [
  | inl closed ↦ rw closed same
  | inr live ↦
      let f = halved-Forward c (below_closed c.state live) in
      rw live (record {
        rises = f.rises;
        callback = f.callback;
        counted = f.counted;
        closed_once = f.closed_once;
      })
]

force_close_in_loop-Forward :
    (tid : ℕ) (c : Connection) → After (force_close_in_loop tid c) (Forward c)
unfolding force_close_in_loop
force_close_in_loop-Forward tid c =
    After-assert _ (c.channel.loop_tid == tid) _
      (λ _. After-if (is c.state disconnected) _ _ _ same (handle_close-Forward tid c))

stop_read_in_loop-Forward : (tid : ℕ) (c : Connection) → After (stop_read_in_loop tid c) (Forward c)
unfolding stop_read_in_loop
stop_read_in_loop-Forward tid c =
    After-if (is_reading c.channel) _ _ _ (of_Still _ c (on_channel-Still (disable_read tid) c))
      same

start_read_in_loop-Forward :
    (tid : ℕ) (c : Connection) → After (start_read_in_loop tid c) (Forward c)
unfolding start_read_in_loop
start_read_in_loop-Forward tid c =
    After-if (is_reading c.channel) _ _ _ same (of_Still _ c (on_channel-Still (enable_read tid) c))

send-Forward :
    (write : List ℕ → Written) (tid : ℕ) (bytes : List ℕ) (c : Connection)
    → After (send write tid bytes c) (Forward c)
unfolding send
send-Forward write tid bytes c =
    After-if (is c.state connected) _ _ _
      (run_in_loop-Forward tid (send_task bytes) (send_in_loop write tid bytes) c
        (of_Still _ c (send_in_loop-Still write tid bytes c)))
      same

pub invoke-Forward :
    (tid : ℕ) (call : Call) (c : Connection) → After (invoke tid call c) (Forward c)
unfolding invoke stop_read start_read
invoke-Forward tid establish c = establish-Forward tid c
invoke-Forward tid shut c = shutdown-Forward tid c
invoke-Forward tid shut_now c = of_Still _ c (shutdown_in_loop-Still tid c)
invoke-Forward tid force c = force_close-Forward c
invoke-Forward tid force_now c = force_close_in_loop-Forward tid c
invoke-Forward tid stop c =
    run_in_loop-Forward tid stop_read_task (stop_read_in_loop tid) c
      (stop_read_in_loop-Forward tid c)
invoke-Forward tid stop_now c = stop_read_in_loop-Forward tid c
invoke-Forward tid start c =
    run_in_loop-Forward tid start_read_task (start_read_in_loop tid) c
      (start_read_in_loop-Forward tid c)
invoke-Forward tid start_now c = start_read_in_loop-Forward tid c
invoke-Forward tid hang_up c = handle_close-Forward tid c
invoke-Forward tid (send_bytes write bytes) c = send-Forward write tid bytes c
invoke-Forward tid (send_now write bytes) c = of_Still _ c (send_in_loop-Still write tid bytes c)
invoke-Forward tid (receive readv) c = handle_read-Forward readv tid c
invoke-Forward tid (flush write) c = of_Still _ c (handle_write-Still write tid c)

-- Over any calls, tasks and handlers, made one after another by any threads and without a failure,
-- the state of a connection never goes back, and the user's close callback, where it is set, runs exactly
-- once if the connection is closed in their course, and else not at all.
pub invoke_all-Forward :
    (calls : List (ℕ × Call)) {c c' : Connection} → invoke_all calls c ≡ ok c' → Forward c c'
unfolding invoke_all
invoke_all-Forward calls {c} {c'} e = After-use (Forward c) (invoke_all calls c) c' e (all calls c)
  where
    all : (calls : List (ℕ × Call)) (c : Connection) → After (invoke_all calls c) (Forward c)
    all [] c = same
    all ((tid, call) ∷ rest) c = After-bind _ (invoke tid call c) _ (λ d e.
        After-map _ _ (invoke_all rest d)
          (λ c'. Forward-trans (After-use (Forward c) _ d e (invoke-Forward tid call c)))
          (all rest d))
