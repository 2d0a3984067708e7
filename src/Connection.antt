-- ===== src/Connection.antt =====
-- cppweb/TCPConnection.hpp and cppweb/TCPConnection.cpp: an established connection with its two
-- buffers. The kernel's answers are arguments. Calls of the kernel that matter and calls of the
-- user's callbacks are entries of a log; tasks for the loop are queued in order. A callback of the
-- user is always the last thing that a handler calls, so what the user does in it is a later call.
pub mod Stream
pub mod Send
pub mod Drain
pub mod Flow
pub mod Lifecycle
pub mod Unchanged
pub mod Calls
pub mod Reopen
pub mod Tasks
use cppweb.Base.{
  ℕ, Bool, true, false, not, ◌&&◌, ◌||◌, List, [], ◌∷◌, ◌++◌, length, take, drop, ltb, leb, ◌==◌,
  if◌then◌else◌, Result, ok, ◌>>=◌, ◌>>◌, assert, add_size, sub_size,
}
use cppweb.Bytes.{copy_from}
use cppweb.Buffer.{
  Buffer, append, retrieve, retrieve_all_as_string, readable_bytes, peek, read_fd, Received, failed,
  received,
}
use cppweb.Channel.{Channel, is_reading, is_writing, tie}
use cppweb.Epoller.{Ctl}
use cppweb.Interest.{enable_read, enable_write, disable_read, disable_write, disable_all}

-- `enum ConnectionState`
pub data State : Type 0 where
  connecting connected disconnecting disconnected : State

-- The number of the enumerator.
abbrev pub rank : State → ℕ
rank connecting = 0
rank connected = 1
rank disconnecting = 2
rank disconnected = 3

abbrev pub is : State → State → Bool
is s t = rank s == rank t

pub data Task : Type 0 where
  send_task : List ℕ → Task
  shutdown_task force_close_task stop_read_task start_read_task write_complete_task : Task
  high_water_task : ℕ → Task

-- `written bytes`: the kernel took these bytes of a `write`. `shut_down`: `shutdown(SHUT_WR)`.
-- `controlled k`: `epoll_ctl`. `message_call` and `close_call`: the user's callbacks.
pub data Effect : Type 0 where
  written : List ℕ → Effect
  shut_down message_call close_call : Effect
  controlled : Ctl → Effect

-- The four flags tell which callbacks are set. `tasks` are the entries of the loop's
-- `m_pendingTasks`, and `log` the effects, oldest first.
pub record Connection : Type 0 where
  pub state : State
  pub channel : Channel
  pub input : Buffer
  pub output : Buffer
  pub high_water_mark : ℕ
  pub has_message : Bool
  pub has_write_complete : Bool
  pub has_close : Bool
  pub has_high_water : Bool
  pub tasks : List Task
  pub log : List Effect

-- What `write` comes to: the number of bytes taken, or an `errno`.
pub data Written : Type 0 where
  accepted : ℕ → Written
  refused : ℕ → Written

-- `EAGAIN` (and `EWOULDBLOCK`, the same number) or `EINTR`
abbrev pub is_retryable : ℕ → Bool
is_retryable errno = errno == 11 || errno == 4

abbrev pub record_effect : Effect → Connection → Connection
record_effect e c = record c { log = c.log ++ (e ∷ []) }

-- `EventLoop::queueInLoop`
abbrev pub queue_in_loop : Task → Connection → Connection
queue_in_loop t c = record c { tasks = c.tasks ++ (t ∷ []) }

abbrev pub assert_in_loop_thread : ℕ → Connection → Result (Unit {0})
assert_in_loop_thread tid c = assert (c.channel.loop_tid == tid)

-- `EventLoop::runInLoop`: at once in the thread of the loop, else as a task.
abbrev pub run_in_loop :
    ℕ → Task → (Connection → Result Connection) → Connection → Result Connection
run_in_loop tid t now c = if c.channel.loop_tid == tid then now c else ok (queue_in_loop t c)

-- A call on the channel, with the `epoll_ctl` that it makes.
abbrev pub on_channel : (Channel → Result (Channel × Ctl)) → Connection → Result Connection
on_channel f c = do
  p ← f c.channel
  ok (record_effect (controlled p.1) (record c { channel = p.0 }))

unfoldable pub connect_established : ℕ → Connection → Result Connection
connect_established tid c = do
  assert_in_loop_thread tid c
  assert (is c.state connecting)
  on_channel (enable_read tid) (record c { state = connected; channel = tie c.channel })

-- What follows from the result of the `write` of `sendInLoop`: the bytes taken, whether the
-- connection is broken, and the connection.
unfoldable pub after_write : List ℕ → Written → Connection → ℕ × Bool × Connection
after_write bytes (refused errno) c = (0, not (is_retryable errno), c)
after_write bytes (accepted n) c =
    let c' = record_effect (written (take n bytes)) c in
    (
      n,
      false,
      (if sub_size (length bytes) n == 0 && c.has_write_complete
          then queue_in_loop write_complete_task c'
          else c'),
    )

-- The `write` of `sendInLoop` is made only where no output waits.
unfoldable pub write_now : (List ℕ → Written) → List ℕ → Connection → Result (ℕ × Bool × Connection)
write_now write bytes c =
    if is_writing c.channel
    then ok (0, false, c)
    else assert (readable_bytes c.output == 0) >> ok (after_write bytes (write bytes) c)

-- The high-water callback is queued when the output comes to its mark.
unfoldable pub watch_output : ℕ → Connection → Connection
watch_output remain c =
    let old_size = readable_bytes c.output in
    let new_size = add_size old_size remain in
    if c.has_high_water && (ltb old_size c.high_water_mark && leb c.high_water_mark new_size)
    then queue_in_loop (high_water_task new_size) c
    else c

-- What could not be written is kept, and the channel waits until it can be.
unfoldable pub keep_output : ℕ → List ℕ → Connection → Result Connection
keep_output tid rest c = do
  let c' = watch_output (length rest) c
  output' ← append c'.output rest
  on_channel (enable_write tid) (record c' { output = output' })

-- the part of `sendInLoop` behind the `write`
unfoldable pub send_rest : ℕ → List ℕ → ℕ × Bool × Connection → Result Connection
send_rest tid bytes p =
    if not p.1 && ltb 0 (sub_size (length bytes) p.0)
    then keep_output tid (drop p.0 bytes) p.2
    else ok p.2

unfoldable pub send_in_loop : (List ℕ → Written) → ℕ → List ℕ → Connection → Result Connection
send_in_loop write tid bytes c =
    assert_in_loop_thread tid c
    >> (if is c.state disconnected then ok c else write_now write bytes c >>= send_rest tid bytes)

-- `send(const char*, size_t)`
unfoldable pub send : (List ℕ → Written) → ℕ → List ℕ → Connection → Result Connection
send write tid bytes c =
    if is c.state connected
    then run_in_loop tid (send_task bytes) (send_in_loop write tid bytes) c
    else ok c

-- `send(Buffer&)` empties the buffer, also where nothing is sent.
unfoldable pub send_buffer :
    (List ℕ → Written) → ℕ → Buffer → Connection → Result (Buffer × Connection)
send_buffer write tid b c = do p ← retrieve_all_as_string b; c' ← send write tid p.0 c; ok (p.1, c')

unfoldable pub shutdown_in_loop : ℕ → Connection → Result Connection
shutdown_in_loop tid c =
    assert_in_loop_thread tid c
    >> ok (
        if not (is c.state disconnected) && not (is_writing c.channel)
        then record_effect shut_down c
        else c)

-- `shutdown` behind its assertion
abbrev pub shutdown_exchange : ℕ → Connection → Result Connection
shutdown_exchange tid c =
    let c' = record c { state = disconnecting } in
    if is c.state connected then run_in_loop tid shutdown_task (shutdown_in_loop tid) c' else ok c'

unfoldable pub shutdown : ℕ → Connection → Result Connection
shutdown tid c = assert (leb (rank c.state) (rank disconnecting)) >> shutdown_exchange tid c

unfoldable pub handle_close : ℕ → Connection → Result Connection
handle_close tid c = do
  assert_in_loop_thread tid c
  assert (is c.state connected || is c.state disconnecting)
  c' ← on_channel (disable_all tid) (record c { state = disconnected })
  ok (if c'.has_close then record_effect close_call c' else c')

unfoldable pub force_close_in_loop : ℕ → Connection → Result Connection
force_close_in_loop tid c = do
  assert_in_loop_thread tid c
  if is c.state disconnected then ok c else handle_close tid c

-- `forceClose` reads the state, and exchanges it in a second step.
unfoldable pub force_close_exchange : Connection → Connection
force_close_exchange c =
    let c' = record c { state = disconnecting } in
    if is c.state disconnected then c' else queue_in_loop force_close_task c'

unfoldable pub force_close : Connection → Connection
force_close c = if is c.state disconnected then c else force_close_exchange c

-- the task of `stopRead`
unfoldable pub stop_read_in_loop : ℕ → Connection → Result Connection
stop_read_in_loop tid c = if is_reading c.channel then on_channel (disable_read tid) c else ok c

-- the task of `startRead`
unfoldable pub start_read_in_loop : ℕ → Connection → Result Connection
start_read_in_loop tid c = if is_reading c.channel then ok c else on_channel (enable_read tid) c

unfoldable pub stop_read : ℕ → Connection → Result Connection
stop_read tid = run_in_loop tid stop_read_task (stop_read_in_loop tid)

unfoldable pub start_read : ℕ → Connection → Result Connection
start_read tid = run_in_loop tid start_read_task (start_read_in_loop tid)

-- `handleError` reads the error of the socket and logs it.
unfoldable pub handle_error : Connection → Connection
handle_error c = c

unfoldable pub handle_read : (List ℕ → Received) → ℕ → Connection → Result Connection
handle_read readv tid c = do
  assert_in_loop_thread tid c
  assert (not (is c.state disconnected))
  p ← read_fd readv c.input
  let c' : Connection = record c { input = p.1 }
  elim p.0 [
    | failed errno ↦ ok (handle_error c')
    | received [] ↦ handle_close tid c'
    | received (_ ∷ _) ↦ ok (if c'.has_message then record_effect message_call c' else c')
  ]

-- What `handleWrite` does when the output is all written.
unfoldable pub output_done : ℕ → Connection → Result Connection
output_done tid c = do
  c1 ← on_channel (disable_write tid) c
  c2 ← (if is c1.state disconnecting then shutdown_in_loop tid c1 else ok c1)
  ok (if c2.has_write_complete then queue_in_loop write_complete_task c2 else c2)

-- what `handleWrite` does with the result of its `write`
unfoldable pub after_drain : ℕ → List ℕ → Written → Connection → Result Connection
after_drain tid bytes (refused errno) c = ok c
after_drain tid bytes (accepted n) c = do
  output' ← retrieve c.output n
  let c' = record_effect (written (take n bytes)) (record c { output = output' })
  if readable_bytes c'.output == 0 then output_done tid c' else ok c'

unfoldable pub handle_write : (List ℕ → Written) → ℕ → Connection → Result Connection
handle_write write tid c = if is c.state disconnected then ok c else (do
  assert (ltb 0 (readable_bytes c.output))
  assert (is_writing c.channel)
  bytes ←
      copy_from c.output.buffer (peek c.output) (add_size (peek c.output) (readable_bytes c.output))
  after_drain tid bytes (write bytes) c)

-- The constructor's state, over a channel with its four callbacks set.
unfoldable pub make : ℕ → ℕ → Buffer → Connection
make tid sockfd empty = record {
  state = connecting;
  channel = record {
    loop_tid = tid;
    fd = sockfd;
    events = 0;
    revents = 0;
    tied = false;
    polling = false;
    has = λ _. true;
  };
  input = empty;
  output = empty;
  high_water_mark = 0;
  has_message = false;
  has_write_complete = false;
  has_close = false;
  has_high_water = false;
  tasks = [];
  log = [];
}
