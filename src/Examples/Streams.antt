-- ===== src/Examples/Streams.antt =====
-- The theorems on the byte stream of a connection, with a kernel that takes two bytes at a time.
use cppweb.Server.Race.{Stranded, handle_close-force_close_exchange}
use cppweb.Connection.Tasks.{Answers, send_all, run_tasks, send_all-run_tasks}
use cppweb.Connection.Reopen.{handle_close-start_read_in_loop}
use cppweb.Buffer.{Received}
use cppweb.Base.{
  zero, suc, ◌>>=◌, ok, ℕ, ◌≡◌, ◌≢◌, refl, true, false, List, [], ◌∷◌, arith, length, Returns,
  fault, assertion,
}
use cppweb.Epoller.{delete, update_channel, ctl_of}
use cppweb.Interest.{disable_all}
use cppweb.Connection.Calls.{Call, shut, force, force_now, invoke, invoke_all, invoke_all-Forward}
use cppweb.Connection.Lifecycle.{Forward}
use cppweb.Connection.{
  start_read_in_loop, handle_read, disconnected, shutdown_task, force_close_task, controlled,
  close_call, shutdown, force_close, force_close_exchange, force_close_in_loop, handle_close,
  Connection, connected, disconnecting, Written, accepted, send_in_loop, handle_write,
  shutdown_exchange,
}
use cppweb.Connection.Stream.{Waiting, IsWrite}
use cppweb.Connection.Send.{Sent, send_in_loop-Sent}
use cppweb.Connection.Drain.{shutdowns}
use cppweb.Connection.Flow.{Flowed, handle_write-Flowed, handle_write-drained}
use cppweb.Channel.{is_reading, is_writing, has_any, is_none_events}
use cppweb.Examples.Buffers.{small, small-Holds, vacant, vacant-Holds, greeting}

abbrev takes_two : List ℕ → Written
takes_two [] = accepted 0
takes_two (_ ∷ []) = accepted 1
takes_two (_ ∷ _ ∷ _) = accepted 2

takes_two-IsWrite : IsWrite takes_two
takes_two-IsWrite [] n e = ground arith
takes_two-IsWrite (x ∷ []) n e = ground arith
takes_two-IsWrite (x ∷ y ∷ zs) n e = ground arith

abbrev takes_all : List ℕ → Written
takes_all bytes = accepted (length bytes)

takes_all-IsWrite : IsWrite takes_all
takes_all-IsWrite bytes n e = ground arith

-- A connection of the loop of thread 7 that wrote all its output.
abbrev pub idle : Connection
idle = record {
  state = connected;
  channel = record {
    loop_tid = 7;
    fd = 3;
    events = 3;
    revents = 0;
    tied = true;
    polling = true;
    has = λ _. true;
  };
  input = vacant;
  output = vacant;
  high_water_mark = 0;
  has_message = true;
  has_write_complete = true;
  has_close = true;
  has_high_water = false;
  tasks = [];
  log = [];
}

idle-Waiting : Waiting idle []
idle-Waiting = record { output = vacant-Holds; watched = λ n. absurd (n refl) }

send_in_loop-Sent_example :
    Returns (send_in_loop takes_two 7 greeting idle) (Sent takes_two idle [] greeting)
send_in_loop-Sent_example =
    send_in_loop-Sent takes_two greeting takes_two-IsWrite idle-Waiting refl (omega arith)

-- A connection that was shut down while output waits.
abbrev closing : Connection
closing = record {
  state = disconnecting;
  channel = record {
    loop_tid = 7;
    fd = 3;
    events = 7;
    revents = 4;
    tied = true;
    polling = true;
    has = λ _. true;
  };
  input = vacant;
  output = small;
  high_water_mark = 0;
  has_message = true;
  has_write_complete = true;
  has_close = true;
  has_high_water = false;
  tasks = [];
  log = [];
}

closing-Waiting : Waiting closing greeting
unfolding is_writing has_any
closing-Waiting = record { output = small-Holds; watched = λ _. refl }

some_output : greeting ≢ []
some_output e = cc

handle_write-Flowed_example :
    Returns
      (handle_write takes_two 7 closing)
      (λ c'. (xs' : List ℕ) × Flowed closing greeting c' xs')
handle_write-Flowed_example =
    handle_write-Flowed takes_two takes_two-IsWrite closing-Waiting refl some_output

handle_write-drained_example : Returns (handle_write takes_all 7 closing) (λ c'.
    (is_writing c'.channel ≡ true)
    × (shutdowns c'.log ≡ shutdowns closing.log)
    × (c'.state ≡ disconnecting)
    × ((write' : List ℕ → Written) (tid : ℕ) → handle_write write' tid c' ≡ fault assertion))
handle_write-drained_example =
    handle_write-drained takes_all takes_all-IsWrite closing-Waiting refl some_output refl

-- Another thread shuts the connection down and then closes it by force, and the loop runs that task.
abbrev farewell : List (ℕ × Call)
farewell = (9, shut) ∷ (9, force) ∷ (7, force_now) ∷ []

abbrev gone : Connection
gone = record {
  state = disconnected;
  channel = record {
    loop_tid = 7;
    fd = 3;
    events = 0;
    revents = 0;
    tied = true;
    polling = false;
    has = λ _. true;
  };
  input = vacant;
  output = vacant;
  high_water_mark = 0;
  has_message = true;
  has_write_complete = true;
  has_close = true;
  has_high_water = false;
  tasks = shutdown_task ∷ force_close_task ∷ [];
  log = controlled (record { op = delete; fd = 3; events = 0 }) ∷ close_call ∷ [];
}

farewell_ok : invoke_all farewell idle ≡ ok gone
unfolding invoke_all invoke shutdown force_close force_close_exchange force_close_in_loop
    handle_close disable_all update_channel is_none_events ctl_of
farewell_ok = refl

invoke_all-Forward_example : Forward idle gone
invoke_all-Forward_example = invoke_all-Forward farewell farewell_ok

handle_close-start_read_in_loop_example :
    Returns (handle_close 7 idle >>= start_read_in_loop 7) (λ d.
      (d.state ≡ disconnected)
      × (is_reading d.channel ≡ true)
      × ((readv : List ℕ → Received) (tid : ℕ) → handle_read readv tid d ≡ fault assertion))
handle_close-start_read_in_loop_example = handle_close-start_read_in_loop idle refl refl

-- A kernel that takes all of the first write, and two bytes of each later one.
abbrev fills_up : Answers
fills_up zero = takes_all
fills_up (suc n) = takes_two

send_all-run_tasks_example :
    (send_all (λ n. takes_all) 8 (greeting ∷ greeting ∷ []) idle >>= run_tasks fills_up 7)
    ≡ send_all fills_up 7 (greeting ∷ greeting ∷ []) idle
send_all-run_tasks_example =
    send_all-run_tasks fills_up (λ n. takes_all) 8 (greeting ∷ greeting ∷ []) idle refl refl
      (λ e. omega (arith, e))

handle_close-force_close_exchange_example : Returns (handle_close 7 idle) (λ d.
    Stranded idle (force_close_exchange d)
    × ((tid : ℕ) → Returns (shutdown_exchange tid d) (Stranded idle)))
handle_close-force_close_exchange_example = handle_close-force_close_exchange idle refl refl
