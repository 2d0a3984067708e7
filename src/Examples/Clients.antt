-- ===== src/Examples/Clients.antt =====
-- The theorems on a client that waits for its first connection, with the timer at the address 64.
use cppweb.Connection.Calls.{force_now}
use cppweb.Base.Outcome.{After}
use cppweb.TcpClient.Once.{handle_all-IsClient}
use cppweb.TcpClient.Life.{Event, wrote, called, elapsed, handle, handle_all, IsClient, waits}
use cppweb.TcpClient.Starting.{Settles, make-start}
use cppweb.Base.{
  List, ℕ, ◌+◌, ◌≡◌, refl, inl, true, false, none, some, [], Returns, fault, dangling, arith, ◌>>=◌,
  ◌∷◌,
}
use cppweb.Sockets.{given, refused, Answer}
use cppweb.TimerQueue.{Run, handle_read, make_timer}
use cppweb.TimerQueue.Settle.{IsQuiet}
use cppweb.Schedule.{now_after, run_after, Punctual, run_after-handle_read}
use cppweb.TcpClient.{Client, writeable, connect, make, start, retry_interval}
use cppweb.TcpClient.Retry.{Tried, connect-Tried}
use cppweb.TcpClient.Dangling.{callbacks, retry-handle_read}
use cppweb.Examples.Timers.{two_timers, two_timers-IsValid, quiet_run}
use cppweb.Examples.Servers.{connecting, connecting-IsSteady}

run_after-handle_read_example : Returns (run_after 5 6 10 128 two_timers) (λ q'.
    (run : Run)
    → IsQuiet run
    → (t later' : ℕ) → Returns (handle_read run t later' q') (Punctual t (5 + 10) 128 q'))
run_after-handle_read_example =
    run_after-handle_read 5 6 10 128 two_timers-IsValid refl (omega arith)

abbrev lonely : Client
lonely = record {
  tid = 7;
  connected = false;
  retry_timer = some 64;
  connector = connecting;
  connection = none;
  has_connection = true;
  has_message = true;
  has_write_complete = false;
  noticed = [];
  timers = two_timers;
}

connect-Tried_example :
    Returns (writeable 7 (given 0) lonely) (Tried true 64 lonely)
    × Returns (connect 7 (refused 115) (given 0) lonely) (Tried false 64 lonely)
connect-Tried_example =
    connect-Tried 10 64 (refused 115) (given 0) connecting-IsSteady two_timers-IsValid (inl refl)
      refl

retry-handle_read_example :
    handle_read (callbacks (given 0) (given 0) quiet_run lonely) 12 13 two_timers ≡ fault dangling
retry-handle_read_example =
    retry-handle_read (given 0) (given 0) quiet_run 12 13 lonely connecting-IsSteady refl refl
      two_timers-IsValid refl (omega arith) refl

make-start_example :
    Returns
      (make 7 (given 6) two_timers >>= start 7 5 6 128 (refused 115) (given 0))
      (Settles 7 (now_after 5 retry_interval) 128 false)
make-start_example = make-start 7 6 5 6 128 (refused 115) (given 0) two_timers-IsValid refl

lonely-IsClient : IsClient true 64 lonely
unfolding make_timer
lonely-IsClient =
    waits 10 (make_timer 10 5) refl refl refl refl refl (inl refl) refl refl two_timers-IsValid
      connecting-IsSteady

-- The retry timer runs, and the attempt waits for its answer; then the connection is made, and the loop's thread
-- closes it.
abbrev one_life : List Event
one_life = elapsed (refused 115) (given 0) 12 13 ∷ wrote (given 0) ∷ called 7 force_now ∷ []

handle_all-IsClient_example : After (handle_all one_life lonely) (λ d.
    IsClient true 64 d × ((asked : Answer) → Returns (handle (wrote asked) d) (IsClient true 64)))
handle_all-IsClient_example = handle_all-IsClient true 64 one_life lonely-IsClient
