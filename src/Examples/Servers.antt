-- ===== src/Examples/Servers.antt =====
-- The theorems on the classes that make connections, with a server of the loop of thread 7 on the
-- descriptor 5.

use cppweb.Server.Served.{living}
use cppweb.Examples.Streams.{idle}
use cppweb.Base.{
  ◌==◌, Bool, ok, fault, assertion, ◌≡◌, ◌⊎◌, refl, true, false, List, [], ◌∷◌, Returns, Result,
}
use cppweb.Channel.{is_none_events}
use cppweb.Epoller.{update_channel, ctl_of}
use cppweb.Interest.{disable_all}
use cppweb.Sockets.{given, refused}
use cppweb.Acceptor.{Acceptor, listen}
use cppweb.Acceptor
use cppweb.Connection.{connected, force_close_in_loop, handle_close}
use cppweb.Connection.Calls.{invoke, force_now}
use cppweb.Connector.{Connector, attempt, writeable}
use cppweb.Connector.Attempts.{IsSteady, Attempted, attempt-Attempted}
use cppweb.Server
use cppweb.Server.{
  Server, Entry, Event, accepting, calling, releasing, handle, handle_all, new_connection,
  call_entry, close_connection, at_fd,
}
use cppweb.Server.Events.{
  IsServing, handle_all-IsServing, handle-Returns, destroy_lem, has_last, without_set,
}

abbrev listening : Acceptor
listening = record {
  accept_fd = 5;
  channel = record {
    loop_tid = 7;
    fd = 5;
    events = 3;
    revents = 0;
    tied = false;
    polling = true;
    has = λ _. true;
  };
  closed = false;
}

-- Two connections are open.
abbrev quiet_server : Server
quiet_server = record {
  tid = 7;
  acceptor = listening;
  has_connection = true;
  has_message = true;
  has_write_complete = false;
  entries =
      record { fd = 3; conn = idle; member = true; noticed = connected ∷ [] }
      ∷ record { fd = 4; conn = idle; member = true; noticed = connected ∷ [] }
      ∷ [];
}

quiet_server-IsServing : IsServing quiet_server
quiet_server-IsServing = (living refl refl refl refl refl, (living refl refl refl refl refl, tt))

-- One of them is closed.
abbrev story : List Event
story = accepting (refused 24) ∷ calling 7 4 force_now ∷ []

abbrev value : Result Server → Server
value (ok s) = s
value (fault e) = quiet_server

abbrev busy_server : Server
busy_server = value (handle_all story quiet_server)

story_runs : handle_all story quiet_server ≡ ok busy_server
unfolding handle_all handle cppweb.Acceptor.handle_read call_entry close_connection at_fd invoke
    force_close_in_loop handle_close disable_all update_channel ctl_of is_none_events
story_runs = refl

handle_all-IsServing_example : IsServing busy_server
handle_all-IsServing_example =
    handle_all-IsServing story quiet_server busy_server quiet_server-IsServing story_runs

handle-Returns_example : Returns (handle (accepting (refused 24)) busy_server) IsServing
handle-Returns_example =
    handle-Returns (accepting (refused 24)) busy_server refl handle_all-IsServing_example

-- A user holds the connection with descriptor 3.
abbrev one_held : Entry → Bool
one_held e = e.fd == 3

destroy_lem_example :
    ((has_last one_held quiet_server.entries ≡ true)
      × (cppweb.Server.destroy one_held 7 quiet_server ≡ fault assertion))
    ⊎ ((has_last one_held quiet_server.entries ≡ false)
        × Returns
            (cppweb.Server.destroy one_held 7 quiet_server)
            (λ r. (r.0.closed ≡ true) × (r.1 ≡ without_set quiet_server.entries)))
destroy_lem_example = destroy_lem one_held quiet_server quiet_server-IsServing refl

-- A connector that waits for its attempt.
abbrev pub connecting : Connector
connecting = record {
  sockfd = 6;
  channel = record {
    loop_tid = 7;
    fd = 6;
    events = 4;
    revents = 0;
    tied = false;
    polling = true;
    has = λ _. true;
  };
  log = [];
}

pub connecting-IsSteady : IsSteady 7 connecting
unfolding is_none_events
connecting-IsSteady = record { loop_tid = refl; polled = refl }

attempt-Attempted_example :
    Returns (attempt 7 (writeable (given 0)) connecting) (Attempted 7 connecting)
attempt-Attempted_example = attempt-Attempted 7 (writeable (given 0)) connecting-IsSteady
