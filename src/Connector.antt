-- ===== src/Connector.antt =====
-- cppweb/Connector.hpp and cppweb/Connector.cpp: a socket that connects to a peer. Its callback for the
-- new connection is what its owner does with the answer of `start` and `handle_write`.
pub mod Attempts
use cppweb.Base.{
  ℕ, Bool, true, false, not, Option, none, some, List, [], ◌∷◌, ◌++◌, ◌==◌, if◌then◌else◌, Result,
  ok, ◌>>=◌, ◌>>◌, assert, check,
}
use cppweb.Channel
use cppweb.Channel.{Channel, on_write, set_callback, is_none_events}
use cppweb.Epoller.{Ctl}
use cppweb.Interest.{enable_write, disable_all}
use cppweb.Sockets.{Answer, refused, given, create_socket}

-- `log` lists the calls of `epoll_ctl`, oldest first.
pub record Connector : Type 0 where
  pub sockfd : ℕ
  pub channel : Channel
  pub log : List Ctl

unfoldable pub make : ℕ → Answer → Result Connector
make tid socket = do
  fd ← create_socket socket
  ok (record {
    sockfd = fd;
    channel = set_callback on_write (cppweb.Channel.make tid fd);
    log = [];
  })

-- `EINPROGRESS`
abbrev pub is_in_progress : ℕ → Bool
is_in_progress errno = errno == 115

-- `errno` after the call of `getsockopt`, which sets it where it fails; else the code stores the
-- socket's error there.
abbrev pub pending_error : Answer → ℕ
pending_error (refused errno) = errno
pending_error (given error) = error

-- A call on the channel.
abbrev pub on_channel : (Channel → Result (Channel × Ctl)) → Connector → Result Connector
on_channel f c = do p ← f c.channel; ok (record c { channel = p.0; log = c.log ++ (p.1 ∷ []) })

-- `handleWrite`, where `asked` is the answer of `getsockopt`: the connector, and the descriptor that
-- goes to the callback, where the attempt succeeded
unfoldable pub handle_write : ℕ → Answer → Connector → Result (Connector × Option ℕ)
handle_write tid asked c = do
  assert (c.channel.loop_tid == tid)
  c' ← (if not (is_none_events c.channel) then on_channel (disable_all tid) c else ok c)
  ok (c', if pending_error asked == 0 then some c'.sockfd else none)

-- what `start` does with the answer of `connect`
unfoldable pub after_connect : ℕ → Answer → Answer → Connector → Result (Connector × Option ℕ)
after_connect tid (given n) asked c = handle_write tid asked c
after_connect tid (refused errno) asked c =
    if is_in_progress errno
    then (do c' ← on_channel (enable_write tid) c; ok (c', none))
    else ok (c, none)

-- `start`, where `connecting` is the answer of `connect`
unfoldable pub start : ℕ → Answer → Answer → Connector → Result (Connector × Option ℕ)
start tid connecting asked c =
    assert (c.channel.loop_tid == tid) >> after_connect tid connecting asked c

-- A call of the owner, or the event that the socket can be written.
pub data Attempt : Type 0 where
  starting : Answer → Answer → Attempt
  writeable : Answer → Attempt

unfoldable pub attempt : ℕ → Attempt → Connector → Result (Connector × Option ℕ)
attempt tid (starting connecting asked) = start tid connecting asked
attempt tid (writeable asked) = handle_write tid asked
