-- ===== src/Acceptor.antt =====
-- cppweb/Acceptor.hpp and cppweb/Acceptor.cpp: a listening socket with its channel. Its callback for
-- new connections is what its owner does with the answer of `handle_read`.
pub mod Lifetime
use cppweb.Base.{
  ℕ, Bool, true, false, ◌||◌, Option, none, some, ◌==◌, if◌then◌else◌, Result, ok, fault, exited,
  ◌>>=◌, ◌>>◌, assert, check,
}
use cppweb.Channel
use cppweb.Channel.{Channel, on_read, set_callback}
use cppweb.Epoller.{Ctl}
use cppweb.Interest.{enable_read, disable_all}
use cppweb.Sockets.{Answer, refused, given, or_exit, create_socket}

-- `closed` tells whether the destructor closed the descriptor.
pub record Acceptor : Type 0 where
  pub accept_fd : ℕ
  pub channel : Channel
  pub closed : Bool

-- The constructor: `socket`, two times `setsockopt`, `bind`.
unfoldable pub make : ℕ → Answer → Answer → Answer → Answer → Result Acceptor
make tid socket reuse_addr reuse_port bound = do
  fd ← create_socket socket
  n1 ← or_exit reuse_addr
  n2 ← or_exit reuse_port
  n3 ← or_exit bound
  ok (record {
    accept_fd = fd;
    channel = set_callback on_read (cppweb.Channel.make tid fd);
    closed = false;
  })

-- `listen`, run by the thread `tid`, with the `epoll_ctl` that it makes
unfoldable pub listen : ℕ → Answer → Acceptor → Result (Acceptor × Ctl)
listen tid listening a = do
  assert (a.channel.loop_tid == tid)
  n ← or_exit listening
  p ← enable_read tid a.channel
  ok (record a { channel = p.0 }, p.1)

-- `ECONNABORTED` and `EMFILE`
abbrev pub is_tolerated : ℕ → Bool
is_tolerated errno = errno == 103 || errno == 24

-- `handleRead`: the new descriptor that goes to the callback, where there is one. Another error ends
-- the process by `FATAL`.
unfoldable pub handle_read : Answer → Result (Option ℕ)
handle_read (given sockfd) = ok (some sockfd)
handle_read (refused errno) = if is_tolerated errno then ok none else fault exited

-- The destructor.
unfoldable pub destroy : ℕ → Acceptor → Result (Acceptor × Ctl)
destroy tid a = do
  p ← disable_all tid a.channel
  ok (record a { channel = p.0; closed = true }, p.1)
