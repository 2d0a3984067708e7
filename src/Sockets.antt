-- ===== src/Sockets.antt =====
-- What the calls of sockets in cppweb/Acceptor.cpp, Connector.cpp and InetAddress.cpp come to. The
-- kernel's answers are arguments of the operations that ask.
use cppweb.Base.{ℕ, Result, ok, fault, exited}

-- An `errno`, or a number.
pub data Answer : Type 0 where
  refused : ℕ → Answer
  given : ℕ → Answer

-- `SYSFATAL` where the call fails.
abbrev pub or_exit : Answer → Result ℕ
or_exit (refused errno) = fault exited
or_exit (given n) = ok n

-- `createSocket`
unfoldable pub create_socket : Answer → Result ℕ
create_socket socket = or_exit socket
