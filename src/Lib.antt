-- ===== src/Lib.antt =====
-- A model of cppweb, a TCP library over epoll with one event loop per thread, and the theorems that
-- make its parts correct.
--
-- The parts and how they interact. An event loop (cppweb/EventLoop.cpp) waits in its poller
-- (cppweb/Epoller.cpp) for descriptors, hands what came to their channels (cppweb/Channel.cpp), and
-- runs the tasks that other threads queued. A connection (cppweb/TCPConnection.cpp) is a channel with
-- an input and an output buffer (cppweb/Buffer.hpp). Timers (cppweb/TimerQueue.cpp) are a set over
-- one timer descriptor, which is a channel of the loop too. An acceptor (cppweb/Acceptor.cpp) and a
-- connector (cppweb/Connector.cpp) make sockets; TCPServerSingle keeps the connections of an acceptor, and
-- TCPClient the one of a connector, with a timer that retries. TCPServer starts one TCPServerSingle in each
-- of several threads, and EventLoopThread a loop in one. A thread pool (cppweb/ThreadPool.cpp) stands
-- beside them.
--
-- Which file models what.
--   Base      Lists, tests, the result of a computation that may fail, `size_t` and bit operations.
--   Bytes     What `std::copy`, `std::search`, `memchr`, `memcpy` and `resize` do to a storage.
--   Buffer    cppweb/Buffer.hpp and Buffer.cpp, one definition for each operation.
--   Channel   cppweb/Channel.hpp and Channel.cpp: the flags, and `handleEvents`.
--   Epoller   cppweb/Epoller.cpp: `poll`, and the `epoll_ctl` that `updateChannel` makes.
--   Interest  the calls of Channel that change `m_events`: `enableRead` and so on, through `update`.
--   Connection  cppweb/TCPConnection.cpp: `send`, `shutdown`, `forceClose`, and the handlers.
--   TimerQueue  cppweb/Timer.hpp and TimerQueue.cpp.
--   EventLoop   cppweb/EventLoop.cpp: `loop`, `queueInLoop`, `runInLoop`, `wakeup` and `quit` as steps of threads;
--     EventLoop.Turn has one turn of `loop` with the poller, the channels and the users' callbacks, and
--     EventLoop.Lifetime the constructor and the destructor.
--   Schedule    cppweb/EventLoop.cpp: `runAt`, `runEvery` and `runAfter`.
--   ThreadPool  cppweb/ThreadPool.cpp: `runTask`, `takeTask` and `stop` on the queue; ThreadPool.Workers has the
--     threads of `runInThread` around it, the callers of `runTask`, and `stop` with its joins.
--   Sockets     the answers of the calls of sockets, and `createSocket` of cppweb/Acceptor.cpp.
--   Acceptor    cppweb/Acceptor.cpp.
--   Connector   cppweb/Connector.cpp.
--   Server      cppweb/TCPServerSingle.cpp, and the destructor of cppweb/TCPConnection.cpp.
--   TcpServer   cppweb/TCPServer.cpp: `setThreadNum`, `start`, the threads of `startInLoop`, and the destructor.
--   TcpClient   cppweb/TCPClient.cpp, over the connector, the connection and the timers of its loop.
--     TcpClient.Elapse has the `handleRead` of these timers with `retry` among the callbacks.
--   LoopThread  cppweb/EventLoopThread.cpp: the two threads of `startLoop`, and the destructor.
--   InetAddress cppweb/InetAddress.cpp.
--   Callbacks   cppweb/Callbacks.cpp: the default callback for messages.
--   Logger      cppweb/Logger.cpp: the filter, the clamps, which messages end the process, and (Logger.Text) what
--     they print.
-- The children of each hold the proofs, under the names of what they prove. Examples has concrete
-- inputs for the theorems.
--
-- How the model stands to the code. Assertions are enabled, as in a build without NDEBUG: one that
-- fails is the fault `assertion`, an exception of the library is `length_error`, and a use of a
-- deleted timer is `dangling`. Storage is a list of bytes, a pointer into it an index, and `size_t`
-- arithmetic wraps at 2 ^ 64. An integer of a buffer is the number of its bit pattern, in 8, 4, 2 or
-- 1 bytes, on a little-endian host. Times are nanoseconds since the epoch, intervals are not
-- negative, and the clock's readings are arguments; a time of 2 ^ 63 or more, which an `int64_t` does not
-- hold, wraps to one before all others. The answers of the kernel (`readv`, `write`,
-- `epoll_wait`, `epoll_ctl`, `eventfd`), the addresses that `new` returns and the callbacks of users
-- are arguments, with what their documentation promises as hypotheses. epoll_ctl(2) refuses some masks
-- with EPOLLEXCLUSIVE, a flag that `m_events |= ~EPOLLOUT` sets, and the kernel of Interest.Kernel does. A connection's calls of the
-- kernel and of the user are entries of a log, and its tasks for the loop a queue; calls come one after
-- another, and the exchanges inside `forceClose` and `shutdown` stand alone as `force_close_exchange` and
-- `shutdown_exchange`. The event loop
-- and the thread pool are steps that threads take in any order; a step is what runs under the mutex, or
-- one system call, and a thread may return from a condition variable without being notified. Loops
-- are recursion on the list that they go through, so no fuel is needed; the loop of `EventLoop` and
-- those of the pool's threads run for ever and are step relations.
--
-- A client's or server's connection is a connection with the callbacks that its owner sets: where a call
-- runs the close callback, the owner's `closeConnection` follows. The connections of a server that live are
-- a list, and an entry leaves it when nobody holds it any more. The threads of EventLoopThread and TCPServer
-- are steps in any order; the flag of a step relation tells whether a condition variable may wake its
-- thread without a notification. A fatal log message is the fault `exited`, and a null pointer that is used
-- is `dangling`.
--
-- Not modelled: how the C library prints a number, which is a parameter of Logger.Text; the closing of
-- descriptors, except those of an acceptor and a loop; the joining of the threads in the destructor of
-- TCPServer; the peer and local addresses of connections; Singleton; the programs of
-- test.
pub mod Base
pub mod Bytes
pub mod Buffer
pub mod Channel
pub mod Epoller
pub mod Interest
pub mod Connection
pub mod TimerQueue
pub mod EventLoop
pub mod ThreadPool
pub mod Acceptor
pub mod Callbacks
pub mod Connector
pub mod InetAddress
pub mod Logger
pub mod LoopThread
pub mod Schedule
pub mod Server
pub mod Sockets
pub mod TcpClient
pub mod TcpServer
pub mod Examples
