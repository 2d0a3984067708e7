-- ===== src/TcpClient.antt =====
-- cppweb/TCPClient.hpp and cppweb/TCPClient.cpp: a client of one connection, that tries to connect every
-- three seconds. The timer queue of its loop, and its connector, are parts of its state. An address that
-- `new` returns, and the answers of the kernel, are arguments.
pub mod Connecting
pub mod Retry
pub mod Dangling
pub mod Elapse
pub mod Elapsed
pub mod Life
pub mod Once
pub mod Starting
use cppweb.Base.{
  ℕ, ◌+◌, Bool, true, false, not, ◌&&◌, Option, none, some, List, [], ◌∷◌, ◌++◌, ltb, ◌==◌,
  if◌then◌else◌, Result, ok, fault, dangling, assertion, ◌>>=◌, ◌>>◌, assert, check,
}
use cppweb.Buffer
use cppweb.Buffer.{initial_size}
use cppweb.Connection
use cppweb.Connection.{State, disconnected, is, Connection, connect_established, force_close}
use cppweb.Connection.Lifecycle.{closes}
use cppweb.Connection.Calls.{Call, invoke}
use cppweb.Connector
use cppweb.Connector.{Connector}
use cppweb.Sockets.{Answer}
use cppweb.TimerQueue.{TimerQueue, second, cancel_in_loop}
use cppweb.Schedule.{run_every}

-- `connection` is `m_connection`, and `noticed` lists the states in which `m_connectionCallback` saw the
-- connections, oldest first. The three flags tell which callbacks are set.
pub record Client : Type 0 where
  pub tid : ℕ
  pub connected : Bool
  pub retry_timer : Option ℕ
  pub connector : Connector
  pub connection : Option Connection
  pub has_connection : Bool
  pub has_message : Bool
  pub has_write_complete : Bool
  pub noticed : List State
  pub timers : TimerQueue

-- The constructor: the two default callbacks are set.
unfoldable pub make : ℕ → Answer → TimerQueue → Result Client
make tid socket q = do
  k ← cppweb.Connector.make tid socket
  ok (record {
    tid = tid;
    connected = false;
    retry_timer = none;
    connector = k;
    connection = none;
    has_connection = true;
    has_message = true;
    has_write_complete = false;
    noticed = [];
    timers = q;
  })

-- `m_connectionCallback(conn)`, where it is set
abbrev pub notice : Connection → Client → Client
notice conn c =
    if c.has_connection then record c { noticed = c.noticed ++ (conn.state ∷ []) } else c

-- `m_loop->cancelTimer(m_retryTimer)` in the loop's thread. A null pointer is used there as well.
unfoldable pub cancel_retry : Client → Result Client
cancel_retry c = elim c.retry_timer [
  | none ↦ fault dangling
  | some a ↦ cancel_in_loop a c.timers >>= (λ q. ok (record c { timers = q; retry_timer = none }))
]

-- `std::make_shared<TCPConnection>`, and the callbacks
unfoldable pub make_connection : ℕ → Client → Result Connection
make_connection connfd c = do
  empty ← cppweb.Buffer.make initial_size
  ok (record (cppweb.Connection.make c.tid connfd empty) {
    has_message = c.has_message;
    has_write_complete = c.has_write_complete;
    has_close = true;
  })

unfoldable pub new_connection : ℕ → ℕ → Client → Result Client
new_connection tid connfd c = do
  assert (c.tid == tid)
  c1 ← cancel_retry c
  conn0 ← make_connection connfd c1
  conn ← connect_established tid conn0
  ok (notice conn (record c1 { connected = true; connection = some conn }))

-- What the connector reports goes to `newConnection`.
unfoldable pub report : ℕ → Connector × Option ℕ → Client → Result Client
report tid r c = elim r.1 [
  | none ↦ ok (record c { connector = r.0 })
  | some connfd ↦ new_connection tid connfd (record c { connector = r.0 })
]

-- `m_connector.start()`
unfoldable pub connect : ℕ → Answer → Answer → Client → Result Client
connect tid connecting asked c = do
  r ← cppweb.Connector.start tid connecting asked c.connector
  report tid r c

abbrev pub retry_interval : ℕ
retry_interval = 3_000_000_000

unfoldable pub start : ℕ → ℕ → ℕ → ℕ → Answer → Answer → Client → Result Client
start tid now later a connecting asked c = do
  assert (c.tid == tid)
  q ← run_every now later retry_interval a c.timers
  connect tid connecting asked (record c { retry_timer = some a; timers = q })

-- The callback of the retry timer.
unfoldable pub retry : ℕ → Answer → Answer → Client → Result Client
retry tid connecting asked c =
    assert (c.tid == tid) >> (if c.connected then ok c else connect tid connecting asked c)

-- The event that the connector's socket can be written.
unfoldable pub writeable : ℕ → Answer → Client → Result Client
writeable tid asked c = do r ← cppweb.Connector.handle_write tid asked c.connector; report tid r c

unfoldable pub close_connection : ℕ → Connection → Client → Result Client
close_connection tid conn c = do
  assert (c.tid == tid)
  elim c.connection [
    | none ↦ fault assertion
    | some old ↦ ok (notice conn (record c { connection = none }))
  ]

-- A call on the connection. Where it runs the connection's close callback, that is `closeConnection`.
unfoldable pub call_connection : ℕ → Call → Connection → Client → Result Client
call_connection tid call old c = do
  conn ← invoke tid call old
  let c' = record c { connection = some conn }
  if ltb (closes old.log) (closes conn.log) then close_connection tid conn c' else ok c'

-- The destructor, run by the thread `tid`: another thread leaves the deletion of the timer to a task.
unfoldable pub destroy : ℕ → Client → Result Client
destroy tid c = do
  let closed : Option Connection = elim c.connection [
    | none ↦ none
    | some conn ↦ some (if is conn.state disconnected then conn else force_close conn)
  ]
  let c' = record c { connection = closed }
  elim c.retry_timer [ none ↦ ok c' | some a ↦ if c.tid == tid then cancel_retry c' else ok c' ]
