-- ===== src/Server.antt =====
-- cppweb/TCPServerSingle.hpp and cppweb/TCPServerSingle.cpp: the connections of one loop, from
-- `accept4` to the destructor of `TCPConnection`. A connection lives while the server's set or someone
-- else holds a `shared_ptr` to it.
pub mod Served
pub mod Events
pub mod Race
use cppweb.Base.{
  ℕ, Bool, true, false, not, ◌&&◌, Option, none, some, List, [], ◌∷◌, ◌++◌, ltb, ◌==◌,
  if◌then◌else◌, Result, ok, ◌>>=◌, ◌>>◌, assert, check,
}
use cppweb.Acceptor
use cppweb.Acceptor.{Acceptor, listen}
use cppweb.Buffer
use cppweb.Buffer.{initial_size}
use cppweb.Connection
use cppweb.Connection.{State, disconnected, is, Connection, connect_established}
use cppweb.Connection.Lifecycle.{closes}
use cppweb.Connection.Calls.{Call, invoke}
use cppweb.Epoller.{Ctl}
use cppweb.Sockets.{Answer}

-- A connection that lives: `member` tells whether it is in `m_connectionSet`, and `noticed` lists the
-- states in which `m_connectionCallback` saw it, oldest first.
pub record Entry : Type 0 where
  pub fd : ℕ
  pub conn : Connection
  pub member : Bool
  pub noticed : List State

-- The three flags tell which callbacks are set. `entries` are the connections that live.
pub record Server : Type 0 where
  pub tid : ℕ
  pub acceptor : Acceptor
  pub has_connection : Bool
  pub has_message : Bool
  pub has_write_complete : Bool
  pub entries : List Entry

-- `m_connectionCallback`, where it is set.
abbrev pub notice : Bool → Entry → Entry
notice set e = if set then record e { noticed = e.noticed ++ (e.conn.state ∷ []) } else e

-- `start`, run by the thread `tid`, with the answer of `listen`
unfoldable pub start : ℕ → Answer → Server → Result (Server × Ctl)
start tid listening s = do
  p ← listen tid listening s.acceptor
  ok (record s { acceptor = p.0 }, p.1)

-- `newConnetction`
unfoldable pub new_connection : ℕ → ℕ → Server → Result Server
new_connection tid connfd s = do
  assert (s.tid == tid)
  empty ← cppweb.Buffer.make initial_size
  c ← connect_established tid (record (cppweb.Connection.make s.tid connfd empty) {
    has_message = s.has_message;
    has_write_complete = s.has_write_complete;
    has_close = true;
  })
  let e : Entry = record { fd = connfd; conn = c; member = true; noticed = [] }
  ok (record s { entries = notice s.has_connection e ∷ s.entries })

-- `closeConnection`
unfoldable pub close_connection : ℕ → ℕ → Bool → Entry → Result Entry
close_connection loop_tid tid set e =
    assert (loop_tid == tid) >> ok (notice set (record e { member = false }))

-- A call on a connection. Where it runs the connection's close callback, that is `closeConnection`.
unfoldable pub call_entry : ℕ → Bool → ℕ → Call → Entry → Result Entry
call_entry loop_tid set tid call e = do
  c ← invoke tid call e.conn
  let e' = record e { conn = c }
  if ltb (closes e.conn.log) (closes c.log) then close_connection loop_tid tid set e' else ok e'

-- The connection with a descriptor, by `f`.
unfoldable pub at_fd : ℕ → (Entry → Result Entry) → List Entry → Result (List Entry)
at_fd fd f [] = ok []
at_fd fd f (e ∷ es) =
    let here = f e >>= (λ e'. ok (e' ∷ es)) in
    let later = at_fd fd f es >>= (λ es'. ok (e ∷ es')) in if e.fd == fd then here else later

-- `~TCPConnection`, up to the log.
unfoldable pub destruct : Connection → Result (Unit {0})
destruct c = assert (is c.state disconnected)

-- The last `shared_ptr` to a connection that is not in the set goes away.
unfoldable pub release : ℕ → List Entry → Result (List Entry)
release fd [] = ok []
release fd (e ∷ es) =
    let here = destruct e.conn >> ok es in
    let later = release fd es >>= (λ es'. ok (e ∷ es')) in
    if (e.fd == fd) && not e.member then here else later

-- The event that the listening socket can be read, a call on a connection by a thread, and the end of
-- a connection.
pub data Event : Type 0 where
  accepting : Answer → Event
  calling : ℕ → ℕ → Call → Event
  releasing : ℕ → Event

unfoldable pub handle : Event → Server → Result Server
handle (accepting answer) s = do
  r ← cppweb.Acceptor.handle_read answer
  elim r [ none ↦ ok s | some connfd ↦ new_connection s.tid connfd s ]
handle (calling tid fd call) s = do
  es ← at_fd fd (call_entry s.tid s.has_connection tid call) s.entries
  ok (record s { entries = es })
handle (releasing fd) s = do es ← release fd s.entries; ok (record s { entries = es })

unfoldable pub handle_all : List Event → Server → Result Server
handle_all [] s = ok s
handle_all (e ∷ es) s = do s' ← handle e s; handle_all es s'

-- The end of the set: a member that nobody else holds ends with it, and the others live on. `held` tells of
-- which members a user, a task or a caller has a `shared_ptr` too.
unfoldable pub destruct_members : (Entry → Bool) → List Entry → Result (List Entry)
destruct_members held [] = ok []
destruct_members held (e ∷ es) =
    let rest = destruct_members held es in
    if e.member && not (held e)
    then destruct e.conn >> rest
    else rest >>= (λ es'. ok (record e { member = false } ∷ es'))

-- `~TCPServerSingle`: the acceptor ends first, then the set. The connections that live on are returned.
unfoldable pub destroy : (Entry → Bool) → ℕ → Server → Result (Acceptor × List Entry)
destroy held tid s = do
  p ← cppweb.Acceptor.destroy tid s.acceptor
  es ← destruct_members held s.entries
  ok (p.0, es)
