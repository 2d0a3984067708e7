-- ===== src/TcpClient/Connecting.antt =====
-- An attempt to connect, from the answers of the kernel to the new connection.

use cppweb.Connection.Lifecycle.{closes}
use cppweb.Base.{
  ℕ, ◌≡◌, inl, inr, refl, sym, ap, true, none, some, [], ◌∷◌, ◌++◌, arith, Bool-cases, ==_iff,
  if◌then◌else◌, Returns, ok, append-nil,
}
use cppweb.Buffer.{initial_size}
use cppweb.Buffer.Content.{make-Holds}
use cppweb.Channel.{is_reading, tie}
use cppweb.Connection
use cppweb.Connection.{State, connected, Connection, connect_established, record_effect, controlled}
use cppweb.Interest.Returns.{enable_read-Returns}
use cppweb.TimerQueue.{TimerQueue, cancel_in_loop}
use cppweb.TcpClient.{Client, notice, cancel_retry, make_connection, new_connection}

-- A connection of the loop of thread `tid` that is up: the loop waits to read from `connfd`.
pub record IsUp (tid connfd : ℕ) (conn : Connection) : Type 0 where
  pub state : conn.state ≡ connected
  pub reads : is_reading conn.channel ≡ true
  pub polled : conn.channel.polling ≡ true
  pub fd : conn.channel.fd ≡ connfd
  pub loop_tid : conn.channel.loop_tid ≡ tid
  pub has_close : conn.has_close ≡ true
  pub fresh : closes conn.log ≡ 0

-- The client after `newConnection`, with the timers that cancelling left.
pub record Met (connfd : ℕ) (q : TimerQueue) (c c' : Client) : Type 0 where
  pub connected_now : c'.connected ≡ true
  pub retry_timer : c'.retry_timer ≡ none
  pub timers : c'.timers ≡ q
  pub thread : c'.tid ≡ c.tid
  pub heard : c'.has_connection ≡ c.has_connection
  pub connector : c'.connector ≡ c.connector
  pub connection : (conn : Connection) × (c'.connection ≡ some conn) × IsUp c.tid connfd conn
  pub noticed : c'.noticed ≡ c.noticed ++ (if c.has_connection then connected ∷ [] else [])

notice-Met :
    (connfd : ℕ) (q : TimerQueue) (conn : Connection) (c : Client)
    → IsUp c.tid connfd conn
    → Met connfd q c (
        notice conn
          (record c { timers = q; retry_timer = none; connected = true; connection = some conn }))
notice-Met connfd q conn c up = elim (Bool-cases c.has_connection) [
  | inl heard ↦ rw heard (record {
    connected_now = refl;
    retry_timer = refl;
    timers = refl;
    thread = refl;
    heard = refl;
    connector = refl;
    connection = (conn, refl, up);
    noticed = ap (λ s. c.noticed ++ (s ∷ [])) up.state;
  })
  | inr unheard ↦ rw unheard (record {
    connected_now = refl;
    retry_timer = refl;
    timers = refl;
    thread = refl;
    heard = refl;
    connector = refl;
    connection = (conn, refl, up);
    noticed = sym (append-nil c.noticed);
  })
]

pub new_connection-Met :
    (connfd a : ℕ) (c : Client) {q : TimerQueue}
    → c.retry_timer ≡ some a
    → cancel_in_loop a c.timers ≡ ok q
    → Returns (new_connection c.tid connfd c) (Met connfd q c)
unfolding new_connection cancel_retry make_connection cppweb.Connection.make connect_established tie
new_connection-Met connfd a c {q} has cancelled =
    let (empty, made, held) = make-Holds initial_size (omega arith) in
    let c0 : Connection = record (cppweb.Connection.make c.tid connfd empty) {
      has_message = c.has_message;
      has_write_complete = c.has_write_complete;
      has_close = true;
    } in
    let own = (==_iff c.tid c.tid).1 refl in
    let (p, enabled, f) = enable_read-Returns (tie c0.channel) in
    let conn : Connection =
      record_effect (controlled p.1) (record c0 { state = connected; channel = p.0 }) in
    let c1 : Client = record c {
      timers = q;
      retry_timer = none;
      connected = true;
      connection = some conn;
    } in
    (
      notice conn c1,
      rw (own, has, cancelled, made, own, enabled) refl,
      notice-Met connfd q conn c (record {
        state = refl;
        reads = f.reads;
        polled = f.polled;
        fd = f.fd;
        loop_tid = f.loop_tid;
        has_close = refl;
        fresh = refl;
      }),
    )
