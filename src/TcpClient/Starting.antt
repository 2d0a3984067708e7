-- ===== src/TcpClient/Starting.antt =====
-- A client from its constructor to the end of `start`.
use cppweb.Connection.{Connection}
use mathlib.Core.Path.{subst}
use cppweb.Base.{
  ℕ, ◌≡◌, inl, refl, sym, true, false, none, some, ==_iff, Returns, ◌>>=◌, ◌≢◌, Bool, [],
}
use cppweb.Connector.Attempts.{IsSteady, make-IsSteady}
use cppweb.Sockets.{Answer, given}
use cppweb.TimerQueue.{TimerQueue}
use cppweb.TimerQueue.Members.{All, Has}
use cppweb.TimerQueue.Memory.{IsValid, add_timer-IsValid}
use cppweb.Schedule.{now_after, run_every}
use cppweb.TcpClient.{Client, make, start, retry_interval}
use cppweb.TcpClient.Connecting.{IsUp}
use cppweb.TcpClient.Retry.{Tried, succeeds, connect-Tried}

-- A client of thread `tid` with the timer `a`, that is to run at `at`, which waits for its connection.
pub record Waits (tid at a : ℕ) (c : Client) : Type 0 where
  pub apart : c.connected ≡ false
  pub retry_timer : c.retry_timer ≡ some a
  pub listed : Has (at, a) c.timers.timers
  pub valid : IsValid c.timers
  pub steady : IsSteady tid c.connector

-- A client that is connected on the descriptor of its connector, and has no timer left at `a`.
pub record Meets (tid a : ℕ) (c : Client) : Type 0 where
  pub connected_now : c.connected ≡ true
  pub retry_timer : c.retry_timer ≡ none
  pub connection :
      (conn : Connection) × (c.connection ≡ some conn) × IsUp tid c.connector.sockfd conn
  pub deleted : (c.timers.heap a ≡ none) × All (λ e. e.1 ≢ a) c.timers.timers
  pub valid : IsValid c.timers
  pub unpolled : c.connector.channel.polling ≡ false
  pub steady : IsSteady tid c.connector

-- How an attempt leaves the client, by its success.
pub data Settles (tid at a : ℕ) : Bool → Client → Type 0 where
  meets : {c : Client} → Meets tid a c → Settles tid at a true c
  waits : {c : Client} → Waits tid at a c → Settles tid at a false c

Tried-Settles :
    (b : Bool) (at a : ℕ) (c c' : Client)
    → c.connected ≡ false
    → c.retry_timer ≡ some a
    → Has (at, a) c.timers.timers
    → Tried b a c c'
    → Settles c.tid at a b c'
Tried-Settles true at a c c' apart has m t =
    let met = t.met refl in
    let (conn, there, up) = met.connection in
    meets (record {
      connected_now = met.connected_now;
      retry_timer = met.retry_timer;
      connection = (conn, there, subst (λ fd. IsUp c.tid fd conn) (sym t.sockfd) up);
      deleted = t.deleted refl;
      valid = t.valid;
      unpolled = t.unpolled refl;
      steady = t.steady;
    })
Tried-Settles false at a c c' apart has m t =
    let same = sym (t.failed refl) in
    waits (record {
      apart = subst (λ (d : Client). d.connected ≡ false) same apart;
      retry_timer = subst (λ (d : Client). d.retry_timer ≡ some a) same has;
      listed = subst (λ (d : Client). Has (at, a) d.timers.timers) same m;
      valid = t.valid;
      steady = t.steady;
    })

start-Settles :
    (now later a : ℕ) (connecting asked : Answer) (c : Client)
    → c.connected ≡ false
    → IsSteady c.tid c.connector
    → IsValid c.timers
    → c.timers.heap a ≡ none
    → Returns
        (start c.tid now later a connecting asked c)
        (Settles c.tid (now_after now retry_interval) a (succeeds connecting asked))
unfolding start run_every
start-Settles now later a connecting asked c apart s v free =
    let own = (==_iff c.tid c.tid).1 refl in
    let at = now_after now retry_interval in
    let (q, added, (v', here, members, same)) =
      add_timer-IsValid later at retry_interval a v free in
    let c1 : Client = record c { retry_timer = some a; timers = q } in
    let listed = (members (at, a)).1 (inl refl) in
    let (c', called, t) = (connect-Tried at a connecting asked {c = c1} s v' listed refl).1 in
    (
      c',
      rw (own, added) called,
      Tried-Settles (succeeds connecting asked) at a c1 c' apart refl listed t,
    )

-- A new client that starts in its loop's thread, where set and heap of the loop's timers agree and `new`
-- returns a free address: the constructor and `start` return, whatever the kernel answers to the attempt.
-- Where the attempt succeeded, the client is connected on the connector's descriptor, which the connector
-- does not poll, and the retry timer is deleted and out of the set; and in every other case it is not
-- connected, and its retry timer is in the set, to run at the time `nowAfter` three seconds.
pub make-start :
    (tid fd now later a : ℕ) (connecting asked : Answer) {q : TimerQueue}
    → IsValid q
    → q.heap a ≡ none
    → Returns
        (make tid (given fd) q >>= start tid now later a connecting asked)
        (Settles tid (now_after now retry_interval) a (succeeds connecting asked))
unfolding make
make-start tid fd now later a connecting asked {q} v free =
    let (k, made, s) = make-IsSteady tid fd in
    let c : Client = record {
      tid = tid;
      connected = false;
      retry_timer = none;
      connector = k;
      connection = none;
      has_connection = true;
      has_message = true;
      has_write_complete = false;
      noticed = [];
      timers = q;
    } in
    rw made (start-Settles now later a connecting asked c refl s v free)
