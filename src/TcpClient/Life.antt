-- ===== src/TcpClient/Life.antt =====
-- A client over the events of its loop: the connector, the retry timer, and the calls on its connection.

use cppweb.Base.Outcome.{After, After-bind, After-assert, After-use}
use mathlib.Core.Path.{subst}
use cppweb.Base.{
  ℕ, ◌≡◌, refl, sym, ap, ◌∙◌, Bool, true, false, none, some, List, [], ◌∷◌, ◌++◌, if◌then◌else◌,
  Result, ok, ◌>>=◌, lt→ltb, ge→ltb, inl, inr, arith, ◌==◌, Option,
}
use cppweb.Connection.{connected, disconnected, is, Connection}
use cppweb.Connection.Lifecycle.{closes, Forward}
use cppweb.Connection.Calls.{Call, invoke-Forward, invoke}
use cppweb.Connector.Attempts.{IsSteady}
use cppweb.Sockets.{Answer}
use cppweb.Server.Served.{seen, closed_now}
use cppweb.TimerQueue.Members.{Has}
use cppweb.TimerQueue.Memory.{IsValid}
use cppweb.TcpClient.{Client, writeable, call_connection, notice, close_connection}
use cppweb.TcpClient.Elapse.{elapse}
use cppweb.TcpClient.Retry.{Tried}
use cppweb.TimerQueue.{Timer}

-- The connector's socket can be written; the timers' descriptor can be read, with the answers that an attempt gets
-- and the readings of the clock; a thread makes a call on the connection.
pub data Event : Type 0 where
  wrote : Answer → Event
  elapsed : Answer → Answer → ℕ → ℕ → Event
  called : ℕ → Call → Event

-- An event reaches only a connector that is polled, and a connection that lives.
abbrev pub on_connection : Option Connection → ℕ → Call → Client → Result Client
on_connection none tid call c = ok c
on_connection (some conn) tid call c = call_connection tid call conn c

unfoldable pub handle : Event → Client → Result Client
handle (wrote asked) c = if c.connector.channel.polling then writeable c.tid asked c else ok c
handle (elapsed connecting asked now later) c = elapse connecting asked now later c
handle (called tid call) c = on_connection c.connection tid call c

unfoldable pub handle_all : List Event → Client → Result Client
handle_all [] c = ok c
handle_all (e ∷ es) c = handle e c >>= handle_all es

-- Without a connection so far, and with the retry timer `a`, which repeats, in the set; connected; or closed for good.
pub data IsClient (set : Bool) (a : ℕ) (c : Client) : Type 0 where
  waits :
      (at : ℕ) (t : Timer)
      → c.has_connection ≡ set
      → c.connected ≡ false
      → c.connection ≡ none
      → c.noticed ≡ []
      → c.retry_timer ≡ some a
      → Has (at, a) c.timers.timers
      → c.timers.heap a ≡ some t
      → t.repeat ≡ true
      → IsValid c.timers
      → IsSteady c.tid c.connector
      → IsClient set a c
  lives :
      (conn : Connection)
      → c.has_connection ≡ set
      → c.connected ≡ true
      → c.retry_timer ≡ none
      → c.connector.channel.polling ≡ false
      → c.connection ≡ some conn
      → conn.has_close ≡ true
      → is conn.state disconnected ≡ false
      → closes conn.log ≡ 0
      → c.noticed ≡ seen set (connected ∷ [])
      → IsClient set a c
  closed :
      c.has_connection ≡ set
      → c.connected ≡ true
      → c.retry_timer ≡ none
      → c.connector.channel.polling ≡ false
      → c.connection ≡ none
      → c.noticed ≡ seen set (connected ∷ disconnected ∷ [])
      → IsClient set a c

pub Tried-IsClient :
    (b set : Bool) (at a : ℕ) (t : Timer) (c c' : Client)
    → c.has_connection ≡ set
    → c.connected ≡ false
    → c.connection ≡ none
    → c.noticed ≡ []
    → c.retry_timer ≡ some a
    → Has (at, a) c.timers.timers
    → c.timers.heap a ≡ some t
    → t.repeat ≡ true
    → Tried b a c c'
    → IsClient set a c'
Tried-IsClient true set at a r c c' heard apart alone quiet has m here again t =
    let met = t.met refl in
    let (conn, there, up) = met.connection in
    lives conn (met.heard ∙ heard) met.connected_now met.retry_timer (t.unpolled refl) there
      up.has_close (ap (λ s. is s disconnected) up.state) up.fresh
      (met.noticed
        ∙ ap (λ ns. ns ++ (if c.has_connection then connected ∷ [] else [])) quiet
        ∙ ap (λ b. if b then connected ∷ [] else []) heard)
Tried-IsClient false set at a r c c' heard apart alone quiet has m here again t =
    let kept = sym (t.failed refl) in
    subst (IsClient set a) kept (
      waits at r heard apart alone quiet has m here again
        (subst (λ (d : Client). IsValid d.timers) (t.failed refl) t.valid) t.steady)

-- The state of a connection that the connection callback saw.
notice-IsClient :
    (set : Bool) (a : ℕ) (conn : Connection) (c : Client)
    → c.has_connection ≡ set
    → c.connected ≡ true
    → c.retry_timer ≡ none
    → c.connector.channel.polling ≡ false
    → c.connection ≡ none
    → conn.state ≡ disconnected
    → c.noticed ≡ seen set (connected ∷ [])
    → IsClient set a (notice conn c)
notice-IsClient true a conn c heard on has off alone gone seen_up = rw heard (
    closed refl on has off alone
      (ap (λ ns. ns ++ (conn.state ∷ [])) seen_up ∙ ap (λ s. connected ∷ s ∷ []) gone))
notice-IsClient false a conn c heard on has off alone gone seen_up =
    rw heard (closed refl on has off alone seen_up)

pub called-IsClient :
    (set : Bool) (a tid : ℕ) (call : Call) (conn : Connection) (c : Client)
    → c.has_connection ≡ set
    → c.connected ≡ true
    → c.retry_timer ≡ none
    → c.connector.channel.polling ≡ false
    → conn.has_close ≡ true
    → is conn.state disconnected ≡ false
    → closes conn.log ≡ 0
    → c.noticed ≡ seen set (connected ∷ [])
    → After (call_connection tid call conn c) (IsClient set a)
unfolding call_connection close_connection
called-IsClient set a tid call conn c heard on has off callback live fresh seen_up =
    After-bind (IsClient set a) (invoke tid call conn) _ (λ d e.
      let f = After-use (Forward conn) _ d e (invoke-Forward tid call conn) in
      elim (closed_now conn d f callback live fresh) [
        | inl (once, gone) ↦
            rw (lt→ltb (closes conn.log) (closes d.log) (omega (arith, once, fresh))) (
              After-assert (IsClient set a) (c.tid == tid) _ (λ _.
                notice-IsClient set a d (record c { connection = none }) heard on has off refl gone
                  seen_up))
        | inr (never, live') ↦
            rw (ge→ltb (closes conn.log) (closes d.log) (omega (arith, never, fresh)))
              (lives d heard on has off refl (f.callback ∙ callback) live' never seen_up)
      ])
