-- ===== src/TcpClient/Retry.antt =====
-- What the connector's answers make of the client, and a retry that succeeds at once.
use cppweb.Interest.{disable_all, enable_write}
use cppweb.Channel.{is_none_events}
use cppweb.Base.Outcome.{After, After-assert, After-bind, After-if, After-use}
use mathlib.Core.Path.{subst}
use cppweb.Base.{
  ℕ, ◌≡◌, ◌≢◌, inl, inr, refl, sym, ap, ◌∙◌, Bool, true, false, not, Option, none, some, ◌==◌,
  if◌then◌else◌, Returns, ok, ◌>>=◌,
}
use cppweb.Connector
use cppweb.Connector.{
  Connector, handle_write, after_connect, pending_error, is_in_progress, starting, writeable,
  on_channel, attempt,
}
use cppweb.Connector.Attempts.{IsSteady, Attempted, attempt-Attempted}
use cppweb.Sockets.{Answer, refused, given}
use cppweb.TimerQueue.{TimerQueue}
use cppweb.TimerQueue.Members.{All, Has}
use cppweb.TimerQueue.Memory.{IsValid}
use cppweb.TimerQueue.Cancel.{cancel_in_loop-IsValid}
use cppweb.TcpClient
use cppweb.TcpClient.{Client, new_connection, report, connect}
use cppweb.TcpClient.Connecting.{Met, new_connection-Met}

-- What `start` reports.
abbrev pub succeeds : Answer → Answer → Bool
succeeds (given n) asked = pending_error asked == 0
succeeds (refused errno) asked = false

abbrev pub Reports : Bool → Connector × Option ℕ → Type 0
Reports b r = r.1 ≡ (if b then some r.0.sockfd else none)

handle_write-Reports :
    (tid : ℕ) (asked : Answer) (c : Connector)
    → After (handle_write tid asked c) (Reports (pending_error asked == 0))
unfolding handle_write
handle_write-Reports tid asked c =
    let P = Reports (pending_error asked == 0) in
    After-assert P (c.channel.loop_tid == tid) _ (λ _.
      After-bind P (if not (is_none_events c.channel) then on_channel (disable_all tid) c else ok c)
        (λ c'. ok (c', if pending_error asked == 0 then some c'.sockfd else none)) (λ c' e. refl))

pub start-Reports :
    (tid : ℕ) (connecting asked : Answer) (c : Connector)
    → After (cppweb.Connector.start tid connecting asked c) (Reports (succeeds connecting asked))
unfolding cppweb.Connector.start after_connect
start-Reports tid (given n) asked c =
    After-assert (Reports (pending_error asked == 0)) (c.channel.loop_tid == tid)
      (handle_write tid asked c) (λ _. handle_write-Reports tid asked c)
start-Reports tid (refused errno) asked c =
    let P = Reports false in
    After-assert P (c.channel.loop_tid == tid) (after_connect tid (refused errno) asked c) (λ _.
      After-if (is_in_progress errno) P (on_channel (enable_write tid) c >>= (λ c'. ok (c', none)))
        (ok (c, none))
        (After-bind P (on_channel (enable_write tid) c) (λ c'. ok (c', none)) (λ c' e. refl)) refl)

-- What an attempt makes of a client with the retry timer at `a`. Where it does not succeed, only the
-- connector changes.
pub record Tried (success : Bool) (a : ℕ) (c c' : Client) : Type 0 where
  pub steady : IsSteady c.tid c'.connector
  pub sockfd : c'.connector.sockfd ≡ c.connector.sockfd
  pub failed : success ≡ false → c' ≡ record c { connector = c'.connector }
  pub unpolled : success ≡ true → c'.connector.channel.polling ≡ false
  pub met :
      success ≡ true → Met c.connector.sockfd c'.timers (record c { connector = c'.connector }) c'
  pub deleted : success ≡ true → (c'.timers.heap a ≡ none) × All (λ e. e.1 ≢ a) c'.timers.timers
  pub valid : IsValid c'.timers

pub report-Tried :
    (b : Bool) (at a : ℕ) (c : Client) (r : Connector × Option ℕ)
    → Attempted c.tid c.connector r
    → Reports b r
    → IsValid c.timers
    → Has (at, a) c.timers.timers
    → c.retry_timer ≡ some a
    → Returns (report c.tid r c) (Tried b a c)
unfolding report
report-Tried true at a c r tried told v m has =
    let c1 : Client = record c { connector = r.0 } in
    let (q, cancelled, (v', gone, erased, same)) = cancel_in_loop-IsValid at a v m in
    let (c', called, met) = new_connection-Met r.0.sockfd a c1 has cancelled in
    (
      c',
      rw told called,
      record {
        steady = subst (IsSteady c.tid) (sym met.connector) tried.steady;
        sockfd = ap (λ (k : Connector). k.sockfd) met.connector ∙ tried.sockfd;
        failed = λ e. cc;
        unpolled = λ _. ap (λ (k : Connector). k.channel.polling) met.connector ∙ unpolled;
        met = λ _. met_now met tried.sockfd;
        deleted = λ _. (
          subst (λ (p : TimerQueue). p.heap a ≡ none) (sym met.timers) gone,
          subst (λ (p : TimerQueue). All (λ e. e.1 ≢ a) p.timers) (sym met.timers) erased,
        );
        valid = subst IsValid (sym met.timers) v';
      },
    )
  where
    met_now :
        {q : TimerQueue} {c' : Client}
        → Met r.0.sockfd q (record c { connector = r.0 }) c'
        → r.0.sockfd ≡ c.connector.sockfd
        → Met c.connector.sockfd c'.timers (record c { connector = c'.connector }) c'
    met_now {q} {c'} met same =
        subst (λ n. Met n c'.timers (record c { connector = c'.connector }) c') same
          (subst (λ p. Met r.0.sockfd p (record c { connector = c'.connector }) c') (sym met.timers)
            (subst (λ k. Met r.0.sockfd q (record c { connector = k }) c') (sym met.connector) met))

    unpolled : r.0.channel.polling ≡ false
    unpolled = elim tried.handed [
      | inl nothing ↦ absurd (clash (sym told ∙ nothing))
      | inr (e, off) ↦ off
    ]
      where
        clash : {k : ℕ} → some k ≡ none → ⊥
        clash e = cc
report-Tried false at a c r tried told v m has = (
  record c { connector = r.0 },
  rw told refl,
  record {
    steady = tried.steady;
    sockfd = tried.sockfd;
    failed = λ _. refl;
    unpolled = λ e. cc;
    met = λ e. cc;
    deleted = λ e. cc;
    valid = v;
  },
)

-- In the loop's thread, where the client has a retry timer in the set, set and heap of the loop's timers
-- agree, and the connector is polled exactly while it waits for something: the event that the connector's
-- socket can be written, and an attempt of `start` or `retry`, return. Where the kernel answers that the
-- attempt succeeded, the client is connected on the connector's descriptor, which only the new connection's
-- channel polls, the retry timer is deleted and out of the set, and the connection callback, where it is set,
-- saw the connection come up. In every other case only the connector changes.
pub connect-Tried :
    (at a : ℕ) (connecting asked : Answer) {c : Client}
    → IsSteady c.tid c.connector
    → IsValid c.timers
    → Has (at, a) c.timers.timers
    → c.retry_timer ≡ some a
    → Returns (cppweb.TcpClient.writeable c.tid asked c) (Tried (pending_error asked == 0) a c)
      × Returns (connect c.tid connecting asked c) (Tried (succeeds connecting asked) a c)
unfolding cppweb.TcpClient.writeable connect attempt
connect-Tried at a connecting asked {c} s v m has =
    let (r, wrote, tried) = attempt-Attempted c.tid (writeable asked) s in
    let (c', told, done) =
      report-Tried (pending_error asked == 0) at a c r tried
        (After-use _ _ r wrote (handle_write-Reports c.tid asked c.connector)) v m has in
    let (r2, began, tried2) = attempt-Attempted c.tid (starting connecting asked) s in
    let (c2, told2, done2) =
      report-Tried (succeeds connecting asked) at a c r2 tried2
        (After-use _ _ r2 began (start-Reports c.tid connecting asked c.connector)) v m has in
    ((c', rw wrote told, done), (c2, rw began told2, done2))
