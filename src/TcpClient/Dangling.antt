-- ===== src/TcpClient/Dangling.antt =====
-- A retry that succeeds at once, in the callback of the retry timer.
use cppweb.Base.{
  ℕ, ◌≤◌, ◌≡◌, refl, sym, ap, ◌∙◌, true, false, none, some, List, ◌∷◌, ==_iff, ◌==◌, if◌then◌else◌,
  ok, fault, dangling, ◌>>=◌, inl, inr, assert, Option, Bool, ◌>>◌, Result-cases,
}
use cppweb.Base.Outcome.{After-use}
use cppweb.Connector.{starting, attempt}
use cppweb.Connector.Attempts.{IsSteady, attempt-Attempted}
use cppweb.Sockets.{Answer}
use cppweb.TimerQueue.{Entry, Run, cancel_in_loop, handle_read}
use cppweb.TimerQueue.Memory.{IsValid}
use cppweb.TimerQueue.Reading.{handle_read_dangling}
use cppweb.TcpClient.{Client, new_connection, cancel_retry, report, connect, retry}
use cppweb.TcpClient.Connecting.{new_connection-Met}
use cppweb.TcpClient.Retry.{succeeds, start-Reports}

-- The timer is the client's.
abbrev pub is_retry : Option ℕ → ℕ → Bool
is_retry none b = false
is_retry (some a) b = b == a

-- What the timers' callbacks do to the queue: that of the client's timer is `retry`.
unfoldable pub callbacks : Answer → Answer → Run → Client → Run
callbacks connecting asked others c b q =
    if is_retry c.retry_timer b
    then (retry c.tid connecting asked (record c { timers = q }) >>= (λ c'. ok c'.timers))
    else others b q

-- `newConnection` does to the timers what cancelling the retry timer does.
new_connection-timers :
    (connfd a : ℕ) (c : Client)
    → c.retry_timer ≡ some a
    → (new_connection c.tid connfd c >>= (λ c'. ok c'.timers)) ≡ cancel_in_loop a c.timers
unfolding new_connection cancel_retry
new_connection-timers connfd a c has = elim (Result-cases (cancel_in_loop a c.timers)) [
  | inl (q, cancelled) ↦
      let (c', called, met) = new_connection-Met connfd a c has cancelled in
      rw called (ap ok met.timers ∙ sym cancelled)
  | inr (f, failed) ↦ let own = (==_iff c.tid c.tid).1 refl in rw (own, has, failed) refl
]

-- A retry of a client that is not connected.
pub retry-connect :
    (connecting asked : Answer) (c : Client)
    → c.connected ≡ false
    → retry c.tid connecting asked c ≡ connect c.tid connecting asked c
unfolding retry
retry-connect connecting asked c apart =
    ap (λ b. assert (c.tid == c.tid) >> (if b then ok c else connect c.tid connecting asked c))
      apart
    ∙ ap (λ b. assert b >> connect c.tid connecting asked c) ((==_iff c.tid c.tid).1 refl)

pub retry-cancels :
    (connecting asked : Answer) (a : ℕ) (c : Client)
    → IsSteady c.tid c.connector
    → c.connected ≡ false
    → c.retry_timer ≡ some a
    → succeeds connecting asked ≡ true
    → (retry c.tid connecting asked c >>= (λ c'. ok c'.timers)) ≡ cancel_in_loop a c.timers
unfolding connect report attempt
retry-cancels connecting asked a c s apart has wins =
    let (r, began, tried) = attempt-Attempted c.tid (starting connecting asked) s in
    let told = After-use _ _ r began (start-Reports c.tid connecting asked c.connector) in
    let handed : r.1 ≡ some r.0.sockfd =
      told ∙ ap (λ b. if b then some r.0.sockfd else none) wins in
    let connected_at : connect c.tid connecting asked c
        ≡ new_connection c.tid r.0.sockfd (record c { connector = r.0 }) =
      rw (began, handed, report) refl in
    rw (retry-connect connecting asked c apart, connected_at)
      (new_connection-timers r.0.sockfd a (record c { connector = r.0 }) has)

-- Where a client is not connected, its retry timer is the first timer of the loop and has expired, set and
-- heap of the timers agree, and the connector is polled exactly while it waits for something: a retry for
-- which the kernel answers at once that the connection is made deletes its own timer, and the `handleRead`
-- that runs it uses the timer after that.
pub retry-handle_read :
    (connecting asked : Answer) (others : Run) (now later : ℕ) (c : Client) {e : Entry}
    {rest : List Entry}
    → IsSteady c.tid c.connector
    → c.connected ≡ false
    → c.retry_timer ≡ some e.1
    → IsValid c.timers
    → c.timers.timers ≡ e ∷ rest
    → e.0 ≤ now
    → succeeds connecting asked ≡ true
    → handle_read (callbacks connecting asked others c) now later c.timers ≡ fault dangling
unfolding callbacks
retry-handle_read connecting asked others now later c {e} {rest} s apart has v first due wins =
    let here : is_retry c.retry_timer e.1 ≡ true =
      ap (λ o. is_retry o e.1) has ∙ (==_iff e.1 e.1).1 refl in
    handle_read_dangling (callbacks connecting asked others c) now later v first due (λ q1.
      rw here (retry-cancels connecting asked e.1 (record c { timers = q1 }) s apart has wins))
