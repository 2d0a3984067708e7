-- ===== src/TcpClient/Elapse.antt =====
-- `TimerQueue::handleRead` of cppweb/TimerQueue.cpp in the loop of a client of cppweb/TCPClient.cpp, where the
-- callback of the client's retry timer is `retry`. The callbacks of the loop's other timers leave the client
-- and the queue alone.
use cppweb.Base.{ℕ, not, none, List, [], ◌∷◌, ◌++◌, if◌then◌else◌, Result, ok, ◌>>=◌, ◌>>◌, assert}
use cppweb.Sockets.{Answer}
use cppweb.TimerQueue.{Entry, deref, is_expired, settle, get_expired, arm_first}
use cppweb.TcpClient.{Client, retry}
use cppweb.TcpClient.Dangling.{is_retry}

-- The callback of the timer at an address.
unfoldable pub run_callback : Answer → Answer → ℕ → Client → Result Client
run_callback connecting asked b c =
    if is_retry c.retry_timer b then retry c.tid connecting asked c else ok c

-- One round of the loop of `handleRead`, up to the callback.
unfoldable pub fire_timer : Answer → Answer → ℕ → Entry → Client → Result Client
fire_timer connecting asked now e c = do
  t ← deref e.1 c.timers
  assert (is_expired t now)
  let c' = record c { timers = record c.timers { fired = c.timers.fired ++ (e.1 ∷ []) } }
  if not t.canceled then run_callback connecting asked e.1 c' else ok c

unfoldable pub run_due : Answer → Answer → ℕ → List Entry → Client → Result Client
run_due connecting asked now [] c = ok c
run_due connecting asked now (e ∷ es) c = do
  c1 ← fire_timer connecting asked now e c
  q ← settle e c1.timers
  run_due connecting asked now es (record c1 { timers = q })

-- `handleRead`: the clock reads `now` first, and `later` when the descriptor is set again.
unfoldable pub elapse : Answer → Answer → ℕ → ℕ → Client → Result Client
elapse connecting asked now later c = do
  let r = get_expired now (record c.timers { armed = none })
  c' ← run_due connecting asked now r.0 (record c { timers = r.1 })
  ok (record c' { timers = arm_first later c'.timers })
