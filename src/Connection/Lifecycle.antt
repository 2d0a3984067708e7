-- ===== src/Connection/Lifecycle.antt =====
-- The states of a connection over any sequence of calls: they only go forward, and the user's close
-- callback runs at most once.

use cppweb.Base.Outcome.{After, After-bind, After-assert, After-use}
use cppweb.Base.{
  sym, ◌||◌, ℕ, ◌+◌, ◌≤◌, ◌≡◌, refl, ◌∙◌, Bool, true, false, List, [], ◌∷◌, ◌++◌, arith, Result,
  if◌then◌else◌, ◌==◌,
}
use cppweb.Channel.{Channel}
use cppweb.Interest.{disable_all}
use cppweb.Epoller.{Ctl}
use cppweb.Connection.{
  connected, disconnecting, record_effect, State, rank, is, disconnected, Connection, Effect,
  written, shut_down, message_call, close_call, controlled, on_channel, handle_close,
}

-- How often the close callback ran.
abbrev pub closes : List Effect → ℕ
closes [] = 0
closes (written bytes ∷ log) = closes log
closes (shut_down ∷ log) = closes log
closes (message_call ∷ log) = closes log
closes (close_call ∷ log) = closes log + 1
closes (controlled k ∷ log) = closes log

pub closes-append :
    (log : List Effect) (e : Effect) → closes (log ++ (e ∷ [])) ≡ closes log + closes (e ∷ [])
closes-append [] e = omega arith
closes-append (written bytes ∷ log) e = closes-append log e
closes-append (shut_down ∷ log) e = closes-append log e
closes-append (message_call ∷ log) e = closes-append log e
closes-append (close_call ∷ log) e = omega (arith, closes-append log e)
closes-append (controlled k ∷ log) e = closes-append log e

-- 1 until the connection is closed.
abbrev pub open_count : State → ℕ
open_count s = if is s disconnected then 0 else 1

-- 1 while the close callback is set and still to come.
abbrev pub due : Connection → ℕ
due c = if is c.state disconnected then 0 else (if c.has_close then 1 else 0)

-- The state does not go back, and the close callback runs exactly where the connection is closed and
-- the callback is set.
pub record Forward (c c' : Connection) : Type 0 where
  pub rises : rank c.state ≤ rank c'.state
  pub callback : c'.has_close ≡ c.has_close
  pub counted : closes c'.log + due c' ≡ closes c.log + due c
  pub closed_once : closes c'.log + open_count c'.state ≤ closes c.log + open_count c.state

-- Neither the state nor the count of close callbacks changed.
pub record Still (c c' : Connection) : Type 0 where
  pub state : c'.state ≡ c.state
  pub callback : c'.has_close ≡ c.has_close
  pub closes_same : closes c'.log ≡ closes c.log

pub Still-Forward : {c c' : Connection} → Still c c' → Forward c c'
Still-Forward s = record {
  rises = rw s.state (omega arith);
  callback = s.callback;
  counted = rw (s.state, s.callback, s.closes_same) refl;
  closed_once = rw (s.state, s.closes_same) (omega arith);
}

pub Forward-trans : {a b c : Connection} → Forward a b → Forward b c → Forward a c
Forward-trans f g = record {
  rises = omega (arith, f.rises, g.rises);
  callback = g.callback ∙ f.callback;
  counted = g.counted ∙ f.counted;
  closed_once = omega (arith, f.closed_once, g.closed_once);
}

pub on_channel-Still :
    (f : Channel → Result (Channel × Ctl)) (c : Connection) → After (on_channel f c) (Still c)
on_channel-Still f c = After-bind (Still c) (f c.channel) _ (λ p e. record {
  state = refl;
  callback = refl;
  closes_same = omega (arith, closes-append c.log (controlled p.1));
})

-- Entering `log` with an effect other than the close callback changes nothing here.
pub entered-Still :
    (e : Effect) (c : Connection) → closes (e ∷ []) ≡ 0 → Still c (record_effect e c)
entered-Still e c h = record {
  state = refl;
  callback = refl;
  closes_same = omega (arith, closes-append c.log e);
}

pub Still-trans : {a b c : Connection} → Still a b → Still b c → Still a c
Still-trans f g = record {
  state = g.state ∙ f.state;
  callback = g.callback ∙ f.callback;
  closes_same = g.closes_same ∙ f.closes_same;
}

pub Still-if :
    (b : Bool) (f : Connection → Connection) (c : Connection)
    → Still c (f c)
    → Still c (if b then f c else c)
Still-if true f c s = s
Still-if false f c s = record { state = refl; callback = refl; closes_same = refl }

closing_rank :
    (s : State) → (is s connected || is s disconnecting) ≡ true → (rank s ≤ 3) × (open_count s ≡ 1)
closing_rank s live = ground arith

due_live :
    (c : Connection) {b : Bool}
    → (is c.state connected || is c.state disconnecting) ≡ true
    → c.has_close ≡ b
    → due c ≡ (if b then 1 else 0)
due_live c live set = ground arith

due_closed : (c : Connection) → c.state ≡ disconnected → due c ≡ 0
due_closed c closed = ground arith

closed-Forward :
    (b : Bool) (c c1 : Connection)
    → c1.has_close ≡ b
    → (is c.state connected || is c.state disconnecting) ≡ true
    → Still (record c { state = disconnected }) c1
    → Forward c (if b then record_effect close_call c1 else c1)
closed-Forward true c c1 set live s =
    let (low, one) = closing_rank c.state live in
    record {
      rises = rw s.state low;
      callback = s.callback;
      counted = omega (
        arith,
        s.closes_same,
        closes-append c1.log close_call,
        due_live c live (sym s.callback ∙ set),
        due_closed (record_effect close_call c1) s.state,
      );
      closed_once =
          rw (s.state, one) (omega (arith, s.closes_same, closes-append c1.log close_call));
    }
closed-Forward false c c1 unset live s =
    let (low, one) = closing_rank c.state live in
    record {
      rises = rw s.state low;
      callback = s.callback;
      counted =
          omega
            (arith, s.closes_same, due_live c live (sym s.callback ∙ unset), due_closed c1 s.state);
      closed_once = rw (s.state, one) (omega (arith, s.closes_same));
    }

pub handle_close-Forward : (tid : ℕ) (c : Connection) → After (handle_close tid c) (Forward c)
unfolding handle_close
handle_close-Forward tid c = After-assert _ (c.channel.loop_tid == tid) _ (λ _.
    After-assert _ (is c.state connected || is c.state disconnecting) _ (λ live.
      After-bind _ (on_channel (disable_all tid) (record c { state = disconnected })) _ (λ c1 e.
        closed-Forward c1.has_close c c1 refl live (
          After-use (Still (record c { state = disconnected })) _ c1 e
            (on_channel-Still (disable_all tid) (record c { state = disconnected }))))))
