-- ===== src/Server/Served.antt =====
-- What holds of each connection of a server, and how calls keep it.
use mathlib.Core.Path.{subst}
use cppweb.Base.Outcome.{After, After-bind, After-assert, After-use}
use cppweb.Base.{
  lt→ltb, ge→ltb, ℕ, ◌≤◌, ◌≡◌, ◌⊎◌, inl, inr, refl, ap, ◌∙◌, Bool, true, false, List, [], ◌∷◌, ◌++◌,
  arith, ltb, Bool-cases, if◌then◌else◌, ok, ◌==◌,
}
use cppweb.Connection.{State, connected, disconnected, rank, is, Connection}
use cppweb.Connection.Lifecycle.{Forward, closes, due}
use cppweb.Connection.Calls.{Call, invoke, invoke-Forward}
use cppweb.Server.{Entry, notice, close_connection, call_entry}

-- What the connection callback saw, where it is set.
abbrev pub seen : Bool → List State → List State
seen set states = if set then states else []

-- A connection in the set is not closed, and its close callback did not run; one that left the set is
-- closed, and the callback ran once. The connection callback saw it come up, and go down where it did.
pub data Served (set : Bool) (e : Entry) : Type 0 where
  living :
      e.conn.has_close ≡ true
      → e.member ≡ true
      → is e.conn.state disconnected ≡ false
      → closes e.conn.log ≡ 0
      → e.noticed ≡ seen set (connected ∷ [])
      → Served set e
  ended :
      e.conn.has_close ≡ true
      → e.member ≡ false
      → e.conn.state ≡ disconnected
      → closes e.conn.log ≡ 1
      → e.noticed ≡ seen set (connected ∷ disconnected ∷ [])
      → Served set e

due_open : (c : Connection) → c.has_close ≡ true → is c.state disconnected ≡ false → due c ≡ 1
due_open c set live = rw (live, set) refl

due_closed : (c : Connection) → is c.state disconnected ≡ true → due c ≡ 0
due_closed c gone = rw gone refl

state_of : (s : State) → is s disconnected ≡ true → s ≡ disconnected
state_of s gone = ground arith

of_state : (s : State) → s ≡ disconnected → is s disconnected ≡ true
of_state s gone = rw gone refl

-- The close callback of a connection that is open runs exactly when it is closed.
pub closed_now :
    (c c' : Connection)
    → Forward c c'
    → c.has_close ≡ true
    → is c.state disconnected ≡ false
    → closes c.log ≡ 0
    → ((closes c'.log ≡ 1) × (c'.state ≡ disconnected))
      ⊎ ((closes c'.log ≡ 0) × (is c'.state disconnected ≡ false))
closed_now c c' f set live fresh =
    let one = due_open c set live in
    elim (Bool-cases (is c'.state disconnected)) [
      | inl gone ↦
          inl (omega (arith, f.counted, fresh, one, due_closed c' gone), state_of c'.state gone)
      | inr open_still ↦ inr (
        omega (arith, f.counted, fresh, one, due_open c' (f.callback ∙ set) open_still),
        open_still,
      )
    ]

rank_top : (s : State) → 3 ≤ rank s → s ≡ disconnected
rank_top s h = ground arith

stays_closed :
    (c c' : Connection)
    → Forward c c'
    → c.state ≡ disconnected
    → (c'.state ≡ disconnected) × (closes c'.log ≡ closes c.log)
stays_closed c c' f closed =
    let low : 3 ≤ rank c'.state = subst (λ s. rank s ≤ rank c'.state) closed f.rises in
    let closed' = rank_top c'.state low in
    (
      closed',
      omega (
        arith,
        f.counted,
        due_closed c (of_state c.state closed),
        due_closed c' (of_state c'.state closed'),
      ),
    )

ended_notice :
    (set : Bool) (e : Entry)
    → e.conn.has_close ≡ true
    → e.member ≡ false
    → e.conn.state ≡ disconnected
    → closes e.conn.log ≡ 1
    → e.noticed ≡ seen set (connected ∷ [])
    → Served set (notice set e)
ended_notice true e has m gone once seen_up =
    ended has m gone once
      (ap (λ xs. xs ++ (e.conn.state ∷ [])) seen_up ∙ ap (λ s. connected ∷ s ∷ []) gone)
ended_notice false e has m gone once seen_up = ended has m gone once seen_up

-- What the end of a call makes of a connection, in both cases.
settled-Served :
    (set : Bool) (loop_tid tid : ℕ) (e : Entry) (c : Connection)
    → Forward e.conn c
    → Served set e
    → After
        (if ltb (closes e.conn.log) (closes c.log)
          then close_connection loop_tid tid set (record e { conn = c })
          else ok (record e { conn = c }))
        (Served set)
unfolding close_connection
settled-Served set loop_tid tid e c f (living has m live fresh seen_up) =
    elim (closed_now e.conn c f has live fresh) [
      | inl (once, gone) ↦
          rw (lt→ltb (closes e.conn.log) (closes c.log) (omega (arith, once, fresh))) (
            After-assert _ (loop_tid == tid) _ (λ _.
              let e' : Entry = record e { conn = c; member = false } in
              ended_notice set e' (f.callback ∙ has) refl gone once seen_up))
      | inr (never, live') ↦
          rw (ge→ltb (closes e.conn.log) (closes c.log) (omega (arith, never, fresh)))
            (living (f.callback ∙ has) m live' never seen_up)
    ]
settled-Served set loop_tid tid e c f (ended has m gone once seen_both) =
    let (gone', same) = stays_closed e.conn c f gone in
    rw (ge→ltb (closes e.conn.log) (closes c.log) (omega (arith, same)))
      (ended (f.callback ∙ has) m gone' (same ∙ once) seen_both)

pub call_entry-Served :
    (loop_tid : ℕ) (set : Bool) (tid : ℕ) (call : Call) (e : Entry)
    → Served set e
    → After (call_entry loop_tid set tid call e) (Served set)
unfolding call_entry
call_entry-Served loop_tid set tid call e h = After-bind _ (invoke tid call e.conn) _ (λ c called.
    settled-Served set loop_tid tid e c
      (After-use (Forward e.conn) _ c called (invoke-Forward tid call e.conn)) h)
