-- ===== src/Server/Events.antt =====
-- Every event of a server keeps its connections in order, and the ends of connections and servers.

use cppweb.Sockets.{given, refused}
use cppweb.Acceptor
use cppweb.Acceptor.{is_tolerated, Acceptor}
use cppweb.Base.Outcome.{After, After-bind, After-if, After-use, After_of_Returns}
use cppweb.Base.{
  ◌||◌, ◌++◌, ℕ, ◌≡◌, inl, inr, refl, ap, ◌∙◌, Bool, true, false, not, ◌&&◌, List, [], ◌∷◌, arith,
  Bool-cases, Result, Returns, ok, ◌==◌, ==_iff, if◌then◌else◌, fault, assertion, ◌⊎◌, Option, none,
  some, ◌>>=◌,
}
use cppweb.Acceptor
use cppweb.Buffer.{initial_size}
use cppweb.Buffer.Content.{make-Holds}
use cppweb.Connection
use cppweb.Channel.{tie}
use cppweb.Connection.{
  record_effect, controlled, Connection, State, connected, disconnected, is, connect_established,
}
use cppweb.Connection.Lifecycle.{closes}
use cppweb.Interest.Returns.{enable_read-Returns, disable_all-Returns}
use cppweb.Server.{
  Entry, Server, notice, new_connection, at_fd, destruct, release, handle, handle_all, Event,
  destruct_members, accepting, calling, releasing, destroy, call_entry,
}
use cppweb.Server.Served.{Served, living, ended, call_entry-Served}

abbrev pub AllServed : Bool → List Entry → Type 0
AllServed set [] = Unit
AllServed set (e ∷ es) = Served set e × AllServed set es

-- All of the server's connections are served.
abbrev pub IsServing : Server → Type 0
IsServing s = AllServed s.has_connection s.entries

at_fd-AllServed :
    (set : Bool) (fd : ℕ) (f : Entry → Result Entry) (es : List Entry)
    → ((e : Entry) → Served set e → After (f e) (Served set))
    → AllServed set es
    → After (at_fd fd f es) (AllServed set)
unfolding at_fd
at_fd-AllServed set fd f [] keep h = tt
at_fd-AllServed set fd f (e ∷ es) keep h =
    After-if (e.fd == fd) _ _ _
      (After-bind _ (f e) _ (λ e' called. (After-use (Served set) _ e' called (keep e h.0), h.1)))
      (After-bind _ (at_fd fd f es) _ (λ es' called.
        (h.0, After-use (AllServed set) _ es' called (at_fd-AllServed set fd f es keep h.1))))

-- The assertion of the destructor holds.
destruct-ok :
    (set : Bool) (b : Bool) (e : Entry)
    → Served set e
    → (b && not e.member) ≡ true
    → destruct e.conn ≡ ok tt
unfolding destruct
destruct-ok set b e (living has m live fresh up) here = absurd (out_of_set b e.member m here)
  where
    out_of_set : (b m : Bool) → m ≡ true → (b && not m) ≡ true → ⊥
    out_of_set b m p q = ground arith
destruct-ok set b e (ended has m gone once both) here = rw gone refl

release-AllServed :
    (set : Bool) (fd : ℕ) (es : List Entry)
    → AllServed set es
    → Returns (release fd es) (AllServed set)
unfolding release destruct
release-AllServed set fd [] h = ([], refl, tt)
release-AllServed set fd (e ∷ es) h = elim (Bool-cases ((e.fd == fd) && not e.member)) [
  | inl here ↦ (es, rw (here, destruct-ok set (e.fd == fd) e h.0 here) refl, h.1)
  | inr later ↦
      let (es', called, rest) = release-AllServed set fd es h.1 in
      (e ∷ es', rw (later, called) refl, (h.0, rest))
]

new-Served :
    (set : Bool) (e : Entry)
    → e.conn.has_close ≡ true
    → e.member ≡ true
    → e.conn.state ≡ connected
    → closes e.conn.log ≡ 0
    → e.noticed ≡ []
    → Served set (notice set e)
new-Served true e has m up fresh none_yet =
    living has m (rw up refl) fresh
      (ap (λ xs. xs ++ (e.conn.state ∷ [])) none_yet ∙ ap (λ s. s ∷ []) up)
new-Served false e has m up fresh none_yet = living has m (rw up refl) fresh none_yet

new_connection-IsServing :
    (connfd : ℕ) (s : Server) → IsServing s → Returns (new_connection s.tid connfd s) IsServing
unfolding new_connection cppweb.Connection.make connect_established tie
new_connection-IsServing connfd s h =
    let (empty, made, held) = make-Holds initial_size (omega arith) in
    let c0 : Connection = record (cppweb.Connection.make s.tid connfd empty) {
      has_message = s.has_message;
      has_write_complete = s.has_write_complete;
      has_close = true;
    } in
    let own = (==_iff s.tid s.tid).1 refl in
    let (p, enabled, f) = enable_read-Returns (tie c0.channel) in
    let c : Connection =
      record_effect (controlled p.1) (record c0 { state = connected; channel = p.0 }) in
    let e : Entry = record { fd = connfd; conn = c; member = true; noticed = [] } in
    (
      record s { entries = notice s.has_connection e ∷ s.entries },
      rw (own, made, enabled) refl,
      (new-Served s.has_connection e refl refl refl refl refl, h),
    )

handle-IsServing : (e : Event) (s : Server) → IsServing s → After (handle e s) IsServing
unfolding handle
handle-IsServing (accepting answer) s h =
    After-bind _ (cppweb.Acceptor.handle_read answer) _ (λ r _. accepted_one r)
  where
    accepted_one :
        (r : Option ℕ)
        → After (elim r [ none ↦ ok s | some connfd ↦ new_connection s.tid connfd s ]) IsServing
    accepted_one none = h
    accepted_one (some connfd) = After_of_Returns (new_connection-IsServing connfd s h)
handle-IsServing (calling tid fd call) s h =
    After-bind _ (at_fd fd (call_entry s.tid s.has_connection tid call) s.entries) _ (λ es called.
      After-use (AllServed s.has_connection) _ es called (
        at_fd-AllServed s.has_connection fd (call_entry s.tid s.has_connection tid call) s.entries
          (call_entry-Served s.tid s.has_connection tid call) h))
handle-IsServing (releasing fd) s h = After-bind _ (release fd s.entries) _ (λ es called.
    After-use (AllServed s.has_connection) _ es called
      (After_of_Returns (release-AllServed s.has_connection fd s.entries h)))

-- Over any events that do not fail, every connection in the server's set is open, and its close
-- callback did not run; every other one that lives is closed, and its close callback ran once. The
-- connection callback, where it is set, saw each come up once, and go down once where it is closed.
pub handle_all-IsServing :
    (es : List Event) (s s' : Server) → IsServing s → handle_all es s ≡ ok s' → IsServing s'
unfolding handle_all
handle_all-IsServing es s s' h e = After-use IsServing (handle_all es s) s' e (all es s h)
  where
    all : (es : List Event) (s : Server) → IsServing s → After (handle_all es s) IsServing
    all [] s h = h
    all (e ∷ es) s h =
        After-bind _ (handle e s) _
          (λ s1 handled. all es s1 (After-use IsServing _ s1 handled (handle-IsServing e s h)))

-- The event is an answer of `accept4` that the acceptor deals with, or the end of a connection.
abbrev pub IsTolerated : Event → Type 0
IsTolerated (accepting (given connfd)) = Unit {0}
IsTolerated (accepting (refused errno)) = is_tolerated errno ≡ true
IsTolerated (calling tid fd call) = ⊥
IsTolerated (releasing fd) = Unit {0}

-- In a server whose connections are served, an answer of `accept4` that the acceptor tolerates, and
-- the end of a connection that nobody holds, return: no assertion fails, in particular not the one on
-- the state in the destructor of `TCPConnection`.
pub handle-Returns :
    (e : Event) (s : Server) → IsTolerated e → IsServing s → Returns (handle e s) IsServing
unfolding handle cppweb.Acceptor.handle_read
handle-Returns (accepting (given connfd)) s t h = new_connection-IsServing connfd s h
handle-Returns (accepting (refused errno)) s t h = (s, rw t refl, h)
handle-Returns (calling tid fd call) s t h = absurd t
handle-Returns (releasing fd) s t h =
    let (es, called, rest) = release-AllServed s.has_connection fd s.entries h in
    (record s { entries = es }, rw called refl, rest)

-- A connection is in the set, and nobody else holds it.
abbrev pub has_last : (Entry → Bool) → List Entry → Bool
has_last held [] = false
has_last held (e ∷ es) = (e.member && not (held e)) || has_last held es

-- The connections without the set.
abbrev pub without_set : List Entry → List Entry
without_set [] = []
without_set (e ∷ es) = record e { member = false } ∷ without_set es

destruct_members_lem :
    (set : Bool) (held : Entry → Bool) (es : List Entry)
    → AllServed set es
    → destruct_members held es ≡ (if has_last held es then fault assertion else ok (without_set es))
unfolding destruct_members destruct
destruct_members_lem set held [] h = refl
destruct_members_lem set held (e ∷ es) h = ends h.0 (destruct_members_lem set held es h.1)
  where
    lives_on :
        (b : Bool)
        → ((if b then fault assertion else ok (without_set es))
            >>= (λ es'. ok (record e { member = false } ∷ es')))
          ≡ (if b then fault assertion else ok (without_set (e ∷ es)))
    lives_on true = refl
    lives_on false = refl

    ends :
        Served set e
        → destruct_members held es
          ≡ (if has_last held es then fault assertion else ok (without_set es))
        → destruct_members held (e ∷ es)
          ≡ (if has_last held (e ∷ es) then fault assertion else ok (without_set (e ∷ es)))
    ends (living has m live fresh up) rest = elim (Bool-cases (held e)) [
      | inl shared ↦ rw (shared, m, rest) (lives_on (has_last held es))
      | inr sole ↦ rw (sole, m, live) refl
    ]
    ends (ended has m gone once both) rest = rw (m, rest) (lives_on (has_last held es))

-- In a server whose connections are served, the destructor of one that listens, in its loop's thread, fails
-- the assertion in the destructor of `TCPConnection` exactly where a connection is in the set, and so open,
-- that nobody else holds. Else it returns, its acceptor is closed, and the connections that live, which
-- others hold, live on without the set.
pub destroy_lem :
    (held : Entry → Bool) (s : Server)
    → IsServing s
    → s.acceptor.channel.polling ≡ true
    → ((has_last held s.entries ≡ true)
        × (destroy held s.acceptor.channel.loop_tid s ≡ fault assertion))
      ⊎ ((has_last held s.entries ≡ false)
          × Returns
              (destroy held s.acceptor.channel.loop_tid s)
              (λ r. (r.0.closed ≡ true) × (r.1 ≡ without_set s.entries)))
unfolding destroy cppweb.Acceptor.destroy
destroy_lem held s h on =
    let (p, e, off) = disable_all-Returns s.acceptor.channel on in
    let ends = destruct_members_lem s.has_connection held s.entries h in
    elim (Bool-cases (has_last held s.entries)) [
      | inl some_last ↦ inl (some_last, rw (e, ends, some_last) refl)
      | inr none_last ↦
          let after : Acceptor = record s.acceptor { channel = p.0; closed = true } in
          inr (
            none_last,
            ((after, without_set s.entries), rw (e, ends, none_last) refl, (refl, refl)),
          )
    ]
