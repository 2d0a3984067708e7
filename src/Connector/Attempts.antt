-- ===== src/Connector/Attempts.antt =====
-- A connector never fails an assertion, and hands its descriptor over only while nobody polls it.
use mathlib.Core.Path.{subst}
use cppweb.Base.{
  ℕ, ◌≡◌, ◌⊎◌, inl, inr, refl, sym, ap, ◌∙◌, Bool, true, false, not, Option, none, some, Bool-cases,
  ==_iff, ◌==◌, if◌then◌else◌, Returns, ok, ◌∷◌, [], ◌++◌,
}
use cppweb.Channel
use cppweb.Channel.{epollout, is_writing, has_any, Channel, is_none_events, set_callback}
use cppweb.Interest.{enable_write, disable_all}
use cppweb.Interest.Masks.{update_channel-Returns}
use cppweb.Interest.Returns.{enable_write-Returns}
use cppweb.Sockets.{Answer, refused, given, create_socket}
use cppweb.Connector.{
  on_channel, Connector, Attempt, starting, writeable, make, pending_error, is_in_progress,
  handle_write, after_connect, start, attempt,
}

-- The connector belongs to the loop of thread `tid`, and is polled exactly while it waits for an event.
pub record IsSteady (tid : ℕ) (c : Connector) : Type 0 where
  pub loop_tid : c.channel.loop_tid ≡ tid
  pub polled : c.channel.polling ≡ not (is_none_events c.channel)

pub make-IsSteady : (tid fd : ℕ) → Returns (make tid (given fd)) (IsSteady tid)
unfolding make create_socket set_callback cppweb.Channel.make is_none_events
make-IsSteady tid fd = (_, refl, record { loop_tid = refl; polled = refl })

-- What an attempt leaves and reports.
pub record Attempted (tid : ℕ) (c : Connector) (r : Connector × Option ℕ) : Type 0 where
  pub steady : IsSteady tid r.0
  pub sockfd : r.0.sockfd ≡ c.sockfd
  pub handed : (r.1 ≡ none) ⊎ ((r.1 ≡ some c.sockfd) × (r.0.channel.polling ≡ false))

-- What a channel that waits to write waits for is something.
writing_some : (c : Channel) → is_writing c ≡ true → is_none_events c ≡ false
unfolding is_none_events is_writing has_any
writing_some c h = elim (Bool-cases (c.events == 0)) [
  | inl empty ↦
      absurd (clash (subst (λ n. has_any n epollout ≡ true) ((==_iff c.events 0).0 empty) h))
  | inr some_left ↦ some_left
]
  where
    clash : false ≡ true → ⊥
    clash e = cc

-- `disableAll` of a channel that waits for something.
stop_waiting :
    (tid : ℕ) (c : Connector)
    → IsSteady tid c
    → is_none_events c.channel ≡ false
    → Returns
        (on_channel (disable_all tid) c)
        (λ d. IsSteady tid d × (d.sockfd ≡ c.sockfd) × (d.channel.polling ≡ false))
unfolding disable_all is_none_events
stop_waiting tid c s some_events =
    let on : c.channel.polling ≡ true = s.polled ∙ ap not some_events in
    let (p, e, u) = update_channel-Returns (record c.channel { events = 0 }) (inl on) in
    let called : disable_all tid c.channel ≡ ok p =
      subst (λ t. disable_all t c.channel ≡ ok p) s.loop_tid e in
    (
      record c { channel = p.0; log = c.log ++ (p.1 ∷ []) },
      rw called refl,
      (
        record {
          loop_tid = u.loop_tid ∙ s.loop_tid;
          polled = u.polling ∙ sym (ap (λ n. not (n == 0)) u.events);
        },
        refl,
        u.polling,
      ),
    )

start_waiting :
    (tid : ℕ) (c : Connector)
    → IsSteady tid c
    → Returns (on_channel (enable_write tid) c) (λ d. IsSteady tid d × (d.sockfd ≡ c.sockfd))
start_waiting tid c s =
    let (p, e, f) = enable_write-Returns c.channel in
    let called : enable_write tid c.channel ≡ ok p =
      subst (λ t. enable_write t c.channel ≡ ok p) s.loop_tid e in
    (
      record c { channel = p.0; log = c.log ++ (p.1 ∷ []) },
      rw called refl,
      (
        record {
          loop_tid = f.loop_tid ∙ s.loop_tid;
          polled = f.polled ∙ sym (ap not (writing_some p.0 f.writes));
        },
        refl,
      ),
    )

-- The report about a connector that nobody polls.
report-Attempted :
    (b : Bool) (tid : ℕ) (c d : Connector)
    → IsSteady tid d
    → d.sockfd ≡ c.sockfd
    → d.channel.polling ≡ false
    → Attempted tid c (d, if b then some d.sockfd else none)
report-Attempted true tid c d s same off = record {
  steady = s;
  sockfd = same;
  handed = inr (ap some same, off);
}
report-Attempted false tid c d s same off = record { steady = s; sockfd = same; handed = inl refl }

handle_write-Attempted :
    (tid : ℕ) (asked : Answer) (c : Connector)
    → IsSteady tid c
    → Returns (handle_write tid asked c) (Attempted tid c)
unfolding handle_write
handle_write-Attempted tid asked c s =
    let own = (==_iff c.channel.loop_tid tid).1 s.loop_tid in
    elim (Bool-cases (is_none_events c.channel)) [
      | inl idle ↦ (
        (c, if pending_error asked == 0 then some c.sockfd else none),
        rw (own, idle) refl,
        report-Attempted (pending_error asked == 0) tid c c s refl (s.polled ∙ ap not idle),
      )
      | inr busy ↦
          let (d, e, (steady, same, off)) = stop_waiting tid c s busy in
          (
            (d, if pending_error asked == 0 then some d.sockfd else none),
            rw (own, busy, e) refl,
            report-Attempted (pending_error asked == 0) tid c d steady same off,
          )
    ]

after_connect-Attempted :
    (tid : ℕ) (connecting asked : Answer) (c : Connector)
    → IsSteady tid c
    → Returns (after_connect tid connecting asked c) (Attempted tid c)
unfolding after_connect
after_connect-Attempted tid (given n) asked c s = handle_write-Attempted tid asked c s
after_connect-Attempted tid (refused errno) asked c s = elim (Bool-cases (is_in_progress errno)) [
  | inl waiting ↦
      let (d, e, (steady, same)) = start_waiting tid c s in
      (
        (d, none),
        rw (waiting, e) refl,
        record { steady = steady; sockfd = same; handed = inl refl },
      )
  | inr failed ↦
      ((c, none), rw failed refl, record { steady = s; sockfd = refl; handed = inl refl })
]

-- In the loop's thread, on a connector that is polled exactly while it waits for something, which a
-- new one is, every `start` and `handleWrite` returns and keeps it so, whatever the kernel answers. A
-- descriptor that is handed to the callback is the connector's own, and nobody polls it then, so that
-- a new channel on it can be added to the poller.
pub attempt-Attempted :
    (tid : ℕ) (a : Attempt) {c : Connector}
    → IsSteady tid c
    → Returns (attempt tid a c) (Attempted tid c)
unfolding attempt start
attempt-Attempted tid (starting connecting asked) {c} s =
    let own = (==_iff c.channel.loop_tid tid).1 s.loop_tid in
    rw own (after_connect-Attempted tid connecting asked c s)
attempt-Attempted tid (writeable asked) {c} s = handle_write-Attempted tid asked c s
