-- ===== src/Server/Race.antt =====
-- `forceClose` and `shutdown` of another thread, between whose two accesses to the state the loop closes the
-- connection.
use cppweb.Base.{
  ℕ, ◌≡◌, inl, inr, refl, true, false, Returns, fault, assertion, Bool-cases, ==_iff, ◌==◌,
}
use cppweb.Channel.{is_none_events}
use cppweb.Interest.{disable_all}
use cppweb.Interest.Masks.{update_channel_fault}
use cppweb.Interest.Returns.{disable_all-Returns}
use cppweb.Connection.{
  Connection, connected, disconnecting, disconnected, is, handle_close, force_close_exchange,
  force_close_in_loop, record_effect, controlled, close_call, shutdown_exchange,
}
use cppweb.Server.{destruct}

-- What the race leaves.
pub record Stranded (c d : Connection) : Type 0 where
  pub state : d.state ≡ disconnecting
  pub tasks : d.tasks ≡ c.tasks
  pub ends : destruct d ≡ fault assertion
  pub closes : (tid : ℕ) → force_close_in_loop tid d ≡ fault assertion

close_again :
    (tid : ℕ) (c : Connection)
    → c.state ≡ disconnecting
    → c.channel.polling ≡ false
    → force_close_in_loop tid c ≡ fault assertion
unfolding force_close_in_loop handle_close disable_all is_none_events
close_again tid c open_ off = elim (Bool-cases (c.channel.loop_tid == tid)) [
  | inl own ↦
      rw (own, open_, update_channel_fault tid (record c.channel { events = 0 }) off refl) refl
  | inr other ↦ rw other refl
]

exchanged-Stranded :
    (c d : Connection)
    → d.state ≡ disconnected
    → d.tasks ≡ c.tasks
    → d.channel.polling ≡ false
    → Stranded c (force_close_exchange d)
unfolding force_close_exchange destruct
exchanged-Stranded c d closed same off = rw closed (record {
  state = refl;
  tasks = same;
  ends = refl;
  closes = λ tid. close_again tid (record d { state = disconnecting }) refl off;
})

shut-Stranded :
    (tid : ℕ) (c d : Connection)
    → d.state ≡ disconnected
    → d.tasks ≡ c.tasks
    → d.channel.polling ≡ false
    → Returns (shutdown_exchange tid d) (Stranded c)
unfolding destruct
shut-Stranded tid c d closed same off = rw closed (
  record d { state = disconnecting },
  refl,
  record {
    state = refl;
    tasks = same;
    ends = refl;
    closes = λ t. close_again t (record d { state = disconnecting }) refl off;
  },
)

-- Where a thread in `forceClose` has read that an established connection is not closed, or a thread in `shutdown`
-- has passed its assertion, and the loop then closes the connection before the thread exchanges the state, the
-- connection is left as disconnecting without a new task: its destructor fails its assertion, and so does
-- every `forceCloseInLoop`.
pub handle_close-force_close_exchange :
    (c : Connection)
    → is c.state connected ≡ true
    → c.channel.polling ≡ true
    → Returns (handle_close c.channel.loop_tid c) (λ d.
      Stranded c (force_close_exchange d)
      × ((tid : ℕ) → Returns (shutdown_exchange tid d) (Stranded c)))
unfolding handle_close
handle_close-force_close_exchange c live polled =
    let (p, e, f) = disable_all-Returns c.channel polled in
    let own = (==_iff c.channel.loop_tid c.channel.loop_tid).1 refl in
    let d : Connection =
      record_effect (controlled p.1) (record c { state = disconnected; channel = p.0 }) in
    elim (Bool-cases c.has_close) [
      | inl set ↦
          let after = record_effect close_call d in
          (
            after,
            rw (own, live, e, set) refl,
            (
              exchanged-Stranded c after refl refl f.2,
              (λ tid. shut-Stranded tid c after refl refl f.2),
            ),
          )
      | inr unset ↦ (
        d,
        rw (own, live, e, unset) refl,
        (exchanged-Stranded c d refl refl f.2, (λ tid. shut-Stranded tid c d refl refl f.2)),
      )
    ]
