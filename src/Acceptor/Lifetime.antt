-- ===== src/Acceptor/Lifetime.antt =====
-- An acceptor from its constructor to its destructor.
use mathlib.Core.Path.{subst}
use cppweb.Base.{◌∙◌, ℕ, ◌≡◌, refl, true, false, Returns, ok, fault, assertion, ◌>>=◌, ==_iff, ◌==◌}
use cppweb.Channel
use cppweb.Channel.{is_reading, is_none_events, set_callback}
use cppweb.Interest.{enable_read, disable_all}
use cppweb.Interest.Masks.{update_channel_fault}
use cppweb.Interest.Returns.{enable_read-Returns, disable_all-Returns}
use cppweb.Sockets.{given, create_socket}
use cppweb.Acceptor.{Acceptor, make, listen, destroy}

-- A new acceptor of the loop of thread `tid`, on the descriptor `fd`.
pub record Fresh (tid fd : ℕ) (a : Acceptor) : Type 0 where
  pub accept_fd : a.accept_fd ≡ fd
  pub own_fd : a.channel.fd ≡ fd
  pub loop_tid : a.channel.loop_tid ≡ tid
  pub idle : is_none_events a.channel ≡ true
  pub unpolled : a.channel.polling ≡ false

pub make-Fresh :
    (tid fd m n k : ℕ) → Returns (make tid (given fd) (given m) (given n) (given k)) (Fresh tid fd)
unfolding make create_socket cppweb.Channel.make set_callback is_none_events
make-Fresh tid fd m n k = (
  _,
  refl,
  record { accept_fd = refl; own_fd = refl; loop_tid = refl; idle = refl; unpolled = refl },
)

-- `listen` on a new acceptor makes the loop wait to read.
pub listen-Returns :
    (n : ℕ) (tid fd : ℕ) {a : Acceptor}
    → Fresh tid fd a
    → Returns (listen tid (given n) a) (λ p.
      (is_reading p.0.channel ≡ true)
      × (p.0.channel.polling ≡ true)
      × (p.0.channel.loop_tid ≡ tid)
      × (p.0.closed ≡ a.closed))
unfolding listen
listen-Returns n tid fd {a} f =
    let own : (a.channel.loop_tid == tid) ≡ true = (==_iff a.channel.loop_tid tid).1 f.loop_tid in
    let (p, e, flags) = enable_read-Returns a.channel in
    let enabled : enable_read tid a.channel ≡ ok p =
      subst (λ t. enable_read t a.channel ≡ ok p) f.loop_tid e in
    (
      (record a { channel = p.0 }, p.1),
      rw (own, enabled) refl,
      (flags.reads, flags.polled, flags.loop_tid ∙ f.loop_tid, refl),
    )

-- An acceptor that listens, in its loop's thread, can be destroyed there.
listen-destroy :
    (tid fd m n k l : ℕ)
    → Returns
        (make tid (given fd) (given m) (given n) (given k)
          >>= (λ a. listen tid (given l) a >>= (λ p. destroy tid p.0)))
        (λ p. (p.0.closed ≡ true) × (p.0.channel.polling ≡ false))
unfolding destroy
listen-destroy tid fd m n k l =
    let (a, made, f) = make-Fresh tid fd m n k in
    let (p, listened, w) = listen-Returns l tid fd f in
    let (r, e, off) = disable_all-Returns p.0.channel w.1 in
    let disabled : disable_all tid p.0.channel ≡ ok r =
      subst (λ t. disable_all t p.0.channel ≡ ok r) w.2 e in
    (
      (record p.0 { channel = r.0; closed = true }, r.1),
      rw (made, listened, disabled) refl,
      (refl, off.2),
    )

-- An acceptor that has listened can be destroyed in its loop's thread: no assertion fails, and the loop does
-- not poll the descriptor when it is closed. One that never listened cannot be destroyed: the destructor's
-- `disableAll` fails the assertion of the poller, in whichever thread it runs.
pub make-destroy :
    (tid fd m n k l t : ℕ)
    → Returns
        (make tid (given fd) (given m) (given n) (given k)
          >>= (λ a. listen tid (given l) a >>= (λ p. destroy tid p.0)))
        (λ p. (p.0.closed ≡ true) × (p.0.channel.polling ≡ false))
      × ((make tid (given fd) (given m) (given n) (given k) >>= destroy t) ≡ fault assertion)
unfolding destroy disable_all is_none_events
make-destroy tid fd m n k l t =
    let (a, made, f) = make-Fresh tid fd m n k in
    (
      listen-destroy tid fd m n k l,
      rw (made, update_channel_fault t (record a.channel { events = 0 }) f.unpolled refl) refl,
    )
