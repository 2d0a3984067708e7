-- ===== src/Connection/Flow.antt =====
-- `handleWrite` as a step of the byte stream, and what it leaves when all output is written.
use mathlib.Core.Path.{subst}
use cppweb.Base.{
  drop_of_ge, ℕ, ◌≤◌, ◌≡◌, ◌≢◌, inl, inr, refl, sym, ap, ◌∙◌, true, false, List, [], ◌∷◌, ◌++◌,
  append_assoc, append-nil, arith, length, take, drop, Returns, ok, fault, assertion, Bool-cases,
  take-append-drop, ◌==◌,
}
use cppweb.Buffer.{retrieve, Buffer}
use cppweb.Buffer.Valid.{Holds, readable-Holds}
use cppweb.Buffer.Retrieve.{retrieve-Holds}
use cppweb.Channel.{is_writing}
use cppweb.Connection.{
  Connection, disconnected, is, written, Written, accepted, refused, handle_write, after_drain,
}
use cppweb.Connection.Stream.{taken, taken-append, Waiting, IsWrite}
use cppweb.Connection.Drain.{
  shutdowns, shutdowns-append, Drained, output_done-Drained, handle_write-step, handle_write_fault,
}

-- What `handleWrite` leaves: the same stream and state, and a channel that still waits to write.
pub record Flowed (c : Connection) (xs : List ℕ) (c' : Connection) (xs' : List ℕ) : Type 0 where
  pub waiting : Waiting c' xs'
  pub stream : taken c'.log ++ xs' ≡ taken c.log ++ xs
  pub state : c'.state ≡ c.state
  pub writing : is_writing c'.channel ≡ true
  pub no_shutdown : shutdowns c'.log ≡ shutdowns c.log

Drained-Flowed :
    {c c1 d : Connection} {xs xs' : List ℕ} → Flowed c xs c1 xs' → Drained c1 d → Flowed c xs d xs'
Drained-Flowed {xs' = xs'} f d = record {
  waiting = record {
    output = subst (λ (b : Buffer). Holds b xs') (sym d.output) f.waiting.output;
    watched = λ _. d.writing;
  };
  stream = ap (λ zs. zs ++ xs') d.stream ∙ f.stream;
  state = d.state ∙ f.state;
  writing = d.writing;
  no_shutdown = d.no_shutdown ∙ f.no_shutdown;
}

accepted_injective : {m n : ℕ} → accepted m ≡ accepted n → m ≡ n
accepted_injective e = cc

after_drain-Flowed :
    (r : Written) {c : Connection} {xs : List ℕ}
    → Waiting c xs
    → is_writing c.channel ≡ true
    → ((n : ℕ) → r ≡ accepted n → n ≤ length xs)
    → Returns
        (after_drain c.channel.loop_tid xs r c)
        (λ c'. (xs' : List ℕ) × Flowed c xs c' xs' × ((r ≡ accepted (length xs)) → xs' ≡ []))
unfolding after_drain
after_drain-Flowed (refused errno) {c} {xs} w busy law = (
  c,
  refl,
  (
    xs,
    record { waiting = w; stream = refl; state = refl; writing = busy; no_shutdown = refl },
    λ e. cc,
  ),
)
after_drain-Flowed (accepted n) {c} {xs} w busy law = elim (Bool-cases (length (drop n xs) == 0)) [
  | inr more ↦ (c1, rw (took.1, readable-Holds took.2, more) refl, (drop n xs, flowed, all_taken))
  | inl none_left ↦
      let (d, e, drained) = output_done-Drained c1 busy in
      (
        d,
        rw (took.1, readable-Holds took.2, none_left) e,
        (drop n xs, Drained-Flowed flowed drained, all_taken),
      )
]
  where
    took : (o : Buffer) × (retrieve c.output n ≡ ok o) × Holds o (drop n xs)
    took = retrieve-Holds n w.output (law n refl)

    c1 : Connection
    c1 = record c { output = took.0; log = c.log ++ (written (take n xs) ∷ []) }

    flowed : Flowed c xs c1 (drop n xs)
    flowed = record {
      waiting = record { output = took.2; watched = λ _. busy };
      stream =
          ap (λ zs. zs ++ drop n xs) (taken-append c.log (written (take n xs)))
          ∙ append_assoc (taken c.log) (take n xs ++ []) (drop n xs)
          ∙ ap (λ zs. taken c.log ++ (zs ++ drop n xs)) (append-nil (take n xs))
          ∙ ap (λ zs. taken c.log ++ zs) (take-append-drop n xs);
      state = refl;
      writing = busy;
      no_shutdown = omega (arith, shutdowns-append c.log (written (take n xs)));
    }

    all_taken : accepted n ≡ accepted (length xs) → drop n xs ≡ []
    all_taken e = drop_of_ge n xs (omega (arith, accepted_injective e))

handle_write_flows :
    (write : List ℕ → Written) {c : Connection} {xs : List ℕ}
    → IsWrite write
    → Waiting c xs
    → is c.state disconnected ≡ false
    → xs ≢ []
    → Returns
        (handle_write write c.channel.loop_tid c)
        (λ c'. (xs' : List ℕ) × Flowed c xs c' xs' × (write xs ≡ accepted (length xs) → xs' ≡ []))
handle_write_flows write {c} {xs} law w live some_left =
    rw (handle_write-step write w live some_left)
      (after_drain-Flowed (write xs) w (w.watched some_left) (law xs))

-- In the loop's thread, on a connection that is not closed and has output, with a kernel that
-- takes at most what it is given, `handleWrite` returns. The bytes taken, followed by those that
-- wait, stay the same in the same order, the state stays, and there is no call of `shutdown(2)`.
-- The channel waits to write, whether or not output is left.
pub handle_write-Flowed :
    (write : List ℕ → Written) {c : Connection} {xs : List ℕ}
    → IsWrite write
    → Waiting c xs
    → is c.state disconnected ≡ false
    → xs ≢ []
    → Returns (handle_write write c.channel.loop_tid c) (λ c'. (xs' : List ℕ) × Flowed c xs c' xs')
handle_write-Flowed write law w live some_left =
    let (d, e, out) = handle_write_flows write law w live some_left in (d, e, (out.0, out.1))

-- On a connection that is not closed and has output, when the kernel takes all of it,
-- `handleWrite` leaves the channel waiting to write. It makes no call of `shutdown(2)`, also where
-- `shutdown()` asked for one before, and the next `handleWrite` fails its assertion, whatever the
-- kernel answers.
pub handle_write-drained :
    (write : List ℕ → Written) {c : Connection} {xs : List ℕ}
    → IsWrite write
    → Waiting c xs
    → is c.state disconnected ≡ false
    → xs ≢ []
    → write xs ≡ accepted (length xs)
    → Returns (handle_write write c.channel.loop_tid c) (λ c'.
      (is_writing c'.channel ≡ true)
      × (shutdowns c'.log ≡ shutdowns c.log)
      × (c'.state ≡ c.state)
      × ((write' : List ℕ → Written) (tid : ℕ) → handle_write write' tid c' ≡ fault assertion))
handle_write-drained write {c} law w live some_left all =
    let (d, e, out) = handle_write_flows write law w live some_left in
    let f = out.1 in
    (
      d,
      e,
      (
        f.writing,
        f.no_shutdown,
        f.state,
        λ write' tid.
            handle_write_fault write' f.waiting tid (ap (λ s. is s disconnected) f.state ∙ live)
              (out.2 all),
      ),
    )
