-- ===== src/Interest/Kernel.antt =====
-- The interest list of epoll, as epoll_ctl(2) documents it, and its agreement with the channels.
use cppweb.Interest.Masks.{update_channel-Updated}
use cppweb.Channel.{Channel, is_none_events}
use cppweb.Interest.{
  Change, enable_read, enable_write, disable_read, disable_write, disable_all, enabling_read,
  enabling_write, disabling_read, disabling_write, disabling_all, change,
}
use cppweb.Interest.Returns.{Allowed, change-Returns}
use cppweb.Interest.Exclusive.{
  digit, IsPlain, IsExclusive, or-IsPlain, or-IsExclusive, enabling-IsPlain, stopping-IsExclusive,
  exclusive-some,
}
use cppweb.Base.{
  ap, not, sym, ◌∙◌, inl, inr, Bool-cases, ==_iff, refl, ℕ, ◌≡◌, ◌≢◌, Bool, true, false, Option,
  none, some, if◌then◌else◌, ◌==◌, ok, arith, Result, Returns, ◌>>=◌,
}
use cppweb.Epoller.{add, modify, delete, Ctl, update_channel, ctl_of}

-- The kernel: `entry` is the mask with which a descriptor is watched. A call returns whether it
-- succeeds, with the new list. Where no mask has the flag EPOLLEXCLUSIVE, an `add` succeeds for a descriptor
-- that is not watched, the other two for one that is. A `modify` to a mask with that flag fails, and so does an
-- `add` with the flag and EPOLLPRI, and a call that fails changes nothing. A call leaves the other descriptors
-- alone.
pub record Epoll : Type 1 where
  pub Interests : Type 0
  pub entry : Interests → ℕ → Option ℕ
  pub ctl : Interests → Ctl → Bool × Interests
  pub add_ok :
      (s : Interests) (fd events : ℕ)
      → IsPlain events
      → entry s fd ≡ none
      → let r = ctl s (record { op = add; fd = fd; events = events }) in
        (r.0 ≡ true) × (entry r.1 fd ≡ some events)
  pub modify_ok :
      (s : Interests) (fd events old : ℕ)
      → IsPlain events
      → IsPlain old
      → entry s fd ≡ some old
      → let r = ctl s (record { op = modify; fd = fd; events = events }) in
        (r.0 ≡ true) × (entry r.1 fd ≡ some events)
  pub delete_ok :
      (s : Interests) (fd events old : ℕ)
      → entry s fd ≡ some old
      → let r = ctl s (record { op = delete; fd = fd; events = events }) in
        (r.0 ≡ true) × (entry r.1 fd ≡ none)
  pub add_refused :
      (s : Interests) (fd events : ℕ)
      → IsExclusive events
      → let r = ctl s (record { op = add; fd = fd; events = events }) in
        (r.0 ≡ false) × (entry r.1 fd ≡ entry s fd)
  pub modify_refused :
      (s : Interests) (fd events : ℕ)
      → IsExclusive events
      → let r = ctl s (record { op = modify; fd = fd; events = events }) in
        (r.0 ≡ false) × (entry r.1 fd ≡ entry s fd)
  pub others : (s : Interests) (k : Ctl) (fd : ℕ) → fd ≢ k.fd → entry (ctl s k).1 fd ≡ entry s fd

-- The kernel watches a channel exactly while the channel says so, for the events it waits for.
abbrev pub InStep : (K : Epoll) → K.Interests → Channel → Type 0
InStep K s c = K.entry s c.fd ≡ (if c.polling then some c.events else none)

module _ (K : Epoll) where
  open K use {
    Interests, entry, ctl, add_ok, modify_ok, delete_ok, add_refused, modify_refused, others,
  }

  -- Whatever `events` became, if it has no EPOLLEXCLUSIVE, the call that `updateChannel` makes succeeds, and
  -- brings the kernel back in step.
  update_channel-InStep :
      (tid : ℕ) (s : Interests) (c : Channel) (old : ℕ) {c' : Channel} {k : Ctl}
      → IsPlain old
      → IsPlain c.events
      → entry s c.fd ≡ (if c.polling then some old else none)
      → update_channel tid c ≡ ok (c', k)
      → ((ctl s k).0 ≡ true) × InStep K (ctl s k).1 c' × (k.fd ≡ c.fd)
  unfolding update_channel ctl_of
  update_channel-InStep tid s c old plain plain' before e = ground (
    arith,
    add_ok s c.fd c.events plain',
    modify_ok s c.fd c.events old plain' plain,
    delete_ok s c.fd c.events old,
  )

  -- With EPOLLEXCLUSIVE and EPOLLPRI it fails, and the list stays.
  update_channel-refused :
      (tid : ℕ) (s : Interests) (c : Channel) {c' : Channel} {k : Ctl}
      → IsExclusive c.events
      → update_channel tid c ≡ ok (c', k)
      → ((ctl s k).0 ≡ false) × (entry (ctl s k).1 c.fd ≡ entry s c.fd) × (k.fd ≡ c.fd)
  unfolding update_channel ctl_of is_none_events
  update_channel-refused tid s c stop e = ground (
    arith,
    exclusive-some c.events stop,
    add_refused s c.fd c.events stop,
    modify_refused s c.fd c.events stop,
  )

  -- A loop with its channels and the kernel's list: each channel stands under its descriptor, and
  -- the kernel is in step with all of them.
  abbrev pub AllInStep : (ℕ → Channel) → Interests → Type 0
  AllInStep cs s = (fd : ℕ) → ((cs fd).fd ≡ fd) × InStep K s (cs fd)

  -- One call on the channel of a descriptor, with what the kernel answers.
  pub change_at :
      Change → ℕ → ℕ → (ℕ → Channel) → Interests → Result (Bool × (ℕ → Channel) × Interests)
  change_at kind tid fd cs s = do
    p ← change kind tid (cs fd)
    let r = ctl s p.1
    ok (r.0, (λ g. if g == fd then p.0 else cs g), r.1)

  -- The kernel accepts the call and is in step with every channel again, and no EPOLLEXCLUSIVE is set.
  abbrev Accepted : ℕ → Bool × (ℕ → Channel) × Interests → Type 0
  Accepted fd r = (r.0 ≡ true) × AllInStep r.1 r.2 × IsPlain (r.1 fd).events

  -- The kernel refuses the call and watches as before, and so is not in step with the channel any more.
  abbrev Refused : ℕ → Interests → Bool × (ℕ → Channel) × Interests → Type 0
  Refused fd s r = (r.0 ≡ false) × ((g : ℕ) → entry r.2 g ≡ entry s g) × (¬ InStep K r.2 (r.1 fd))

  abbrev pub Answered : Change → ℕ → Interests → Bool × (ℕ → Channel) × Interests → Type 0
  Answered enabling_read fd s r = Accepted fd r
  Answered enabling_write fd s r = Accepted fd r
  Answered disabling_read fd s r = Refused fd s r
  Answered disabling_write fd s r = Refused fd s r
  Answered disabling_all fd s r = Accepted fd r

  at_each :
      (fd : ℕ) (cs : ℕ → Channel) (s : Interests) (p : Channel × Ctl)
      → AllInStep cs s
      → InStep K (ctl s p.1).1 p.0
      → p.1.fd ≡ fd
      → p.0.fd ≡ fd
      → AllInStep (λ g. if g == fd then p.0 else cs g) (ctl s p.1).1
  at_each fd cs s p h now target own g = elim (Bool-cases (g == fd)) [
    | inl same ↦ rw same (own ∙ sym ((==_iff g fd).0 same), now)
    | inr other ↦ rw other ((h g).0, others s p.1 (cs g).fd (ground (arith, h g)) ∙ (h g).1)
  ]

  -- After a call that sets the mask `events`, without EPOLLEXCLUSIVE.
  sets_plain :
      (fd events : ℕ) (cs : ℕ → Channel) (s : Interests) (p : Channel × Ctl)
      → AllInStep cs s
      → IsPlain (cs fd).events
      → IsPlain events
      → update_channel (cs fd).loop_tid (record (cs fd) { events = events }) ≡ ok p
      → Accepted fd ((ctl s p.1).0, (λ g. if g == fd then p.0 else cs g), (ctl s p.1).1)
  sets_plain fd events cs s p h plain plain' e =
      let c : Channel = record (cs fd) { events = events } in
      let u = update_channel-Updated c.loop_tid c e in
      let r = update_channel-InStep c.loop_tid s c (cs fd).events plain plain' (h fd).1 e in
      (
        r.0,
        at_each fd cs s p h r.1 (r.2 ∙ (h fd).0) (u.fd ∙ (h fd).0),
        rw ((==_iff fd fd).1 refl) (ap (digit 28) u.events ∙ plain'),
      )

  -- After one that sets a mask with EPOLLEXCLUSIVE and EPOLLPRI.
  sets_exclusive :
      (fd events : ℕ) (cs : ℕ → Channel) (s : Interests) (p : Channel × Ctl)
      → AllInStep cs s
      → IsPlain (cs fd).events
      → IsExclusive events
      → update_channel (cs fd).loop_tid (record (cs fd) { events = events }) ≡ ok p
      → Refused fd s ((ctl s p.1).0, (λ g. if g == fd then p.0 else cs g), (ctl s p.1).1)
  unfolding is_none_events
  sets_exclusive fd events cs s p h plain stop e =
      let c : Channel = record (cs fd) { events = events } in
      let u = update_channel-Updated c.loop_tid c e in
      let r = update_channel-refused c.loop_tid s c stop e in
      let now = ap (entry (ctl s p.1).1) (sym (h fd).0) ∙ r.1 ∙ ap (entry s) (h fd).0 in
      (
        r.0,
        (λ g. elim (Bool-cases (g == fd)) [
          | inl same ↦
              let e : g ≡ fd = (==_iff g fd).0 same in
              ap (entry (ctl s p.1).1) e ∙ now ∙ ap (entry s) (sym e)
          | inr other ↦ others s p.1 g (λ e. ground (arith, r.2, h fd))
        ]),
        rw ((==_iff fd fd).1 refl) (λ agree.
            let watched = u.polling ∙ ap not (exclusive-some events stop) in
            apart (cs fd).polling (cs fd).events events plain stop.0 (
              sym (h fd).1
              ∙ sym r.1
              ∙ ap (entry (ctl s p.1).1) (sym u.fd)
              ∙ agree
              ∙ ap (λ b. if b then some p.0.events else none) watched
              ∙ ap some u.events)),
      )
    where
      apart :
          (b : Bool) (old new : ℕ)
          → IsPlain old
          → digit 28 new ≡ 1
          → (if b then some old else none) ≡ some new
          → ⊥
      apart true old new low high e =
          let same : old ≡ new = cc in
          let clash : ◌≡◌ {A = ℕ} 0 1 = sym low ∙ ap (digit 28) same ∙ high in cc
      apart false old new low high e = cc

  -- Where every channel stands under its descriptor, the kernel is in step with all of them, and the mask of
  -- the channel has no EPOLLEXCLUSIVE: each of the five calls that is allowed returns in the loop's thread. The
  -- kernel accepts the `epoll_ctl` of `enableRead`, `enableWrite` and `disableAll`, and is in step with every
  -- channel again, whose mask stays without the flag. It refuses the one of `disableRead` and of
  -- `disableWrite`, which set the flag: it watches all descriptors as before, and is not in step with this
  -- channel any more. All calls are allowed but a `disableAll` of a channel that is not polled.
  pub change_at-Answered :
      (kind : Change) (fd : ℕ) (cs : ℕ → Channel) (s : Interests)
      → Allowed kind (cs fd)
      → AllInStep cs s
      → IsPlain (cs fd).events
      → Returns (change_at kind (cs fd).loop_tid fd cs s) (Answered kind fd s)
  unfolding change_at change enable_read enable_write disable_read disable_write disable_all
  change_at-Answered kind fd cs s allowed h plain =
      let (p, e) = change-Returns kind (cs fd) allowed in
      (
        ((ctl s p.1).0, (λ g. if g == fd then p.0 else cs g), (ctl s p.1).1),
        rw e refl,
        answer kind p e,
      )
    where
      answer :
          (kind : Change) (p : Channel × Ctl)
          → change kind (cs fd).loop_tid (cs fd) ≡ ok p
          → Answered kind fd s ((ctl s p.1).0, (λ g. if g == fd then p.0 else cs g), (ctl s p.1).1)
      answer enabling_read p e =
          sets_plain fd _ cs s p h plain (or-IsPlain (cs fd).events 3 plain enabling-IsPlain.0) e
      answer enabling_write p e =
          sets_plain fd _ cs s p h plain (or-IsPlain (cs fd).events 4 plain enabling-IsPlain.1) e
      answer disabling_read p e =
          sets_exclusive fd _ cs s p h plain
            (or-IsExclusive (cs fd).events _ stopping-IsExclusive.0) e
      answer disabling_write p e =
          sets_exclusive fd _ cs s p h plain
            (or-IsExclusive (cs fd).events _ stopping-IsExclusive.1) e
      answer disabling_all p e = sets_plain fd 0 cs s p h plain enabling-IsPlain.2 e
