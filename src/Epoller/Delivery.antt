-- ===== src/Epoller/Delivery.antt =====
-- `poll` hands each event that `epoll_wait` reports to its channel.
use cppweb.Base.{
  Bool, ℕ, ◌*◌, ◌<◌, ◌≤◌, ◌≡◌, ◌≢◌, inl, inr, refl, sym, ◌∙◌, true, false, List, [], ◌∷◌, ◌++◌,
  arith, length, append_assoc, append-nil, Bool-cases, ◌==◌, ==_iff, ==_of_ne, if◌then◌else◌,
}
use cppweb.Channel.{set_revents}
use cppweb.Epoller.{Poll, Waited, ready, deliver, poll}

-- An event: a descriptor and the flags that are set.
abbrev pub Event : Type 0
Event = ℕ × ℕ

abbrev pub descriptors : List Event → List ℕ
descriptors [] = []
descriptors (e ∷ es) = e.0 ∷ descriptors es

abbrev pub Each : (Event → Type 0) → List Event → Type 0
Each P [] = Unit
Each P (e ∷ es) = P e × Each P es

-- No descriptor is reported twice.
abbrev pub Once : List Event → Type 0
Once [] = Unit {0}
Once (e ∷ es) = Each (λ f. e.0 ≢ f.0) es × Once es

-- The reported channels are active, in order, and have their events; the others stay.
pub record Delivered (p p' : Poll) (events : List Event) : Type 0 where
  pub active : p'.active ≡ p.active ++ descriptors events
  pub reported : Each (λ e. p'.channels e.0 ≡ set_revents (p.channels e.0) e.1) events
  pub others : (fd : ℕ) → Each (λ e. fd ≢ e.0) events → p'.channels fd ≡ p.channels fd

-- One event.
abbrev hand : Poll → Event → Poll
hand p e = record p {
  channels = λ g. if g == e.0 then set_revents (p.channels e.0) e.1 else p.channels g;
  active = p.active ++ (e.0 ∷ []);
}

reported_after :
    (p q : Poll) (e : Event) (es : List Event)
    → Each (λ f. e.0 ≢ f.0) es
    → Each (λ f. q.channels f.0 ≡ set_revents ((hand p e).channels f.0) f.1) es
    → Each (λ f. q.channels f.0 ≡ set_revents (p.channels f.0) f.1) es
reported_after p q e [] n h = tt
reported_after p q e (f ∷ fs) n h =
    (h.0 ∙ rw (==_of_ne f.0 e.0 (λ same. n.0 (sym same))) refl, reported_after p q e fs n.1 h.1)

deliver-Delivered :
    (p : Poll) (events : List Event) → Once events → Delivered p (deliver p events) events
unfolding deliver
deliver-Delivered p [] once = record {
  active = sym (append-nil p.active);
  reported = tt;
  others = λ fd n. refl;
}
deliver-Delivered p (e ∷ es) once =
    let d = deliver-Delivered (hand p e) es once.1 in
    record {
      active = d.active ∙ append_assoc p.active (e.0 ∷ []) (descriptors es);
      reported = (
        d.others e.0 once.0 ∙ rw ((==_iff e.0 e.0).1 refl) refl,
        reported_after p (deliver p (e ∷ es)) e es once.0 d.reported,
      );
      others = λ fd n. d.others fd n.1 ∙ rw (==_of_ne fd e.0 n.0) refl;
    }

deliver_size : (p : Poll) (events : List Event) → (deliver p events).size ≡ p.size
unfolding deliver
deliver_size p [] = refl
deliver_size p (e ∷ es) = deliver_size (hand p e) es

poll_ready :
    (wait : ℕ → Waited) (p : Poll) (events : List Event)
    → wait p.size ≡ ready events
    → poll wait p ≡ (
        if length events == p.size
        then record (deliver p events) { size = 2 * p.size }
        else deliver p events)
unfolding poll
poll_ready wait p events came = rw (came, poll) refl

-- Where `epoll_wait` reports events, no descriptor twice and at most as many as asked for, `poll` makes
-- exactly their channels active, in order, stores in each its events, and leaves the other channels
-- alone. The next call asks for more events than came.
pub poll-Delivered :
    (wait : ℕ → Waited) (p : Poll) (events : List Event)
    → wait p.size ≡ ready events
    → Once events
    → length events ≤ p.size
    → 0 < p.size
    → Delivered p (poll wait p) events × (length events < (poll wait p).size)
poll-Delivered wait p events came once few some_size =
    let d = deliver-Delivered p events once in
    let kept = deliver_size p events in
    elim (Bool-cases (length events == p.size)) [
      | inl full ↦
          let e : poll wait p ≡ record (deliver p events) { size = 2 * p.size } =
            poll_ready wait p events came ∙ rw full refl in
          rw e (
            record { active = d.active; reported = d.reported; others = d.others },
            omega (arith, (==_iff _ _).0 full),
          )
      | inr partial ↦
          let e : poll wait p ≡ deliver p events =
            poll_ready wait p events came ∙ rw partial refl in
          let other : length events ≢ p.size = λ same. clash ((==_iff _ _).1 same) partial in
          rw e (d, omega (arith, kept, few, other))
    ]
  where
    clash : {b : Bool} → b ≡ true → b ≡ false → ⊥
    clash x y = cc
