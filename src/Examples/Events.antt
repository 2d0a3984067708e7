-- ===== src/Examples/Events.antt =====
-- The theorems on channels and on the kernel's interest list, at one channel.
use cppweb.EventLoop.Serving.{Served, turn-Served}
use cppweb.EventLoop.Manners.{IsPolite}
use cppweb.EventLoop.Turn.{Users, Turn, turn, wait_active}
use cppweb.Base.{
  ℕ, ◌≡◌, ◌↔◌, refl, Bool, true, false, not, ◌&&◌, ◌||◌, Option, none, some, Returns, if◌then◌else◌,
  ◌==◌, ==_iff, ==_of_ne, [], ok, ◌++◌, ◌∷◌, sym, append-nil, arith, ap, ◌∙◌,
}
use cppweb.Channel.{Channel, Callback, handle_events}
use cppweb.Channel.Dispatch.{handle_events_lem, Runs, wants, Ascending}
use cppweb.Epoller.{Poll, CtlOp, add, modify, delete, Ctl, Waited, ready}
use cppweb.Interest.{enabling_write}
use cppweb.Interest.Kernel.{Epoll, AllInStep, Answered, change_at, change_at-Answered}
use cppweb.Interest.Exclusive.{digit, IsPlain, IsExclusive}

-- A new channel of the loop of thread 7.
abbrev fresh : ℕ → Channel
fresh fd = record {
  loop_tid = 7;
  fd = fd;
  events = 0;
  revents = 0;
  tied = false;
  polling = false;
  has = λ _. false;
}

-- A channel of that loop, with all callbacks, that got EPOLLIN and EPOLLOUT.
abbrev busy : Channel
busy = record (fresh 3) { revents = 5; has = λ _. true }

handle_events_lem_example : Returns (handle_events 7 true busy) (λ ks.
    ((k : Callback) → Runs k ks ↔ (((wants busy k && true) && (not false || true)) ≡ true))
    × Ascending 0 ks)
handle_events_lem_example = handle_events_lem true busy

-- A kernel that takes no mask with EPOLLEXCLUSIVE.
abbrev is_exclusive : ℕ → Bool
is_exclusive events = digit 28 events == 1

abbrev admits : CtlOp → ℕ → Option ℕ → Bool
admits add events none = not (is_exclusive events)
admits add events (some _) = false
admits modify events none = false
admits modify events (some _) = not (is_exclusive events)
admits delete events none = false
admits delete events (some _) = true

abbrev outcome : CtlOp → ℕ → Option ℕ
outcome add events = some events
outcome modify events = some events
outcome delete events = none

abbrev table_ctl : (ℕ → Option ℕ) → Ctl → Bool × (ℕ → Option ℕ)
table_ctl s k = (
  admits k.op k.events (s k.fd),
  λ fd. if (fd == k.fd) && admits k.op k.events (s k.fd) then outcome k.op k.events else s fd,
)

plain-admitted : (events : ℕ) → IsPlain events → is_exclusive events ≡ false
plain-admitted events plain = rw plain refl

exclusive-refused : (events : ℕ) → IsExclusive events → is_exclusive events ≡ true
exclusive-refused events (high, low) = rw high refl

refused_add : (events : ℕ) (o : Option ℕ) → is_exclusive events ≡ true → admits add events o ≡ false
refused_add events none e = rw e refl
refused_add events (some m) e = refl

refused_modify :
    (events : ℕ) (o : Option ℕ) → is_exclusive events ≡ true → admits modify events o ≡ false
refused_modify events none e = refl
refused_modify events (some m) e = rw e refl

-- A call that is not admitted leaves every entry.
unchanged :
    (s : ℕ → Option ℕ) (k : Ctl) (fd : ℕ)
    → admits k.op k.events (s k.fd) ≡ false
    → ((table_ctl s k).0 ≡ false) × ((table_ctl s k).1 fd ≡ s fd)
unchanged s k fd e =
    (e, ap (λ b. if (fd == k.fd) && b then outcome k.op k.events else s fd) e ∙ kept (fd == k.fd))
  where
    kept : (b : Bool) → (if b && false then outcome k.op k.events else s fd) ≡ s fd
    kept true = refl
    kept false = refl

abbrev table : Epoll
table = record {
  Interests = ℕ → Option ℕ;
  entry = λ s fd. s fd;
  ctl = table_ctl;
  add_ok = λ s fd events plain h.
      rw (h, (==_iff fd fd).1 refl, plain-admitted events plain) (refl, refl);
  modify_ok = λ s fd events old plain was h.
      rw (h, (==_iff fd fd).1 refl, plain-admitted events plain) (refl, refl);
  delete_ok = λ s fd events old h. rw (h, (==_iff fd fd).1 refl) (refl, refl);
  add_refused = λ s fd events stop.
      unchanged s (record { op = add; fd = fd; events = events }) fd
        (refused_add events (s fd) (exclusive-refused events stop));
  modify_refused = λ s fd events stop.
      unchanged s (record { op = modify; fd = fd; events = events }) fd
        (refused_modify events (s fd) (exclusive-refused events stop));
  others = λ s k fd ne. rw (==_of_ne fd k.fd ne) refl;
}

all_fresh : AllInStep table fresh (λ _. none)
all_fresh fd = (refl, refl)

change_at-Answered_example :
    Returns
      (change_at table enabling_write 7 3 fresh (λ _. none))
      (Answered table enabling_write 3 (λ _. none))
unfolding digit
change_at-Answered_example =
    change_at-Answered table enabling_write 3 fresh (λ _. none) tt all_fresh refl

-- Room for two events, of which one comes.
abbrev idle_poll : Poll
idle_poll = record { size = 2; channels = fresh; active = [] }

-- Channels with all callbacks; each callback queues the task 9, which does nothing.
abbrev queueing : Users
queueing = record {
  handle = λ fd k t. ok (record t { pending = t.pending ++ (9 ∷ []) });
  perform = λ task t. ok t;
  alive = λ fd t. true;
}

abbrev quiet_turn : Turn
quiet_turn = record {
  poll = record idle_poll { channels = λ fd. record (fresh fd) { has = λ _. true } };
  pending = 4 ∷ [];
  log = [];
}

queueing-IsPolite : IsPolite queueing (3 ∷ [])
queueing-IsPolite = record {
  handles = λ fd k t m. (
    record t { pending = t.pending ++ (9 ∷ []) },
    refl,
    record { log = refl; alike = λ g n. refl; alive = λ g n. refl; more = 9 ∷ []; queued = refl },
  );
  performs =
      λ task t. (t, refl, record { log = refl; more = []; queued = sym (append-nil t.pending) });
  notes = λ fd r t. refl;
}

abbrev one_event : ℕ → Waited
one_event n = ready ((3, 5) ∷ [])

turn-Served_example :
    Returns
      (turn queueing one_event 7 7 quiet_turn)
      (Served queueing ((3, 5) ∷ []) quiet_turn (wait_active one_event quiet_turn))
turn-Served_example =
    turn-Served queueing one_event 7 quiet_turn (ready ((3, 5) ∷ [])) refl (tt, tt) (omega arith)
      (omega arith) (refl, tt) queueing-IsPolite
