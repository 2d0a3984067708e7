-- ===== src/TcpClient/Once.antt =====
-- A client has one connection in its life, over any events of its loop.
use cppweb.TcpClient.Elapse.{elapse, run_due}
use cppweb.TcpClient.Elapsed.{Elapsed, Rest, quiet, some-ok, run_due-Elapsed, run_due-Rest}
use cppweb.TimerQueue.{Timer, TimerQueue, get_expired, arm_first, split_at_bound, handle_read}
use cppweb.TimerQueue.Lasting.{Lasts, handle_read-Lasts}
use cppweb.TimerQueue.Memory.{Live}
use cppweb.TimerQueue.Members.{Has, All-Has, split_at_bound-Split}
use cppweb.TimerQueue.Expiry.{Done}
use cppweb.TimerQueue.Reading.{Expired, handle_read-Expired, Split-CanRun}
use cppweb.Schedule.{Has-++}
use cppweb.Connector.{pending_error}
use cppweb.Base.Outcome.{After, After-bind, After-use, After_of_Returns, After-map}
use mathlib.Core.Path.{subst}
use cppweb.Base.{
  ◌+◌, none, ◌>>=◌, ap, inl, inr, ◌≡◌, some, ℕ, refl, sym, ◌∙◌, Bool, true, false, List, [], ◌∷◌,
  if◌then◌else◌, ok, ◌==◌, Returns,
}
use cppweb.Sockets.{Answer}
use cppweb.TcpClient.{Client, writeable}
use cppweb.TcpClient.Retry.{connect-Tried}
use cppweb.TcpClient.Life.{
  Event, wrote, elapsed, called, on_connection, handle, handle_all, IsClient, waits, lives, closed,
  Tried-IsClient, called-IsClient,
}

-- The events of the connector and of the timer return.
wrote-Returns :
    (set : Bool) (a : ℕ) (asked : Answer) (c : Client)
    → IsClient set a c
    → Returns (handle (wrote asked) c) (IsClient set a)
unfolding handle
wrote-Returns set a asked c (waits at t heard apart alone quiet has m here again v s) =
    let (c', e, tr) = (connect-Tried at a asked asked s v m has).0 in
    either c.connector.channel.polling (
      c',
      e,
      Tried-IsClient (pending_error asked == 0) set at a t c c' heard apart alone quiet has m here
          again tr,
    )
  where
    either :
        (b : Bool)
        → Returns (writeable c.tid asked c) (IsClient set a)
        → Returns (if b then writeable c.tid asked c else ok c) (IsClient set a)
    either true r = r
    either false r = (c, refl, waits at t heard apart alone quiet has m here again v s)
wrote-Returns set a asked c (lives conn heard on has off there callback live fresh up) =
    subst (λ b. Returns (if b then writeable c.tid asked c else ok c) (IsClient set a)) (sym off)
      (c, refl, lives conn heard on has off there callback live fresh up)
wrote-Returns set a asked c (closed heard on has off alone up) =
    subst (λ b. Returns (if b then writeable c.tid asked c else ok c) (IsClient set a)) (sym off)
      (c, refl, closed heard on has off alone up)

-- The timer's entry is in the set after `handleRead`, an interval later where it was due.
still_there :
    (now later at a : ℕ) {q q' : TimerQueue} {t : Timer}
    → Has (at, a) q.timers
    → q.heap a ≡ some t
    → t.repeat ≡ true
    → Expired now later q q'
    → (at' : ℕ) × Has (at', a) q'.timers
still_there now later at a {q} {q'} {t} m here again x =
    elim (Has-++ (at, a) x.expired x.waiting (subst (Has (at, a)) (sym x.whole) m)) [
      | inl gone ↦
          (at + t.interval, (All-Has (Done q.heap q') x.expired x.done gone).repeats t here again)
      | inr left ↦ (at, x.kept (at, a) left)
    ]

elapse-IsClient :
    (set : Bool) (a : ℕ) (k asked : Answer) (now later : ℕ) (c : Client)
    → IsClient set a c
    → After (elapse k asked now later c) (IsClient set a)
unfolding elapse get_expired handle_read
elapse-IsClient set a k asked now later c
      (waits at t heard apart alone unseen has m here again v s) =
    let r = split_at_bound (now + 1, 0) c.timers.timers in
    let may = Split-CanRun now c.timers r v (split_at_bound-Split now c.timers.timers v.sorted) in
    let c1 : Client = record c { timers = record c.timers { armed = none; timers = r.1 } } in
    let (u, there, time, active) = All-Has (Live c.timers.heap) c.timers.timers v.live m in
    let same : t ≡ u = cc in
    let (q, read, x) = handle_read-Expired quiet now later (λ b p. refl) v in
    let lasts : Lasts a q = After-use (Lasts a) _ q read (
      handle_read-Lasts quiet now later a c.timers (λ b p. refl)
        (t, here, again, ap (λ (w : Timer). w.canceled) same ∙ active)) in
    After-bind (IsClient set a) (run_due k asked now r.0 c1) _ (λ d ran.
      let h =
        After-use (Elapsed now r.0 c1) _ d ran
          (run_due-Elapsed k asked now a r.0 c1 s apart has may) in
      let agree : arm_first later d.timers ≡ q =
        some-ok (ap (λ o. o >>= (λ p. ok (arm_first later p))) (sym h.queue) ∙ read) in
      let (at', m') = still_there now later at a m here again x in
      subst (λ (d' : Client). IsClient set a (record d' { timers = arm_first later d.timers }))
        (sym h.only)
        (subst (λ p. IsClient set a (record c { timers = p; connector = d.connector })) (sym agree)
          (waits at' lasts.0 heard apart alone unseen has m' lasts.1 lasts.2 x.valid h.steady)))
elapse-IsClient set a k asked now later c
      (lives conn heard on has off there callback live fresh up) =
    let r = split_at_bound (now + 1, 0) c.timers.timers in
    let c1 : Client = record c { timers = record c.timers { armed = none; timers = r.1 } } in
    After-bind (IsClient set a) (run_due k asked now r.0 c1) _ (λ d ran.
      let same = After-use (Rest c1) _ d ran (run_due-Rest k asked now r.0 c1 has) in
      subst (λ (d' : Client). IsClient set a (record d' { timers = arm_first later d.timers }))
        (sym same) (lives conn heard on has off there callback live fresh up))
elapse-IsClient set a k asked now later c (closed heard on has off alone up) =
    let r = split_at_bound (now + 1, 0) c.timers.timers in
    let c1 : Client = record c { timers = record c.timers { armed = none; timers = r.1 } } in
    After-bind (IsClient set a) (run_due k asked now r.0 c1) _ (λ d ran.
      let same = After-use (Rest c1) _ d ran (run_due-Rest k asked now r.0 c1 has) in
      subst (λ (d' : Client). IsClient set a (record d' { timers = arm_first later d.timers }))
        (sym same) (closed heard on has off alone up))

handle-IsClient :
    (set : Bool) (a : ℕ) (e : Event) (c : Client)
    → IsClient set a c
    → After (handle e c) (IsClient set a)
unfolding handle
handle-IsClient set a (wrote asked) c h = After_of_Returns (wrote-Returns set a asked c h)
handle-IsClient set a (elapsed k asked now later) c h = elapse-IsClient set a k asked now later c h
handle-IsClient set a (called tid call) c
      (waits at t heard apart alone quiet has m here again v s) =
    subst (λ o. After (on_connection o tid call c) (IsClient set a)) (sym alone)
      (waits at t heard apart alone quiet has m here again v s)
handle-IsClient set a (called tid call) c
      (lives conn heard on has off there callback live fresh up) =
    subst (λ o. After (on_connection o tid call c) (IsClient set a)) (sym there)
      (called-IsClient set a tid call conn c heard on has off callback live fresh up)
handle-IsClient set a (called tid call) c (closed heard on has off alone up) =
    subst (λ o. After (on_connection o tid call c) (IsClient set a)) (sym alone)
      (closed heard on has off alone up)

all-IsClient :
    (set : Bool) (a : ℕ) (es : List Event) {c : Client}
    → IsClient set a c
    → After (handle_all es c) (IsClient set a)
unfolding handle_all
all-IsClient set a [] h = h
all-IsClient set a (e ∷ es) {c} h =
    After-bind (IsClient set a) (handle e c) (handle_all es) (λ d called.
      all-IsClient set a es (After-use (IsClient set a) _ d called (handle-IsClient set a e c h)))

-- Over any events of its loop that return, from a client that waits for its connection on, where the callbacks
-- of the loop's other timers leave the queue and the client alone: a client has one connection in its life. Until
-- it is connected its retry timer stays in the set, through each `handleRead` that runs it; from then on it has
-- none, its connector is not polled, and it counts itself as connected, also once the connection is closed:
-- nothing connects it again. The connection callback, where it is set, saw the connection come up once and,
-- where it was closed, go down once. The event that the connector's socket can be written always returns.
pub handle_all-IsClient :
    (set : Bool) (a : ℕ) (es : List Event) {c : Client}
    → IsClient set a c
    → After (handle_all es c) (λ d.
      IsClient set a d × ((asked : Answer) → Returns (handle (wrote asked) d) (IsClient set a)))
handle_all-IsClient set a es {c} h =
    After-map (IsClient set a) _ (handle_all es c)
      (λ d k. (k, λ asked. wrote-Returns set a asked d k)) (all-IsClient set a es h)
