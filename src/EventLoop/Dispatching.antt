-- ===== src/EventLoop/Dispatching.antt =====
-- The loops over the active channels and over the tasks run what they should, in order.
use mathlib.Core.Path.{subst}
use mathlib.Core.List.{Mem, mem-cons_self, mem-cons_of_mem}
use cppweb.Base.{
  ℕ, ◌≡◌, refl, sym, ap, ◌∙◌, Bool, List, [], ◌∷◌, ◌++◌, append_assoc, append-nil, Returns, ok,
}
use cppweb.Channel.{Channel, Callback, handle_events}
use cppweb.Channel.Dispatch.{handle_events_lem}
use cppweb.EventLoop.Turn.{Run, called, ran, Turn, Users, call_all, handle_active, run_tasks}
use cppweb.EventLoop.Manners.{Chosen, Alike, calls, runs, Dispatched, IsPolite, Queues, Queues-++}

-- After the callbacks of a channel.
record Called (u : Users) (fds : List ℕ) (fd : ℕ) (ks : List Callback) (t t' : Turn) : Type 0 where
  log : t'.log ≡ t.log ++ calls fd ks
  alike : (g : ℕ) → Mem g fds → Alike (t.poll.channels g) (t'.poll.channels g)
  alive : (g : ℕ) → Mem g fds → u.alive g t' ≡ u.alive g t
  more : List ℕ
  queued : t'.pending ≡ t.pending ++ more
  queues : Queues u (calls fd ks) t t' more

Alike-trans : (a b c : Channel) → Alike a b → Alike b c → Alike a c
Alike-trans a b c h k =
    k ∙ ap (λ (x : Channel). record x { events = c.events; polling = c.polling }) h

call_all-Called :
    (u : Users) (fds : List ℕ) (fd : ℕ) (ks : List Callback) (t : Turn)
    → IsPolite u fds
    → Mem fd fds
    → Returns (call_all u fd ks t) (Called u fds fd ks t)
unfolding call_all
call_all-Called u fds fd [] t polite m = (
  t,
  refl,
  record {
    log = sym (append-nil t.log);
    alike = λ g h. refl;
    alive = λ g h. refl;
    more = [];
    queued = sym (append-nil t.pending);
    queues = (refl, refl);
  },
)
call_all-Called u fds fd (k ∷ ks) t polite m =
    let t0 : Turn = record t { log = t.log ++ (called fd k ∷ []) } in
    let (t1, e1, h) = polite.handles fd k t0 m in
    let (t2, e2, r) = call_all-Called u fds fd ks t1 polite m in
    (
      t2,
      rw e1 e2,
      record {
        log =
            r.log
            ∙ ap (λ xs. xs ++ calls fd ks) h.log
            ∙ append_assoc t.log (called fd k ∷ []) (calls fd ks);
        alike = λ g n.
            Alike-trans (t.poll.channels g) (t1.poll.channels g) (t2.poll.channels g) (h.alike g n)
              (r.alike g n);
        alive = λ g n. r.alive g n ∙ h.alive g n ∙ polite.notes g (called fd k) t;
        more = h.more ++ r.more;
        queued = r.queued ∙ ap (λ xs. xs ++ r.more) h.queued ∙ append_assoc t.pending h.more r.more;
        queues = (t1, h.more, r.more, e1, h.queued, refl, r.queues);
      },
    )

Chosen-Alike :
    (alive : Bool) (c c' : Channel) (ks : List Callback)
    → Alike c c'
    → Chosen alive c' ks
    → Chosen alive c ks
Chosen-Alike alive c c' ks same h = subst (λ (x : Channel). Chosen alive x ks) same h

-- What runs for the channels that are left does not depend on when they are looked at.
Dispatched-Alike :
    (alive alive' : ℕ → Bool) (cs cs' : ℕ → Channel) (fds : List ℕ) (log : List Run)
    → ((g : ℕ) → Mem g fds → Alike (cs g) (cs' g) × (alive' g ≡ alive g))
    → Dispatched alive' cs' fds log
    → Dispatched alive cs fds log
Dispatched-Alike alive alive' cs cs' [] log same h = h
Dispatched-Alike alive alive' cs cs' (fd ∷ fds) log same (ks, rest, e, chosen, h) =
    let own = same fd mem-cons_self in
    (
      ks,
      rest,
      e,
      Chosen-Alike (alive fd) (cs fd) (cs' fd) ks own.0
          (subst (λ a. Chosen a (cs' fd) ks) own.1 chosen),
      Dispatched-Alike alive alive' cs cs' fds rest (λ g m. same g (mem-cons_of_mem fd m)) h,
    )

abbrev pub All : (ℕ → Type 0) → List ℕ → Type 0
All P [] = Unit
All P (fd ∷ fds) = P fd × All P fds

All-map :
    (P Q : ℕ → Type 0) (fds : List ℕ) → ((g : ℕ) → Mem g fds → P g → Q g) → All P fds → All Q fds
All-map P Q [] f h = tt
All-map P Q (fd ∷ fds) f h =
    (f fd mem-cons_self h.0, All-map P Q fds (λ g m. f g (mem-cons_of_mem fd m)) h.1)

-- After the loop over the active channels.
pub record Ended (u : Users) (fds : List ℕ) (t t' : Turn) : Type 0 where
  pub log : List Run
  pub grown : t'.log ≡ t.log ++ log
  pub each : Dispatched (λ g. u.alive g t) t.poll.channels fds log
  pub more : List ℕ
  pub queued : t'.pending ≡ t.pending ++ more
  pub queues : Queues u log t t' more

pub handle_active-Ended :
    (u : Users) (tid : ℕ) (all fds : List ℕ) (t : Turn)
    → IsPolite u all
    → ((g : ℕ) → Mem g fds → Mem g all)
    → All (λ g. (t.poll.channels g).loop_tid ≡ tid) fds
    → Returns (handle_active u tid fds t) (Ended u fds t)
unfolding handle_active
handle_active-Ended u tid all [] t polite inside own = (
  t,
  refl,
  record {
    log = [];
    grown = sym (append-nil t.log);
    each = refl;
    more = [];
    queued = sym (append-nil t.pending);
    queues = (refl, refl);
  },
)
handle_active-Ended u tid all (fd ∷ fds) t polite inside own =
    let c = t.poll.channels fd in
    let (ks, chosen, h) = handle_events_lem (u.alive fd t) c in
    let here : handle_events tid (u.alive fd t) c ≡ ok ks =
      subst (λ n. handle_events n (u.alive fd t) c ≡ ok ks) own.0 chosen in
    let (t1, e1, r) = call_all-Called u all fd ks t polite (inside fd mem-cons_self) in
    let deeper = λ (g : ℕ) (m : Mem g fds). inside g (mem-cons_of_mem fd m) in
    let (t2, e2, s) = handle_active-Ended u tid all fds t1 polite deeper (
      All-map (λ g. (t.poll.channels g).loop_tid ≡ tid) (λ g. (t1.poll.channels g).loop_tid ≡ tid)
        fds (λ g m h. ap (λ (x : Channel). x.loop_tid) (r.alike g (deeper g m)) ∙ h) own.1) in
    (
      t2,
      rw (here, e1) e2,
      record {
        log = calls fd ks ++ s.log;
        grown = s.grown ∙ ap (λ xs. xs ++ s.log) r.log ∙ append_assoc t.log (calls fd ks) s.log;
        each = (
          ks,
          s.log,
          refl,
          h,
          Dispatched-Alike (λ g. u.alive g t) (λ g. u.alive g t1) t.poll.channels t1.poll.channels
              fds s.log (λ g m. (r.alike g (deeper g m), r.alive g (deeper g m))) s.each,
        );
        more = r.more ++ s.more;
        queued = s.queued ∙ ap (λ xs. xs ++ s.more) r.queued ∙ append_assoc t.pending r.more s.more;
        queues = Queues-++ u (calls fd ks) s.log t t1 t2 r.more s.more r.queues s.queues;
      },
    )

-- After the loop over the tasks.
pub record Performed (u : Users) (tasks : List ℕ) (t t' : Turn) : Type 0 where
  pub log : t'.log ≡ t.log ++ runs tasks
  pub more : List ℕ
  pub queued : t'.pending ≡ t.pending ++ more
  pub queues : Queues u (runs tasks) t t' more

pub run_tasks-Performed :
    (u : Users) (fds : List ℕ) (tasks : List ℕ) (t : Turn)
    → IsPolite u fds
    → Returns (run_tasks u tasks t) (Performed u tasks t)
unfolding run_tasks
run_tasks-Performed u fds [] t polite = (
  t,
  refl,
  record {
    log = sym (append-nil t.log);
    more = [];
    queued = sym (append-nil t.pending);
    queues = (refl, refl);
  },
)
run_tasks-Performed u fds (task ∷ tasks) t polite =
    let (t1, e1, h) = polite.performs task (record t { log = t.log ++ (ran task ∷ []) }) in
    let (t2, e2, r) = run_tasks-Performed u fds tasks t1 polite in
    (
      t2,
      rw e1 e2,
      record {
        log =
            r.log
            ∙ ap (λ xs. xs ++ runs tasks) h.log
            ∙ append_assoc t.log (ran task ∷ []) (runs tasks);
        more = h.more ++ r.more;
        queued = r.queued ∙ ap (λ xs. xs ++ r.more) h.queued ∙ append_assoc t.pending h.more r.more;
        queues = (t1, h.more, r.more, e1, h.queued, refl, r.queues);
      },
    )
